-- ===== src/Bulk/Outcomes.antt =====
-- What a bulk download and a bulk deletion leave.
use light_oss.Base.{
  ◌+◌, ◌≡◌, refl, sym, ap, ◌∙◌, Bool, true, false, not, List, [], ◌∷◌, ◌++◌, ◌==◌, is_empty, keep,
  length, arith, ==_iff, Bool-cases, inl, inr,
}
use light_oss.Base.Text.{Text, text_key}
use light_oss.Base.JsSet.{has, has-set_of}
use light_oss.Api.Types.{
  ExplorerEntry, DeleteExplorerEntriesBatchFailedItem, DeleteExplorerEntriesBatchResult,
}
use light_oss.Bulk.{
  Selection, selected_entries, bulk_actions_pending, Counts, counted, no_counts, download_each,
  download_toast, handle_bulk_download, failed_paths, bulk_delete_answered,
}

download_each-counts :
    (succeeds : ExplorerEntry → Bool) (entries : List ExplorerEntry) (n : Counts)
    → ((download_each succeeds entries n).success_count
        ≡ n.success_count + length (keep succeeds entries))
      × ((download_each succeeds entries n).failed_count
          ≡ n.failed_count + length (keep (λ entry. not (succeeds entry)) entries))
download_each-counts succeeds [] n = (omega arith, omega arith)
download_each-counts succeeds (entry ∷ entries) n = elim (Bool-cases (succeeds entry)) [
  | inl done ↦
      let (s, f) = download_each-counts succeeds entries (counted true n) in
      let step = ap (λ b. download_each succeeds entries (counted b n)) done in
      (
        ap (λ c. c.success_count) step ∙ s ∙ rw done (omega arith),
        ap (λ c. c.failed_count) step ∙ f ∙ rw done refl,
      )
  | inr bad ↦
      let (s, f) = download_each-counts succeeds entries (counted false n) in
      let step = ap (λ b. download_each succeeds entries (counted b n)) bad in
      (
        ap (λ c. c.success_count) step ∙ s ∙ rw bad refl,
        ap (λ c. c.failed_count) step ∙ f ∙ rw bad (omega arith),
      )
]

-- With a selection and no bulk action pending, a bulk download starts the download of each
-- selected entry of the page in order, shows one message with the number of those that succeed
-- and of those that fail, and keeps the selection.
handle_bulk_download_lem :
    (succeeds : ExplorerEntry → Bool) (entries : List ExplorerEntry) (s : Selection)
    → is_empty (selected_entries entries s) ≡ false
    → bulk_actions_pending s ≡ false
    → ((handle_bulk_download succeeds entries s).downloads
        ≡ s.downloads ++ selected_entries entries s)
      × ((handle_bulk_download succeeds entries s).toasts
          ≡ s.toasts
            ++ download_toast (record {
              success_count = length (keep succeeds (selected_entries entries s));
              failed_count =
                  length (keep (λ entry. not (succeeds entry)) (selected_entries entries s));
            })
              ∷ [])
      × ((handle_bulk_download succeeds entries s).selected_paths ≡ s.selected_paths)
unfolding handle_bulk_download
handle_bulk_download_lem succeeds entries s some_selected idle =
    let (ok, missed) = download_each-counts succeeds (selected_entries entries s) no_counts in
    let done = length (keep succeeds (selected_entries entries s)) in
    let bad = length (keep (λ entry. not (succeeds entry)) (selected_entries entries s)) in
    let from_done : 0 + done ≡ done = omega arith in
    let from_bad : 0 + bad ≡ bad = omega arith in
    let same : download_each succeeds (selected_entries entries s) no_counts
        ≡ record { success_count = done; failed_count = bad } =
      λ i. record { success_count = (ok ∙ from_done) i; failed_count = (missed ∙ from_bad) i } in
    rw some_selected (rw idle (refl, ap (λ n. s.toasts ++ download_toast n ∷ []) same, refl))

failed_nil :
    (items : List DeleteExplorerEntriesBatchFailedItem) → length items ≡ 0 → failed_paths items ≡ []
failed_nil [] h = refl
failed_nil (item ∷ items) h = absurd (omega (arith, h))

-- Where the failed count of the answer is the number of its failed items, a path is selected
-- after a bulk deletion exactly when it failed, and no deletion is pending.
bulk_delete_answered_lem :
    (result : DeleteExplorerEntriesBatchResult) (s : Selection) (path : Text)
    → result.failed_count ≡ length result.failed_items
    → (has path (bulk_delete_answered result s).selected_paths
        ≡ has path (failed_paths result.failed_items))
      × (bulk_actions_pending (bulk_delete_answered result s) ≡ s.bulk_download_pending)
unfolding bulk_delete_answered
bulk_delete_answered_lem result s path whole = elim (Bool-cases (result.failed_count == 0)) [
  | inl clean ↦
      let zero_failed : result.failed_count ≡ 0 = (==_iff result.failed_count 0).0 clean in
      (rw clean (rw (failed_nil result.failed_items (sym whole ∙ zero_failed)) refl), ground arith)
  | inr partial ↦ (rw partial (has-set_of path (failed_paths result.failed_items)), ground arith)
]
