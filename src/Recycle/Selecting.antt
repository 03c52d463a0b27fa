-- ===== src/Recycle/Selecting.antt =====
-- The selection, the pages and the opening of the recycle bin.
use light_oss.Base.{
  number_key, ℕ, ◌≤◌, ◌≡◌, ◌≢◌, refl, ap, ◌∙◌, Bool, true, false, not, ◌&&◌, some, List, [], ◌∷◌,
  ◌++◌, ltb, arith, last_of-append, drop_last-append, is_empty, keep, length,
}
use light_oss.Base.Text.{Text}
use light_oss.Base.JsSet.{has, set_of, has-set_of, has-keep, same_refl}
use light_oss.Api.Types.{RecycleBinObjectItem, RecycleBinObjectListResult}
use light_oss.Recycle.{
  checked, Dialog, ids_of_items, handle_open_change, prune_selection, selected_items, all_selected,
  partially_selected, handle_select_all, handle_next_page, handle_prev_page,
}

snoc_empty : (hs : List Text) (x : Text) → is_empty (hs ++ x ∷ []) ≡ false
snoc_empty [] x = refl
snoc_empty (h ∷ hs) x = refl

-- Where the page has a next cursor, the next page followed by the previous page gives the whole
-- dialog back.
pub prev-next_page :
    (page : RecycleBinObjectListResult) (d : Dialog)
    → page.next_cursor ≢ []
    → handle_prev_page (handle_next_page (some page) d) ≡ d
unfolding handle_next_page handle_prev_page
prev-next_page page d h =
    let more : is_empty page.next_cursor ≡ false = empty_of_ne page.next_cursor h in
    rw more (
      rw (snoc_empty d.cursor_history d.cursor) (
        rw (last_of-append d.cursor_history d.cursor)
          (rw (drop_last-append d.cursor_history d.cursor))))
  where
    empty_of_ne : (s : Text) → s ≢ [] → is_empty s ≡ false
    empty_of_ne [] k = absurd (k refl)
    empty_of_ne (c ∷ s) k = refl

-- A dialog that is closed and opened again has forgotten everything: where it was, what was
-- selected, and what waited for a confirmation.
pub reopened_lem :
    (d d' : Dialog)
    → handle_open_change true (handle_open_change false d)
      ≡ handle_open_change true (handle_open_change false d')
unfolding handle_open_change
reopened_lem d d' = refl

-- Pruning the selection leaves the selected items of the page as they are, and keeps exactly the
-- selected ids that stand on the page.
pub selected_items-prune :
    (items : List RecycleBinObjectItem) (d : Dialog)
    → (selected_items items (prune_selection items d) ≡ selected_items items d)
      × ((j : ℕ)
          → has j (prune_selection items d).selected_ids
            ≡ (has j d.selected_ids && has j (ids_of_items items)))
unfolding selected_items prune_selection
selected_items-prune items d = (
  kept items d.selected_ids (ids_of_items items) (λ j h. h),
  λ j.
      has-keep (λ id. has id (set_of (ids_of_items items))) j d.selected_ids
      ∙ ap (λ b. has j d.selected_ids && b) (has-set_of j (ids_of_items items)),
)
  where
    kept :
        (xs : List RecycleBinObjectItem) (ids visible : List ℕ)
        → ((j : ℕ) → has j (ids_of_items xs) ≡ true → has j visible ≡ true)
        → keep (λ item. has item.id (keep (λ id. has id (set_of visible)) ids)) xs
          ≡ keep (λ item. has item.id ids) xs
    kept [] ids visible h = refl
    kept (x ∷ xs) ids visible h =
        let seen : has x.id visible ≡ true = h x.id (ground (arith, same_refl {A = ℕ} x.id)) in
        let rest = kept xs ids visible (λ j k. h j (ground arith)) in
        ground
          (arith, rest, has-keep (λ id. has id (set_of visible)) x.id ids, has-set_of x.id visible)

keep_all :
    (xs : List RecycleBinObjectItem) (ids : List ℕ)
    → ((j : ℕ) → has j (ids_of_items xs) ≡ true → has j ids ≡ true)
    → keep (λ item. has item.id ids) xs ≡ xs
keep_all [] ids h = refl
keep_all (x ∷ xs) ids h =
    let seen : has x.id ids ≡ true = h x.id (ground (arith, same_refl {A = ℕ} x.id)) in
    rw seen (ap (λ t. x ∷ t) (keep_all xs ids (λ j k. h j (ground arith))))

-- On a page that has items, checking the box in the header selects all items of the page, and the
-- box is then checked and not half checked.
pub all_selected-select_all :
    (item : RecycleBinObjectItem) (items : List RecycleBinObjectItem) (d : Dialog)
    → (selected_items (item ∷ items) (handle_select_all (item ∷ items) checked d) ≡ item ∷ items)
      × (all_selected (item ∷ items) (handle_select_all (item ∷ items) checked d) ≡ true)
      × (partially_selected (item ∷ items) (handle_select_all (item ∷ items) checked d) ≡ false)
unfolding all_selected partially_selected handle_select_all
all_selected-select_all item items d =
    let whole = item ∷ items in
    let same : keep (λ i. has i.id (set_of (ids_of_items whole))) whole ≡ whole =
      keep_all whole (set_of (ids_of_items whole)) (λ j k. has-set_of j (ids_of_items whole) ∙ k) in
    (same, rw same (ground arith), rw same (ground arith))

length-keep :
    (p : RecycleBinObjectItem → Bool) (xs : List RecycleBinObjectItem)
    → length (keep p xs) ≤ length xs
length-keep p [] = omega arith
length-keep p (x ∷ xs) = ground (arith, length-keep p xs)

-- The box in the header is checked, half checked or empty: half checked exactly when some items
-- are selected and it is not checked.
pub partially_selected_lem :
    (items : List RecycleBinObjectItem) (d : Dialog)
    → partially_selected items d
      ≡ (ltb 0 (length (selected_items items d)) && not (all_selected items d))
unfolding partially_selected all_selected
partially_selected_lem items d =
    ground (arith, length-keep (λ item. has item.id d.selected_ids) items)
