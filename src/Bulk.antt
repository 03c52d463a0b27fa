-- ===== src/Bulk.antt =====
-- frontend/src/pages/BucketObjectsPage.tsx: the selection of entries, and downloading or deleting
-- all that is selected. `succeeds` says of an entry whether its download does; the answer of the
-- server cuts the deletion in two. A bulk download is one step: its loop is not interleaved with
-- other events.
pub mod Outcomes
use light_oss.Base.{
  ℕ, ◌+◌, Bool, true, false, not, ◌||◌, Option, none, some, List, [], ◌∷◌, ◌++◌, ◌==◌,
  if◌then◌else◌, is_empty, keep, map,
}
use light_oss.Base.Text.{Text, text_key}
use light_oss.Base.JsSet.{has, add, remove, set_of}
use light_oss.Api.Types.{
  ExplorerEntry, directory, file, EntryType, file_entry, directory_entry,
  DeleteExplorerEntriesBatchItem, DeleteExplorerEntriesBatchFailedItem,
  DeleteExplorerEntriesBatchResult,
}
use light_oss.Recycle.{Checked, checked}

pub data Toast : Type 0 where
  download_completed delete_completed : ℕ → Toast
  download_partial delete_partial : ℕ → ℕ → Toast
  failure : Text → Toast

-- `downloads` are those that were started, in their order.
pub record Selection : Type 0 where
  pub selected_paths : List Text
  pub bulk_download_pending : Bool
  pub bulk_delete_pending : Bool
  pub bulk_delete_dialog_open : Bool
  pub downloads : List ExplorerEntry
  pub toasts : List Toast
  pub invalidations : ℕ

abbrev pub entry_path : ExplorerEntry → Text
entry_path (directory entry) = entry.path
entry_path (file entry) = entry.path

abbrev pub entry_type_of : ExplorerEntry → EntryType
entry_type_of (directory entry) = directory_entry
entry_type_of (file entry) = file_entry

abbrev pub selected_entries : List ExplorerEntry → Selection → List ExplorerEntry
selected_entries entries s = keep (λ entry. has (entry_path entry) s.selected_paths) entries

abbrev pub bulk_actions_pending : Selection → Bool
bulk_actions_pending s = s.bulk_download_pending || s.bulk_delete_pending

abbrev pub is_checked : Checked → Bool
is_checked checked = true
is_checked _ = false

-- The effect on the entries of the page.
unfoldable pub prune_paths : List ExplorerEntry → Selection → Selection
prune_paths entries s = record s {
  selected_paths = keep (λ path. has path (set_of (map entry_path entries))) s.selected_paths;
}

unfoldable pub handle_select_all : List ExplorerEntry → Checked → Selection → Selection
handle_select_all entries c s =
    if bulk_actions_pending s
    then s
    else record s { selected_paths = if is_checked c then set_of (map entry_path entries) else [] }

unfoldable pub handle_select_entry : Text → Checked → Selection → Selection
handle_select_entry path c s = if bulk_actions_pending s then s else record s {
  selected_paths = if is_checked c then add path s.selected_paths else remove path s.selected_paths;
}

-- The counts of the loop of `handleBulkDownload`.
pub record Counts : Type 0 where
  pub success_count : ℕ
  pub failed_count : ℕ

abbrev pub counted : Bool → Counts → Counts
counted true n = record n { success_count = n.success_count + 1 }
counted false n = record n { failed_count = n.failed_count + 1 }

abbrev pub no_counts : Counts
no_counts = record { success_count = 0; failed_count = 0 }

abbrev pub download_each : (ExplorerEntry → Bool) → List ExplorerEntry → Counts → Counts
download_each succeeds [] n = n
download_each succeeds (entry ∷ entries) n =
    download_each succeeds entries (counted (succeeds entry) n)

abbrev pub download_toast : Counts → Toast
download_toast n =
    if n.failed_count == 0
    then download_completed n.success_count
    else download_partial n.success_count n.failed_count

unfoldable pub handle_bulk_download :
    (succeeds : ExplorerEntry → Bool) → List ExplorerEntry → Selection → Selection
handle_bulk_download succeeds entries s =
    let targets = selected_entries entries s in
    if is_empty targets || bulk_actions_pending s then s else record s {
      bulk_download_pending = false;
      downloads = s.downloads ++ targets;
      toasts = s.toasts ++ download_toast (download_each succeeds targets no_counts) ∷ [];
    }

abbrev pub batch_item : ExplorerEntry → DeleteExplorerEntriesBatchItem
batch_item entry = record { entry_type = entry_type_of entry; path = entry_path entry }

-- What `handleConfirmBulkDelete` sends, if anything.
unfoldable pub bulk_delete_request :
    List ExplorerEntry → Selection → Option (List DeleteExplorerEntriesBatchItem)
bulk_delete_request entries s =
    if is_empty (selected_entries entries s) || s.bulk_delete_pending
    then none
    else some (map batch_item (selected_entries entries s))

unfoldable pub bulk_delete_started : Selection → Selection
bulk_delete_started s = record s { bulk_delete_pending = true }

abbrev pub failed_paths : List DeleteExplorerEntriesBatchFailedItem → List Text
failed_paths [] = []
failed_paths (item ∷ items) = item.path ∷ failed_paths items

unfoldable pub bulk_delete_answered : DeleteExplorerEntriesBatchResult → Selection → Selection
bulk_delete_answered result s = record s {
  selected_paths =
      if result.failed_count == 0 then [] else set_of (failed_paths result.failed_items);
  toasts =
      s.toasts
      ++ (if result.failed_count == 0
          then delete_completed result.deleted_count
          else delete_partial result.deleted_count result.failed_count)
        ∷ [];
  bulk_delete_dialog_open = false;
  invalidations = s.invalidations + 1;
  bulk_delete_pending = false;
}

unfoldable pub bulk_delete_failed : Text → Selection → Selection
bulk_delete_failed message s = record s {
  toasts = s.toasts ++ failure message ∷ [];
  bulk_delete_pending = false;
}
