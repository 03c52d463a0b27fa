-- ===== src/Recycle.antt =====
-- frontend/src/features/buckets/RecycleBinDialog.tsx: the recycle bin of one bucket. The bin is a
-- record of the dialog's React states, of the query cache and of what the handlers did outside.
pub mod Selecting
pub mod Outcomes
mod Tests
use light_oss.Base.{
  number_key, ℕ, ◌≡◌, Bool, true, false, not, ◌&&◌, Option, none, some, List, [], ◌∷◌, ◌++◌, ◌==◌,
  ltb, map, if◌then◌else◌, or_else, is_empty, last_of, drop_last, keep, length,
}
use light_oss.Base.Text.{Text, text_eq, text_key}
use light_oss.Base.JsSet.{has, add, remove, set_of}
use light_oss.Api.Types.{
  RecycleBinObjectItem, RecycleBinObjectListResult, RecycleBinFailedItem,
  RestoreRecycleBinObjectsResult, DeleteRecycleBinObjectsResult,
}

-- `boolean | "indeterminate"`
pub data Checked : Type 0 where
  checked unchecked indeterminate : Checked

pub record Dialog : Type 0 where
  pub is_open : Bool
  pub cursor : Text
  pub cursor_history : List Text
  pub selected_ids : List ℕ
  pub pending_restore_items : List RecycleBinObjectItem
  pub restore_dialog_open : Bool
  pub restore_failed_items : List RecycleBinFailedItem
  pub restore_failure_dialog_open : Bool
  pub pending_delete_items : List RecycleBinObjectItem
  pub delete_dialog_open : Bool

pub data Toast : Type 0 where
  restored deleted : ℕ → Toast
  restore_partial delete_partial : ℕ → ℕ → Toast
  failure : Text → Toast

pub data QueryKey : Type 0 where
  explorer_entries : Text → QueryKey
  recycle_bin_objects : Text → QueryKey

-- The cache has the result of each cursor that was asked for.
pub record Bin : Type 0 where
  pub dialog : Dialog
  pub cache : List (Text × RecycleBinObjectListResult)
  pub toasts : List Toast
  pub invalidated : List QueryKey

abbrev pub ids_of_items : List RecycleBinObjectItem → List ℕ
ids_of_items [] = []
ids_of_items (item ∷ items) = item.id ∷ ids_of_items items

abbrev pub failed_ids : List RecycleBinFailedItem → List ℕ
failed_ids [] = []
failed_ids (item ∷ items) = item.id ∷ failed_ids items

-- Everything but `open`, as the effect on the bucket's name and a closing dialog reset it.
unfoldable pub reset : Dialog → Dialog
reset d = record {
  is_open = d.is_open;
  cursor = [];
  cursor_history = [];
  selected_ids = [];
  pending_restore_items = [];
  restore_dialog_open = false;
  restore_failed_items = [];
  restore_failure_dialog_open = false;
  pending_delete_items = [];
  delete_dialog_open = false;
}

unfoldable pub handle_open_change : Bool → Dialog → Dialog
unfolding reset
handle_open_change next_open d =
    let opened = record d { is_open = next_open } in if next_open then opened else reset opened

-- The effect on the items of the page.
unfoldable pub prune_selection : List RecycleBinObjectItem → Dialog → Dialog
prune_selection items d = record d {
  selected_ids = keep (λ id. has id (set_of (ids_of_items items))) d.selected_ids;
}

unfoldable pub selected_items : List RecycleBinObjectItem → Dialog → List RecycleBinObjectItem
selected_items items d = keep (λ item. has item.id d.selected_ids) items

unfoldable pub all_selected : List RecycleBinObjectItem → Dialog → Bool
unfolding selected_items
all_selected items d = ltb 0 (length items) && length (selected_items items d) == length items

unfoldable pub partially_selected : List RecycleBinObjectItem → Dialog → Bool
unfolding selected_items
partially_selected items d =
    ltb 0 (length (selected_items items d)) && ltb (length (selected_items items d)) (length items)

abbrev is_checked : Checked → Bool
is_checked checked = true
is_checked _ = false

unfoldable pub handle_select_all : List RecycleBinObjectItem → Checked → Dialog → Dialog
handle_select_all items c d = record d {
  selected_ids = if is_checked c then set_of (ids_of_items items) else [];
}

unfoldable pub handle_select_row : ℕ → Checked → Dialog → Dialog
handle_select_row item_id c d = record d {
  selected_ids = if is_checked c then add item_id d.selected_ids else remove item_id d.selected_ids;
}

unfoldable pub handle_next_page : Option RecycleBinObjectListResult → Dialog → Dialog
handle_next_page none d = d
handle_next_page (some page) d =
    if is_empty page.next_cursor
    then d
    else record d { cursor_history = d.cursor_history ++ d.cursor ∷ []; cursor = page.next_cursor }

unfoldable pub handle_prev_page : Dialog → Dialog
handle_prev_page d = if is_empty d.cursor_history then d else record d {
  cursor_history = drop_last d.cursor_history;
  cursor = or_else (last_of d.cursor_history) [];
}

unfoldable pub open_restore_confirmation : List RecycleBinObjectItem → Dialog → Dialog
open_restore_confirmation target_items d = record d {
  pending_restore_items = target_items;
  restore_dialog_open = true;
}

unfoldable pub open_delete_confirmation : List RecycleBinObjectItem → Dialog → Dialog
open_delete_confirmation target_items d = record d {
  pending_delete_items = target_items;
  delete_dialog_open = true;
}

-- The ids that `handleRestore` and `handleDelete` send to the server, if they send any.
unfoldable pub restore_request : Dialog → Option (List ℕ)
restore_request d =
    if is_empty d.pending_restore_items then none else some (ids_of_items d.pending_restore_items)

unfoldable pub delete_request : Dialog → Option (List ℕ)
delete_request d =
    if is_empty d.pending_delete_items then none else some (ids_of_items d.pending_delete_items)

-- `targetItems.filter((item) => !failedIDs.has(item.id))`
abbrev pub done_items :
    List RecycleBinObjectItem → List RecycleBinFailedItem → List RecycleBinObjectItem
done_items target_items failed_items =
    keep (λ item. not (has item.id (set_of (failed_ids failed_items)))) target_items

-- `items.forEach((item) => next.delete(item.id))`
abbrev pub deselect : List RecycleBinObjectItem → List ℕ → List ℕ
deselect [] ids = ids
deselect (item ∷ items) ids = deselect items (remove item.id ids)

abbrev pub bucket_names : List RecycleBinObjectItem → List Text
bucket_names [] = []
bucket_names (item ∷ items) = item.bucket_name ∷ bucket_names items

-- `invalidateAffectedQueries`: one key for each bucket.
unfoldable pub affected_queries : List RecycleBinObjectItem → List QueryKey
affected_queries items = map explorer_entries (set_of (bucket_names items))

abbrev without_items :
    List RecycleBinObjectItem → RecycleBinObjectListResult → RecycleBinObjectListResult
without_items items page = record page {
  items = keep (λ item. not (has item.id (set_of (ids_of_items items)))) page.items;
}

-- `removeRecycleBinItemsFromCache`
unfoldable pub remove_from_cache :
    List RecycleBinObjectItem
    → List (Text × RecycleBinObjectListResult)
    → List (Text × RecycleBinObjectListResult)
remove_from_cache items [] = []
remove_from_cache items ((cursor, page) ∷ cache) =
    (cursor, if is_empty items then page else without_items items page)
    ∷ remove_from_cache items cache

unfoldable pub restore_success :
    List RecycleBinObjectItem → RestoreRecycleBinObjectsResult → Bin → Bin
unfolding affected_queries remove_from_cache
restore_success target_items result b =
    let restored_items = done_items target_items result.failed_items in
    let some_failed = not (is_empty result.failed_items) in
    record b {
      dialog = record (b.dialog) {
        restore_dialog_open = false;
        pending_restore_items = [];
        selected_ids = deselect restored_items (b.dialog).selected_ids;
        restore_failed_items = if some_failed then result.failed_items else [];
        restore_failure_dialog_open = some_failed;
      };
      toasts =
          b.toasts
          ++ (if result.failed_count == 0
              then restored result.restored_count
              else restore_partial result.restored_count result.failed_count)
            ∷ [];
      cache = remove_from_cache restored_items b.cache;
      invalidated = b.invalidated ++ affected_queries restored_items;
    }

unfoldable pub delete_success :
    Text → List RecycleBinObjectItem → DeleteRecycleBinObjectsResult → Bin → Bin
unfolding affected_queries
delete_success bucket_name target_items result b =
    let deleted_items = done_items target_items result.failed_items in
    record b {
      dialog = record (b.dialog) {
        delete_dialog_open = false;
        pending_delete_items = [];
        selected_ids = deselect deleted_items (b.dialog).selected_ids;
      };
      toasts =
          b.toasts
          ++ (if result.failed_count == 0
              then deleted result.deleted_count
              else delete_partial result.deleted_count result.failed_count)
            ∷ [];
      invalidated =
          (b.invalidated ++ affected_queries deleted_items) ++ recycle_bin_objects bucket_name ∷ [];
    }

-- Both `onError`s: the dialogs and the selection stay as they are.
unfoldable pub request_error : Text → Bin → Bin
request_error message b = record b { toasts = b.toasts ++ failure message ∷ [] }
