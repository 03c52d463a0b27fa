-- ===== src/Recycle/Tests.antt =====
-- The theorems on the recycle bin at a concrete page of it.
use light_oss.Base.{number_key, ℕ, ◌≡◌, true, false, not, ◌&&◌, [], ◌∷◌}
use light_oss.Base.Text.{Text, codes, text_key}
use light_oss.Base.JsSet.{has}
use light_oss.Api.Types.{
  private, file_entry, RecycleBinObjectItem, RecycleBinObjectListResult, RecycleBinFailedItem,
  RestoreRecycleBinObjectsResult,
}
use light_oss.Recycle.{Dialog, Bin, ids_of_items, restore_success}
use light_oss.Recycle.Outcomes.{is_done, items_at, restore_success_lem}

abbrev item_of : ℕ → Text → RecycleBinObjectItem
item_of id bucket = record {
  id = id;
  entry_type = file_entry;
  bucket_name = bucket;
  path = codes "a.png";
  name = codes "a.png";
  object_key = codes "a.png";
  original_filename = codes "a.png";
  size = 3;
  content_type = codes "image/png";
  etag = codes "e";
  visibility = private;
  created_at = codes "2024-01-01";
  deleted_at = codes "2024-01-02";
}

abbrev one : RecycleBinObjectItem
one = item_of 1 (codes "assets")

abbrev two : RecycleBinObjectItem
two = item_of 2 (codes "assets")

abbrev first_page : RecycleBinObjectListResult
first_page = record { items = one ∷ two ∷ []; next_cursor = codes "t1" }

abbrev opened : Dialog
opened = record {
  is_open = true;
  cursor = [];
  cursor_history = [];
  selected_ids = 1 ∷ 2 ∷ 9 ∷ [];
  pending_restore_items = one ∷ two ∷ [];
  restore_dialog_open = true;
  restore_failed_items = [];
  restore_failure_dialog_open = false;
  pending_delete_items = one ∷ two ∷ [];
  delete_dialog_open = false;
}

abbrev bin : Bin
bin = record { dialog = opened; cache = ([], first_page) ∷ []; toasts = []; invalidated = [] }

abbrev failed_two : RecycleBinFailedItem
failed_two = record {
  id = 2;
  bucket_name = codes "assets";
  path = codes "a.png";
  code = codes "object_exists";
  message = codes "exists";
}

abbrev restored_one : RestoreRecycleBinObjectsResult
restored_one = record { restored_count = 1; failed_count = 1; failed_items = failed_two ∷ [] }

restore_success_lem_example :
    (has 2 (restore_success (one ∷ two ∷ []) restored_one bin).dialog.selected_ids
      ≡ (has 2 bin.dialog.selected_ids && not (is_done 2 (one ∷ two ∷ []) (failed_two ∷ []))))
    × (has 2 (ids_of_items (items_at [] (restore_success (one ∷ two ∷ []) restored_one bin).cache))
        ≡ (has 2 (ids_of_items (items_at [] bin.cache))
            && not (is_done 2 (one ∷ two ∷ []) (failed_two ∷ []))))
restore_success_lem_example = restore_success_lem (one ∷ two ∷ []) restored_one bin 2 []
