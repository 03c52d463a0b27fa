-- ===== src/Recycle/Outcomes.antt =====
-- What the server's answer to a restore or a permanent deletion does.
use light_oss.Base.{
  number_key, ℕ, ◌≡◌, refl, ap, ◌∙◌, Bool, not, ◌&&◌, none, List, [], ◌∷◌, ◌++◌, map, arith, ==_iff,
  if◌then◌else◌, is_empty, keep,
}
use light_oss.Base.Text.{Text, text_eq, text_key}
use light_oss.Base.JsSet.{
  has, remove, set_of, has-set_of, has-remove, IsDistinct, IsDistinct-set_of,
}
use light_oss.Api.Types.{
  RecycleBinObjectItem, RecycleBinObjectListResult, RecycleBinFailedItem,
  RestoreRecycleBinObjectsResult, DeleteRecycleBinObjectsResult,
}
use light_oss.Recycle.{
  Bin, explorer_entries, ids_of_items, failed_ids, done_items, deselect, bucket_names,
  remove_from_cache, restore_success, delete_success, restore_request, delete_request,
}

-- Whether the server did what was asked for the item with this id.
abbrev pub is_done : ℕ → List RecycleBinObjectItem → List RecycleBinFailedItem → Bool
is_done id target_items failed_items =
    has id (ids_of_items target_items) && not (has id (failed_ids failed_items))

has-keep_items :
    (p : ℕ → Bool) (j : ℕ) (items : List RecycleBinObjectItem)
    → has j (ids_of_items (keep (λ item. p item.id) items)) ≡ (has j (ids_of_items items) && p j)
has-keep_items p j [] = refl
has-keep_items p j (x ∷ xs) = ground (arith, has-keep_items p j xs, ==_iff x.id j)

has-done_items :
    (j : ℕ) (target_items : List RecycleBinObjectItem) (failed_items : List RecycleBinFailedItem)
    → has j (ids_of_items (done_items target_items failed_items))
      ≡ is_done j target_items failed_items
has-done_items j target_items failed_items =
    has-keep_items (λ id. not (has id (set_of (failed_ids failed_items)))) j target_items
    ∙ ap (λ b. has j (ids_of_items target_items) && not b) (has-set_of j (failed_ids failed_items))

has-deselect :
    (j : ℕ) (items : List RecycleBinObjectItem) (ids : List ℕ)
    → has j (deselect items ids) ≡ (has j ids && not (has j (ids_of_items items)))
has-deselect j [] ids = ground arith
has-deselect j (x ∷ xs) ids =
    ground (arith, has-deselect j xs (remove x.id ids), has-remove x.id j ids)

-- The items that the cache has for a cursor.
abbrev pub items_at : Text → List (Text × RecycleBinObjectListResult) → List RecycleBinObjectItem
items_at cursor [] = []
items_at cursor ((c, page) ∷ cache) = if text_eq c cursor then page.items else items_at cursor cache

kept_page :
    (j : ℕ) (items : List RecycleBinObjectItem) (page : RecycleBinObjectListResult)
    → has j
        (ids_of_items (keep (λ item. not (has item.id (set_of (ids_of_items items)))) page.items))
      ≡ (has j (ids_of_items page.items) && not (has j (ids_of_items items)))
kept_page j items page =
    has-keep_items (λ id. not (has id (set_of (ids_of_items items)))) j page.items
    ∙ ap (λ b. has j (ids_of_items page.items) && not b) (has-set_of j (ids_of_items items))

has-remove_from_cache :
    (j : ℕ) (cursor : Text) (items : List RecycleBinObjectItem)
    (cache : List (Text × RecycleBinObjectListResult))
    → has j (ids_of_items (items_at cursor (remove_from_cache items cache)))
      ≡ (has j (ids_of_items (items_at cursor cache)) && not (has j (ids_of_items items)))
unfolding remove_from_cache
has-remove_from_cache j cursor items [] = refl
has-remove_from_cache j cursor [] ((c, page) ∷ cache) =
    ground (arith, has-remove_from_cache j cursor [] cache)
has-remove_from_cache j cursor (x ∷ xs) ((c, page) ∷ cache) =
    ground (arith, has-remove_from_cache j cursor (x ∷ xs) cache, kept_page j (x ∷ xs) page)

module _ (target_items : List RecycleBinObjectItem) (result : RestoreRecycleBinObjectsResult)
    (b : Bin) where
  -- After the answer to a restore, an id is selected exactly when it was selected and the server
  -- did not restore its item, and the page cached for a cursor has an item with an id exactly
  -- when it had one and the server did not restore it.
  pub restore_success_lem :
      (j : ℕ) (cursor : Text)
      → (has j (restore_success target_items result b).dialog.selected_ids
          ≡ (has j b.dialog.selected_ids && not (is_done j target_items result.failed_items)))
        × (has j (ids_of_items (items_at cursor (restore_success target_items result b).cache)) ≡ (
            has j (ids_of_items (items_at cursor b.cache))
            && not (is_done j target_items result.failed_items)))
  unfolding restore_success
  restore_success_lem j cursor =
      let done = done_items target_items result.failed_items in
      (
        has-deselect j done b.dialog.selected_ids
            ∙ ap (λ t. has j b.dialog.selected_ids && not t)
                (has-done_items j target_items result.failed_items),
        has-remove_from_cache j cursor done b.cache
            ∙ ap (λ t. has j (ids_of_items (items_at cursor b.cache)) && not t)
                (has-done_items j target_items result.failed_items),
      )

  -- The answer to a restore invalidates the listing of each bucket that has a restored item, of
  -- no other bucket, and of each once.
  pub restore_success-invalidated :
      (buckets : List Text) × ((restore_success target_items result b).invalidated
        ≡ b.invalidated ++ map explorer_entries buckets)
      × IsDistinct buckets
      × ((name : Text)
          → has name buckets
            ≡ has name (bucket_names (done_items target_items result.failed_items)))
  unfolding restore_success
  restore_success-invalidated =
      let names = bucket_names (done_items target_items result.failed_items) in
      (set_of names, refl, IsDistinct-set_of names, λ name. has-set_of name names)

  -- After an answer nothing waits for a confirmation, so asking again sends no request; a list of
  -- failures is shown exactly when there are any.
  pub restore_request-success :
      (restore_request (restore_success target_items result b).dialog ≡ none)
      × ((restore_success target_items result b).dialog.restore_failure_dialog_open
          ≡ not (is_empty result.failed_items))
      × ((restore_success target_items result b).dialog.restore_failed_items ≡ result.failed_items)
  unfolding restore_success restore_request
  restore_request-success = (refl, refl, shown result.failed_items)
    where
      shown :
          (failed : List RecycleBinFailedItem)
          → (if not (is_empty failed) then failed else []) ≡ failed
      shown [] = refl
      shown (x ∷ xs) = refl

-- After the answer to a permanent deletion, an id is selected exactly when it was selected and
-- its item was not deleted, and no items wait for a deletion.
delete_success_lem :
    (bucket_name : Text) (target_items : List RecycleBinObjectItem)
    (result : DeleteRecycleBinObjectsResult) (b : Bin) (j : ℕ)
    → (has j (delete_success bucket_name target_items result b).dialog.selected_ids
        ≡ (has j b.dialog.selected_ids && not (is_done j target_items result.failed_items)))
      × (delete_request (delete_success bucket_name target_items result b).dialog ≡ none)
unfolding delete_success delete_request
delete_success_lem bucket_name target_items result b j =
    let done = done_items target_items result.failed_items in
    (
      has-deselect j done b.dialog.selected_ids
          ∙ ap (λ t. has j b.dialog.selected_ids && not t)
              (has-done_items j target_items result.failed_items),
      refl,
    )
