-- ===== src/Buckets/Reconciled.antt =====
-- The pins after the list of all buckets is loaded, and after a bucket is deleted.
use light_oss.Base.{number_key, ℕ, ◌≡◌, refl, ap, ◌∙◌, true, false, not, ◌&&◌, some, List, ◌==◌}
use light_oss.Base.Text.{Text, text_eq, text_eq_refl}
use light_oss.Base.JsSet.{has, remove, has-remove, IsDistinct-remove, remove-eq-keep, All-keep}
use light_oss.Api.Types.{Bucket}
use light_oss.Pins.Storage.{Codec, IsId}
use light_oss.Pins.Updates.{IsCoherent, update_pins_lem, ids-IsPins}
use light_oss.Pins.Toggles.{reconcile_pins_lem}
use light_oss.Pins.{remove_pin}
use light_oss.Buckets.{
  BucketsQuery, BucketsPage, is_settled, ids_of_buckets, reconcile_effect, delete_succeeded,
}

module _ (codec : Codec) (key : Text) (page : BucketsPage) (c : IsCoherent codec key page.hook)
    (writable : page.hook.storage.writable ≡ true) where
  -- For pins that show what is stored and a storage that can be written: where the full list has
  -- just been loaded in a new snapshot, the effect keeps exactly the pins of buckets in the list,
  -- and running it again changes nothing.
  pub reconcile_effect_lem :
      (q : BucketsQuery) (full_buckets : List Bucket) (j : ℕ)
      → is_settled q ≡ true
      → q.items ≡ some full_buckets
      → text_eq page.reconciled_snapshot q.snapshot ≡ false
      → (has j (reconcile_effect codec key q page).hook.state.ids
          ≡ (has j page.hook.state.ids && has j (ids_of_buckets full_buckets)))
        × (reconcile_effect codec key q (reconcile_effect codec key q page)
            ≡ reconcile_effect codec key q page)
  unfolding reconcile_effect
  reconcile_effect_lem q full_buckets j settled items new = rw settled (
      rw items (
        rw new (
          rw (text_eq_refl q.snapshot) (
            (reconcile_pins_lem codec key (ids_of_buckets full_buckets) page.hook c writable).0 j,
            refl,
          ))))

  -- For pins that show what is stored and a storage that can be written: after the deletion of a
  -- bucket with a known id, that id is not pinned, every other pin stays, and the pins again show
  -- what is stored.
  pub delete_succeeded_lem :
      (name : Text) (id j : ℕ)
      → (has j (delete_succeeded codec key name (some id) page).hook.state.ids
          ≡ (has j page.hook.state.ids && not (id == j)))
        × IsCoherent codec key (delete_succeeded codec key name (some id) page).hook
  unfolding delete_succeeded remove_pin
  delete_succeeded_lem name id j =
      let (distinct, valid) = ids-IsPins codec key page.hook c in
      let (ids, coherent) = update_pins_lem codec key (remove id) page.hook c (
        IsDistinct-remove id page.hook.state.ids distinct,
        rw (remove-eq-keep id page.hook.state.ids)
            (All-keep IsId (λ x. not (x == id)) page.hook.state.ids valid),
      ) in
      (ap (has j) (ids ∙ rw writable) ∙ has-remove id j page.hook.state.ids, coherent)
