-- ===== src/Pins/Toggles.antt =====
-- Toggling and reconciling pins.
use light_oss.Base.{
  number_key, ℕ, ◌≡◌, refl, ap, sym, ◌∙◌, Bool, true, false, not, ◌&&◌, List, [], ◌∷◌, ◌==◌,
  All-append, arith, inl, inr, Bool-cases, ==_iff, if◌then◌else◌, keep, append-nil,
}
use light_oss.Base.Text.{Text}
use light_oss.Base.JsSet.{
  has, set_of, IsDistinct-add, IsDistinct-remove, IsDistinct-keep, has-append, has-remove, has-keep,
  has-set_of, All-keep, remove-eq-keep, remove-append, remove_fix,
}
use light_oss.Pins.Storage.{Codec, IsId}
use light_oss.Pins.Reading.{IsPins}
use light_oss.Pins.Updates.{
  IsCoherent, update_pins_lem, update_pins-same, update_pins-writable, updated_ids, ids-IsPins,
}
use light_oss.Pins.{Hook, toggled, reconciled, toggle_pin, reconcile_pins}

pub toggled-IsPins : (id : ℕ) (ids : List ℕ) → IsId id → IsPins ids → IsPins (toggled id ids)
toggled-IsPins id ids k (distinct, valid) = elim (Bool-cases (has id ids)) [
  | inl there ↦ rw there (
    IsDistinct-remove id ids distinct,
    rw (remove-eq-keep id ids) (All-keep IsId (λ x. not (x == id)) ids valid),
  )
  | inr new ↦
      rw new
        (rw new at (IsDistinct-add id ids distinct), All-append IsId ids (id ∷ []) valid (k, tt))
]

pub has-toggled :
    (id j : ℕ) (ids : List ℕ)
    → has j (toggled id ids) ≡ (if id == j then not (has id ids) else has j ids)
has-toggled id j ids = ground (arith, has-remove id j ids, has-append j ids (id ∷ []), ==_iff id j)

toggled_twice : (id : ℕ) (ids : List ℕ) → has id ids ≡ false → toggled id (toggled id ids) ≡ ids
toggled_twice id ids new = ground (
  arith,
  has-append id ids (id ∷ []),
  remove-append id ids (id ∷ []),
  remove_fix id ids new,
  append-nil ids,
)

module _ (codec : Codec) (key : Text) where
  -- For a valid id, a state that shows what is stored and a storage that can be written, toggling
  -- flips whether that id is pinned, keeps every other, and leaves a state that shows what is
  -- stored.
  pub has-toggle_pin :
      (id j : ℕ) (h : Hook)
      → IsId id
      → IsCoherent codec key h
      → h.storage.writable ≡ true
      → (has j (toggle_pin codec key id h).state.ids
          ≡ (if id == j then not (has id h.state.ids) else has j h.state.ids))
        × IsCoherent codec key (toggle_pin codec key id h)
  unfolding toggle_pin
  has-toggle_pin id j h k c w =
      let (ids, coherent) =
        update_pins_lem codec key (toggled id) h c
          (toggled-IsPins id h.state.ids k (ids-IsPins codec key h c)) in
      (ap (has j) (ids ∙ rw w) ∙ has-toggled id j h.state.ids, coherent)

  toggle_ids :
      (id : ℕ) (h : Hook)
      → IsId id
      → IsCoherent codec key h
      → h.storage.writable ≡ true
      → (toggle_pin codec key id h).state.ids ≡ toggled id h.state.ids
  unfolding toggle_pin
  toggle_ids id h k c w =
      (update_pins_lem codec key (toggled id) h c
        (toggled-IsPins id h.state.ids k (ids-IsPins codec key h c))).0
      ∙ rw w

  toggle-writable :
      (id : ℕ) (h : Hook)
      → h.storage.writable ≡ true
      → (toggle_pin codec key id h).storage.writable ≡ true
  unfolding toggle_pin
  toggle-writable id h w = update_pins-writable codec key (toggled id) h w

  -- For a valid id that is not pinned, a state that shows what is stored and a storage that can
  -- be written, toggling twice gives the pins in their old order.
  pub toggle_pin_twice :
      (id : ℕ) (h : Hook)
      → IsId id
      → IsCoherent codec key h
      → h.storage.writable ≡ true
      → has id h.state.ids ≡ false
      → (toggle_pin codec key id (toggle_pin codec key id h)).state.ids ≡ h.state.ids
  toggle_pin_twice id h k c w new =
      toggle_ids id (toggle_pin codec key id h) k (has-toggle_pin id id h k c w).1
        (toggle-writable id h w)
      ∙ ap (toggled id) (toggle_ids id h k c w)
      ∙ toggled_twice id h.state.ids new

pub reconciled-IsPins : (existing ids : List ℕ) → IsPins ids → IsPins (reconciled existing ids)
reconciled-IsPins existing ids (distinct, valid) = (
  IsDistinct-keep (λ id. has id (set_of existing)) ids distinct,
  All-keep IsId (λ id. has id (set_of existing)) ids valid,
)

keep_twice : (p : ℕ → Bool) (xs : List ℕ) → keep p (keep p xs) ≡ keep p xs
keep_twice p [] = refl
keep_twice p (x ∷ xs) = ground (arith, keep_twice p xs)

module _ (codec : Codec) (key : Text) (existing : List ℕ) (h : Hook)
    (c : IsCoherent codec key h) where
  reconcile_lem :
      ((reconcile_pins codec key existing h).state.ids
        ≡ updated_ids codec key (reconciled existing) h)
      × IsCoherent codec key (reconcile_pins codec key existing h)
  unfolding reconcile_pins
  reconcile_lem =
      update_pins_lem codec key (reconciled existing) h c
        (reconciled-IsPins existing h.state.ids (ids-IsPins codec key h c))

  -- For a state that shows what is stored and a storage that can be written, reconciling keeps
  -- exactly the pins of existing buckets, and reconciling again changes nothing in the state, the
  -- storage and the messages.
  pub reconcile_pins_lem :
      h.storage.writable ≡ true
      → ((j : ℕ)
          → has j (reconcile_pins codec key existing h).state.ids
            ≡ (has j h.state.ids && has j existing))
        × (reconcile_pins codec key existing (reconcile_pins codec key existing h)
            ≡ reconcile_pins codec key existing h)
  reconcile_pins_lem w =
      let ids : (reconcile_pins codec key existing h).state.ids ≡ reconciled existing h.state.ids =
        reconcile_lem.0 ∙ rw w in
      (
        λ j.
            ap (has j) ids
            ∙ has-keep (λ id. has id (set_of existing)) j h.state.ids
            ∙ ap (λ b. has j h.state.ids && b) (has-set_of j existing),
        unfold reconcile_pins in
            update_pins-same codec key (reconciled existing) (reconcile_pins codec key existing h)
              reconcile_lem.1
              (ap (reconciled existing) ids
                ∙ keep_twice (λ id. has id (set_of existing)) h.state.ids
                ∙ sym ids),
      )
