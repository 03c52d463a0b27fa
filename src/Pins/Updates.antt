-- ===== src/Pins/Updates.antt =====
-- Updates of the pins: the state, the storage and the failures.
use light_oss.Base.{
  number_key, ℕ, ◌+◌, ◌≡◌, ◌↔◌, ◌≢◌, refl, true, false, ◌&&◌, none, some, List, [], ◌∷◌, ◌==◌,
  arith, Option-cases, inl, inr, Bool-cases, if◌then◌else◌, length,
}
use light_oss.Base.Text.{Text, text_eq, text_eq_iff}
use light_oss.Pins.Storage.{Codec, LocalStorage, get_item, set_item}
use light_oss.Pins.Reading.{IsPins, read_pinned_ids-IsPins, read_pinned_ids-set_item}
use light_oss.Pins.{every_same, same_ids, Hook, read_pinned_ids, update_pins}

every_same_iff :
    (next current : List ℕ)
    → ((length next == length current && every_same next current) ≡ true) ↔ (next ≡ current)
unfolding every_same
every_same_iff [] [] = (λ _. refl, λ _. refl)
every_same_iff [] (c ∷ current) = ground arith
every_same_iff (x ∷ next) [] = ground arith
every_same_iff (x ∷ next) (c ∷ current) = ground (arith, every_same_iff next current)

same_ids_iff : (next current : List ℕ) → (same_ids next current ≡ true) ↔ (next ≡ current)
unfolding same_ids
same_ids_iff = every_same_iff

module _ (codec : Codec) (key : Text) where
  -- The state shows what the storage holds for the service.
  pub record IsCoherent (h : Hook) : Type 0 where
    pub key_shown : h.state.storage_key ≡ key
    pub no_failure : h.state.read_failed ≡ false
    pub stored : read_pinned_ids codec key h.storage ≡ some h.state.ids

  pub update_pins-same :
      (update : List ℕ → List ℕ) (h : Hook)
      → IsCoherent h
      → update h.state.ids ≡ h.state.ids
      → update_pins codec key update h ≡ h
  unfolding update_pins
  update_pins-same update h c e =
      rw c.stored (rw ((same_ids_iff (update h.state.ids) h.state.ids).1 e))

  update_pins-unwritable :
      (update : List ℕ → List ℕ) (h : Hook)
      → IsCoherent h
      → update h.state.ids ≢ h.state.ids
      → h.storage.writable ≡ false
      → update_pins codec key update h ≡ record h { error_toasts = h.error_toasts + 1 }
  unfolding update_pins set_item
  update_pins-unwritable update h c e w =
      let differ : same_ids (update h.state.ids) h.state.ids ≡ false =
        ground (arith, same_ids_iff (update h.state.ids) h.state.ids) in
      rw c.stored (rw differ (rw w))

  -- What a write of these ids leaves in the storage.
  abbrev written : List ℕ → LocalStorage → LocalStorage
  written ids s = record s {
    items = λ k. if text_eq key k then some (codec.stringify ids) else s.items k;
  }

  update_pins-written :
      (update : List ℕ → List ℕ) (h : Hook)
      → IsCoherent h
      → update h.state.ids ≢ h.state.ids
      → h.storage.writable ≡ true
      → update_pins codec key update h ≡ record h {
        storage = written (update h.state.ids) h.storage;
        state = record { storage_key = key; ids = update h.state.ids; read_failed = false };
      }
  unfolding update_pins set_item
  update_pins-written update h c e w =
      let differ : same_ids (update h.state.ids) h.state.ids ≡ false =
        ground (arith, same_ids_iff (update h.state.ids) h.state.ids) in
      let shown : text_eq h.state.storage_key key ≡ true =
        (text_eq_iff h.state.storage_key key).1 c.key_shown in
      rw c.stored (rw differ (rw w (rw shown)))

  readable_of_stored : (h : Hook) → IsCoherent h → h.storage.readable ≡ true
  unfolding read_pinned_ids get_item
  readable_of_stored h c = elim (Bool-cases h.storage.readable) [
    | inl open_ ↦ open_
    | inr shut ↦
        let read : read_pinned_ids codec key h.storage ≡ none = rw shut in cc (read, c.stored)
  ]

  read-written :
      (ids : List ℕ) (h : Hook)
      → IsCoherent h
      → IsPins ids
      → h.storage.writable ≡ true
      → read_pinned_ids codec key (written ids h.storage) ≡ some ids
  read-written ids h c valid w =
      read_pinned_ids-set_item codec key ids h.storage (written ids h.storage) valid
        (readable_of_stored h c) (unfold set_item in rw w)

  -- The new ids where the storage can be written; else the error is shown and the ids stay.
  abbrev pub updated_ids : (List ℕ → List ℕ) → Hook → List ℕ
  updated_ids update h = if h.storage.writable then update h.state.ids else h.state.ids

  -- Where the state shows what is stored for the service and an update yields distinct valid ids,
  -- the ids afterwards are the updated ones if the storage can be written and the old ones if
  -- not, and the state again shows what is stored.
  pub update_pins_lem :
      (update : List ℕ → List ℕ) (h : Hook)
      → IsCoherent h
      → IsPins (update h.state.ids)
      → ((update_pins codec key update h).state.ids ≡ updated_ids update h)
        × IsCoherent (update_pins codec key update h)
  update_pins_lem update h c valid = elim (Bool-cases (same_ids (update h.state.ids) h.state.ids)) [
    | inl same ↦
        let e : update h.state.ids ≡ h.state.ids =
          (same_ids_iff (update h.state.ids) h.state.ids).0 same in
        rw (update_pins-same update h c e) (ground arith, c)
    | inr differ ↦
        let e : update h.state.ids ≢ h.state.ids =
          ground (arith, same_ids_iff (update h.state.ids) h.state.ids) in
        elim (Bool-cases h.storage.writable) [
          | inl w ↦ rw (update_pins-written update h c e w) (
            rw w,
            record {
              key_shown = refl;
              no_failure = refl;
              stored = read-written (update h.state.ids) h c valid w;
            },
          )
          | inr w ↦ rw (update_pins-unwritable update h c e w) (
            rw w,
            record { key_shown = c.key_shown; no_failure = c.no_failure; stored = c.stored },
          )
        ]
  ]

  -- An update does not change whether the storage can be written.
  pub update_pins-writable :
      (update : List ℕ → List ℕ) (h : Hook)
      → h.storage.writable ≡ true
      → (update_pins codec key update h).storage.writable ≡ true
  unfolding update_pins set_item
  update_pins-writable update h w = elim (Option-cases (read_pinned_ids codec key h.storage)) [
    | inl thrown ↦ rw thrown w
    | inr (current, got) ↦ rw got (elim (Bool-cases (same_ids (update current) current)) [
      | inl same ↦ rw same w
      | inr differ ↦ rw differ (rw w refl)
    ])
  ]

  pub ids-IsPins : (h : Hook) → IsCoherent h → IsPins h.state.ids
  ids-IsPins h c = read_pinned_ids-IsPins codec key h.storage h.state.ids c.stored

-- Where the state shows another service than the one an update is for, the update leaves the
-- state and what is stored for that other service as they are.
pub update_pins-other :
    (codec : Codec) (key other_key : Text) (update : List ℕ → List ℕ) (h : Hook)
    → key ≢ other_key
    → h.state.storage_key ≡ other_key
    → ((update_pins codec key update h).state ≡ h.state)
      × (get_item other_key (update_pins codec key update h).storage ≡ get_item other_key h.storage)
unfolding update_pins set_item get_item
update_pins-other codec key other_key update h apart shown =
    elim (Option-cases (read_pinned_ids codec key h.storage)) [
      | inl thrown ↦ rw thrown (refl, refl)
      | inr (current, got) ↦ rw got (elim (Bool-cases (same_ids (update current) current)) [
        | inl same ↦ rw same (refl, refl)
        | inr differ ↦ rw differ (elim (Bool-cases h.storage.writable) [
          | inr shut ↦ rw shut (refl, refl)
          | inl writes ↦
              let away : text_eq h.state.storage_key key ≡ false =
                ground (arith, text_eq_iff h.state.storage_key key) in
              let else_where : text_eq key other_key ≡ false =
                ground (arith, text_eq_iff key other_key) in
              rw writes (rw away (rw else_where (refl, refl)))
        ])
      ])
    ]
