-- ===== src/Pins/Reading.antt =====
-- What is read from the storage: distinct ids, whatever is stored, and what was written.
use light_oss.Base.{
  number_key, ℕ, ◌≡◌, refl, ap, sym, ◌≢◌, ◌∙◌, true, Option, none, some, List, [], ◌∷◌, map, All,
  arith, Option-cases, inl, inr, Bool-cases, if◌then◌else◌,
}
use light_oss.Base.Text.{Text, text_eq, text_eq_refl}
use light_oss.Base.JsSet.{IsDistinct, IsDistinct-set_of, All-set_of, set_of_fix}
use light_oss.Pins.Storage.{
  Item, number, other, Json, array, scalar, Codec, LocalStorage, get_item, set_item, IsId,
}
use light_oss.Pins.{cons_id, distinct_ids, ids_of_raw, is_id, ids_of, ids_of_json, read_pinned_ids}

-- What the hook may hold: distinct positive safe integers.
abbrev pub IsPins : List ℕ → Type 0
IsPins ids = IsDistinct ids × All IsId ids

is_id-IsId : (n : ℕ) → is_id n ≡ true → IsId n
is_id-IsId n h = ground arith

IsId-is_id : (n : ℕ) → IsId n → is_id n ≡ true
IsId-is_id n h = ground arith

All-cons_id :
    (m : ℕ) (o : Option (List ℕ)) (ns : List ℕ)
    → ((ms : List ℕ) → o ≡ some ms → All IsId ms)
    → cons_id m o ≡ some ns
    → All IsId ns
All-cons_id m none ns h e = cc
All-cons_id m (some ms) ns h e = elim (Bool-cases (is_id m)) [
  | inl fits ↦
      let same : m ∷ ms ≡ ns = cc (rw fits at e) in rw (sym same) (is_id-IsId m fits, h ms refl)
  | inr bad ↦ cc (rw bad at e)
]

All-ids_of : (items : List Item) (ns : List ℕ) → ids_of items ≡ some ns → All IsId ns
unfolding ids_of
All-ids_of [] [] h = tt
All-ids_of [] (n ∷ ns) h = cc
All-ids_of (number m ∷ items) ns h = All-cons_id m (ids_of items) ns (All-ids_of items) h
All-ids_of (other ∷ items) ns h = cc

IsPins-nil : IsPins []
IsPins-nil = (tt, tt)

distinct_ids-IsPins :
    (o : Option (List ℕ)) → ((ns : List ℕ) → o ≡ some ns → All IsId ns) → IsPins (distinct_ids o)
distinct_ids-IsPins none h = IsPins-nil
distinct_ids-IsPins (some ns) h = (IsDistinct-set_of ns, All-set_of IsId ns (h ns refl))

ids_of_json-IsPins : (json : Option Json) → IsPins (ids_of_json json)
unfolding ids_of_json
ids_of_json-IsPins none = IsPins-nil
ids_of_json-IsPins (some scalar) = IsPins-nil
ids_of_json-IsPins (some (array items)) = distinct_ids-IsPins (ids_of items) (All-ids_of items)

ids_of-map : (ns : List ℕ) → All IsId ns → ids_of (map number ns) ≡ some ns
unfolding ids_of
ids_of-map [] h = refl
ids_of-map (n ∷ ns) (h, hs) = rw (ids_of-map ns hs) (rw (IsId-is_id n h))

module _ (codec : Codec) where
  ids_of_raw-IsPins : (raw : Option Text) → IsPins (ids_of_raw codec raw)
  unfolding ids_of_raw
  ids_of_raw-IsPins none = IsPins-nil
  ids_of_raw-IsPins (some []) = IsPins-nil
  ids_of_raw-IsPins (some (c ∷ raw)) = ids_of_json-IsPins (codec.parse (c ∷ raw))

  -- Whatever is stored, the ids that are read from it are distinct positive safe integers.
  pub read_pinned_ids-IsPins :
      (key : Text) (storage : LocalStorage) (ids : List ℕ)
      → read_pinned_ids codec key storage ≡ some ids
      → IsPins ids
  unfolding read_pinned_ids
  read_pinned_ids-IsPins key storage ids h = elim (Option-cases (get_item key storage)) [
    | inl thrown ↦ cc (rw thrown at h)
    | inr (raw, got) ↦
        let same : ids_of_raw codec raw ≡ ids = cc (rw got at h) in
        rw (sym same) (ids_of_raw-IsPins raw)
  ]

  ids_of_raw_ne :
      (raw : Text) → raw ≢ [] → ids_of_raw codec (some raw) ≡ ids_of_json (codec.parse raw)
  unfolding ids_of_raw
  ids_of_raw_ne [] h = absurd (h refl)
  ids_of_raw_ne (c ∷ raw) h = refl

  ids_of_raw-stringify :
      (ids : List ℕ) → IsPins ids → ids_of_raw codec (some (codec.stringify ids)) ≡ ids
  unfolding ids_of_json
  ids_of_raw-stringify ids (distinct, valid) =
      ids_of_raw_ne (codec.stringify ids) (codec.stringify-ne-nil ids)
      ∙ rw (codec.parse-stringify ids valid) (rw (ids_of-map ids valid) (set_of_fix ids distinct))

  -- What was written is read back.
  pub read_pinned_ids-set_item :
      (key : Text) (ids : List ℕ) (storage storage' : LocalStorage)
      → IsPins ids
      → storage.readable ≡ true
      → set_item key (codec.stringify ids) storage ≡ some storage'
      → read_pinned_ids codec key storage' ≡ some ids
  unfolding read_pinned_ids set_item get_item
  read_pinned_ids-set_item key ids storage storage' h r e = elim (Bool-cases storage.writable) [
    | inl writes ↦
        let same : record storage {
          items = λ k. if text_eq key k then some (codec.stringify ids) else storage.items k;
        }
            ≡ storage' =
          cc (rw writes at e) in
        rw (sym same) (rw (text_eq_refl key) (rw r (ap some (ids_of_raw-stringify ids h))))
    | inr shut ↦ cc (rw shut at e)
  ]
