-- ===== src/Pins.antt =====
-- frontend/src/features/buckets/usePinnedBuckets.ts: pinned buckets, kept in `localStorage` under a
-- key for each service.
pub mod Storage
pub mod Reading
pub mod Updates
pub mod Toggles
pub mod Services
pub mod Refinement
pub mod Unary
mod Tests
use light_oss.Base.{
  number_key, ℕ, suc, ◌+◌, ◌≡◌, Bool, true, false, not, ◌&&◌, Option, none, some, List, [], ◌∷◌,
  ◌++◌, ◌==◌, ltb, leb, if◌then◌else◌, length, keep,
}
use light_oss.Base.Text.{Text, codes, text_eq, is_slash, trim, strip_end, is_space}
use light_oss.Base.JsSet.{has, remove, set_of}
use mathlib.Core.Option
use Storage.{
  Item, number, other, Json, array, scalar, Codec, LocalStorage, get_item, set_item,
  max_safe_integer,
}

-- `Number.isSafeInteger(id) && id > 0`
abbrev pub is_id : ℕ → Bool
is_id n = leb n max_safe_integer && ltb 0 n

abbrev pub cons_id : ℕ → Option (List ℕ) → Option (List ℕ)
cons_id n none = none
cons_id n (some ns) = if is_id n then some (n ∷ ns) else none

-- The values of an array all of whose items are ids.
unfoldable pub ids_of : List Item → Option (List ℕ)
ids_of [] = some []
ids_of (number n ∷ items) = cons_id n (ids_of items)
ids_of (other ∷ items) = none

-- `[...new Set(parsed)]`, or nothing.
abbrev pub distinct_ids : Option (List ℕ) → List ℕ
distinct_ids none = []
distinct_ids (some ns) = set_of ns

-- What `JSON.parse` returned, or `none` where it threw.
unfoldable pub ids_of_json : Option Json → List ℕ
ids_of_json none = []
ids_of_json (some scalar) = []
ids_of_json (some (array items)) = distinct_ids (ids_of items)

pub record PinState : Type 0 where
  pub storage_key : Text
  pub ids : List ℕ
  pub read_failed : Bool

-- The state of the hook, the storage, and how many times the storage error was shown.
pub record Hook : Type 0 where
  pub state : PinState
  pub storage : LocalStorage
  pub error_toasts : ℕ

unfoldable pub storage_key_of : Text → Text
storage_key_of api_base_url =
    codes "light-oss-pinned-buckets:" ++ strip_end is_slash (trim api_base_url)

-- `next.every((id, i) => id === current[i])`
every_same : List ℕ → List ℕ → Bool
every_same [] current = true
every_same (id ∷ ids) [] = false
every_same (id ∷ ids) (c ∷ current) = id == c && every_same ids current

unfoldable pub same_ids : List ℕ → List ℕ → Bool
unfolding every_same
same_ids next current = length next == length current && every_same next current

module _ (codec : Codec) where
  -- What `getItem` returned; nothing and the empty text are no pins.
  unfoldable pub ids_of_raw : Option Text → List ℕ
  ids_of_raw none = []
  ids_of_raw (some []) = []
  ids_of_raw (some (c ∷ raw)) = ids_of_json (codec.parse (c ∷ raw))

  -- `none` where `getItem` throws.
  unfoldable pub read_pinned_ids : Text → LocalStorage → Option (List ℕ)
  read_pinned_ids key storage = Option.map ids_of_raw (get_item key storage)

  abbrev loaded : Text → Option (List ℕ) → PinState
  loaded key none = record { storage_key = key; ids = []; read_failed = true }
  loaded key (some ids) = record { storage_key = key; ids = ids; read_failed = false }

  unfoldable pub load_pins : Text → LocalStorage → PinState
  load_pins key storage = loaded key (read_pinned_ids key storage)

  -- A render for the address of a service.
  unfoldable pub render : Text → Hook → Hook
  render api_base_url h =
      let key = storage_key_of api_base_url in
      if text_eq h.state.storage_key key
      then h
      else let state = load_pins key h.storage in
        record h {
          state = state;
          error_toasts = if state.read_failed then h.error_toasts + 1 else h.error_toasts;
        }

  abbrev failed : Hook → Hook
  failed h = record h { error_toasts = h.error_toasts + 1 }

  -- After `setItem`; the state may have moved on to another key since the render.
  abbrev stored : Text → List ℕ → Hook → Option LocalStorage → Hook
  stored key next h none = failed h
  stored key next h (some storage) = record h {
    storage = storage;
    state =
        if text_eq h.state.storage_key key
        then record { storage_key = key; ids = next; read_failed = false }
        else h.state;
  }

  abbrev updated_from : Text → (List ℕ → List ℕ) → Hook → Option (List ℕ) → Hook
  updated_from key update h none = failed h
  updated_from key update h (some current) =
      let next = update current in
      if same_ids next current
      then h
      else stored key next h (set_item key (codec.stringify next) h.storage)

  -- `updatePins` of a render with this key. An exception shows the error and changes nothing.
  unfoldable pub update_pins : Text → (List ℕ → List ℕ) → Hook → Hook
  update_pins key update h = updated_from key update h (read_pinned_ids key h.storage)

abbrev pub toggled : ℕ → List ℕ → List ℕ
toggled id ids = if has id ids then remove id ids else ids ++ id ∷ []

abbrev pub reconciled : List ℕ → List ℕ → List ℕ
reconciled existing ids = keep (λ id. has id (set_of existing)) ids

unfoldable pub toggle_pin : Codec → Text → ℕ → Hook → Hook
toggle_pin codec key id = update_pins codec key (toggled id)

unfoldable pub remove_pin : Codec → Text → ℕ → Hook → Hook
remove_pin codec key id = update_pins codec key (remove id)

unfoldable pub reconcile_pins : Codec → Text → List ℕ → Hook → Hook
reconcile_pins codec key existing_ids = update_pins codec key (reconciled existing_ids)
