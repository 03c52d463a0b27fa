-- ===== src/Pins/Unary.antt =====
-- A codec of numbers in unary, and a state with two pins, for the theorems at concrete states.
use light_oss.Base.{
  number_key, ℕ, zero, suc, ◌∙◌, ◌+◌, ◌≡◌, refl, ◌≢◌, true, false, Option, none, some, List, [],
  ◌∷◌, map, ap, if◌then◌else◌, ◌==◌, arith,
}
use light_oss.Base.Text.{Text, codes}
use light_oss.Base.JsSet.{set_of}
use light_oss.Pins.Storage.{Item, number, Json, array, Codec, LocalStorage, get_item}
use light_oss.Pins.{Hook, ids_of, ids_of_json, ids_of_raw, read_pinned_ids}
use light_oss.Pins.Updates.{IsCoherent}

-- "[" before the numbers, each of them as many "1" and a ",".
ones : ℕ → Text → Text
ones zero rest = 44 ∷ rest
ones (suc n) rest = 49 ∷ ones n rest

pub written : List ℕ → Text
written [] = []
written (n ∷ ns) = ones n (written ns)

pub items_from : ℕ → Text → List Item
items_from n [] = []
items_from n (c ∷ rest) =
    let digit = items_from (suc n) rest in
    let done = items_from 0 rest in if c == 49 then digit else number n ∷ done

items_from-ones :
    (m n : ℕ) (rest : Text) → items_from m (ones n rest) ≡ number (m + n) ∷ items_from 0 rest
unfolding ones items_from
items_from-ones m zero rest = ap (λ k. number k ∷ items_from 0 rest) (omega arith)
items_from-ones m (suc n) rest =
    items_from-ones (suc m) n rest ∙ ap (λ k. number k ∷ items_from 0 rest) (omega arith)

pub items_from-written : (ns : List ℕ) → items_from 0 (written ns) ≡ map number ns
unfolding written
items_from-written [] = unfold items_from in refl
items_from-written (n ∷ ns) =
    let from_zero : 0 + n ≡ n = omega arith in
    items_from-ones 0 n (written ns)
    ∙ ap (λ k. number k ∷ items_from 0 (written ns)) from_zero
    ∙ ap (λ t. number n ∷ t) (items_from-written ns)

abbrev parsed : Text → Option Json
parsed [] = none
parsed (c ∷ rest) = some (array (items_from 0 rest))

pub written_ne : (ids : List ℕ) → 91 ∷ written ids ≢ []
written_ne ids e = (cc (e))

abbrev pub unary : Codec
unary = record {
  parse = parsed;
  stringify = λ ids. 91 ∷ written ids;
  parse-stringify = λ ids h. ap (λ items. some (array items)) (items_from-written ids);
  stringify-ne-nil = written_ne;
}

abbrev pub home : Text
home = codes "light-oss-pinned-buckets:http://a"

abbrev pub away : Text
away = codes "light-oss-pinned-buckets:http://b"

abbrev pub disk : LocalStorage
disk = record { items = λ key. some (91 ∷ written (3 ∷ 5 ∷ [])); readable = true; writable = true }

abbrev pub pinned : Hook
pinned = record {
  state = record { storage_key = home; ids = 3 ∷ 5 ∷ []; read_failed = false };
  storage = disk;
  error_toasts = 0;
}

pub pinned_read : read_pinned_ids unary home disk ≡ some (3 ∷ 5 ∷ [])
unfolding read_pinned_ids get_item ids_of_raw ids_of_json ids_of written ones items_from set_of
pinned_read = refl

pub pinned-IsCoherent : IsCoherent unary home pinned
pinned-IsCoherent = record { key_shown = refl; no_failure = refl; stored = pinned_read }

pub any_read : (key : Text) → read_pinned_ids unary key disk ≡ some (3 ∷ 5 ∷ [])
unfolding read_pinned_ids get_item ids_of_raw ids_of_json ids_of written ones items_from set_of
any_read key = refl
