-- ===== src/Pins/Storage.antt =====
-- `localStorage`, which may refuse to be read or written, and `JSON` as far as the pins use it.
use light_oss.Base.{
  ℕ, ◌≡◌, ◌≢◌, Bool, Option, none, some, List, [], map, ◌≤◌, ◌<◌, All, if◌then◌else◌,
}
use light_oss.Base.Text.{Text, text_eq}

-- 2 ^ 53 - 1
abbrev pub max_safe_integer : ℕ
max_safe_integer = 9007199254740991

-- An element of a parsed array: a natural number, or anything else.
pub data Item : Type 0 where
  number : ℕ → Item
  other : Item

-- A parsed document: an array, or anything else.
pub data Json : Type 0 where
  array : List Item → Json
  scalar : Json

abbrev pub IsId : ℕ → Type 0
IsId n = (n ≤ max_safe_integer) × (0 < n)

-- `JSON.parse`, which is `none` where it throws, and `JSON.stringify` of an array of numbers.
pub record Codec : Type 0 where
  pub parse : Text → Option Json
  pub stringify : List ℕ → Text
  pub parse-stringify :
      (ids : List ℕ) → All IsId ids → parse (stringify ids) ≡ some (array (map number ids))
  pub stringify-ne-nil : (ids : List ℕ) → stringify ids ≢ []

pub record LocalStorage : Type 0 where
  pub items : Text → Option Text
  pub readable : Bool
  pub writable : Bool

-- The outer `none` is an exception.
unfoldable pub get_item : Text → LocalStorage → Option (Option Text)
get_item key s = if s.readable then some (s.items key) else none

unfoldable pub set_item : Text → Text → LocalStorage → Option LocalStorage
set_item key value s =
    if s.writable
    then some (record s { items = λ k. if text_eq key k then some value else s.items k })
    else none
