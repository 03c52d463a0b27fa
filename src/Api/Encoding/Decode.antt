-- ===== src/Api/Encoding/Decode.antt =====
-- `decodeURIComponent` of ECMAScript, which undoes `encodeURIComponent`: two keys never have the
-- same path. A text is read by a machine: where it stands in a percent sign and its two digits, and
-- in the octets of a code point.
pub mod Octets
pub mod Roundtrip
use light_oss.Base.{
  ℕ, zero, suc, ◌+◌, ◌-◌, ◌*◌, ◌/◌, ◌%◌, ◌<◌, ◌≡◌, refl, sym, ap, ◌∙◌, Bool, true, false, not, ◌&&◌,
  ◌||◌, Option, none, some, List, [], ◌∷◌, ◌++◌, append_assoc, append-nil, ◌==◌, ltb, leb,
  if◌then◌else◌, All, arith, Bool-cases, Option-cases, inl, inr,
}
use light_oss.Base.Text.{Text, codes, slash}
use light_oss.Base.Split.{split, join, join-split}
use light_oss.Api.Encoding.{
  is_between, is_unreserved, hex_digit, percent, percents, utf8, code_point, escape, prepend,
  encode_from, encode_uri_component, escape_dots, is_low_surrogate, is_high_surrogate,
  encode_object_key_segment, encode_segments, encode_object_key,
}
use light_oss.Api.Encoding.Wire.{IsUnit, IsPending}
use mathlib.Core.Option

abbrev pub hex_value : ℕ → Option ℕ
hex_value c =
    if is_between 48 57 c
    then some (c - 48)
    else if is_between 65 70 c
    then some (c - 55)
    else if is_between 97 102 c
    then some (c - 87)
    else none

pub data Percent : Type 0 where
  plain after_percent : Percent
  after_digit : ℕ → Percent

-- The octets that are missing, what was read, and the least code point of that many octets.
pub data Sequence : Type 0 where
  ready : Sequence
  waiting : (missing value least : ℕ) → Sequence

abbrev pub units : ℕ → Text
units n =
    if ltb n 0x10000
    then n ∷ []
    else (0xD800 + (n - 0x10000) / 1024) ∷ ((0xDC00 + (n - 0x10000) % 1024) ∷ [])

abbrev pub is_code_point : ℕ → ℕ → Bool
is_code_point least n = leb least n && ltb n 0x110000 && not (is_between 0xD800 0xDFFF n)

abbrev pub first_octet : ℕ → Option (Text × Sequence)
first_octet o =
    if ltb o 0x80
    then some (o ∷ [], ready)
    else if is_between 0xC0 0xDF o
    then some ([], waiting 0 (o - 0xC0) 0x80)
    else if is_between 0xE0 0xEF o
    then some ([], waiting 1 (o - 0xE0) 0x800)
    else if is_between 0xF0 0xF7 o
    then some ([], waiting 2 (o - 0xF0) 0x10000)
    else none

-- One more octet; `missing` counts those after it.
abbrev pub next_octet : ℕ → Sequence → Option (Text × Sequence)
next_octet o ready = first_octet o
next_octet o (waiting zero value least) =
    if is_between 128 191 o && is_code_point least (64 * value + (o - 128))
    then some (units (64 * value + (o - 128)), ready)
    else none
next_octet o (waiting (suc missing) value least) =
    if is_between 128 191 o then some ([], waiting missing (64 * value + (o - 128)) least) else none

abbrev pub plain_unit : ℕ → Sequence → Option (Text × Sequence)
plain_unit c ready = some (c ∷ [], ready)
plain_unit c (waiting missing value least) = none

abbrev pub moved : Percent → Option (Text × Sequence) → Option (Text × Percent × Sequence)
moved p none = none
moved p (some (out, u)) = some (out, p, u)

abbrev pub digit_read :
    Option ℕ → (ℕ → Option (Text × Percent × Sequence)) → Option (Text × Percent × Sequence)
digit_read none use_digit = none
digit_read (some d) use_digit = use_digit d

abbrev pub step : ℕ → Percent → Sequence → Option (Text × Percent × Sequence)
step c plain u = if c == 37 then some ([], after_percent, u) else moved plain (plain_unit c u)
step c after_percent u = digit_read (hex_value c) (λ d. some ([], after_digit d, u))
step c (after_digit h) u = digit_read (hex_value c) (λ d. moved plain (next_octet (16 * h + d) u))

abbrev pub is_done : Percent → Sequence → Bool
is_done plain ready = true
is_done p u = false

unfoldable pub decode_from : Percent → Sequence → Text → Option Text
decode_from p u [] = if is_done p u then some [] else none
decode_from p u (c ∷ s) = elim (step c p u) [
  | none ↦ none
  | some (out, q, v) ↦ prepend out (decode_from q v s)
]

-- `decodeURIComponent`
unfoldable pub decode_uri_component : Text → Option Text
unfolding decode_from
decode_uri_component s = decode_from plain ready s
