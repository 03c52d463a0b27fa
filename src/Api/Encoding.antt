-- ===== src/Api/Encoding.antt =====
-- frontend/src/api/objects.ts: object keys in addresses. `encodeURIComponent` is that of ECMAScript:
-- UTF-8 with percent signs, and an exception for a surrogate without its partner.
pub mod Wire
pub mod Keys
pub mod Decode
use light_oss.Base.{
  ℕ, ◌+◌, ◌-◌, ◌*◌, ◌/◌, ◌%◌, Bool, true, false, ◌&&◌, ◌||◌, Option, none, some, List, [], ◌∷◌,
  ◌++◌, ◌==◌, ltb, leb, if◌then◌else◌,
}
use light_oss.Base.Text.{Text, codes, slash, is_slash, strip_end, trim}
use light_oss.Base.Split.{split, join}
use mathlib.Core.Option

abbrev pub is_between : ℕ → ℕ → ℕ → Bool
is_between low high c = leb low c && leb c high

-- Letters, digits and -_.!~*'()
abbrev pub is_unreserved : ℕ → Bool
is_unreserved c =
    is_between b'a' b'z' c
    || is_between b'A' b'Z' c
    || is_between b'0' b'9' c
    || c == b'-'
    || c == b'_'
    || c == b'.'
    || c == b'!'
    || c == b'~'
    || c == b'*'
    || c == 39
    || c == b'('
    || c == b')'

abbrev pub is_high_surrogate : ℕ → Bool
is_high_surrogate = is_between 0xD800 0xDBFF

abbrev pub is_low_surrogate : ℕ → Bool
is_low_surrogate = is_between 0xDC00 0xDFFF

-- A digit of base 16, in upper case.
abbrev pub hex_digit : ℕ → ℕ
hex_digit n = if ltb n 10 then 48 + n else 55 + n

abbrev pub percent : ℕ → Text
percent octet = b'%' ∷ hex_digit (octet / 16) ∷ hex_digit (octet % 16) ∷ []

abbrev pub percents : List ℕ → Text
percents [] = []
percents (octet ∷ octets) = percent octet ++ percents octets

abbrev continuation : ℕ → ℕ
continuation n = 128 + n % 64

-- The octets of a code point.
abbrev pub utf8 : ℕ → List ℕ
utf8 n =
    if ltb n 0x80
    then n ∷ []
    else if ltb n 0x800
    then (192 + n / 64) ∷ continuation n ∷ []
    else if ltb n 0x10000
    then (224 + n / 4096) ∷ continuation (n / 64) ∷ continuation n ∷ []
    else (240 + n / 262144) ∷ continuation (n / 4096) ∷ continuation (n / 64) ∷ continuation n ∷ []

abbrev pub code_point : ℕ → ℕ → ℕ
code_point high low = 0x10000 + (high - 0xD800) * 1024 + (low - 0xDC00)

abbrev pub escape : ℕ → Text
escape c = if is_unreserved c then c ∷ [] else percents (utf8 c)

abbrev pub prepend : Text → Option Text → Option Text
prepend s none = none
prepend s (some t) = some (s ++ t)

-- The rest of a text after a high surrogate, or after none; `none` is an exception.
unfoldable pub encode_from : Option ℕ → Text → Option Text
encode_from none [] = some []
encode_from (some high) [] = none
encode_from none (c ∷ s) =
    let rest = encode_from (if is_high_surrogate c then some c else none) s in
    if is_low_surrogate c
    then none
    else if is_high_surrogate c
    then rest
    else prepend (escape c) rest
encode_from (some high) (c ∷ s) =
    let rest = encode_from none s in
    if is_low_surrogate c then prepend (percents (utf8 (code_point high c))) rest else none

abbrev pub encode_uri_component : Text → Option Text
encode_uri_component s = encode_from none s

-- `.replace(/\./g, "%2E")`
abbrev pub escape_dots : Text → Text
escape_dots [] = []
escape_dots (c ∷ s) = if c == b'.' then codes "%2E" ++ escape_dots s else c ∷ escape_dots s

unfoldable pub encode_object_key_segment : Text → Option Text
encode_object_key_segment segment = Option.map escape_dots (encode_uri_component segment)

abbrev pub cons_part : Option Text → Option (List Text) → Option (List Text)
cons_part none ws = none
cons_part (some w) none = none
cons_part (some w) (some ws) = some (w ∷ ws)

-- `.map(encodeObjectKeySegment)`
unfoldable pub encode_segments : List Text → Option (List Text)
unfolding encode_object_key_segment
encode_segments [] = some []
encode_segments (w ∷ ws) = cons_part (encode_object_key_segment w) (encode_segments ws)

unfoldable pub encode_object_key : Text → Option Text
encode_object_key object_key = Option.map (join slash) (encode_segments (split slash object_key))

unfoldable pub build_api_url : Text → Text → Text
build_api_url api_base_url path = strip_end is_slash (trim api_base_url) ++ path
