-- ===== src/Api/Encoding/Wire.antt =====
-- What an encoded key is made of.
use light_oss.Base.{
  ℕ, ◌/◌, ◌%◌, ◌<◌, ◌≡◌, ◌≢◌, refl, sym, true, ◌||◌, Option, none, some, List, [], ◌∷◌, ◌++◌, ◌==◌,
  All, All-append, arith, Bool-cases, Option-cases, inl, inr,
}
use light_oss.Base.Text.{Text, slash}
use light_oss.Base.Split.{Lacks}
use light_oss.Api.Encoding.{
  is_unreserved, hex_digit, percent, percents, utf8, code_point, escape, prepend, encode_from,
  encode_uri_component, escape_dots, is_low_surrogate, is_high_surrogate, encode_object_key_segment,
  encode_segments,
}

abbrev pub IsUnit : ℕ → Type 0
IsUnit c = c < 0x10000

-- A code unit that `encodeURIComponent` may leave.
abbrev pub IsWire : ℕ → Type 0
IsWire c = (is_unreserved c || c == b'%') ≡ true

hex_digit-IsWire : (n : ℕ) → n < 16 → IsWire (hex_digit n)
hex_digit-IsWire n h = ground arith

percent-IsWire : (octet : ℕ) → octet < 256 → All IsWire (percent octet)
percent-IsWire octet h = (
  refl,
  (hex_digit-IsWire (octet / 16) (omega arith), (hex_digit-IsWire (octet % 16) (omega arith), tt)),
)

percents-IsWire : (octets : List ℕ) → All (λ o. o < 256) octets → All IsWire (percents octets)
percents-IsWire [] h = tt
percents-IsWire (o ∷ octets) (h, hs) =
    All-append IsWire (percent o) (percents octets) (percent-IsWire o h) (percents-IsWire octets hs)

pub utf8-octets : (n : ℕ) → n < 0x110000 → All (λ o. o < 256) (utf8 n)
utf8-octets n h = ground arith

escape-IsWire : (c : ℕ) → IsUnit c → All IsWire (escape c)
escape-IsWire c h = elim (Bool-cases (is_unreserved c)) [
  | inl free ↦ rw free (rw free refl, tt)
  | inr other ↦ rw other (percents-IsWire (utf8 c) (utf8-octets c (omega arith)))
]

prepend-IsWire :
    (a : Text) (o : Option Text) (t : Text)
    → All IsWire a
    → ((r : Text) → o ≡ some r → All IsWire r)
    → prepend a o ≡ some t
    → All IsWire t
prepend-IsWire a none t h k e = cc
prepend-IsWire a (some r) t h k e =
    let same : a ++ r ≡ t = cc in rw (sym same) (All-append IsWire a r h (k r refl))

-- A high surrogate may be pending.
abbrev pub IsPending : Option ℕ → Type 0
IsPending none = Unit
IsPending (some high) = high < 0xDC00

pub encode_from-IsWire :
    (pending : Option ℕ) (s t : Text)
    → IsPending pending
    → All IsUnit s
    → encode_from pending s ≡ some t
    → All IsWire t
unfolding encode_from
encode_from-IsWire none [] t p h e = let same : [] ≡ t = cc in rw (sym same) tt
encode_from-IsWire (some high) [] t p h e = cc
encode_from-IsWire none (c ∷ s) t p (h, hs) e = elim (Bool-cases (is_low_surrogate c)) [
  | inl low ↦ cc (rw low at e)
  | inr not_low ↦ elim (Bool-cases (is_high_surrogate c)) [
    | inl high ↦ encode_from-IsWire (some c) s t (ground arith) hs (rw high at (rw not_low at e))
    | inr plain ↦
        prepend-IsWire (escape c) (encode_from none s) t (escape-IsWire c h)
          (λ r k. encode_from-IsWire none s r tt hs k) (rw plain at (rw not_low at e))
  ]
]
encode_from-IsWire (some high) (c ∷ s) t p (h, hs) e = elim (Bool-cases (is_low_surrogate c)) [
  | inl low ↦
      prepend-IsWire (percents (utf8 (code_point high c))) (encode_from none s) t
        (percents-IsWire (utf8 (code_point high c))
          (utf8-octets (code_point high c) (ground arith)))
        (λ r k. encode_from-IsWire none s r tt hs k) (rw low at e)
  | inr lone ↦ cc (rw lone at e)
]

-- What stands in an encoded segment: no dot and no slash.
abbrev pub IsSafe : ℕ → Type 0
IsSafe c = IsWire c × (c ≢ b'.')

pub safe-Lacks : (s : Text) → All IsSafe s → Lacks slash s
safe-Lacks [] h = tt
safe-Lacks (c ∷ s) ((w, d), hs) = (ground arith, safe-Lacks s hs)

escape_dots-IsSafe : (s : Text) → All IsWire s → All IsSafe (escape_dots s)
escape_dots-IsSafe [] h = tt
escape_dots-IsSafe (c ∷ s) (h, hs) = elim (Bool-cases (c == b'.')) [
  | inl dot ↦ rw dot (
    (refl, ground arith),
    ((refl, ground arith), ((refl, ground arith), escape_dots-IsSafe s hs)),
  )
  | inr other ↦ rw other ((h, ground arith), escape_dots-IsSafe s hs)
]

encode_object_key_segment-IsSafe :
    (s t : Text) → All IsUnit s → encode_object_key_segment s ≡ some t → All IsSafe t
unfolding encode_object_key_segment
encode_object_key_segment-IsSafe s t h e = elim (Option-cases (encode_uri_component s)) [
  | inl thrown ↦ cc (rw thrown at e)
  | inr (r, got) ↦
      let same : escape_dots r ≡ t = cc (rw got at e) in
      rw (sym same) (escape_dots-IsSafe r (encode_from-IsWire none s r tt h got))
]

pub encode_segments-IsSafe :
    (ws vs : List Text) → All (All IsUnit) ws → encode_segments ws ≡ some vs → All (All IsSafe) vs
unfolding encode_segments
encode_segments-IsSafe [] vs h e = let same : [] ≡ vs = cc in rw (sym same) tt
encode_segments-IsSafe (w ∷ ws) vs (h, hs) e = elim (Option-cases (encode_object_key_segment w)) [
  | inl thrown ↦ cc (rw thrown at e)
  | inr (v, got) ↦ elim (Option-cases (encode_segments ws)) [
    | inl failed ↦ cc (rw failed at (rw got at e))
    | inr (rest, gots) ↦
        let same : v ∷ rest ≡ vs = cc (rw gots at (rw got at e)) in
        rw (sym same)
          (encode_object_key_segment-IsSafe w v h got, encode_segments-IsSafe ws rest hs gots)
  ]
]
