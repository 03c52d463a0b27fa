-- ===== src/Api/Encoding/Decode/Roundtrip.antt =====
-- Decoding undoes encoding: two keys never have the same path.
use light_oss.Base.{
  ℕ, zero, suc, ◌≡◌, refl, sym, ap, ◌∙◌, true, false, Option, none, some, List, [], ◌∷◌, ◌++◌, ◌==◌,
  ==_iff, All, arith, Bool-cases, Option-cases, inl, inr,
}
use light_oss.Base.Text.{Text, slash}
use light_oss.Base.Split.{split, join, join-split}
use light_oss.Api.Encoding.{
  is_unreserved, percents, utf8, code_point, escape, prepend, encode_from, encode_uri_component,
  escape_dots, is_low_surrogate, is_high_surrogate, encode_object_key_segment, encode_segments,
  encode_object_key,
}
use light_oss.Api.Encoding.Wire.{IsUnit, utf8-octets}
use light_oss.Api.Encoding.Keys.{encode_object_key-split, All-split}
use light_oss.Api.Encoding.Decode.{
  Percent, plain, after_percent, after_digit, Sequence, ready, waiting, units, is_code_point, step,
  decode_from, decode_uri_component,
}
use light_oss.Api.Encoding.Decode.Octets.{prepend-nil, decoded, feed-utf8, decode-percents}

-- The octets of a code point before a text.
pub decode-utf8 :
    (n : ℕ) (s : Text)
    → is_code_point 0 n ≡ true
    → decode_from plain ready (percents (utf8 n) ++ s)
      ≡ prepend (units n) (decode_from plain ready s)
unfolding decoded
decode-utf8 n s h =
    decode-percents (utf8 n) ready s (utf8-octets n (ground (arith, h)))
    ∙ ap (λ x. decoded x s) (feed-utf8 n h)

pub decode-unit :
    (c : ℕ) (s : Text)
    → (c == 37) ≡ false
    → decode_from plain ready (c ∷ s) ≡ prepend (c ∷ []) (decode_from plain ready s)
unfolding decode_from
decode-unit c s h =
    let read : step c plain ready ≡ some (c ∷ [], plain, ready) = rw h refl in
    ap (λ x. elim x [ none ↦ none | some (out, q, v) ↦ prepend out (decode_from q v s) ]) read

decode-escape :
    (c : ℕ) (s : Text)
    → IsUnit c
    → is_low_surrogate c ≡ false
    → is_high_surrogate c ≡ false
    → decode_from plain ready (escape c ++ s) ≡ prepend (c ∷ []) (decode_from plain ready s)
decode-escape c s h low high = elim (Bool-cases (is_unreserved c)) [
  | inl free ↦ rw free (decode-unit c s (ground (arith, free)))
  | inr reserved ↦
      let one : units c ≡ c ∷ [] = ground arith in
      rw reserved (
        decode-utf8 c s (ground (arith, low, high))
        ∙ ap (λ t. prepend t (decode_from plain ready s)) one)
]

pub units-code_point :
    (high low : ℕ)
    → is_high_surrogate high ≡ true
    → is_low_surrogate low ≡ true
    → units (code_point high low) ≡ high ∷ (low ∷ [])
units-code_point high low h l = ground (arith, h, l)

abbrev IsHigh : Option ℕ → Type 0
IsHigh none = Unit
IsHigh (some high) = is_high_surrogate high ≡ true

abbrev held : Option ℕ → Text → Text
held none s = s
held (some high) s = high ∷ s

decode-encode_from :
    (pending : Option ℕ) (s t : Text)
    → IsHigh pending
    → All IsUnit s
    → encode_from pending s ≡ some t
    → decode_from plain ready t ≡ some (held pending s)
unfolding encode_from decode_from
decode-encode_from none [] t p h e = let same : [] ≡ t = cc in rw (sym same) refl
decode-encode_from (some high) [] t p h e = cc
decode-encode_from none (c ∷ s) t p (h, hs) e = elim (Bool-cases (is_low_surrogate c)) [
  | inl low ↦ cc (rw low at e)
  | inr not_low ↦ elim (Bool-cases (is_high_surrogate c)) [
    | inl high ↦ decode-encode_from (some c) s t high hs (rw high at (rw not_low at e))
    | inr lone ↦ elim (Option-cases (encode_from none s)) [
      | inl thrown ↦ cc (rw thrown at (rw lone at (rw not_low at e)))
      | inr (r, got) ↦
          let same : escape c ++ r ≡ t = cc (rw got at (rw lone at (rw not_low at e))) in
          rw (sym same) (
            decode-escape c r h not_low lone
            ∙ ap (prepend (c ∷ [])) (decode-encode_from none s r tt hs got))
    ]
  ]
]
decode-encode_from (some high) (c ∷ s) t p (h, hs) e = elim (Bool-cases (is_low_surrogate c)) [
  | inl low ↦ elim (Option-cases (encode_from none s)) [
    | inl thrown ↦ cc (rw thrown at (rw low at e))
    | inr (r, got) ↦
        let same : percents (utf8 (code_point high c)) ++ r ≡ t = cc (rw got at (rw low at e)) in
        rw (sym same) (
          decode-utf8 (code_point high c) r (ground (arith, p, low))
          ∙ ap (λ u. prepend u (decode_from plain ready r)) (units-code_point high c p low)
          ∙ ap (prepend (high ∷ (c ∷ []))) (decode-encode_from none s r tt hs got))
  ]
  | inr lone ↦ cc (rw lone at e)
]

follow :
    (x : Option (Text × Percent × Sequence)) (s t : Text)
    → ((p : Percent) (u : Sequence) → decode_from p u s ≡ decode_from p u t)
    → (elim x [ none ↦ none | some (out, q, v) ↦ prepend out (decode_from q v s) ])
      ≡ (elim x [ none ↦ none | some (out, q, v) ↦ prepend out (decode_from q v t) ])
follow none s t same = refl
follow (some (out, q, v)) s t same = ap (prepend out) (same q v)

pub decode-encode_uri_component :
    (s t : Text) → All IsUnit s → encode_uri_component s ≡ some t → decode_uri_component t ≡ some s
unfolding decode_uri_component
decode-encode_uri_component s t h e = decode-encode_from none s t tt h e

-- A dot may be written as its octet.
decode-dot :
    (p : Percent) (u : Sequence) (s t : Text)
    → ((q : Percent) (v : Sequence) → decode_from q v s ≡ decode_from q v t)
    → decode_from p u (b'%' ∷ (b'2' ∷ (b'E' ∷ s))) ≡ decode_from p u (b'.' ∷ t)
unfolding decode_from
decode-dot plain ready s t same =
    prepend-nil _ ∙ prepend-nil _ ∙ ap (prepend (b'.' ∷ [])) (same plain ready)
decode-dot plain (waiting zero value least) s t same = refl
decode-dot plain (waiting (suc missing) value least) s t same = refl
decode-dot after_percent u s t same = refl
decode-dot (after_digit h) u s t same = refl

decode-escape_dots :
    (p : Percent) (u : Sequence) (s : Text) → decode_from p u (escape_dots s) ≡ decode_from p u s
unfolding decode_from
decode-escape_dots p u [] = refl
decode-escape_dots p u (c ∷ s) = elim (Bool-cases (c == b'.')) [
  | inl dot ↦ rw dot (
      rw ((==_iff c b'.').0 dot)
        (decode-dot p u (escape_dots s) s (λ q v. decode-escape_dots q v s)))
  | inr other ↦ rw other (follow (step c p u) (escape_dots s) s (λ q v. decode-escape_dots q v s))
]

pub decode-encode_object_key_segment :
    (s t : Text)
    → All IsUnit s
    → encode_object_key_segment s ≡ some t
    → decode_uri_component t ≡ some s
unfolding encode_object_key_segment decode_uri_component
decode-encode_object_key_segment s t h e = elim (Option-cases (encode_uri_component s)) [
  | inl thrown ↦ cc (rw thrown at e)
  | inr (r, got) ↦
      let same : escape_dots r ≡ t = cc (rw got at e) in
      rw (sym same) (decode-escape_dots plain ready r ∙ decode-encode_from none s r tt h got)
]

encode_segments-cons :
    (w : Text) (ws rs : List Text)
    → encode_segments (w ∷ ws) ≡ some rs
    → (v : Text) × (vs : List Text) × (encode_object_key_segment w ≡ some v)
      × (encode_segments ws ≡ some vs)
      × (rs ≡ v ∷ vs)
unfolding encode_segments
encode_segments-cons w ws rs e = elim (Option-cases (encode_object_key_segment w)) [
  | inl thrown ↦ cc (rw thrown at e)
  | inr (v, got) ↦ elim (Option-cases (encode_segments ws)) [
    | inl failed ↦ cc (rw failed at (rw got at e))
    | inr (vs, gots) ↦ (v, vs, got, gots, cc (rw gots at (rw got at e)))
  ]
]

pub encode_segments_inj :
    (vs ws rs : List Text)
    → All (All IsUnit) vs
    → All (All IsUnit) ws
    → encode_segments vs ≡ some rs
    → encode_segments ws ≡ some rs
    → vs ≡ ws
unfolding encode_segments
encode_segments_inj [] [] rs h k e f = refl
encode_segments_inj [] (w ∷ ws) rs h k e f =
    let (v, vs, got, gots, r) = encode_segments-cons w ws rs f in cc (r, e)
encode_segments_inj (v ∷ vs) [] rs h k e f =
    let (x, xs, got, gots, r) = encode_segments-cons v vs rs e in cc (r, f)
encode_segments_inj (v ∷ vs) (w ∷ ws) rs (h, hs) (k, ks) e f =
    let (x, xs, x_got, xs_got, x_all) = encode_segments-cons v vs rs e in
    let (y, ys, y_got, ys_got, y_all) = encode_segments-cons w ws rs f in
    let heads : y ≡ x = cc (x_all, y_all) in
    let tails : ys ≡ xs = cc (x_all, y_all) in
    let same : v ≡ w = cc (
      decode-encode_object_key_segment v x h x_got,
      decode-encode_object_key_segment w x k (rw heads at y_got),
    ) in
    rw same (ap (λ t. w ∷ t) (encode_segments_inj vs ws xs hs ks xs_got (rw tails at ys_got)))

-- Two keys of code units that are encoded to the same path are the same key.
pub encode_object_key_inj :
    (key other path : Text)
    → All IsUnit key
    → All IsUnit other
    → encode_object_key key ≡ some path
    → encode_object_key other ≡ some path
    → key ≡ other
encode_object_key_inj key other path h k e f =
    sym (join-split slash key)
    ∙ ap (join slash) (
        encode_segments_inj (split slash key) (split slash other) (split slash path)
          (All-split key h) (All-split other k) (encode_object_key-split key path h e).0
          (encode_object_key-split other path k f).0)
    ∙ join-split slash other
