-- ===== src/Api/Encoding/Keys.antt =====
-- The segments of an encoded key.
use light_oss.Base.{
  ℕ, ◌≡◌, ◌≢◌, refl, sym, ap, ◌∙◌, ◌⊎◌, inl, inr, some, List, [], ◌∷◌, ◌==◌, All, All-append,
  Bool-cases, Option-cases,
}
use light_oss.Base.Text.{Text, slash}
use light_oss.Base.Split.{split, join, cons_head, Lacks, split-join, split-ne-nil}
use light_oss.Api.Encoding.{encode_object_key_segment, encode_segments, encode_object_key}
use light_oss.Api.Encoding.Wire.{IsUnit, IsSafe, safe-Lacks, encode_segments-IsSafe}

All-cons_head :
    (x : ℕ) (ws : List Text) → IsUnit x → All (All IsUnit) ws → All (All IsUnit) (cons_head x ws)
All-cons_head x [] h k = ((h, tt), tt)
All-cons_head x (w ∷ ws) h (k, ks) = ((h, k), ks)

pub All-split : (s : Text) → All IsUnit s → All (All IsUnit) (split slash s)
unfolding split
All-split [] h = (tt, tt)
All-split (c ∷ s) (h, hs) = elim (Bool-cases (c == slash)) [
  | inl same ↦ rw same (tt, All-split s hs)
  | inr other ↦ rw other (All-cons_head c (split slash s) h (All-split s hs))
]

All-Lacks : (ws : List Text) → All (All IsSafe) ws → All (Lacks slash) ws
All-Lacks [] h = tt
All-Lacks (w ∷ ws) (h, hs) = (safe-Lacks w h, All-Lacks ws hs)

encode_segments-ne-nil : (ws vs : List Text) → ws ≢ [] → encode_segments ws ≡ some vs → vs ≢ []
unfolding encode_segments
encode_segments-ne-nil [] vs h e = absurd (h refl)
encode_segments-ne-nil (w ∷ ws) [] h e = elim (Option-cases (encode_object_key_segment w)) [
  | inl thrown ↦ cc (rw thrown at e)
  | inr (v, got) ↦ elim (Option-cases (encode_segments ws)) [
    | inl failed ↦ cc (rw failed at (rw got at e))
    | inr (rest, gots) ↦ cc (rw gots at (rw got at e))
  ]
]
encode_segments-ne-nil (w ∷ ws) (v ∷ vs) h e = λ k. cc k

split-join_ne : (vs : List Text) → vs ≢ [] → All (Lacks slash) vs → split slash (join slash vs) ≡ vs
split-join_ne [] h k = absurd (h refl)
split-join_ne (v ∷ vs) h k = split-join slash v vs k

-- A slash, or what may stand in an encoded segment.
abbrev pub IsPathUnit : ℕ → Type 0
IsPathUnit c = (c ≡ slash) ⊎ IsSafe c

All-weaken : (s : Text) → All IsSafe s → All IsPathUnit s
All-weaken [] h = tt
All-weaken (c ∷ s) (h, hs) = (inr h, All-weaken s hs)

All-join : (ws : List Text) → All (All IsSafe) ws → All IsPathUnit (join slash ws)
unfolding join
All-join [] h = tt
All-join (w ∷ []) (h, hs) = All-weaken w h
All-join (w ∷ (v ∷ ws)) (h, hs) =
    All-append IsPathUnit w (slash ∷ join slash (v ∷ ws)) (All-weaken w h)
      (inl refl, All-join (v ∷ ws) hs)

-- For a key of code units, encoding that does not throw keeps the segments, each encoded on its
-- own, and leaves nothing but slashes, percent signs, and unreserved characters other than dots.
pub encode_object_key-split :
    (object_key path : Text)
    → All IsUnit object_key
    → encode_object_key object_key ≡ some path
    → (encode_segments (split slash object_key) ≡ some (split slash path)) × All IsPathUnit path
unfolding encode_object_key
encode_object_key-split object_key path h e =
    elim (Option-cases (encode_segments (split slash object_key))) [
      | inl thrown ↦ cc (rw thrown at e)
      | inr (vs, got) ↦
          let same : join slash vs ≡ path = cc (rw got at e) in
          let safe =
            encode_segments-IsSafe (split slash object_key) vs (All-split object_key h) got in
          rw (sym same) (
            got
                ∙ ap some (
                    sym (
                      split-join_ne vs
                        (encode_segments-ne-nil (split slash object_key) vs
                          (split-ne-nil slash object_key) got)
                        (All-Lacks vs safe))),
            All-join vs safe,
          )
    ]
