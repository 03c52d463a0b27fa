-- ===== src/Api/Encoding/Decode/Octets.antt =====
-- The octets of a code point are read as that code point.
use light_oss.Base.{
  ℕ, zero, suc, ◌+◌, ◌-◌, ◌*◌, ◌/◌, ◌%◌, ◌<◌, ◌≡◌, refl, sym, ap, ◌∙◌, true, false, Option, none,
  some, List, [], ◌∷◌, ◌++◌, append_assoc, append-nil, ltb, leb, All, arith, Bool-cases, inl, inr,
}
use light_oss.Base.Text.{Text}
use light_oss.Api.Encoding.{hex_digit, percent, percents, utf8, prepend}
use light_oss.Api.Encoding.Decode.{
  plain, Sequence, ready, waiting, hex_value, units, is_code_point, first_octet, next_octet, moved,
  decode_from,
}

unfoldable pub decoded : Option (Text × Sequence) → Text → Option Text
decoded none s = none
decoded (some (out, u)) s = prepend out (decode_from plain u s)

hex_digit-value : (n : ℕ) → n < 16 → hex_value (hex_digit n) ≡ some n
hex_digit-value n h = ground arith

pub prepend-nil : (o : Option Text) → prepend [] o ≡ o
prepend-nil none = refl
prepend-nil (some t) = refl

prepend-prepend : (a b : Text) (o : Option Text) → prepend a (prepend b o) ≡ prepend (a ++ b) o
prepend-prepend a b none = refl
prepend-prepend a b (some t) = ap some (sym (append_assoc a b t))

decode-moved :
    (o : Option (Text × Sequence)) (s : Text)
    → (elim (moved plain o) [ none ↦ none | some (out, q, v) ↦ prepend out (decode_from q v s) ])
      ≡ decoded o s
unfolding decoded
decode-moved none s = refl
decode-moved (some (out, u)) s = refl

decode-percent :
    (o : ℕ) (u : Sequence) (s : Text)
    → o < 256
    → decode_from plain u (percent o ++ s) ≡ decoded (next_octet o u) s
unfolding decode_from
decode-percent o u s h =
    let whole : 16 * (o / 16) + o % 16 ≡ o = omega arith in
    rw (hex_digit-value (o / 16) (omega arith)) (
      rw (hex_digit-value (o % 16) (omega arith)) (
        prepend-nil _
        ∙ prepend-nil _
        ∙ decode-moved (next_octet (16 * (o / 16) + o % 16) u) s
        ∙ ap (λ k. decoded (next_octet k u) s) whole))

-- Sequence one after the other, with what they yield.
attach : Text → Option (Text × Sequence) → Option (Text × Sequence)
attach out none = none
attach out (some (more, u)) = some (out ++ more, u)

pub feed : List ℕ → Sequence → Option (Text × Sequence)
feed [] u = some ([], u)
feed (o ∷ os) u = elim (next_octet o u) [ none ↦ none | some (out, v) ↦ attach out (feed os v) ]

decoded-attach :
    (out : Text) (o : Option (Text × Sequence)) (s : Text)
    → prepend out (decoded o s) ≡ decoded (attach out o) s
unfolding decoded attach
decoded-attach out none s = refl
decoded-attach out (some (more, u)) s = prepend-prepend out more (decode_from plain u s)

decoded-elim :
    (os : List ℕ) (s : Text) (x : Option (Text × Sequence))
    → ((v : Sequence) → decode_from plain v (percents os ++ s) ≡ decoded (feed os v) s)
    → decoded x (percents os ++ s)
      ≡ decoded (elim x [ none ↦ none | some (out, v) ↦ attach out (feed os v) ]) s
unfolding decoded
decoded-elim os s none rest = refl
decoded-elim os s (some (out, v)) rest =
    ap (prepend out) (rest v) ∙ decoded-attach out (feed os v) s

pub decode-percents :
    (os : List ℕ) (u : Sequence) (s : Text)
    → All (λ o. o < 256) os
    → decode_from plain u (percents os ++ s) ≡ decoded (feed os u) s
unfolding decoded feed
decode-percents [] u s h = sym (prepend-nil (decode_from plain u s))
decode-percents (o ∷ os) u s (h, hs) =
    ap (decode_from plain u) (append_assoc (percent o) (percents os) s)
    ∙ decode-percent o u (percents os ++ s) h
    ∙ decoded-elim os s (next_octet o u) (λ v. decode-percents os v s hs)

last_octet :
    (v least r : ℕ)
    → r < 64
    → is_code_point least (64 * v + r) ≡ true
    → next_octet (128 + r) (waiting zero v least) ≡ some (units (64 * v + r), ready)
last_octet v least r h k =
    let whole : 64 * v + (128 + r - 128) ≡ 64 * v + r = omega arith in
    rw whole (rw k (ground arith))

more_octet :
    (m v least r : ℕ)
    → r < 64
    → next_octet (128 + r) (waiting (suc m) v least) ≡ some ([], waiting m (64 * v + r) least)
more_octet m v least r h =
    let whole : 64 * v + (128 + r - 128) ≡ 64 * v + r = omega arith in rw whole (ground arith)

first_of_two : (q : ℕ) → q < 32 → first_octet (192 + q) ≡ some ([], waiting 0 q 0x80)
first_of_two q h = ground arith

first_of_three : (q : ℕ) → q < 16 → first_octet (224 + q) ≡ some ([], waiting 1 q 0x800)
first_of_three q h = ground arith

first_of_four : (q : ℕ) → q < 8 → first_octet (240 + q) ≡ some ([], waiting 2 q 0x10000)
first_of_four q h = ground arith

feed-cons :
    (o : ℕ) (os : List ℕ) (u v : Sequence) (out : Text)
    → next_octet o u ≡ some (out, v)
    → feed (o ∷ os) u ≡ attach out (feed os v)
unfolding feed
feed-cons o os u v out e =
    ap (λ x. elim x [ none ↦ none | some (more, w) ↦ attach more (feed os w) ]) e

-- The last octet of a code point.
feed-last :
    (n v least r : ℕ)
    → r < 64
    → 64 * v + r ≡ n
    → is_code_point 0 n ≡ true
    → leb least n ≡ true
    → feed ((128 + r) ∷ []) (waiting zero v least) ≡ some (units n, ready)
unfolding feed attach
feed-last n v least r h e valid enough =
    let range : is_code_point least (64 * v + r) ≡ true = rw e (ground (arith, valid, enough)) in
    feed-cons (128 + r) [] (waiting zero v least) ready _ (last_octet v least r h range)
    ∙ ap (λ (t : Text). some (t, ready)) (append-nil (units (64 * v + r)) ∙ ap units e)

feed-next :
    (m v least r : ℕ) (os : List ℕ)
    → r < 64
    → feed ((128 + r) ∷ os) (waiting (suc m) v least)
      ≡ attach [] (feed os (waiting m (64 * v + r) least))
feed-next m v least r os h =
    feed-cons (128 + r) os (waiting (suc m) v least) _ [] (more_octet m v least r h)

feed_as :
    (os rs : List ℕ) (x : Option (Text × Sequence))
    → os ≡ rs
    → feed rs ready ≡ x
    → feed os ready ≡ x
feed_as os rs x e k = ap (λ l. feed l ready) e ∙ k

module _ (n : ℕ) (h : is_code_point 0 n ≡ true) where
  feed-two :
      ltb n 0x80 ≡ false
      → ltb n 0x800 ≡ true
      → feed ((192 + n / 64) ∷ ((128 + n % 64) ∷ [])) ready ≡ some (units n, ready)
  unfolding attach
  feed-two more two =
      feed-cons _ _ ready _ [] (first_of_two (n / 64) (ground (arith, two)))
      ∙ ap (attach [])
          (feed-last n (n / 64) 0x80 (n % 64) (omega arith) (omega arith) h (ground (arith, more)))

  feed-three :
      ltb n 0x800 ≡ false
      → ltb n 0x10000 ≡ true
      → feed ((224 + n / 4096) ∷ ((128 + n / 64 % 64) ∷ ((128 + n % 64) ∷ []))) ready
        ≡ some (units n, ready)
  unfolding attach
  feed-three more three =
      feed-cons _ _ ready _ [] (first_of_three (n / 4096) (ground (arith, three)))
      ∙ ap (attach []) (
          feed-next 0 (n / 4096) 0x800 (n / 64 % 64) ((128 + n % 64) ∷ []) (omega arith)
          ∙ ap (attach []) (
              feed-last n (64 * (n / 4096) + n / 64 % 64) 0x800 (n % 64) (omega arith) (omega arith)
                h (ground (arith, more))))

  feed-four :
      ltb n 0x10000 ≡ false
      → feed
          ((240 + n / 262144)
            ∷ ((128 + n / 4096 % 64) ∷ ((128 + n / 64 % 64) ∷ ((128 + n % 64) ∷ []))))
          ready
        ≡ some (units n, ready)
  unfolding attach
  feed-four more =
      feed-cons _ _ ready _ [] (first_of_four (n / 262144) (ground (arith, h)))
      ∙ ap (attach []) (
          feed-next 1 (n / 262144) 0x10000 (n / 4096 % 64) _ (omega arith)
          ∙ ap (attach []) (
              feed-next 0 (64 * (n / 262144) + n / 4096 % 64) 0x10000 (n / 64 % 64)
                ((128 + n % 64) ∷ []) (omega arith)
              ∙ ap (attach []) (
                  feed-last n (64 * (64 * (n / 262144) + n / 4096 % 64) + n / 64 % 64) 0x10000
                    (n % 64) (omega arith) (omega arith) h (ground (arith, more)))))

  pub feed-utf8 : feed (utf8 n) ready ≡ some (units n, ready)
  unfolding feed attach
  feed-utf8 = elim (Bool-cases (ltb n 0x80)) [
    | inl one ↦ rw one (ground (arith, one))
    | inr more ↦ elim (Bool-cases (ltb n 0x800)) [
      | inl two ↦
          feed_as (utf8 n) ((192 + n / 64) ∷ ((128 + n % 64) ∷ [])) _ (rw more (rw two refl))
            (feed-two more two)
      | inr others ↦ elim (Bool-cases (ltb n 0x10000)) [
        | inl three ↦
            feed_as (utf8 n) ((224 + n / 4096) ∷ ((128 + n / 64 % 64) ∷ ((128 + n % 64) ∷ []))) _
              (rw more (rw others (rw three refl))) (feed-three others three)
        | inr four ↦
            feed_as (utf8 n)
              ((240 + n / 262144)
                ∷ ((128 + n / 4096 % 64) ∷ ((128 + n / 64 % 64) ∷ ((128 + n % 64) ∷ []))))
              _ (rw more (rw others (rw four refl))) (feed-four four)
      ]
    ]
  ]
