-- ===== src/Base/Decimal.antt =====
-- Decimal digits: the text of a number, and the number that a text begins with.
use Prim.Native.Nat.{ℕ, zero, suc, ◌+◌, ◌-◌, ◌*◌, ◌/◌, ◌%◌, ◌<◌}
use mathlib.Core.Path.{◌≡◌, refl, sym, ap, ◌∙◌}
use mathlib.Core.Logic.{inl, inr, ◌≢◌}
use mathlib.Core.Bool.{Bool, true, false, ◌&&◌}
use mathlib.Core.List.{[], ◌∷◌, ◌++◌}
use native.Mathlib.Omega.{arith}
use light_oss.Base.Tests.{ltb, leb, if◌then◌else◌, Bool-cases}
use light_oss.Base.Lists.{all, length}
use light_oss.Base.Text.{Text}

-- The decimal digits of a number below 10 ^ `fuel`.
unfoldable pub digits : (fuel : ℕ) → ℕ → Text
digits zero n = []
digits (suc fuel) n =
    let above = digits fuel (n / 10) in
    if ltb n 10 then (48 + n) ∷ [] else above ++ (48 + n % 10) ∷ []

unfoldable pub decimal : ℕ → Text
unfolding digits
decimal n = digits (suc n) n

-- The number that decimal digits write, after those that were read.
abbrev pub value_from : ℕ → Text → ℕ
value_from n [] = n
value_from n (c ∷ s) = value_from (10 * n + (c - 48)) s

pub value_from-append :
    (n : ℕ) (s : Text) (c : ℕ) → value_from n (s ++ c ∷ []) ≡ 10 * value_from n s + (c - 48)
value_from-append n [] c = refl
value_from-append n (d ∷ s) c = value_from-append (10 * n + (d - 48)) s c

pub value_from-digits : (fuel n : ℕ) → n < fuel → value_from 0 (digits fuel n) ≡ n
unfolding digits
value_from-digits zero n h = omega arith
value_from-digits (suc fuel) n h = elim (Bool-cases (ltb n 10)) [
  | inl small ↦ rw small (omega arith)
  | inr large ↦
      let fits : n / 10 < fuel = ground arith in
      rw large (
        rw (value_from-append 0 (digits fuel (n / 10)) (48 + n % 10))
          (rw (value_from-digits fuel (n / 10) fits) (omega arith)))
]

-- Two numbers have different digits.
pub decimal_inj : (m n : ℕ) → decimal m ≡ decimal n → m ≡ n
unfolding decimal
decimal_inj m n e =
    sym (value_from-digits (suc m) m (omega arith))
    ∙ ap (value_from 0) e
    ∙ value_from-digits (suc n) n (omega arith)

abbrev pub is_digit : ℕ → Bool
is_digit c = leb 48 c && leb c 57

-- The number of the digits that a text begins with, how many there are, and the rest.
unfoldable pub scan_digits : (value count : ℕ) → Text → ℕ × ℕ × Text
scan_digits value count [] = (value, count, [])
scan_digits value count (c ∷ s) =
    let rest = scan_digits (10 * value + (c - 48)) (count + 1) s in
    if is_digit c then rest else (value, count, c ∷ s)

all-append : (p : ℕ → Bool) (s t : Text) → all p (s ++ t) ≡ (all p s && all p t)
all-append p [] t = refl
all-append p (c ∷ s) t = ground (arith, all-append p s t)

pub all-digits : (fuel n : ℕ) → all is_digit (digits fuel n) ≡ true
unfolding digits
all-digits zero n = refl
all-digits (suc fuel) n = elim (Bool-cases (ltb n 10)) [
  | inl small ↦ rw small (ground arith)
  | inr large ↦ rw large (
      rw (all-append is_digit (digits fuel (n / 10)) ((48 + n % 10) ∷ []))
        (rw (all-digits fuel (n / 10)) (ground arith)))
]

-- The scan reads all of the digits before a character that is none.
pub scan_digits-append :
    (value count : ℕ) (s : Text) (c : ℕ) (t : Text)
    → all is_digit s ≡ true
    → is_digit c ≡ false
    → scan_digits value count (s ++ (c ∷ t)) ≡ (value_from value s, count + length s, c ∷ t)
unfolding scan_digits
scan_digits-append value count [] c t a b = rw b (ap (λ (k : ℕ). (value, k, c ∷ t)) (omega arith))
scan_digits-append value count (d ∷ s) c t a b =
    let own : is_digit d ≡ true = ground (arith, a) in
    let others : all is_digit s ≡ true = ground (arith, a) in
    rw own (
      scan_digits-append (10 * value + (d - 48)) (count + 1) s c t others b
      ∙ ap (λ (k : ℕ). (value_from (10 * value + (d - 48)) s, k, c ∷ t)) (omega arith))

pub decimal_ne : (n : ℕ) → decimal n ≢ []
unfolding decimal digits
decimal_ne n = elim (Bool-cases (ltb n 10)) [
  | inl small ↦ rw small (λ e. cc e)
  | inr large ↦ rw large (snoc_ne (digits n (n / 10)) (48 + n % 10))
]
  where
    snoc_ne : (s : Text) (c : ℕ) → s ++ c ∷ [] ≢ []
    snoc_ne [] c e = cc e
    snoc_ne (x ∷ s) c e = cc e

pub all-decimal : (n : ℕ) → all is_digit (decimal n) ≡ true
unfolding decimal
all-decimal n = all-digits (suc n) n

pub value_from-decimal : (n : ℕ) → value_from 0 (decimal n) ≡ n
unfolding decimal
value_from-decimal n = value_from-digits (suc n) n (omega arith)
