-- ===== src/Base/Lists.antt =====
-- Arrays: lists over the native numbers.
use Prim.Native.Nat.{ℕ, zero, suc, ◌+◌}
use mathlib.Core.Path.{◌≡◌, refl, ap}
use mathlib.Core.Bool.{Bool, true, false, ◌&&◌}
use mathlib.Core.Option.{Option, none, some}
use mathlib.Core.List.{List, [], ◌∷◌, ◌++◌}
use native.Mathlib.Omega.{arith}
use light_oss.Base.Tests.{if◌then◌else◌}

module _ {ℓ} {A : Type ℓ} where
  abbrev pub length : List A → ℕ
  length [] = 0
  length (x ∷ xs) = suc (length xs)

  abbrev pub is_empty : List A → Bool
  is_empty [] = true
  is_empty (x ∷ xs) = false

  -- `xs[xs.length - 1]`
  abbrev pub last_of : List A → Option A
  last_of [] = none
  last_of (x ∷ []) = some x
  last_of (x ∷ (y ∷ ys)) = last_of (y ∷ ys)

  -- `xs.slice(0, -1)`
  abbrev pub drop_last : List A → List A
  drop_last [] = []
  drop_last (x ∷ []) = []
  drop_last (x ∷ (y ∷ ys)) = x ∷ drop_last (y ∷ ys)

  -- `xs.slice(0, n)`
  abbrev pub take : ℕ → List A → List A
  take zero xs = []
  take (suc n) [] = []
  take (suc n) (x ∷ xs) = x ∷ take n xs

  abbrev pub all : (A → Bool) → List A → Bool
  all p [] = true
  all p (x ∷ xs) = p x && all p xs

  -- `xs.filter(p)`
  abbrev pub keep : (A → Bool) → List A → List A
  keep p [] = []
  keep p (x ∷ xs) = if p x then x ∷ keep p xs else keep p xs

  pub length-append : (xs ys : List A) → length (xs ++ ys) ≡ length xs + length ys
  length-append [] ys = omega arith
  length-append (x ∷ xs) ys = omega (arith, length-append xs ys)

  pub last_of-append : (xs : List A) (x : A) → last_of (xs ++ x ∷ []) ≡ some x
  last_of-append [] x = refl
  last_of-append (y ∷ []) x = refl
  last_of-append (y ∷ (z ∷ zs)) x = last_of-append (z ∷ zs) x

  pub drop_last-append : (xs : List A) (x : A) → drop_last (xs ++ x ∷ []) ≡ xs
  drop_last-append [] x = refl
  drop_last-append (y ∷ []) x = refl
  drop_last-append (y ∷ (z ∷ zs)) x = ap (λ t. y ∷ t) (drop_last-append (z ∷ zs) x)

  pub take-length-append : (xs ys : List A) → take (length xs) (xs ++ ys) ≡ xs
  take-length-append [] ys = refl
  take-length-append (x ∷ xs) ys = ap (λ t. x ∷ t) (take-length-append xs ys)

  pub keep-append : (p : A → Bool) (xs ys : List A) → keep p (xs ++ ys) ≡ keep p xs ++ keep p ys
  keep-append p [] ys = refl
  keep-append p (x ∷ xs) ys = ground (arith, keep-append p xs ys)

module _ {ℓ κ} {A : Type ℓ} (P : A → Type κ) where
  abbrev pub All : List A → Type κ
  All [] = Unit
  All (x ∷ xs) = P x × All xs

  pub All-append : (xs ys : List A) → All xs → All ys → All (xs ++ ys)
  All-append [] ys h k = k
  All-append (x ∷ xs) ys (p, h) k = (p, All-append xs ys h k)
