-- ===== src/Base/JsSet.antt =====
-- The `Set` of JavaScript: its values in the order of insertion, each once.
use mathlib.Core.Path.{◌≡◌, refl, sym, ◌∙◌}
use mathlib.Core.Logic.{inl, inr}
use mathlib.Core.Bool.{Bool, true, false, ◌&&◌, ◌||◌, not}
use mathlib.Core.List.{List, [], ◌∷◌, ◌++◌, append_assoc, append-nil}
use native.Mathlib.Omega.{arith}
use light_oss.Base.Tests.{Key, if◌then◌else◌, Bool-cases}
use light_oss.Base.Lists.{keep, All, All-append}

module _ {ℓ} {A : Type ℓ} ⦃key : Key A⦄ where
  abbrev pub has : A → List A → Bool
  has a [] = false
  has a (x ∷ xs) = key.same x a || has a xs

  -- `set.add(a)` keeps the order of a value that is there.
  abbrev pub add : A → List A → List A
  add a xs = if has a xs then xs else xs ++ a ∷ []

  -- `set.delete(a)`, and `xs.filter((x) => x !== a)`
  abbrev pub remove : A → List A → List A
  remove a [] = []
  remove a (x ∷ xs) = if key.same x a then remove a xs else x ∷ remove a xs

  add_all : List A → List A → List A
  add_all acc [] = acc
  add_all acc (x ∷ xs) = add_all (add x acc) xs

  -- `new Set(xs)`
  unfoldable pub set_of : List A → List A
  unfolding add_all
  set_of xs = add_all [] xs

  -- No value stands twice.
  abbrev pub IsDistinct : List A → Type 0
  IsDistinct [] = Unit
  IsDistinct (x ∷ xs) = (has x xs ≡ false) × IsDistinct xs

  pub same_refl : (a : A) → key.same a a ≡ true
  same_refl a = (key.same_iff a a).1 refl

  pub has-append : (a : A) (xs ys : List A) → has a (xs ++ ys) ≡ (has a xs || has a ys)
  has-append a [] ys = refl
  has-append a (x ∷ xs) ys = ground (arith, has-append a xs ys)

  pub has-add : (a b : A) (xs : List A) → has b (add a xs) ≡ (has b xs || key.same a b)
  has-add a b xs = ground (arith, has-append b xs (a ∷ []), key.same_iff a b)

  pub has-remove : (a b : A) (xs : List A) → has b (remove a xs) ≡ (has b xs && not (key.same a b))
  has-remove a b [] = refl
  has-remove a b (x ∷ xs) =
      ground (arith, has-remove a b xs, key.same_iff x a, key.same_iff x b, key.same_iff a b)

  pub has-keep : (p : A → Bool) (a : A) (xs : List A) → has a (keep p xs) ≡ (has a xs && p a)
  has-keep p a [] = refl
  has-keep p a (x ∷ xs) = ground (arith, has-keep p a xs, key.same_iff x a)

  IsDistinct-append :
      (xs : List A) (a : A) → IsDistinct xs → has a xs ≡ false → IsDistinct (xs ++ a ∷ [])
  IsDistinct-append [] a h k = (refl, tt)
  IsDistinct-append (x ∷ xs) a (h, hs) k = (
    ground (arith, has-append x xs (a ∷ []), key.same_iff a x, key.same_iff x a),
    IsDistinct-append xs a hs (ground arith),
  )

  pub IsDistinct-add : (a : A) (xs : List A) → IsDistinct xs → IsDistinct (add a xs)
  IsDistinct-add a xs h = elim (Bool-cases (has a xs)) [
    | inl old ↦ rw old h
    | inr new ↦ rw new (IsDistinct-append xs a h new)
  ]

  pub IsDistinct-keep : (p : A → Bool) (xs : List A) → IsDistinct xs → IsDistinct (keep p xs)
  IsDistinct-keep p [] h = tt
  IsDistinct-keep p (x ∷ xs) (h, hs) = elim (Bool-cases (p x)) [
    | inl kept ↦ rw kept (ground (arith, has-keep p x xs), IsDistinct-keep p xs hs)
    | inr cut ↦ rw cut (IsDistinct-keep p xs hs)
  ]

  pub remove-eq-keep : (a : A) (xs : List A) → remove a xs ≡ keep (λ x. not (key.same x a)) xs
  remove-eq-keep a [] = refl
  remove-eq-keep a (x ∷ xs) = ground (arith, remove-eq-keep a xs)

  pub IsDistinct-remove : (a : A) (xs : List A) → IsDistinct xs → IsDistinct (remove a xs)
  IsDistinct-remove a xs h =
      rw (remove-eq-keep a xs) (IsDistinct-keep (λ x. not (key.same x a)) xs h)

  pub remove_fix : (a : A) (xs : List A) → has a xs ≡ false → remove a xs ≡ xs
  remove_fix a [] h = refl
  remove_fix a (x ∷ xs) h = ground (arith, remove_fix a xs)

  pub remove-append : (a : A) (xs ys : List A) → remove a (xs ++ ys) ≡ remove a xs ++ remove a ys
  remove-append a [] ys = refl
  remove-append a (x ∷ xs) ys = ground (arith, remove-append a xs ys)

  IsDistinct-add_all : (acc xs : List A) → IsDistinct acc → IsDistinct (add_all acc xs)
  unfolding add_all
  IsDistinct-add_all acc [] h = h
  IsDistinct-add_all acc (x ∷ xs) h = IsDistinct-add_all (add x acc) xs (IsDistinct-add x acc h)

  pub IsDistinct-set_of : (xs : List A) → IsDistinct (set_of xs)
  unfolding set_of
  IsDistinct-set_of xs = IsDistinct-add_all [] xs tt

  has-add_all : (a : A) (acc xs : List A) → has a (add_all acc xs) ≡ (has a acc || has a xs)
  unfolding add_all
  has-add_all a acc [] = ground arith
  has-add_all a acc (x ∷ xs) = ground (arith, has-add_all a (add x acc) xs, has-add x a acc)

  pub has-set_of : (a : A) (xs : List A) → has a (set_of xs) ≡ has a xs
  unfolding set_of
  has-set_of a xs = has-add_all a [] xs

  fresh : (acc : List A) (x : A) (xs : List A) → IsDistinct (acc ++ x ∷ xs) → has x acc ≡ false
  fresh [] x xs h = refl
  fresh (y ∷ acc) x xs (h, hs) =
      ground
        (arith, has-append y acc (x ∷ xs), fresh acc x xs hs, key.same_iff y x, key.same_iff x y)

  add_all_fix : (acc xs : List A) → IsDistinct (acc ++ xs) → add_all acc xs ≡ acc ++ xs
  unfolding add_all
  add_all_fix acc [] h = sym (append-nil acc)
  add_all_fix acc (x ∷ xs) h =
      rw (fresh acc x xs h)
        (add_all_fix (acc ++ x ∷ []) xs (rw append_assoc h) ∙ append_assoc acc (x ∷ []) xs)

  -- A list without repetitions is its own set.
  pub set_of_fix : (xs : List A) → IsDistinct xs → set_of xs ≡ xs
  unfolding set_of
  set_of_fix xs h = add_all_fix [] xs h

module _ {ℓ} {A : Type ℓ} ⦃key : Key A⦄ (P : A → Type 0) where
  All-add : (a : A) (xs : List A) → All P xs → P a → All P (add a xs)
  All-add a xs h k = elim (Bool-cases (has a xs)) [
    | inl old ↦ rw old h
    | inr new ↦ rw new (All-append P xs (a ∷ []) h (k, tt))
  ]

  All-add_all : (acc xs : List A) → All P acc → All P xs → All P (add_all acc xs)
  unfolding add_all
  All-add_all acc [] h k = h
  All-add_all acc (x ∷ xs) h (k, ks) = All-add_all (add x acc) xs (All-add x acc h k) ks

  pub All-set_of : (xs : List A) → All P xs → All P (set_of xs)
  unfolding set_of
  All-set_of xs h = All-add_all [] xs tt h

  pub All-keep : (p : A → Bool) (xs : List A) → All P xs → All P (keep p xs)
  All-keep p [] h = tt
  All-keep p (x ∷ xs) (h, hs) = elim (Bool-cases (p x)) [
    | inl kept ↦ rw kept (h, All-keep p xs hs)
    | inr cut ↦ rw cut (All-keep p xs hs)
  ]
