-- ===== src/Base/Strip.antt =====
-- Laws of `strip_start`, `strip_end` and `trim`.
use mathlib.Core.Path.{ap, ◌≡◌, refl}
use mathlib.Core.Logic.{◌≢◌, inl, inr}
use mathlib.Core.Bool.{Bool, true, false, ◌&&◌}
use mathlib.Core.List.{[], ◌∷◌, ◌++◌}
use native.Mathlib.Omega.{arith}
use Prim.Native.Nat.{ℕ, ◌≤◌, ◌<◌}
use light_oss.Base.Tests.{Bool-cases}
use light_oss.Base.Lists.{is_empty, length}
use light_oss.Base.Text.{Text, is_space, strip_start, strip_end, trim, starts_in, ends_in}

module _ (p : ℕ → Bool) where
  pub strip_start_fix : (s : Text) → starts_in p s ≡ false → strip_start p s ≡ s
  strip_start_fix [] h = refl
  strip_start_fix (c ∷ s) h = ground arith

  pub starts_in-strip_start : (s : Text) → starts_in p (strip_start p s) ≡ false
  starts_in-strip_start [] = refl
  starts_in-strip_start (c ∷ s) = ground (arith, starts_in-strip_start s)

  pub strip_end_fix : (s : Text) → ends_in p s ≡ false → strip_end p s ≡ s
  strip_end_fix [] h = refl
  strip_end_fix (c ∷ []) h = ground arith
  strip_end_fix (c ∷ (d ∷ s)) h = ground (arith, strip_end_fix (d ∷ s) h)

  ends_in-cons :
      (c : ℕ) (s : Text)
      → ends_in p s ≡ false
      → (p c && is_empty s) ≡ false
      → ends_in p (c ∷ s) ≡ false
  ends_in-cons c [] h k = ground arith
  ends_in-cons c (d ∷ s) h k = h

  pub ends_in-strip_end : (s : Text) → ends_in p (strip_end p s) ≡ false
  ends_in-strip_end [] = refl
  ends_in-strip_end (c ∷ s) = elim (Bool-cases (p c && is_empty (strip_end p s))) [
    | inl done ↦ rw done
    | inr more ↦ rw more (ends_in-cons c (strip_end p s) (ends_in-strip_end s) more)
  ]

  pub starts_in-strip_end :
      (q : ℕ → Bool) (s : Text) → starts_in q s ≡ false → starts_in q (strip_end p s) ≡ false
  starts_in-strip_end q [] h = refl
  starts_in-strip_end q (c ∷ s) h = ground arith

  pub strip_end-append : (s : Text) (c : ℕ) → p c ≡ true → strip_end p (s ++ c ∷ []) ≡ strip_end p s
  strip_end-append [] c h = ground arith
  strip_end-append (d ∷ s) c h = ground (arith, strip_end-append s c h)

  pub ends_in-append : (s : Text) (c : ℕ) → ends_in p (s ++ c ∷ []) ≡ p c
  ends_in-append [] c = refl
  ends_in-append (d ∷ []) c = refl
  ends_in-append (d ∷ (e ∷ s)) c = ends_in-append (e ∷ s) c

  pub starts_in-append : (s t : Text) → s ≢ [] → starts_in p (s ++ t) ≡ starts_in p s
  starts_in-append [] t h = absurd (h refl)
  starts_in-append (c ∷ s) t h = refl

module _ (p : ℕ → Bool) where
  pub strip_start-append :
      (s : Text) (c : ℕ) → p c ≡ false → strip_start p (s ++ c ∷ []) ≡ strip_start p s ++ c ∷ []
  strip_start-append [] c h = ground arith
  strip_start-append (d ∷ s) c h = ground (arith, strip_start-append s c h)

  pub length-strip_start : (s : Text) → length (strip_start p s) ≤ length s
  length-strip_start [] = omega arith
  length-strip_start (c ∷ s) = ground (arith, length-strip_start s)

  pub length-strip_end : (s : Text) → length (strip_end p s) ≤ length s
  length-strip_end [] = omega arith
  length-strip_end (c ∷ s) = ground (arith, length-strip_end s)

  pub length-strip_start-lt :
      (s : Text) → starts_in p s ≡ true → length (strip_start p s) < length s
  length-strip_start-lt [] h = cc
  length-strip_start-lt (c ∷ s) h = ground (arith, length-strip_start s)

  -- One code unit that is stripped at the end is gone from the length.
  pub length-strip-append :
      (s : Text) (c : ℕ)
      → p c ≡ true
      → length (strip_end p (strip_start p (s ++ c ∷ []))) ≤ length s
  length-strip-append [] c h = ground arith
  length-strip-append (d ∷ s) c h = elim (Bool-cases (p d)) [
    | inl cut ↦ rw cut (omega (arith, length-strip-append s c h))
    | inr kept ↦
        rw kept
          (omega (arith, length-strip_end (d ∷ s), ap length (strip_end-append p (d ∷ s) c h)))
  ]

pub trim_fix : (s : Text) → starts_in is_space s ≡ false → ends_in is_space s ≡ false → trim s ≡ s
unfolding trim
trim_fix s h k = rw (strip_start_fix is_space s h) (strip_end_fix is_space s k)
