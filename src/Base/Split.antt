-- ===== src/Base/Split.antt =====
-- `split` at a separator of one code unit, and `join`.
use mathlib.Core.Path.{◌≡◌, refl, ap, ◌∙◌}
use mathlib.Core.Logic.{◌≢◌, inl, inr}
use mathlib.Core.Bool.{true, not}
use mathlib.Core.List.{List, [], ◌∷◌, ◌++◌}
use native.Mathlib.Omega.{arith}
use Prim.Native.Nat.{ℕ}
use light_oss.Base.Tests.{◌==◌, if◌then◌else◌, Bool-cases, ==_iff}
use light_oss.Base.Lists.{all, All}
use light_oss.Base.Text.{Text}

abbrev pub cons_head : ℕ → List Text → List Text
cons_head x [] = (x ∷ []) ∷ []
cons_head x (w ∷ ws) = (x ∷ w) ∷ ws

-- The result has at least one part, the empty text for an empty one.
unfoldable pub split : ℕ → Text → List Text
split c [] = [] ∷ []
split c (x ∷ s) = let rest = split c s in if x == c then [] ∷ rest else cons_head x rest

unfoldable pub join : ℕ → List Text → Text
join c [] = []
join c (w ∷ []) = w
join c (w ∷ (v ∷ ws)) = w ++ (c ∷ join c (v ∷ ws))

-- The text has no separator in it.
abbrev pub Lacks : ℕ → Text → Type 0
Lacks c = All (λ x. x ≢ c)

pub Lacks_of_all : (c : ℕ) (s : Text) → all (λ x. not (x == c)) s ≡ true → Lacks c s
Lacks_of_all c [] h = tt
Lacks_of_all c (x ∷ s) h = (ground (arith, ==_iff x c), Lacks_of_all c s (ground arith))

module _ (c : ℕ) where
  pub split-ne-nil : (s : Text) → split c s ≢ []
  unfolding split
  split-ne-nil [] = ground arith
  split-ne-nil (x ∷ s) = ground arith

  join-cons_head : (x : ℕ) (ws : List Text) → ws ≢ [] → join c (cons_head x ws) ≡ x ∷ join c ws
  unfolding join
  join-cons_head x [] h = absurd (h refl)
  join-cons_head x (w ∷ []) h = refl
  join-cons_head x (w ∷ (v ∷ ws)) h = refl

  join-nil_cons : (ws : List Text) → ws ≢ [] → join c ([] ∷ ws) ≡ c ∷ join c ws
  unfolding join
  join-nil_cons [] h = absurd (h refl)
  join-nil_cons (v ∷ ws) h = refl

  pub join-split : (s : Text) → join c (split c s) ≡ s
  unfolding split
  join-split [] = unfold join in refl
  join-split (x ∷ s) = elim (Bool-cases (x == c)) [
    | inl same ↦
        rw same (cc (join-nil_cons (split c s) (split-ne-nil s), join-split s, (==_iff x c).0 same))
    | inr other ↦ rw other (cc (join-cons_head x (split c s) (split-ne-nil s), join-split s))
  ]

  pub split_of_Lacks : (w : Text) → Lacks c w → split c w ≡ w ∷ []
  unfolding split
  split_of_Lacks [] h = refl
  split_of_Lacks (x ∷ w) (h, hs) = ground (arith, split_of_Lacks w hs, ==_iff x c)

  pub split-append : (w s : Text) → Lacks c w → split c (w ++ (c ∷ s)) ≡ w ∷ split c s
  unfolding split
  split-append [] s h = ground arith
  split-append (x ∷ w) s (h, hs) = ground (arith, split-append w s hs, ==_iff x c)

  -- Splitting a join of parts without separators gives the parts back.
  pub split-join :
      (w : Text) (ws : List Text) → All (Lacks c) (w ∷ ws) → split c (join c (w ∷ ws)) ≡ w ∷ ws
  unfolding join
  split-join w [] (h, hs) = split_of_Lacks w h
  split-join w (v ∷ ws) (h, hs) =
      split-append w (join c (v ∷ ws)) h ∙ ap (λ t. w ∷ t) (split-join v ws hs)

  pub All-Lacks-split : (s : Text) → All (Lacks c) (split c s)
  unfolding split
  All-Lacks-split [] = (tt, tt)
  All-Lacks-split (x ∷ s) = elim (Bool-cases (x == c)) [
    | inl same ↦ rw same (tt, All-Lacks-split s)
    | inr other ↦
        rw other (head_lacks x (split c s) (ground (arith, ==_iff x c)) (All-Lacks-split s))
  ]
    where
      head_lacks :
          (x : ℕ) (ws : List Text) → x ≢ c → All (Lacks c) ws → All (Lacks c) (cons_head x ws)
      head_lacks x [] h k = ((h, tt), tt)
      head_lacks x (w ∷ ws) h (k, ks) = ((h, k), ks)
