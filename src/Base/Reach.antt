-- ===== src/Base/Reach.antt =====
-- What a step relation reaches, and lists from which one element is taken.
use mathlib.Core.List.{List, [], ◌∷◌, ◌++◌}
use light_oss.Base.Lists.{All}

pub data Reach {ℓ} {A : Type ℓ} (Step : A → A → Type ℓ) (s : A) : A → Type ℓ where
  here : Reach Step s s
  next : {t u : A} → Reach Step s t → Step t u → Reach Step s u

-- What is reached from what is reached.
pub joined {ℓ} :
    {A : Type ℓ} {Step : A → A → Type ℓ} {s t u : A}
    → Reach Step s t
    → Reach Step t u
    → Reach Step s u
joined r here = r
joined r (next p k) = next (joined r p) k

-- What every step keeps holds of all that is reached.
pub invariant {ℓ} :
    {A : Type ℓ} (Step : A → A → Type ℓ) (P : A → Type ℓ)
    → ((s t : A) → Step s t → P s → P t)
    → (s t : A) → P s
    → Reach Step s t
    → P t
invariant Step P keeps s t h here = h
invariant Step P keeps s u h (next r k) = keeps _ u k (invariant Step P keeps s _ h r)

pub All-take_out {ℓ} :
    {A : Type ℓ} (P : A → Type ℓ) (xs : List A) (x : A) (ys : List A)
    → All P (xs ++ x ∷ ys)
    → P x × All P (xs ++ ys)
All-take_out P [] x ys (h, hs) = (h, hs)
All-take_out P (z ∷ xs) x ys (h, hs) = let (k, ks) = All-take_out P xs x ys hs in (k, (h, ks))
