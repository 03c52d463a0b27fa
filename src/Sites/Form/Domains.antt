-- ===== src/Sites/Form/Domains.antt =====
-- The domains that a form reads from one input.
use light_oss.Base.{
  ◌≡◌, ◌≢◌, refl, ap, ◌∙◌, false, not, List, [], ◌∷◌, map, is_empty, keep, All, Bool-cases, inl,
  inr,
}
use light_oss.Base.Text.{Text, trim, is_space, starts_in, ends_in, strip_start}
use light_oss.Base.Strip.{trim_fix, starts_in-strip_start, starts_in-strip_end, ends_in-strip_end}
use light_oss.Base.Split.{split, split-append, split_of_Lacks, Lacks}
use light_oss.Sites.Form.{join_domains, parsed_domains}

-- A domain as the form sends it.
pub record IsDomain (w : Text) : Type 0 where
  pub inhabited : w ≢ []
  pub trimmed : trim w ≡ w

trim-no_start : (s : Text) → starts_in is_space (trim s) ≡ false
unfolding trim
trim-no_start s =
    starts_in-strip_end is_space is_space (strip_start is_space s)
      (starts_in-strip_start is_space s)

trim-no_end : (s : Text) → ends_in is_space (trim s) ≡ false
unfolding trim
trim-no_end s = ends_in-strip_end is_space (strip_start is_space s)

pub trim_twice : (s : Text) → trim (trim s) ≡ trim s
trim_twice s = trim_fix (trim s) (trim-no_start s) (trim-no_end s)

kept_domains : (ws : List Text) → All IsDomain (keep (λ w. not (is_empty w)) (map trim ws))
kept_domains [] = tt
kept_domains (w ∷ ws) = elim (Bool-cases (is_empty (trim w))) [
  | inl empty ↦ rw empty (kept_domains ws)
  | inr given ↦
      rw given (record { inhabited = λ e. cc (e, given); trimmed = trim_twice w }, kept_domains ws)
]

-- Whatever was typed, the domains are trimmed and not empty.
pub parsed_domains-IsDomain : (input : Text) → All IsDomain (parsed_domains input)
unfolding parsed_domains
parsed_domains-IsDomain input = kept_domains (split b',' input)

trim_space : (w : Text) → trim (b' ' ∷ w) ≡ trim w
unfolding trim is_space
trim_space w = refl

split-space :
    (s w : Text) (ws : List Text) → split b',' s ≡ w ∷ ws → split b',' (b' ' ∷ s) ≡ (b' ' ∷ w) ∷ ws
unfolding split
split-space s w ws e = rw e refl

split-join_domains :
    (w : Text) (ws : List Text)
    → All (Lacks b',') (w ∷ ws)
    → split b',' (join_domains (w ∷ ws)) ≡ w ∷ map (λ v. b' ' ∷ v) ws
unfolding join_domains
split-join_domains w [] (h, hs) = split_of_Lacks b',' w h
split-join_domains w (v ∷ ws) (h, hs) =
    split-append b',' w (b' ' ∷ join_domains (v ∷ ws)) h
    ∙ ap (λ t. w ∷ t)
        (split-space (join_domains (v ∷ ws)) v (map (λ v. b' ' ∷ v) ws)
          (split-join_domains v ws hs))

read_back :
    (ws : List Text)
    → All IsDomain ws
    → keep (λ w. not (is_empty w)) (map trim (map (λ v. b' ' ∷ v) ws)) ≡ ws
read_back [] h = refl
read_back ([] ∷ ws) (h, hs) = absurd (h.inhabited refl)
read_back ((c ∷ w) ∷ ws) (h, hs) =
    rw (trim_space (c ∷ w)) (rw h.trimmed (ap (λ t. (c ∷ w) ∷ t) (read_back ws hs)))

-- Domains without commas are read back from the input that shows them.
pub parsed_domains-join_domains :
    (ws : List Text) → All IsDomain ws → All (Lacks b',') ws → parsed_domains (join_domains ws) ≡ ws
unfolding parsed_domains
parsed_domains-join_domains [] h k = unfold join_domains split trim in refl
parsed_domains-join_domains ([] ∷ ws) (h, hs) k = absurd (h.inhabited refl)
parsed_domains-join_domains ((c ∷ w) ∷ ws) (h, hs) k =
    rw (split-join_domains (c ∷ w) ws k) (rw h.trimmed (ap (λ t. (c ∷ w) ∷ t) (read_back ws hs)))

pub ne_of_empty {ℓ} : {A : Type ℓ} (xs : List A) → is_empty xs ≡ false → xs ≢ []
ne_of_empty [] h = cc
ne_of_empty (x ∷ xs) h = λ e. cc e
