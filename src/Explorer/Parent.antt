-- ===== src/Explorer/Parent.antt =====
-- The parent of any stable prefix, also of one with empty segments in it.
use light_oss.Base.{
  arith, ℕ, ◌≡◌, refl, ap, inl, inr, false, not, some, List, [], ◌∷◌, ◌++◌, All, keep, drop_last,
  leb, if◌then◌else◌, is_empty, length,
}
use light_oss.Base.Text.{Text, slash, is_slash, is_space, starts_in}
use light_oss.Base.Split.{join, split, cons_head, Lacks, All-Lacks-split}
use light_oss.Explorer.{normalize_prefix, segments_of, parent_prefix}
use light_oss.Explorer.Prefix.{IsPrefix, normalize_prefix-IsPrefix, normalize_prefix_idempotent_iff}
use light_oss.Explorer.Segments.{IsSegment, join-eq-path_of, normalize_prefix-path_of}

-- A prefix that the page shows as it is written in the address.
abbrev pub IsStable : Text → Type 0
IsStable p = normalize_prefix (some p) ≡ p

pub IsStable-clean : (p : Text) → IsStable p → starts_in is_space p ≡ false
IsStable-clean p h =
    rw h at ((normalize_prefix_idempotent_iff (some p)).0 (ap (λ q. normalize_prefix (some q)) h))

pub IsStable-IsPrefix : (p : Text) → IsStable p → IsPrefix p
IsStable-IsPrefix p h = rw h at (normalize_prefix-IsPrefix (some p))

keep-All : (ws : List Text) → All (Lacks slash) ws → All IsSegment (keep (λ w. not (is_empty w)) ws)
keep-All [] h = tt
keep-All ([] ∷ ws) (_, hs) = keep-All ws hs
keep-All ((c ∷ w) ∷ ws) (h, hs) = ((λ e. cc e, h), keep-All ws hs)

All-segments_of : (s : Text) → All IsSegment (segments_of s)
unfolding segments_of
All-segments_of s = keep-All (split slash s) (All-Lacks-split slash s)

head_kept :
    (c : ℕ) (ls : List Text)
    → (w : Text) × (ws : List Text) × (keep (λ w. not (is_empty w)) (cons_head c ls) ≡ (c ∷ w) ∷ ws)
head_kept c [] = ([], [], refl)
head_kept c (w ∷ ws) = (w, keep (λ w. not (is_empty w)) ws, refl)

-- The first segment of a text that starts with no slash starts as the text does.
segments_head :
    (c : ℕ) (s : Text)
    → is_slash c ≡ false
    → (w : Text) × (ws : List Text) × (segments_of (c ∷ s) ≡ (c ∷ w) ∷ ws)
unfolding segments_of split
segments_head c s h = rw h (head_kept c (split slash s))

All-drop_last : (ws : List Text) → All IsSegment ws → All IsSegment (drop_last ws)
All-drop_last [] h = tt
All-drop_last (w ∷ []) h = tt
All-drop_last (w ∷ (v ∷ vs)) (h, hs) = (h, All-drop_last (v ∷ vs) hs)

above_IsStable :
    (c : ℕ) (w : Text) (ws : List Text)
    → All IsSegment ((c ∷ w) ∷ ws)
    → is_space c ≡ false
    → IsStable (
        if leb (length ((c ∷ w) ∷ ws)) 1
        then []
        else join slash (drop_last ((c ∷ w) ∷ ws)) ++ slash ∷ [])
above_IsStable c w [] h clean = normalize_prefix-path_of [] (tt, refl)
above_IsStable c w (v ∷ vs) h clean =
    let long : leb (length ((c ∷ w) ∷ (v ∷ vs))) 1 ≡ false = ground arith in
    rw (long, join-eq-path_of (c ∷ w) (drop_last (v ∷ vs)))
      (normalize_prefix-path_of ((c ∷ w) ∷ drop_last (v ∷ vs))
        (All-drop_last ((c ∷ w) ∷ (v ∷ vs)) h, clean))

parent_of_start :
    (c : ℕ) (s : Text) → IsStable (c ∷ s) → is_slash c ≡ false → IsStable (parent_prefix (c ∷ s))
unfolding parent_prefix
parent_of_start c s h start =
    let (w, ws, e) = segments_head c s start in
    rw h
      (rw e (above_IsStable c w ws (rw e at (All-segments_of (c ∷ s))) (IsStable-clean (c ∷ s) h)))

trunk_start : (c : ℕ) (s : Text) → IsPrefix (c ∷ s) → is_slash c ≡ false
trunk_start c s (inl e) = cc
trunk_start c s (inr ([], e, trunk)) = absurd (trunk.inhabited refl)
trunk_start c s (inr (d ∷ t, e, trunk)) = let same : c ≡ d = cc e in rw same trunk.no_start

-- Going up from a stable prefix leads to a stable prefix.
pub parent_prefix-IsStable : (p : Text) → IsStable p → IsStable (parent_prefix p)
parent_prefix-IsStable [] h = unfold parent_prefix in rw h h
parent_prefix-IsStable (c ∷ s) h =
    parent_of_start c s h (trunk_start c s (IsStable-IsPrefix (c ∷ s) h))
