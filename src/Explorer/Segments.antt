-- ===== src/Explorer/Segments.antt =====
-- A directory as the list of its segments, and the prefix that spells it.
use light_oss.Base.{
  ℕ, ◌≡◌, refl, sym, ap, ◌∙◌, ◌≢◌, inl, inr, false, not, some, List, [], ◌∷◌, ◌++◌, arith,
  append_assoc, append-nil, All, keep, keep-append, is_empty, ==_iff,
}
use light_oss.Base.Text.{Text, slash, is_slash, is_space, starts_in, ends_in}
use light_oss.Base.Split.{split, join, Lacks, split-append}
use light_oss.Explorer.{normalize_prefix, segments_of}
use light_oss.Explorer.Prefix.{IsPrefix, IsTrunk, normalize_prefix_fix}

-- Each segment ends in a slash; the root is the empty text.
abbrev pub path_of : List Text → Text
path_of [] = []
path_of (w ∷ ws) = w ++ (slash ∷ path_of ws)

-- A name between two slashes.
abbrev pub IsSegment : Text → Type 0
IsSegment w = (w ≢ []) × Lacks slash w

-- A directory whose prefix does not start with white space.
abbrev pub IsDirectory : List Text → Type 0
IsDirectory ws = All IsSegment ws × (starts_in is_space (path_of ws) ≡ false)

pub join-eq-path_of :
    (w : Text) (ws : List Text) → join slash (w ∷ ws) ++ slash ∷ [] ≡ path_of (w ∷ ws)
unfolding join
join-eq-path_of w [] = refl
join-eq-path_of w (v ∷ ws) =
    append_assoc w (slash ∷ join slash (v ∷ ws)) (slash ∷ [])
    ∙ ap (λ t. w ++ (slash ∷ t)) (join-eq-path_of v ws)

pub path_of-append : (us ws : List Text) → path_of (us ++ ws) ≡ path_of us ++ path_of ws
path_of-append [] ws = refl
path_of-append (u ∷ us) ws =
    ap (λ t. u ++ (slash ∷ t)) (path_of-append us ws)
    ∙ sym (append_assoc u (slash ∷ path_of us) (path_of ws))

no_start-join :
    (w : Text) (ws : List Text) → IsSegment w → starts_in is_slash (join slash (w ∷ ws)) ≡ false
unfolding join
no_start-join [] ws (h, _) = absurd (h refl)
no_start-join (c ∷ w) [] (_, (h, _)) = ground (arith, ==_iff c slash)
no_start-join (c ∷ w) (v ∷ ws) (_, (h, _)) = ground (arith, ==_iff c slash)

pub ends_in-Lacks : (w : Text) → Lacks slash w → ends_in is_slash w ≡ false
ends_in-Lacks [] h = refl
ends_in-Lacks (c ∷ []) (h, _) = ground (arith, ==_iff c slash)
ends_in-Lacks (c ∷ (d ∷ w)) (h, hs) = ends_in-Lacks (d ∷ w) hs

ends_in-append_ne : (s t : Text) → t ≢ [] → ends_in is_slash (s ++ t) ≡ ends_in is_slash t
ends_in-append_ne [] t h = refl
ends_in-append_ne (c ∷ []) [] h = absurd (h refl)
ends_in-append_ne (c ∷ []) (d ∷ t) h = refl
ends_in-append_ne (c ∷ (d ∷ s)) t h = ends_in-append_ne (d ∷ s) t h

join-ne-nil : (w : Text) (ws : List Text) → IsSegment w → join slash (w ∷ ws) ≢ []
unfolding join
join-ne-nil [] ws (h, _) = absurd (h refl)
join-ne-nil (c ∷ w) [] h = λ e. cc e
join-ne-nil (c ∷ w) (v ∷ ws) h = λ e. cc e

ends_in-cons_ne : (c : ℕ) (t : Text) → t ≢ [] → ends_in is_slash (c ∷ t) ≡ ends_in is_slash t
ends_in-cons_ne c [] h = absurd (h refl)
ends_in-cons_ne c (d ∷ t) h = refl

no_end-join :
    (w : Text) (ws : List Text)
    → All IsSegment (w ∷ ws)
    → ends_in is_slash (join slash (w ∷ ws)) ≡ false
unfolding join
no_end-join w [] ((_, h), _) = ends_in-Lacks w h
no_end-join w (v ∷ ws) (_, hs) =
    ends_in-append_ne w (slash ∷ join slash (v ∷ ws)) (λ e. cc e)
    ∙ ends_in-cons_ne slash (join slash (v ∷ ws)) (join-ne-nil v ws hs.0)
    ∙ no_end-join v ws hs

pub join-IsTrunk :
    (w : Text) (ws : List Text) → All IsSegment (w ∷ ws) → IsTrunk (join slash (w ∷ ws))
join-IsTrunk w ws h = record {
  inhabited = join-ne-nil w ws h.0;
  no_start = no_start-join w ws h.0;
  no_end = no_end-join w ws h;
}

pub path_of-IsPrefix : (ws : List Text) → All IsSegment ws → IsPrefix (path_of ws)
path_of-IsPrefix [] h = inl refl
path_of-IsPrefix (w ∷ ws) h =
    inr (join slash (w ∷ ws), sym (join-eq-path_of w ws), join-IsTrunk w ws h)

-- The prefix of a directory is left as it is.
pub normalize_prefix-path_of :
    (ws : List Text) → IsDirectory ws → normalize_prefix (some (path_of ws)) ≡ path_of ws
normalize_prefix-path_of ws (h, clean) =
    normalize_prefix_fix (path_of ws) (path_of-IsPrefix ws h) clean

split-path_of : (ws : List Text) → All IsSegment ws → split slash (path_of ws) ≡ ws ++ [] ∷ []
unfolding split
split-path_of [] h = refl
split-path_of (w ∷ ws) ((_, lacks), hs) =
    split-append slash w (path_of ws) lacks ∙ ap (λ t. w ∷ t) (split-path_of ws hs)

pub keep_segments : (ws : List Text) → All IsSegment ws → keep (λ w. not (is_empty w)) ws ≡ ws
keep_segments [] h = refl
keep_segments ([] ∷ ws) ((h, _), hs) = absurd (h refl)
keep_segments ((c ∷ w) ∷ ws) (_, hs) = ap (λ t. (c ∷ w) ∷ t) (keep_segments ws hs)

-- Splitting the prefix of a directory gives its segments back.
pub segments_of-path_of : (ws : List Text) → All IsSegment ws → segments_of (path_of ws) ≡ ws
unfolding segments_of
segments_of-path_of ws h =
    rw (split-path_of ws h)
      (keep-append (λ w. not (is_empty w)) ws ([] ∷ []) ∙ rw (keep_segments ws h) (append-nil ws))
