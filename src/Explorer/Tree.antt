-- ===== src/Explorer/Tree.antt =====
-- The breadcrumbs, the parent, the children and the ancestors of a directory, on its segments.
use light_oss.Base.{
  ℕ, ◌+◌, ◌≡◌, refl, sym, ap, ◌∙◌, ◌≢◌, Bool, true, false, some, List, [], ◌∷◌, ◌++◌, arith,
  append_assoc, All, All-append, ◌&&◌, take, take-length-append, drop_last, drop_last-append, leb,
  if◌then◌else◌, is_empty, length, length-append, ==_iff,
}
use light_oss.Base.Text.{
  Text, slash, is_slash, is_space, starts_in, ends_in, trim, starts_with, text_eq,
}
use light_oss.Base.Split.{join, Lacks}
use light_oss.Base.Strip.{starts_in-append, trim_fix, strip_start_fix, strip_end_fix}
use light_oss.Explorer.{
  normalize_prefix, Breadcrumb, crumbs_from, breadcrumbs, parent_prefix, join_path,
  is_prefix_ancestor, strip_slashes,
}
use light_oss.Explorer.Prefix.{normalize_prefix-trunk, IsTrunk}
use light_oss.Explorer.Segments.{
  join-IsTrunk, ends_in-Lacks, path_of, IsSegment, IsDirectory, join-eq-path_of, path_of-append,
  normalize_prefix-path_of, segments_of-path_of,
}

-- The trail from a directory down: each segment, labelled by its name, leads to the directory
-- that it ends.
abbrev pub trail : List Text → List Text → List Breadcrumb
trail above [] = []
trail above (w ∷ ws) =
    record { label = w; prefix = path_of (above ++ w ∷ []) } ∷ trail (above ++ w ∷ []) ws

join-eq-path_of_ne : (ws : List Text) → ws ≢ [] → join slash ws ++ slash ∷ [] ≡ path_of ws
join-eq-path_of_ne [] h = absurd (h refl)
join-eq-path_of_ne (w ∷ ws) h = join-eq-path_of w ws

snoc-ne-nil : (us : List Text) (w : Text) → us ++ w ∷ [] ≢ []
snoc-ne-nil [] w = λ e. cc e
snoc-ne-nil (u ∷ us) w = λ e. cc e

take_snoc :
    (us : List Text) (w : Text) (ws : List Text)
    → take (length us + 1) (us ++ w ∷ ws) ≡ us ++ w ∷ []
take_snoc us w ws =
    let grow : us ++ w ∷ ws ≡ (us ++ w ∷ []) ++ ws = sym (append_assoc us (w ∷ []) ws) in
    let count : length us + 1 ≡ length (us ++ w ∷ []) =
      omega (arith, length-append {0} us (w ∷ [])) in
    rw (grow, count) (take-length-append (us ++ w ∷ []) ws)

crumbs_from-eq-trail : (us ws : List Text) → crumbs_from (us ++ ws) (length us) ws ≡ trail us ws
unfolding crumbs_from
crumbs_from-eq-trail us [] = refl
crumbs_from-eq-trail us (w ∷ ws) =
    let grow : us ++ w ∷ ws ≡ (us ++ w ∷ []) ++ ws = sym (append_assoc us (w ∷ []) ws) in
    let count : length us + 1 ≡ length (us ++ w ∷ []) =
      omega (arith, length-append {0} us (w ∷ [])) in
    let later : crumbs_from (us ++ w ∷ ws) (length us + 1) ws ≡ trail (us ++ w ∷ []) ws =
      rw (grow, count) (crumbs_from-eq-trail (us ++ w ∷ []) ws) in
    cc (take_snoc us w ws, join-eq-path_of_ne (us ++ w ∷ []) (snoc-ne-nil us w), later)

empty_path_of : (ws : List Text) → ws ≢ [] → All IsSegment ws → is_empty (path_of ws) ≡ false
empty_path_of [] h k = absurd (h refl)
empty_path_of ([] ∷ ws) h ((k, _), _) = absurd (k refl)
empty_path_of ((c ∷ w) ∷ ws) h k = refl

-- The breadcrumbs of a directory given by its segments have, from the root down, each segment as
-- a label and the path of the directory that it ends as the prefix.
pub breadcrumbs-path_of : (ws : List Text) → IsDirectory ws → breadcrumbs (path_of ws) ≡ trail [] ws
unfolding breadcrumbs
breadcrumbs-path_of [] h = rw (normalize_prefix-path_of [] h)
breadcrumbs-path_of (w ∷ ws) h = rw (normalize_prefix-path_of (w ∷ ws) h) (
    rw (empty_path_of (w ∷ ws) (λ e. cc e) h.0)
      (rw (segments_of-path_of (w ∷ ws) h.0) (crumbs_from-eq-trail [] (w ∷ ws))))

without_last :
    (ws : List Text) (w : Text)
    → (if leb (length (ws ++ w ∷ [])) 1
        then []
        else join slash (drop_last (ws ++ w ∷ [])) ++ slash ∷ [])
      ≡ path_of ws
without_last [] w = refl
without_last (v ∷ vs) w =
    let long : leb (length ((v ∷ vs) ++ w ∷ [])) 1 ≡ false =
      ground (arith, length-append {0} vs (w ∷ [])) in
    rw long (rw (drop_last-append (v ∷ vs) w) (join-eq-path_of v vs))

-- The parent of a directory given by its segments is the directory without the last segment.
parent_prefix-path_of :
    (ws : List Text) (w : Text)
    → IsDirectory (ws ++ w ∷ [])
    → parent_prefix (path_of (ws ++ w ∷ [])) ≡ path_of ws
unfolding parent_prefix
parent_prefix-path_of ws w h = rw (normalize_prefix-path_of (ws ++ w ∷ []) h) (
    rw (empty_path_of (ws ++ w ∷ []) (snoc-ne-nil ws w) h.0)
      (rw (segments_of-path_of (ws ++ w ∷ []) h.0) (without_last ws w)))

-- Whether a list of segments begins with another.
abbrev pub is_above : List Text → List Text → Bool
is_above [] vs = true
is_above (w ∷ ws) [] = false
is_above (w ∷ ws) (v ∷ vs) = text_eq w v && is_above ws vs

starts_with-segment :
    (v w s t : Text)
    → Lacks slash v
    → Lacks slash w
    → starts_with (v ++ (slash ∷ s)) (w ++ (slash ∷ t)) ≡ (text_eq w v && starts_with s t)
starts_with-segment [] [] s t h k = ground arith
starts_with-segment [] (d ∷ w) s t h (k, ks) = ground (arith, ==_iff slash d)
starts_with-segment (c ∷ v) [] s t (h, hs) k = ground (arith, ==_iff c slash)
starts_with-segment (c ∷ v) (d ∷ w) s t (h, hs) (k, ks) =
    ground (arith, starts_with-segment v w s t hs ks)

starts_with-path_of :
    (vs ws : List Text)
    → All IsSegment vs
    → All IsSegment ws
    → starts_with (path_of vs) (path_of ws) ≡ is_above ws vs
starts_with-path_of [] [] h k = refl
starts_with-path_of (v ∷ vs) [] h k = refl
starts_with-path_of [] ([] ∷ ws) h ((k, _), _) = absurd (k refl)
starts_with-path_of [] ((d ∷ w) ∷ ws) h k = refl
starts_with-path_of (v ∷ vs) (w ∷ ws) ((_, h), hs) ((_, k), ks) =
    ground (
      arith,
      starts_with-segment v w (path_of vs) (path_of ws) h k,
      starts_with-path_of vs ws hs ks,
    )

-- For two directories given by their segments, the first is an ancestor of the second exactly
-- when its segments begin the segments of the second, each compared as a whole.
pub is_prefix_ancestor-path_of :
    (ws vs : List Text)
    → IsDirectory ws
    → IsDirectory vs
    → is_prefix_ancestor (path_of ws) (path_of vs) ≡ is_above ws vs
unfolding is_prefix_ancestor
is_prefix_ancestor-path_of [] vs h k = rw (normalize_prefix-path_of [] h)
is_prefix_ancestor-path_of (w ∷ ws) vs h k = rw (normalize_prefix-path_of (w ∷ ws) h) (
    rw (empty_path_of (w ∷ ws) (λ e. cc e) h.0)
      (rw (normalize_prefix-path_of vs k) (starts_with-path_of vs (w ∷ ws) k.0 h.0)))

-- A name that `joinExplorerPath` takes as it is.
pub record IsName (w : Text) : Type 0 where
  pub segment : IsSegment w
  pub no_start : starts_in is_space w ≡ false
  pub no_end : ends_in is_space w ≡ false

IsDirectory-snoc :
    (ws : List Text) (w : Text) → IsDirectory ws → IsName w → IsDirectory (ws ++ w ∷ [])
IsDirectory-snoc [] w h k =
    ((k.segment, tt), starts_in-append is_space w (slash ∷ []) k.segment.0 ∙ k.no_start)
IsDirectory-snoc (v ∷ vs) w (h, clean) k = (
  All-append IsSegment (v ∷ vs) (w ∷ []) h (k.segment, tt),
  starts_in-append is_space v (slash ∷ path_of (vs ++ w ∷ [])) h.0.0
      ∙ sym (starts_in-append is_space v (slash ∷ path_of vs) h.0.0)
      ∙ clean,
)

path_of-snoc :
    (ws : List Text) (w : Text) → (path_of ws ++ w) ++ slash ∷ [] ≡ path_of (ws ++ w ∷ [])
path_of-snoc ws w = append_assoc (path_of ws) w (slash ∷ []) ∙ sym (path_of-append ws (w ∷ []))

join-cons :
    (v : Text) (us : List Text) → us ≢ [] → join slash (v ∷ us) ≡ v ++ (slash ∷ join slash us)
unfolding join
join-cons v [] h = absurd (h refl)
join-cons v (u ∷ us) h = refl

join-snoc : (ws : List Text) (w : Text) → join slash (ws ++ w ∷ []) ≡ path_of ws ++ w
join-snoc [] w = unfold join in refl
join-snoc (v ∷ vs) w =
    join-cons v (vs ++ w ∷ []) (snoc-ne-nil vs w)
    ∙ ap (λ t. v ++ (slash ∷ t)) (join-snoc vs w)
    ∙ sym (append_assoc v (slash ∷ path_of vs) w)

IsTrunk-All : (us : List Text) → us ≢ [] → All IsSegment us → IsTrunk (join slash us)
IsTrunk-All [] h k = absurd (h refl)
IsTrunk-All (u ∷ us) h k = join-IsTrunk u us k

ends_in-append_ne : (p : ℕ → Bool) (s t : Text) → t ≢ [] → ends_in p (s ++ t) ≡ ends_in p t
ends_in-append_ne p [] t h = refl
ends_in-append_ne p (c ∷ []) [] h = absurd (h refl)
ends_in-append_ne p (c ∷ []) (d ∷ t) h = refl
ends_in-append_ne p (c ∷ (d ∷ s)) t h = ends_in-append_ne p (d ∷ s) t h

stripped_name : (w : Text) → IsName w → strip_slashes (trim w) ≡ w
stripped_name [] k = absurd (k.segment.0 refl)
stripped_name (c ∷ w) k = rw (trim_fix (c ∷ w) k.no_start k.no_end) (
    rw (strip_start_fix is_slash (c ∷ w) (ground (arith, ==_iff c slash, k.segment.1.0)))
      (strip_end_fix is_slash (c ∷ w) (ends_in-Lacks (c ∷ w) k.segment.1)))

pub join_path-path_of :
    (ws : List Text) (w : Text)
    → IsDirectory ws
    → IsName w
    → join_path (path_of ws) w ≡ path_of ws ++ w
unfolding join_path
join_path-path_of ws [] h k = absurd (k.segment.0 refl)
join_path-path_of ws (c ∷ w) h k = rw (stripped_name (c ∷ w) k) (rw (normalize_prefix-path_of ws h))

child_prefix :
    (ws : List Text) (w : Text)
    → IsDirectory (ws ++ w ∷ [])
    → IsName w
    → normalize_prefix (some (path_of ws ++ w)) ≡ path_of (ws ++ w ∷ [])
child_prefix ws w h k =
    let trunk : IsTrunk (path_of ws ++ w) =
      rw (sym (join-snoc ws w)) (IsTrunk-All (ws ++ w ∷ []) (snoc-ne-nil ws w) h.0) in
    normalize_prefix-trunk (path_of ws ++ w) trunk
      (sym (starts_in-append is_space (path_of ws ++ w) (slash ∷ []) trunk.inhabited)
        ∙ rw (path_of-snoc ws w) h.1)
      (ends_in-append_ne is_space (path_of ws) w k.segment.0 ∙ k.no_end)
    ∙ path_of-snoc ws w

-- For a directory and a name with no slash in it and no white space at its ends, joining them
-- appends the name to the path, and normalising the result gives the child directory of that
-- name.
pub normalize_prefix-join_path :
    (ws : List Text) (w : Text)
    → IsDirectory ws
    → IsName w
    → (join_path (path_of ws) w ≡ path_of ws ++ w)
      × (normalize_prefix (some (join_path (path_of ws) w)) ≡ path_of (ws ++ w ∷ []))
normalize_prefix-join_path ws w h k = (
  join_path-path_of ws w h k,
  rw (join_path-path_of ws w h k) (child_prefix ws w (IsDirectory-snoc ws w h k) k),
)
