-- ===== src/Explorer/Prefix.antt =====
-- What `normalizeExplorerPrefix` returns, and when it is the identity.
use light_oss.Base.{
  ◌+◌, ◌≡◌, refl, sym, ap, ◌∙◌, ◌≢◌, ◌↔◌, ◌⊎◌, inl, inr, true, false, Option, some, [], ◌∷◌, ◌++◌,
  arith, Bool-cases, ◌<◌, if◌then◌else◌, or_else, is_empty, length, length-append, ◌≤◌,
}
use light_oss.Base.Text.{Text, slash, is_slash, is_space, strip_start, trim, starts_in, ends_in}
use light_oss.Base.Strip.{
  strip_start_fix, strip_end_fix, starts_in-strip_start, starts_in-strip_end, ends_in-strip_end,
  strip_end-append, ends_in-append, starts_in-append, trim_fix, strip_start-append,
  length-strip-append, length-strip_start-lt,
}
use light_oss.Explorer.{normalize_prefix, strip_slashes}

-- A text with no slash at either end, which is not empty.
pub record IsTrunk (t : Text) : Type 0 where
  pub inhabited : t ≢ []
  pub no_start : starts_in is_slash t ≡ false
  pub no_end : ends_in is_slash t ≡ false

-- A prefix as the server spells it: the root, or a trunk and one slash.
abbrev pub IsPrefix : Text → Type 0
IsPrefix p = (p ≡ []) ⊎ ((t : Text) × (p ≡ t ++ slash ∷ []) × IsTrunk t)

strip_slashes-no_start : (s : Text) → starts_in is_slash (strip_slashes s) ≡ false
strip_slashes-no_start s =
    starts_in-strip_end is_slash is_slash (strip_start is_slash s)
      (starts_in-strip_start is_slash s)

wrapped-IsPrefix :
    (t : Text)
    → starts_in is_slash t ≡ false
    → ends_in is_slash t ≡ false
    → IsPrefix (if is_empty t then [] else t ++ slash ∷ [])
wrapped-IsPrefix [] h k = inl refl
wrapped-IsPrefix (c ∷ t) h k =
    inr (c ∷ t, refl, record { inhabited = λ e. cc e; no_start = h; no_end = k })

-- A normalised prefix is the root, or a text that starts with no slash and ends in exactly one.
pub normalize_prefix-IsPrefix : (value : Option Text) → IsPrefix (normalize_prefix value)
unfolding normalize_prefix
normalize_prefix-IsPrefix value =
    wrapped-IsPrefix (strip_slashes (trim (or_else value [])))
      (strip_slashes-no_start (trim (or_else value [])))
      (ends_in-strip_end is_slash (strip_start is_slash (trim (or_else value []))))

space-slash : is_space slash ≡ false
unfolding is_space
space-slash = refl

wrapped_of_ne : (t : Text) → t ≢ [] → (if is_empty t then [] else t ++ slash ∷ []) ≡ t ++ slash ∷ []
wrapped_of_ne [] h = absurd (h refl)
wrapped_of_ne (c ∷ t) h = refl

strip_slashes_trunk : (t : Text) → IsTrunk t → strip_slashes (t ++ slash ∷ []) ≡ t
strip_slashes_trunk t h =
    rw
      (strip_start_fix is_slash (t ++ slash ∷ [])
        (starts_in-append is_slash t (slash ∷ []) h.inhabited ∙ h.no_start))
      (strip_end-append is_slash t slash refl ∙ strip_end_fix is_slash t h.no_end)

-- A prefix that does not start with white space is left as it is.
pub normalize_prefix_fix :
    (p : Text) → IsPrefix p → starts_in is_space p ≡ false → normalize_prefix (some p) ≡ p
unfolding normalize_prefix
normalize_prefix_fix p (inl root) clean = rw root (unfold trim in refl)
normalize_prefix_fix p (inr (t, e, trunk)) clean = rw e (
    rw (trim_fix (t ++ slash ∷ []) (rw e at clean) (ends_in-append is_space t slash ∙ space-slash))
      (rw (strip_slashes_trunk t trunk) (wrapped_of_ne t trunk.inhabited)))

-- A trunk with no white space at either end gets its slash.
pub normalize_prefix-trunk :
    (t : Text)
    → IsTrunk t
    → starts_in is_space t ≡ false
    → ends_in is_space t ≡ false
    → normalize_prefix (some t) ≡ t ++ slash ∷ []
unfolding normalize_prefix
normalize_prefix-trunk t trunk starts ends = rw (trim_fix t starts ends) (
    rw (strip_start_fix is_slash t trunk.no_start)
      (rw (strip_end_fix is_slash t trunk.no_end) (wrapped_of_ne t trunk.inhabited)))

length-wrapped : (t : Text) → length (if is_empty t then [] else t ++ slash ∷ []) ≤ length t + 1
length-wrapped [] = omega arith
length-wrapped (c ∷ t) = omega (arith, length-append {0} (c ∷ t) (slash ∷ []))

trim-append : (t : Text) → trim (t ++ slash ∷ []) ≡ strip_start is_space t ++ slash ∷ []
unfolding trim
trim-append t = rw (strip_start-append is_space t slash space-slash) (
    strip_end_fix is_space (strip_start is_space t ++ slash ∷ [])
      (ends_in-append is_space (strip_start is_space t) slash ∙ space-slash))

normalize_prefix-shrinks :
    (t : Text)
    → starts_in is_space t ≡ true
    → length (normalize_prefix (some (t ++ slash ∷ []))) < length (t ++ slash ∷ [])
unfolding normalize_prefix
normalize_prefix-shrinks t padded = rw (trim-append t) (
    omega (
      arith,
      length-wrapped (strip_slashes (strip_start is_space t ++ slash ∷ [])),
      length-strip-append is_slash (strip_start is_space t) slash refl,
      length-strip_start-lt is_space t padded,
      length-append {0} t (slash ∷ []),
    ))

changed_of_padded :
    (p : Text) → IsPrefix p → starts_in is_space p ≡ true → normalize_prefix (some p) ≢ p
changed_of_padded p (inl root) padded same = cc (rw root at padded)
changed_of_padded p (inr (t, e, trunk)) padded same =
    let starts : starts_in is_space t ≡ true =
      sym (starts_in-append is_space t (slash ∷ []) trunk.inhabited) ∙ rw e at padded in
    absurd (omega (arith, normalize_prefix-shrinks t starts, ap length (rw e at same)))

-- Normalising a normalised prefix again leaves it alone exactly when it does not start with white
-- space.
pub normalize_prefix_idempotent_iff :
    (value : Option Text)
    → (normalize_prefix (some (normalize_prefix value)) ≡ normalize_prefix value)
      ↔ (starts_in is_space (normalize_prefix value) ≡ false)
normalize_prefix_idempotent_iff value =
    let canonical = normalize_prefix-IsPrefix value in
    (
      λ same. elim (Bool-cases (starts_in is_space (normalize_prefix value))) [
        | inl padded ↦ absurd (changed_of_padded _ canonical padded same)
        | inr clean ↦ clean
      ],
      λ clean. normalize_prefix_fix _ canonical clean,
    )
