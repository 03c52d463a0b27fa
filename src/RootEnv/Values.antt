-- ===== src/RootEnv/Values.antt =====
-- Values between double quotes in an `.env` file.
use light_oss.Base.{
  ◌≡◌, refl, ◌∙◌, true, none, some, [], ◌∷◌, ◌++◌, leb, ◌==◌, length, drop_last-append, arith,
  ==_iff,
}
use light_oss.Base.Text.{Text, is_space, trim}
use light_oss.Base.Split.{Lacks}
use light_oss.Base.Strip.{trim_fix, ends_in-append}
use light_oss.RootEnv.{before_comment, strip_inline_comment, parse_root_env_value, unquoted}

-- A value as it is written between double quotes.
abbrev pub quoted : Text → Text
quoted s = b'"' ∷ (s ++ b'"' ∷ [])

no_comment : (s : Text) → Lacks b'"' s → before_comment (some b'"') (s ++ b'"' ∷ []) ≡ none
unfolding before_comment
no_comment [] h = refl
no_comment (c ∷ s) (h, hs) = ground (arith, no_comment s hs, ==_iff c b'"')

strip-quoted : (s : Text) → Lacks b'"' s → strip_inline_comment (quoted s) ≡ quoted s
unfolding strip_inline_comment before_comment
strip-quoted s h = rw (no_comment s h) refl

trim-quoted : (s : Text) → trim (quoted s) ≡ quoted s
trim-quoted s =
    trim_fix (quoted s) (unfold is_space in refl)
      (ends_in-append is_space (b'"' ∷ s) b'"' ∙ (unfold is_space in refl))

two-units : (s : Text) → leb 2 (length (quoted s)) ≡ true
two-units [] = refl
two-units (c ∷ s) = ground arith

unquoted-quoted : (s : Text) → unquoted (quoted s) ≡ s
unquoted-quoted s =
    rw (two-units s)
      (rw (ends_in-append (λ c. c == b'"') (b'"' ∷ s) b'"') (drop_last-append s b'"'))

pub parse_root_env_value-quoted : (s : Text) → Lacks b'"' s → parse_root_env_value (quoted s) ≡ s
unfolding parse_root_env_value
parse_root_env_value-quoted s h = rw (strip-quoted s h) (rw (trim-quoted s) (unquoted-quoted s))
