-- ===== src/Explorer/Tests.antt =====
-- The theorems on prefixes and sort parameters at concrete inputs, and runs of the functions.
use light_oss.Base.{ℕ, ◌≡◌, ◌↔◌, refl, Option, none, some, List, [], ◌∷◌, true, false, arith}
use light_oss.Base.Text.{Text, codes, is_space, starts_in, trim, text_eq}
use light_oss.Base.Split.{split, join}
use light_oss.Explorer.{
  normalize_prefix, segments_of, breadcrumbs, parent_prefix, is_prefix_ancestor,
}
use light_oss.Explorer.Prefix.{normalize_prefix_idempotent_iff}
use light_oss.Explorer.Segments.{path_of, IsDirectory}
use light_oss.Explorer.Tree.{
  trail, breadcrumbs-path_of, is_above, is_prefix_ancestor-path_of, IsName,
}

normalize_runs :
    (normalize_prefix (some (codes " //docs/a/ ")) ≡ codes "docs/a/")
    × (normalize_prefix (some (codes "/ /docs")) ≡ codes " /docs/")
    × (normalize_prefix none ≡ [])
unfolding normalize_prefix trim
normalize_runs = (refl, refl, refl)

parent_runs : (parent_prefix (codes "a//b/") ≡ codes "a/") × (parent_prefix (codes "a/") ≡ [])
unfolding parent_prefix normalize_prefix trim segments_of split join
parent_runs = (refl, refl)

normalize_prefix_idempotent_iff_example :
    (normalize_prefix (some (normalize_prefix (some (codes "/ docs"))))
      ≡ normalize_prefix (some (codes "/ docs")))
    ↔ (starts_in is_space (normalize_prefix (some (codes "/ docs"))) ≡ false)
normalize_prefix_idempotent_iff_example = normalize_prefix_idempotent_iff (some (codes "/ docs"))

abbrev docs : List Text
docs = codes "docs" ∷ codes "img" ∷ []

docs-IsDirectory : IsDirectory docs
unfolding is_space
docs-IsDirectory = (((λ e. cc e, omega arith), ((λ e. cc e, omega arith), tt)), refl)

breadcrumbs-path_of_example : breadcrumbs (path_of docs) ≡ trail [] docs
breadcrumbs-path_of_example = breadcrumbs-path_of docs docs-IsDirectory

abbrev doc : List Text
doc = codes "doc" ∷ []

doc-IsDirectory : IsDirectory doc
unfolding is_space
doc-IsDirectory = (((λ e. cc e, omega arith), tt), refl)

is_prefix_ancestor-path_of_example :
    is_prefix_ancestor (path_of doc) (path_of docs) ≡ is_above doc docs
is_prefix_ancestor-path_of_example =
    is_prefix_ancestor-path_of doc docs doc-IsDirectory docs-IsDirectory

not_above : is_above doc docs ≡ false
not_above = refl

logo-IsName : IsName (codes "logo.svg")
unfolding is_space
logo-IsName = record { segment = (λ e. cc e, omega arith); no_start = refl; no_end = refl }

-- `Number` on a few texts.
abbrev few_numbers : Text → Option ℕ
few_numbers text = elim (text_eq text (codes "50")) [ true ↦ some 50 | false ↦ none ]
