-- ===== src/Translations/Tests.antt =====
-- Runs of the translations, and the theorem on templates at a concrete one.
use light_oss.Base.{◌≡◌, refl, some, none, List, [], ◌∷◌, ◌++◌}
use light_oss.Base.Text.{Text, codes, trim, is_space}
use light_oss.Base.Split.{Lacks_of_all}
use light_oss.Settings.Stored.{en_us}
use light_oss.Translations.{interpolate, translate, translate_recycle_bin_failure_reason}
use light_oss.Translations.Templates.{Piece, literal, token, render, expand, translate-render}

-- A value for each token: the token itself between two stars.
abbrev starred : Text → Text
starred w = b'*' ∷ (w ++ b'*' ∷ [])

-- "{count} of }"
abbrev counted : List Piece
counted = token (codes "count") ∷ literal (codes " of }") ∷ []

unclosed_test : translate (codes "{a{b}}{") (some starred) ≡ codes "{a*b*}{"
unclosed_test = unfold translate interpolate in refl

padded_test :
    translate_recycle_bin_failure_reason en_us [] (codes " Bucket NOT found ")
    ≡ some (codes "Bucket not found.")
padded_test = unfold translate_recycle_bin_failure_reason trim is_space in refl

inherited_test : translate_recycle_bin_failure_reason en_us (codes "constructor") [] ≡ none
inherited_test = unfold translate_recycle_bin_failure_reason in refl

translate-render_example : translate (render counted) (some starred) ≡ expand starred counted
translate-render_example = translate-render starred counted (
  ((refl, (refl, (refl, (refl, (refl, tt))))), refl),
  (Lacks_of_all b'{' (codes " of }") refl, tt),
)
