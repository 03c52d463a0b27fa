-- ===== src/Translations/Templates.antt =====
-- Templates that are made of literal texts and of tokens.
use light_oss.Base.{
  ◌≡◌, refl, sym, ap, ◌∙◌, true, false, some, none, List, [], ◌∷◌, ◌++◌, ==_iff, append_assoc,
  append-nil, is_empty, All, arith,
}
use light_oss.Base.Text.{Text}
use light_oss.Base.Split.{Lacks}
use light_oss.Translations.{is_word, interpolate, translate}

pub data Piece : Type 0 where
  literal token : Text → Piece

abbrev pub render : List Piece → Text
render [] = []
render (literal s ∷ pieces) = s ++ render pieces
render (token w ∷ pieces) = b'{' ∷ (w ++ b'}' ∷ render pieces)

-- What the pieces stand for, the values put in.
abbrev pub expand : (Text → Text) → List Piece → Text
expand values [] = []
expand values (literal s ∷ pieces) = s ++ expand values pieces
expand values (token w ∷ pieces) = values w ++ expand values pieces

-- A literal opens no token, and a token is a word.
abbrev pub IsPiece : Piece → Type 0
IsPiece (literal s) = Lacks b'{' s
IsPiece (token w) = All (λ c. is_word c ≡ true) w × (is_empty w ≡ false)

module _ (values : Text → Text) where
  interpolate-literal :
      (s t : Text)
      → Lacks b'{' s
      → interpolate values none (s ++ t) ≡ s ++ interpolate values none t
  unfolding interpolate
  interpolate-literal [] t h = refl
  interpolate-literal (c ∷ s) t (h, hs) = ground (arith, interpolate-literal s t hs, ==_iff c b'{')

  interpolate-token :
      (u w t : Text)
      → All (λ c. is_word c ≡ true) w
      → is_empty (u ++ w) ≡ false
      → interpolate values (some u) (w ++ b'}' ∷ t) ≡ values (u ++ w) ++ interpolate values none t
  unfolding interpolate
  interpolate-token u [] t h k =
      let given : is_empty u ≡ false = ap is_empty (sym (append-nil u)) ∙ k in
      rw given (ap (λ v. values v ++ interpolate values none t) (sym (append-nil u)))
  interpolate-token u (c ∷ w) t (h, hs) k = rw h (
      interpolate-token (u ++ c ∷ []) w t hs (ap is_empty (append_assoc u (c ∷ []) w) ∙ k)
      ∙ ap (λ v. values v ++ interpolate values none t) (append_assoc u (c ∷ []) w))

  interpolate-opened :
      (s : Text) → interpolate values none (b'{' ∷ s) ≡ interpolate values (some []) s
  unfolding interpolate
  interpolate-opened s = refl

  interpolate-render :
      (pieces : List Piece)
      → All IsPiece pieces
      → interpolate values none (render pieces) ≡ expand values pieces
  interpolate-render [] h = unfold interpolate in refl
  interpolate-render (literal s ∷ pieces) (h, hs) =
      interpolate-literal s (render pieces) h ∙ ap (λ t. s ++ t) (interpolate-render pieces hs)
  interpolate-render (token w ∷ pieces) ((word, given), hs) =
      interpolate-opened (w ++ b'}' ∷ render pieces)
      ∙ interpolate-token [] w (render pieces) word given
      ∙ ap (λ t. values w ++ t) (interpolate-render pieces hs)

  -- For any values: a template made of texts without an opening brace and of tokens, words in
  -- braces, is translated to the same texts with the values of the tokens in their places.
  pub translate-render :
      (pieces : List Piece)
      → All IsPiece pieces
      → translate (render pieces) (some values) ≡ expand values pieces
  unfolding translate
  translate-render pieces h = interpolate-render pieces h
