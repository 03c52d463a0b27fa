-- ===== src/Settings/Quota/Shown.antt =====
-- The limit that is shown can be saved, and is then shown again.
use light_oss.Base.{
  ℕ, ◌+◌, ◌*◌, ◌/◌, ◌%◌, ◌^◌, ◌≤◌, ◌<◌, ◌≡◌, ◌≢◌, refl, ap, ◌∙◌, true, false, none, some, [], ◌∷◌,
  ◌++◌, ltb, arith, length, all,
}
use light_oss.Base.Text.{Text, is_space}
use light_oss.Base.Decimal.{
  decimal, is_digit, scan_digits, scan_digits-append, decimal_ne, all-decimal, value_from,
  value_from-decimal,
}
use light_oss.Settings.Quota.{
  tenths_of, tenths_text, bytes_to_gi_b_string, finite, with_integer, with_fraction, parse_float,
  double_limit, rounded, to_bytes, parse_gi_b_to_bytes,
}

-- A text that begins with a digit has no sign.
parse_float-digit :
    (c : ℕ) (s : Text)
    → is_digit c ≡ true
    → parse_float (c ∷ s) ≡ with_integer false (scan_digits 0 0 (c ∷ s))
unfolding parse_float is_space
parse_float-digit c s h = ground (arith, h)

scan-tenths :
    (value count : ℕ) (r : ℕ)
    → r < 10
    → with_fraction false count (scan_digits value 0 ((48 + r) ∷ []))
      ≡ finite false (10 * value + r) 10
unfolding scan_digits
scan-tenths value count r h = ground (arith, h)

parse_float-digits :
    (s rest : Text)
    → all is_digit s ≡ true
    → s ≢ []
    → parse_float (s ++ rest) ≡ with_integer false (scan_digits 0 0 (s ++ rest))
parse_float-digits [] rest h k = absurd (k refl)
parse_float-digits (c ∷ s) rest h k = parse_float-digit c (s ++ rest) (ground (arith, h))

-- The text of a number of tenths is read as that many tenths.
parse_float-tenths_text : (n : ℕ) → parse_float (tenths_text n) ≡ finite false n 10
unfolding tenths_text
parse_float-tenths_text n =
    let whole : Text = decimal (n / 10) in
    let tenth : Text = (48 + n % 10) ∷ [] in
    parse_float-digits whole (b'.' ∷ tenth) (all-decimal (n / 10)) (decimal_ne (n / 10))
    ∙ ap (with_integer false) (scan_digits-append 0 0 whole b'.' tenth (all-decimal (n / 10)) refl)
    ∙ scan-tenths (value_from 0 whole) (0 + length whole) (n % 10) (omega arith)
    ∙ ap (λ (k : ℕ). finite false k 10) (omega (arith, value_from-decimal (n / 10)))

double_limit-large : ltb (2 ^ 60) double_limit ≡ true
unfolding double_limit
double_limit-large = refl

parse_gi_b_to_bytes-tenths_text :
    (n : ℕ) → 0 < n → n < 2 ^ 60 → parse_gi_b_to_bytes (tenths_text n) ≡ some (rounded n 10)
unfolding parse_gi_b_to_bytes
parse_gi_b_to_bytes-tenths_text n p q =
    ap to_bytes (parse_float-tenths_text n) ∙ ground (arith, double_limit-large)

-- A limit below 2 ^ 53 of at least 53687092 bytes, a twentieth of a GiB, is shown as a text that
-- can be saved: the bytes that it stands for differ from the limit by at most 53687092 and are
-- shown as the same text.
pub shown-saved :
    (b : ℕ)
    → b < 2 ^ 53
    → 53687092 ≤ b
    → (saved : ℕ) × (parse_gi_b_to_bytes (bytes_to_gi_b_string b) ≡ some saved)
      × (bytes_to_gi_b_string saved ≡ bytes_to_gi_b_string b)
      × (b ≤ saved + 53687092)
      × (saved ≤ b + 53687092)
unfolding bytes_to_gi_b_string tenths_of
shown-saved b h large = (
  rounded (tenths_of b) 10,
  parse_gi_b_to_bytes-tenths_text (tenths_of b) (omega arith) (omega arith),
  ap tenths_text (omega arith),
  omega arith,
  omega arith,
)

-- A smaller limit is shown as a text that the page refuses to save.
shown-refused : (b : ℕ) → b < 53687092 → parse_gi_b_to_bytes (bytes_to_gi_b_string b) ≡ none
unfolding bytes_to_gi_b_string tenths_of parse_gi_b_to_bytes
shown-refused b small =
    let nothing : tenths_of b ≡ 0 = omega arith in
    ap (λ n. to_bytes (parse_float (tenths_text n))) nothing
    ∙ ap to_bytes (parse_float-tenths_text 0)
    ∙ ground arith
