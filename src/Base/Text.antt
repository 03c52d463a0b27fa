-- ===== src/Base/Text.antt =====
-- JavaScript strings as lists of UTF-16 code units, with the methods that the program calls.
use Prim.Native.Nat.{ℕ}
use Prim.Native.Char.{code}
use Prim.Native.String.{String}
use mathlib.Core.Path.{◌≡◌, refl}
use mathlib.Core.Logic.{◌↔◌, ◌≢◌}
use mathlib.Core.Bool.{Bool, true, false, ◌&&◌, ◌||◌}
use mathlib.Core.List.{List, [], ◌∷◌}
use native.Mathlib.Omega.{arith}
use light_oss.Base.Tests.{◌==◌, leb, Key, if◌then◌else◌}
use light_oss.Base.Lists.{is_empty}

abbrev pub Text : Type 0
Text = List ℕ

-- The code units of a literal.
abbrev pub codes : String → Text
codes String.[] = []
codes (String.◌∷◌ c s) = code c ∷ codes s

abbrev pub slash : ℕ
slash = b'/'

abbrev pub text_eq : Text → Text → Bool
text_eq [] [] = true
text_eq [] (d ∷ t) = false
text_eq (c ∷ s) [] = false
text_eq (c ∷ s) (d ∷ t) = c == d && text_eq s t

pub text_eq_iff : (s t : Text) → (text_eq s t ≡ true) ↔ (s ≡ t)
text_eq_iff [] [] = (λ _. refl, λ _. refl)
text_eq_iff [] (d ∷ t) = ground arith
text_eq_iff (c ∷ s) [] = ground arith
text_eq_iff (c ∷ s) (d ∷ t) = ground (arith, text_eq_iff s t)

pub text_eq_refl : (s : Text) → text_eq s s ≡ true
text_eq_refl s = (text_eq_iff s s).1 refl

instance abbrev pub text_key : Key Text
text_key = record { same = text_eq; same_iff = text_eq_iff }

-- WhiteSpace and LineTerminator of ECMAScript, which `trim` removes and `\s` matches.
unfoldable pub is_space : ℕ → Bool
is_space c =
    (leb 9 c && leb c 13)
    || c == 32
    || c == 0xA0
    || c == 0x1680
    || (leb 0x2000 c && leb c 0x200A)
    || c == 0x2028
    || c == 0x2029
    || c == 0x202F
    || c == 0x205F
    || c == 0x3000
    || c == 0xFEFF

abbrev pub is_slash : ℕ → Bool
is_slash c = c == slash

-- `s.replace(/^p+/, "")`
abbrev pub strip_start : (ℕ → Bool) → Text → Text
strip_start p [] = []
strip_start p (c ∷ s) = if p c then strip_start p s else c ∷ s

-- `s.replace(/p+$/, "")`
abbrev pub strip_end : (ℕ → Bool) → Text → Text
strip_end p [] = []
strip_end p (c ∷ s) = let rest = strip_end p s in if p c && is_empty rest then [] else c ∷ rest

unfoldable pub trim : Text → Text
unfolding is_space
trim s = strip_end is_space (strip_start is_space s)

abbrev pub starts_with : Text → Text → Bool
starts_with s [] = true
starts_with [] (d ∷ t) = false
starts_with (c ∷ s) (d ∷ t) = c == d && starts_with s t

-- Whether the first code unit passes the test, and whether the last one does.
abbrev pub starts_in : (ℕ → Bool) → Text → Bool
starts_in p [] = false
starts_in p (c ∷ s) = p c

abbrev pub ends_in : (ℕ → Bool) → Text → Bool
ends_in p [] = false
ends_in p (c ∷ []) = p c
ends_in p (c ∷ (d ∷ s)) = ends_in p (d ∷ s)

-- Texts that the test tells apart differ.
pub text_ne : (a b : Text) → text_eq a b ≡ false → a ≢ b
text_ne a b h e = cc (h, (text_eq_iff a b).1 e)
