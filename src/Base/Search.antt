-- ===== src/Base/Search.antt =====
-- `toLowerCase`, `endsWith` and `includes` of strings, for the ASCII texts that the program seeks.
use Prim.Native.Nat.{ℕ, ◌+◌}
use mathlib.Core.Bool.{Bool, true, ◌&&◌}
use mathlib.Core.List.{[], ◌∷◌, ◌++◌}
use light_oss.Base.Tests.{◌==◌, leb, if◌then◌else◌}
use light_oss.Base.Lists.{is_empty}
use light_oss.Base.Text.{Text, text_eq, starts_with}

-- A-Z, and the two other code units with ASCII in their lower-case form. The rest is left as it
-- is: that makes no difference to a search for an ASCII text.
abbrev pub lower : ℕ → Text
lower c =
    if leb b'A' c && leb c b'Z'
    then (c + 32) ∷ []
    else if c == 0x130
    then b'i' ∷ 0x307 ∷ []
    else if c == 0x212A
    then b'k' ∷ []
    else c ∷ []

abbrev pub lower_text : Text → Text
lower_text [] = []
lower_text (c ∷ s) = lower c ++ lower_text s

abbrev pub ends_with : Text → Text → Bool
ends_with [] t = is_empty t
ends_with (c ∷ s) t = let later = ends_with s t in if text_eq (c ∷ s) t then true else later

abbrev pub contains : Text → Text → Bool
contains [] t = is_empty t
contains (c ∷ s) t = let later = contains s t in if starts_with (c ∷ s) t then true else later
