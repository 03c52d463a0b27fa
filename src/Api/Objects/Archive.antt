-- ===== src/Api/Objects/Archive.antt =====
-- frontend/src/api/objects.ts: the file name of a downloaded archive. A regular expression is a
-- function that finds its first match; the one that ignores case does so for ASCII letters.
use light_oss.Base.{
  ℕ, ◌+◌, Bool, false, ◌&&◌, ◌||◌, Option, none, some, [], ◌∷◌, ◌==◌, leb, if◌then◌else◌, is_empty,
  or_else,
}
use light_oss.Base.Text.{Text, codes, is_space, strip_start, trim, starts_in}
use light_oss.Api.Encoding.Decode.{decode_uri_component}
use light_oss.Api.Objects.{build_folder_archive_fallback_name}

-- A letter of a pattern in lower case, whatever its case in the text.
abbrev pub same_letter : ℕ → ℕ → Bool
same_letter c letter = c == letter || (leb b'a' letter && leb letter b'z' && c + 32 == letter)

-- The rest of a text after a pattern.
abbrev pub after_letters : Text → Text → Option Text
after_letters [] s = some s
after_letters (letter ∷ letters) [] = none
after_letters (letter ∷ letters) (c ∷ s) =
    let rest = after_letters letters s in if same_letter c letter then rest else none

abbrev pub and_then {ℓ} : {A B : Type ℓ} → Option A → (A → Option B) → Option B
and_then none use_value = none
and_then (some a) use_value = use_value a

-- `\s*=`
abbrev pub after_equals : Text → Option Text
unfolding is_space
after_equals s = after_letters (b'=' ∷ []) (strip_start is_space s)

-- `[^x]+` for a character x
abbrev pub until : ℕ → Text → Text
until x [] = []
until x (c ∷ s) = let rest = until x s in if c == x then [] else c ∷ rest

abbrev pub if_any : Text → Option Text
if_any [] = none
if_any (c ∷ s) = some (c ∷ s)

-- `filename\*\s*=\s*UTF-8''([^;]+)`
unfoldable pub utf8_match : Text → Option Text
unfolding is_space
utf8_match s = and_then (after_letters (codes "filename*") s) (λ a. and_then (after_equals a) (λ b.
    and_then (after_letters (codes "utf-8''") (strip_start is_space b))
      (λ c. if_any (until b';' c))))

abbrev pub has_unit : ℕ → Text → Bool
has_unit x [] = false
has_unit x (c ∷ s) = c == x || has_unit x s

-- `([^"]+)"`
abbrev pub quoted : Text → Option Text
quoted s = if has_unit 34 s then if_any (until 34 s) else none

-- `filename\s*=\s*"([^"]+)"`
unfoldable pub filename_match : Text → Option Text
unfolding is_space
filename_match s = and_then (after_letters (codes "filename") s) (λ a.
    and_then (after_equals a)
      (λ b. and_then (after_letters (34 ∷ []) (strip_start is_space b)) quoted))

-- `\s*([^;]+)`: where nothing but spaces is left, the last of them is the match.
abbrev pub unquoted : Text → Option Text
unfolding is_space
unquoted s =
    if is_empty (until b';' (strip_start is_space s))
    then if starts_in is_space s then some (b' ' ∷ []) else none
    else some (until b';' (strip_start is_space s))

-- `filename\s*=\s*([^;]+)`
unfoldable pub unquoted_match : Text → Option Text
unfolding unquoted
unquoted_match s =
    and_then (after_letters (codes "filename") s) (λ a. and_then (after_equals a) unquoted)

-- The first match in a text.
abbrev pub first_match : (Text → Option Text) → Text → Option Text
first_match match [] = match []
first_match match (c ∷ s) =
    let later = first_match match s in
    elim (match (c ∷ s)) [ some found ↦ some found | none ↦ later ]

abbrev pub plain_name : Text → Text → Text
unfolding filename_match unquoted_match
plain_name content_disposition fallback_filename =
    elim (first_match filename_match content_disposition) [
      | some name ↦ name
      | none ↦ elim (first_match unquoted_match content_disposition) [
        | some name ↦ trim name
        | none ↦ fallback_filename
      ]
    ]

-- `getDownloadFilename`
unfoldable pub get_download_filename : Option Text → Text → Text
unfolding plain_name utf8_match decode_uri_component
get_download_filename none fallback_filename = fallback_filename
get_download_filename (some content_disposition) fallback_filename =
    if is_empty content_disposition
    then fallback_filename
    else elim (first_match utf8_match content_disposition) [
      | some encoded ↦ or_else (decode_uri_component encoded) fallback_filename
      | none ↦ plain_name content_disposition fallback_filename
    ]

-- The name of the file that `downloadFolderZip` saves.
unfoldable pub archive_filename : Option Text → Text → Text
unfolding get_download_filename build_folder_archive_fallback_name
archive_filename content_disposition folder_path =
    get_download_filename content_disposition (build_folder_archive_fallback_name folder_path)
