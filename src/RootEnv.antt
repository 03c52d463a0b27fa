-- ===== src/RootEnv.antt =====
-- frontend/root-env.ts: the defaults that the build takes from an `.env` file of the repository.
-- `path.join`, the file system and the variables of the process are arguments.
pub mod Values
pub mod Lines
pub mod Variables
mod Tests
use light_oss.Base.{
  ℕ, ◌+◌, ◌≡◌, Bool, true, false, not, ◌&&◌, ◌||◌, Option, none, some, List, [], ◌∷◌, ◌++◌, map,
  ◌==◌, leb, if◌then◌else◌, or_else, is_empty, drop_last, length, all,
}
use light_oss.Base.Text.{
  Text, codes, text_eq, is_space, strip_start, strip_end, trim, starts_with, starts_in, ends_in,
}
use light_oss.Base.Split.{split}
use mathlib.Core.Option

-- The variables that the build reads: `DefaultFrontendEnv`.
pub record FrontendEnv : Type 0 where
  pub api_base_url : Option Text
  pub bearer_token : Option Text

abbrev pub api_base_url_key : Text
api_base_url_key = codes "VITE_DEFAULT_API_BASE_URL"

abbrev pub bearer_token_key : Text
bearer_token_key = codes "VITE_DEFAULT_BEARER_TOKEN"

abbrev pub no_env : FrontendEnv
no_env = record { api_base_url = none; bearer_token = none }

abbrev pub is_quote : ℕ → Bool
is_quote c = c == b'"' || c == 39

abbrev pub next_quote : Option ℕ → ℕ → Option ℕ
next_quote none c = if is_quote c then some c else none
next_quote (some quote) c = if c == quote then none else some quote

abbrev pub is_plain : Option ℕ → Bool
is_plain none = true
is_plain (some quote) = false

-- What stands before the first `#` outside of quotes, if there is one.
unfoldable pub before_comment : Option ℕ → Text → Option Text
before_comment active_quote [] = none
before_comment active_quote (c ∷ s) =
    let rest = before_comment (next_quote active_quote c) s in
    if is_plain active_quote && c == b'#' then some [] else Option.map (λ t. c ∷ t) rest

abbrev pub or_whole : Option Text → Text → Text
or_whole none value = value
or_whole (some prefix) value = strip_end is_space prefix

unfoldable pub strip_inline_comment : Text → Text
unfolding before_comment
strip_inline_comment value = or_whole (before_comment none value) value

abbrev pub tail : Text → Text
tail [] = []
tail (c ∷ s) = s

abbrev pub is_wrapped : ℕ → Text → Bool
is_wrapped quote s = starts_in (λ c. c == quote) s && ends_in (λ c. c == quote) s

abbrev pub unquoted : Text → Text
unquoted s =
    if leb 2 (length s) && (is_wrapped b'"' s || is_wrapped 39 s) then drop_last (tail s) else s

unfoldable pub parse_root_env_value : Text → Text
unfolding strip_inline_comment
parse_root_env_value value = unquoted (trim (strip_inline_comment value))

abbrev pub is_letter : ℕ → Bool
is_letter c = (leb b'A' c && leb c b'Z') || (leb b'a' c && leb c b'z')

abbrev pub is_key_start : ℕ → Bool
is_key_start c = is_letter c || c == b'_'

abbrev pub is_key_char : ℕ → Bool
is_key_char c = is_key_start c || (leb b'0' c && leb c b'9')

-- What `.` does not match.
abbrev pub is_terminator : ℕ → Bool
is_terminator c = c == 10 || c == 13 || c == 0x2028 || c == 0x2029

abbrev pub take_while : (ℕ → Bool) → Text → Text
take_while p [] = []
take_while p (c ∷ s) = let rest = take_while p s in if p c then c ∷ rest else []

-- `(?:export\s+)?`, where a key follows it.
abbrev pub after_export : Text → Text
after_export s =
    let rest = strip_start_word s in
    if starts_with s (codes "export")
      && starts_in is_space rest
      && starts_in is_key_start (strip_start is_space rest)
    then strip_start is_space rest
    else s
  where
    strip_start_word : Text → Text
    strip_start_word s = tail (tail (tail (tail (tail (tail s)))))

-- `(.*)\s*$`
abbrev pub match_value : Text → Option Text
match_value s =
    let value = take_while (λ c. not (is_terminator c)) s in
    if all is_space (strip_start (λ c. not (is_terminator c)) s) then some value else none

abbrev pub match_sign : Text → Option Text
match_sign [] = none
match_sign (c ∷ s) =
    let value = match_value (strip_start is_space s) in if c == b'=' then value else none

abbrev pub match_assignment : Text → Option (Text × Text)
match_assignment s =
    if starts_in is_key_start s
    then Option.map (λ value. (take_while is_key_char s, value))
        (match_sign (strip_start is_space (strip_start is_key_char s)))
    else none

-- The two groups of the expression, where it matches a line.
unfoldable pub match_line : Text → Option (Text × Text)
match_line line = match_assignment (after_export (strip_start is_space line))

abbrev pub put_value : Text → Text → FrontendEnv → FrontendEnv
put_value key value values =
    if text_eq key api_base_url_key
    then record values { api_base_url = some value }
    else if text_eq key bearer_token_key
    then record values { bearer_token = some value }
    else values

abbrev pub put_match : Option (Text × Text) → FrontendEnv → FrontendEnv
put_match none values = values
put_match (some (key, value)) values = put_value key (parse_root_env_value value) values

unfoldable pub parse_lines : List Text → FrontendEnv → FrontendEnv
unfolding match_line parse_root_env_value
parse_lines [] values = values
parse_lines (line ∷ lines) values = parse_lines lines (put_match (match_line line) values)

abbrev pub without_return : Text → Text
without_return s = if ends_in (λ c. c == 13) s then drop_last s else s

-- `content.split(/\r?\n/)`: a carriage return before the end of a line belongs to it.
abbrev pub ended_lines : List Text → List Text
ended_lines [] = []
ended_lines (line ∷ []) = line ∷ []
ended_lines (line ∷ (next ∷ lines)) = without_return line ∷ ended_lines (next ∷ lines)

unfoldable pub parse_root_env : Text → FrontendEnv
unfolding parse_lines
parse_root_env content = parse_lines (ended_lines (split 10 content)) no_env

module _ (path_join : Text → Text → Text) (exists_file : Text → Bool) where
  unfoldable pub resolve_root_env_file : Text → Option Text
  resolve_root_env_file root_dir =
      let personal = path_join root_dir (codes ".env.personal") in
      let plain = path_join root_dir (codes ".env") in
      if exists_file personal then some personal else if exists_file plain then some plain else none

  abbrev pub parsed_file : (Text → Text) → Option Text → FrontendEnv
  parsed_file read_file none = no_env
  parsed_file read_file (some file) = parse_root_env (read_file file)

  unfoldable pub load_root_default_env : (read_file : Text → Text) → Text → FrontendEnv
  unfolding resolve_root_env_file
  load_root_default_env read_file root_dir = parsed_file read_file (resolve_root_env_file root_dir)

-- One round of the loop of `applyRootDefaultEnv`.
abbrev pub default_variable : Text → Option Text → (Text → Option Text) → Text → Option Text
default_variable key none env = env
default_variable key (some value) env =
    λ k. if text_eq key k then some (or_else (env k) value) else env k

unfoldable pub apply_root_default_env : FrontendEnv → (Text → Option Text) → Text → Option Text
apply_root_default_env defaults env =
    default_variable bearer_token_key defaults.bearer_token
      (default_variable api_base_url_key defaults.api_base_url env)
