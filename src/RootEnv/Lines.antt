-- ===== src/RootEnv/Lines.antt =====
-- The lines of an `.env` file, and the variables they set.
use light_oss.Base.{
  ◌≡◌, ◌≢◌, refl, sym, ap, ◌∙◌, true, false, not, Option, none, some, List, [], ◌∷◌, ◌++◌, ◌==◌,
  all, All, All-append, append_assoc, arith, ==_iff,
}
use light_oss.Base.Text.{Text, is_space, strip_start, ends_in}
use light_oss.Base.Split.{join, split-join, Lacks_of_all, Lacks}
use light_oss.Base.Strip.{ends_in-append}
use light_oss.RootEnv.Values.{quoted, parse_root_env_value-quoted}
use light_oss.RootEnv.{
  FrontendEnv, no_env, api_base_url_key, bearer_token_key, is_terminator, take_while, match_value,
  match_line, parse_lines, ended_lines, parse_root_env,
}

-- A value that fits between double quotes on one line.
pub record IsWritable (s : Text) : Type 0 where
  pub unquoted : Lacks b'"' s
  pub one_line : All (λ c. is_terminator c ≡ false) s

taken :
    (s : Text)
    → All (λ c. is_terminator c ≡ false) s
    → take_while (λ c. not (is_terminator c)) s ≡ s
taken [] h = refl
taken (c ∷ s) (h, hs) = rw h (ap (λ t. c ∷ t) (taken s hs))

left :
    (s : Text)
    → All (λ c. is_terminator c ≡ false) s
    → strip_start (λ c. not (is_terminator c)) s ≡ []
left [] h = refl
left (c ∷ s) (h, hs) = rw h (left s hs)

quoted-one_line : (s : Text) → IsWritable s → All (λ c. is_terminator c ≡ false) (quoted s)
quoted-one_line s h =
    (refl, All-append (λ c. is_terminator c ≡ false) s (b'"' ∷ []) h.one_line (refl, tt))

match_value-quoted : (s : Text) → IsWritable s → match_value (quoted s) ≡ some (quoted s)
match_value-quoted s h =
    rw (left (quoted s) (quoted-one_line s h)) (ap some (taken (quoted s) (quoted-one_line s h)))

-- KEY="value"
abbrev pub assignment : Text → Text → Text
assignment key s = key ++ b'=' ∷ quoted s

match-api :
    (s : Text)
    → IsWritable s
    → match_line (assignment api_base_url_key s) ≡ some (api_base_url_key, quoted s)
unfolding match_line is_space
match-api s h = rw (match_value-quoted s h) refl

match-token :
    (s : Text)
    → IsWritable s
    → match_line (assignment bearer_token_key s) ≡ some (bearer_token_key, quoted s)
unfolding match_line is_space
match-token s h = rw (match_value-quoted s h) refl

-- Each variable of the environment on a line of its own.
abbrev pub line_of : Text → Option Text → List Text
line_of key none = []
line_of key (some s) = assignment key s ∷ []

unfoldable pub render_root_env : FrontendEnv → Text
render_root_env env = join 10 (
    line_of api_base_url_key env.api_base_url
    ++ (line_of bearer_token_key env.bearer_token ++ [] ∷ []))

abbrev pub IsWritableOption : Option Text → Type 0
IsWritableOption none = Unit
IsWritableOption (some s) = IsWritable s

abbrev pub IsWritableEnv : FrontendEnv → Type 0
IsWritableEnv env = IsWritableOption env.api_base_url × IsWritableOption env.bearer_token

Lacks_of_one_line : (s : Text) → All (λ c. is_terminator c ≡ false) s → Lacks 10 s
Lacks_of_one_line [] h = tt
Lacks_of_one_line (c ∷ s) (h, hs) = (ground (arith, ==_iff c 10), Lacks_of_one_line s hs)

assignment-Lacks :
    (key s : Text)
    → all (λ x. not (x == 10)) key ≡ true
    → IsWritable s
    → Lacks 10 (assignment key s)
assignment-Lacks key s h k =
    All-append (λ x. x ≢ 10) key (b'=' ∷ quoted s) (Lacks_of_all 10 key h)
      (Lacks_of_one_line (b'=' ∷ quoted s) (refl, quoted-one_line s k))

ends-assignment : (key s : Text) → ends_in (λ c. c == 13) (assignment key s) ≡ false
ends-assignment key s =
    ap (ends_in (λ c. c == 13)) (sym (append_assoc key (b'=' ∷ (b'"' ∷ s)) (b'"' ∷ [])))
    ∙ ends_in-append (λ c. c == 13) (key ++ b'=' ∷ (b'"' ∷ s)) b'"'

-- Lines without a carriage return at their end are kept as they are.
ended_lines_fix :
    (ws : List Text) → All (λ w. ends_in (λ c. c == 13) w ≡ false) ws → ended_lines ws ≡ ws
ended_lines_fix [] h = refl
ended_lines_fix (w ∷ []) h = refl
ended_lines_fix (w ∷ (v ∷ ws)) (h, hs) = rw h (ap (λ t. w ∷ t) (ended_lines_fix (v ∷ ws) hs))

parse-lines :
    (w : Text) (ws : List Text)
    → All (Lacks 10) (w ∷ ws)
    → All (λ v. ends_in (λ c. c == 13) v ≡ false) (w ∷ ws)
    → parse_root_env (join 10 (w ∷ ws)) ≡ parse_lines (w ∷ ws) no_env
unfolding parse_root_env
parse-lines w ws h k = rw (split-join 10 w ws h) (rw (ended_lines_fix (w ∷ ws) k) refl)

parse-api :
    (s : Text) (lines : List Text) (values : FrontendEnv)
    → IsWritable s
    → parse_lines (assignment api_base_url_key s ∷ lines) values
      ≡ parse_lines lines (record values { api_base_url = some s })
unfolding parse_lines
parse-api s lines values h = rw (match-api s h) (rw (parse_root_env_value-quoted s h.unquoted) refl)

parse-token :
    (s : Text) (lines : List Text) (values : FrontendEnv)
    → IsWritable s
    → parse_lines (assignment bearer_token_key s ∷ lines) values
      ≡ parse_lines lines (record values { bearer_token = some s })
unfolding parse_lines
parse-token s lines values h =
    rw (match-token s h) (rw (parse_root_env_value-quoted s h.unquoted) refl)

-- Where no value has a double quote or a line terminator, a file that sets each variable of an
-- environment between double quotes on its own line is parsed back to that environment, values
-- with spaces and "#" included.
pub parse-render_root_env :
    (env : FrontendEnv) → IsWritableEnv env → parse_root_env (render_root_env env) ≡ env
unfolding render_root_env
parse-render_root_env env (h, k) = by_case env.api_base_url env.bearer_token h k
  where
    by_case :
        (a b : Option Text)
        → IsWritableOption a
        → IsWritableOption b
        → parse_root_env
            (join 10 (line_of api_base_url_key a ++ (line_of bearer_token_key b ++ [] ∷ [])))
          ≡ record { api_base_url = a; bearer_token = b }
    by_case none none h k =
        parse-lines [] [] (tt, tt) (refl, tt) ∙ (unfold parse_lines match_line in refl)
    by_case (some s) none h k =
        parse-lines (assignment api_base_url_key s) ([] ∷ [])
          (assignment-Lacks api_base_url_key s refl h, (tt, tt))
          (ends-assignment api_base_url_key s, (refl, tt))
        ∙ parse-api s ([] ∷ []) no_env h
        ∙ (unfold parse_lines match_line in refl)
    by_case none (some s) h k =
        parse-lines (assignment bearer_token_key s) ([] ∷ [])
          (assignment-Lacks bearer_token_key s refl k, (tt, tt))
          (ends-assignment bearer_token_key s, (refl, tt))
        ∙ parse-token s ([] ∷ []) no_env k
        ∙ (unfold parse_lines match_line in refl)
    by_case (some s) (some t) h k =
        parse-lines (assignment api_base_url_key s) (assignment bearer_token_key t ∷ ([] ∷ []))
          (
            assignment-Lacks api_base_url_key s refl h,
            (assignment-Lacks bearer_token_key t refl k, (tt, tt)),
          )
          (ends-assignment api_base_url_key s, (ends-assignment bearer_token_key t, (refl, tt)))
        ∙ parse-api s (assignment bearer_token_key t ∷ ([] ∷ [])) no_env h
        ∙ parse-token t ([] ∷ []) (record no_env { api_base_url = some s }) k
        ∙ (unfold parse_lines match_line in refl)
