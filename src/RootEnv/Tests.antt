-- ===== src/RootEnv/Tests.antt =====
-- Runs of the parser of an `.env` file, and its theorems at concrete files.
use light_oss.Base.{◌≡◌, refl, Option, none, some, if◌then◌else◌}
use light_oss.Base.Text.{Text, codes, text_eq, trim, is_space}
use light_oss.Base.Split.{split, Lacks_of_all}
use light_oss.RootEnv.{
  FrontendEnv, api_base_url_key, parse_root_env, parse_root_env_value, match_line, parse_lines,
  strip_inline_comment, before_comment, apply_root_default_env,
}
use light_oss.RootEnv.Lines.{render_root_env, parse-render_root_env}
use light_oss.RootEnv.Variables.{apply_root_default_env_lem}

abbrev written : FrontendEnv
written = record { api_base_url = some (codes "http://a # b"); bearer_token = none }

abbrev exported : Text
exported = codes "  export VITE_DEFAULT_BEARER_TOKEN = abc  # mine"

comment_test : parse_root_env_value (codes "abc  # mine") ≡ codes "abc"
comment_test = unfold parse_root_env_value strip_inline_comment before_comment trim is_space in refl

exported_test :
    parse_root_env exported ≡ record { api_base_url = none; bearer_token = some (codes "abc") }
exported_test =
    unfold parse_root_env parse_lines match_line parse_root_env_value strip_inline_comment
      before_comment trim is_space split in
    refl

parse-render_root_env_example : parse_root_env (render_root_env written) ≡ written
parse-render_root_env_example = parse-render_root_env written (
  record {
    unquoted = Lacks_of_all b'"' (codes "http://a # b") refl;
    one_line = (
      refl,
      (refl, (refl, (refl, (refl, (refl, (refl, (refl, (refl, (refl, (refl, (refl, tt))))))))))),
    );
  },
  tt,
)

abbrev shell : Text → Option Text
shell k = if text_eq k (codes "HOME") then some (codes "/") else none

apply_root_default_env_lem_example :
    apply_root_default_env written shell api_base_url_key ≡ some (codes "http://a # b")
apply_root_default_env_lem_example = apply_root_default_env_lem written shell api_base_url_key
