-- ===== src/RootEnv/Variables.antt =====
-- The variables of the build after the defaults of the file are applied.
use light_oss.Base.{
  ◌≡◌, refl, sym, ap, ◌∙◌, true, false, Option, none, some, if◌then◌else◌, arith, Bool-cases, inl,
  inr,
}
use light_oss.Base.Text.{Text, text_eq, text_eq_iff}
use light_oss.RootEnv.{
  FrontendEnv, api_base_url_key, bearer_token_key, default_variable, apply_root_default_env,
}

-- The default of a variable, if the file has one.
abbrev pub default_of : FrontendEnv → Text → Option Text
default_of defaults k =
    if text_eq api_base_url_key k
    then defaults.api_base_url
    else if text_eq bearer_token_key k
    then defaults.bearer_token
    else none

-- A variable that is set, and otherwise its default.
abbrev pub set_or : Option Text → Option Text → Option Text
set_or none default = default
set_or (some value) default = some value

set-default :
    (key k : Text) (default : Option Text) (env : Text → Option Text)
    → default_variable key default env k ≡ set_or (env k) (if text_eq key k then default else none)
set-default key k none env = ground arith
set-default key k (some value) env = ground arith

set_or-none : (o : Option Text) → set_or o none ≡ o
set_or-none none = refl
set_or-none (some value) = refl

keys_differ : (k : Text) → text_eq api_base_url_key k ≡ true → text_eq bearer_token_key k ≡ false
keys_differ k h = ap (text_eq bearer_token_key) (sym ((text_eq_iff api_base_url_key k).0 h))

-- After the defaults are applied, each variable of the environment is its own value where it had
-- one, and otherwise the default of the file for it, if there is one.
pub apply_root_default_env_lem :
    (defaults : FrontendEnv) (env : Text → Option Text) (k : Text)
    → apply_root_default_env defaults env k ≡ set_or (env k) (default_of defaults k)
unfolding apply_root_default_env
apply_root_default_env_lem defaults env k =
    set-default bearer_token_key k defaults.bearer_token
      (default_variable api_base_url_key defaults.api_base_url env)
    ∙ rw (set-default api_base_url_key k defaults.api_base_url env)
        (elim (Bool-cases (text_eq api_base_url_key k)) [
          | inl same ↦
              rw same (rw (keys_differ k same) (set_or-none (set_or (env k) defaults.api_base_url)))
          | inr other ↦ rw other (rw (set_or-none (env k)) refl)
        ])
