-- ===== src/Settings/Stored.antt =====
-- Loading and saving. `parse` is `none` where `JSON.parse` throws or its value is null; a member
-- that is missing, null or no string is `none`. Reading the storage may throw as well.
use light_oss.Base.{
  ◌≡◌, refl, sym, ap, ◌∙◌, Bool, true, Option, none, some, List, [], ◌∷◌, if◌then◌else◌, or_else,
  Bool-cases, inl, inr, ◌≢◌,
}
use light_oss.Base.Text.{Text, codes, text_eq, text_eq_refl, starts_with}
use light_oss.Base.Search.{lower_text}
use light_oss.Pins.Storage.{LocalStorage, get_item, set_item}
use light_oss.Api.Requests.{AppSettings}
use mathlib.Core.Option

pub record PartialSettings : Type 0 where
  pub api_base_url : Option Text
  pub bearer_token : Option Text

abbrev pub settings_key : Text
settings_key = codes "light-oss-settings"

abbrev pub merged : AppSettings → Option PartialSettings → AppSettings
merged default none = default
merged default (some parsed) = record {
  api_base_url = or_else parsed.api_base_url default.api_base_url;
  bearer_token = or_else parsed.bearer_token default.bearer_token;
}

abbrev pub of_raw {ℓ} : {A : Type ℓ} → A → (Text → A) → Option Text → A
of_raw default read none = default
of_raw default read (some []) = default
of_raw default read (some (c ∷ raw)) = read (c ∷ raw)

pub data AppLocale : Type 0 where
  en_us zh_cn : AppLocale

pub data AppTheme : Type 0 where
  light dark : AppTheme

pub record AppPreferences : Type 0 where
  pub locale : AppLocale
  pub theme : AppTheme

pub record PartialPreferences : Type 0 where
  pub locale : Option Text
  pub theme : Option Text

abbrev pub preferences_key : Text
preferences_key = codes "light-oss-preferences"

abbrev pub locale_text : AppLocale → Text
locale_text en_us = codes "en-US"
locale_text zh_cn = codes "zh-CN"

abbrev pub theme_text : AppTheme → Text
theme_text light = codes "light"
theme_text dark = codes "dark"

abbrev locale_from : Option Text → AppLocale → AppLocale
locale_from none fallback = fallback
locale_from (some value) fallback =
    if text_eq value (locale_text zh_cn)
    then zh_cn
    else if text_eq value (locale_text en_us)
    then en_us
    else fallback

abbrev theme_from : Option Text → AppTheme → AppTheme
theme_from none fallback = fallback
theme_from (some value) fallback =
    if text_eq value (theme_text dark)
    then dark
    else if text_eq value (theme_text light)
    then light
    else fallback

abbrev pub chosen : AppPreferences → Option PartialPreferences → AppPreferences
chosen fallback none = fallback
chosen fallback (some parsed) = record {
  locale = locale_from parsed.locale fallback.locale;
  theme = theme_from parsed.theme fallback.theme;
}

-- `navigator.languages`, or `navigator.language` where there are none.
unfoldable pub detect_locale : List Text → AppLocale
detect_locale [] = en_us
detect_locale (language ∷ languages) =
    let rest = detect_locale languages in
    if starts_with (lower_text language) (codes "zh") then zh_cn else rest

unfoldable pub detect_theme : (prefers_dark : Bool) → AppTheme
detect_theme prefers_dark = if prefers_dark then dark else light

-- `JSON`, as far as both use it.
pub record Codec : Type 0 where
  pub parse_settings : Text → Option PartialSettings
  pub stringify_settings : AppSettings → Text
  pub parse_preferences : Text → Option PartialPreferences
  pub stringify_preferences : AppPreferences → Text
  pub settings_ne : (s : AppSettings) → stringify_settings s ≢ []
  pub settings_back :
      (s : AppSettings)
      → parse_settings (stringify_settings s)
        ≡ some (record { api_base_url = some s.api_base_url; bearer_token = some s.bearer_token })
  pub preferences_ne : (p : AppPreferences) → stringify_preferences p ≢ []
  pub preferences_back :
      (p : AppPreferences)
      → parse_preferences (stringify_preferences p)
        ≡ some (record { locale = some (locale_text p.locale); theme = some (theme_text p.theme) })

-- The document element, as the effect of the preferences leaves it.
pub record Document : Type 0 where
  pub lang : Text
  pub is_dark : Bool
  pub color_scheme : Text

module _ (codec : Codec) where
  -- `loadSettings`; the outer `none` is an exception.
  unfoldable pub load_settings : AppSettings → LocalStorage → Option AppSettings
  load_settings default storage =
      Option.map (of_raw default (λ raw. merged default (codec.parse_settings raw)))
        (get_item settings_key storage)

  unfoldable pub store_settings : AppSettings → LocalStorage → Option LocalStorage
  store_settings settings storage =
      set_item settings_key (codec.stringify_settings settings) storage

  unfoldable pub load_preferences : AppPreferences → LocalStorage → Option AppPreferences
  load_preferences fallback storage =
      Option.map (of_raw fallback (λ raw. chosen fallback (codec.parse_preferences raw)))
        (get_item preferences_key storage)

  unfoldable pub store_preferences : AppPreferences → LocalStorage → Option LocalStorage
  store_preferences preferences storage =
      set_item preferences_key (codec.stringify_preferences preferences) storage

-- The rest of the effect.
unfoldable pub document_of : AppPreferences → Document
document_of preferences = record {
  lang = locale_text preferences.locale;
  is_dark = text_eq (theme_text preferences.theme) (theme_text dark);
  color_scheme = theme_text preferences.theme;
}

unfoldable pub set_locale : AppLocale → AppPreferences → AppPreferences
set_locale locale current = record current { locale = locale }

unfoldable pub set_theme : AppTheme → AppPreferences → AppPreferences
set_theme theme current = record current { theme = theme }

get-set_item :
    (key value : Text) (storage storage' : LocalStorage)
    → storage.readable ≡ true
    → set_item key value storage ≡ some storage'
    → get_item key storage' ≡ some (some value)
unfolding set_item get_item
get-set_item key value storage storage' r e = elim (Bool-cases storage.writable) [
  | inl writes ↦
      let same : record storage {
        items = λ k. if text_eq key k then some value else storage.items k;
      }
          ≡ storage' =
        cc (rw writes at e) in
      rw (sym same) (rw (text_eq_refl key) (rw r refl))
  | inr shut ↦ cc (rw shut at e)
]

of_raw-ne :
    {A : Type 0} (default : A) (read : Text → A) (raw : Text)
    → raw ≢ []
    → of_raw default read (some raw) ≡ read raw
of_raw-ne default read [] h = absurd (h refl)
of_raw-ne default read (c ∷ raw) h = refl

locale_back : (l fallback : AppLocale) → locale_from (some (locale_text l)) fallback ≡ l
locale_back en_us fallback = refl
locale_back zh_cn fallback = refl

theme_back : (t fallback : AppTheme) → theme_from (some (theme_text t)) fallback ≡ t
theme_back light fallback = refl
theme_back dark fallback = refl

module _ (codec : Codec) (storage storage' : LocalStorage)
    (readable : storage.readable ≡ true) where
  -- Settings that were stored are loaded again from the new storage, whatever the default.
  load-store_settings :
      (default settings : AppSettings)
      → store_settings codec settings storage ≡ some storage'
      → load_settings codec default storage' ≡ some settings
  unfolding load_settings store_settings
  load-store_settings default settings e =
      rw (get-set_item settings_key (codec.stringify_settings settings) storage storage' readable e)
        (ap some (
          of_raw-ne default (λ raw. merged default (codec.parse_settings raw))
            (codec.stringify_settings settings) (codec.settings_ne settings)
          ∙ ap (merged default) (codec.settings_back settings)))

  -- For a codec that reads back what it wrote and a readable storage: where the preferences were
  -- stored, loading them from the new storage gives them back, whatever the fallback.
  pub load-store_preferences :
      (fallback preferences : AppPreferences)
      → store_preferences codec preferences storage ≡ some storage'
      → load_preferences codec fallback storage' ≡ some preferences
  unfolding load_preferences store_preferences
  load-store_preferences fallback preferences e =
      rw
        (get-set_item preferences_key (codec.stringify_preferences preferences) storage storage'
          readable e)
        (ap some (
          of_raw-ne fallback (λ raw. chosen fallback (codec.parse_preferences raw))
            (codec.stringify_preferences preferences) (codec.preferences_ne preferences)
          ∙ ap (chosen fallback) (codec.preferences_back preferences)
          ∙ (λ i. record {
            locale = locale_back preferences.locale fallback.locale i;
            theme = theme_back preferences.theme fallback.theme i;
          })))
