-- ===== src/Settings/Tests.antt =====
-- The theorems on the settings at concrete states, with a codec that writes two texts in one.
use light_oss.Base.{
  ℕ, zero, suc, ◌≡◌, ◌≢◌, refl, true, false, Option, none, some, List, [], ◌∷◌, ◌++◌, if◌then◌else◌,
}
use light_oss.Base.Reach.{here, next}
use mathlib.Core.Option
use light_oss.Base.Text.{Text, codes, text_eq, trim, is_space}
use light_oss.Pins.Storage.{LocalStorage, set_item}
use light_oss.Api.Types.{HealthStatusResult, ok}
use light_oss.Api.Requests.{AppSettings}
use light_oss.Settings.Stored.{
  AppPreferences, light, dark, en_us, zh_cn, locale_text, theme_text, Codec, preferences_key,
  load_preferences, store_preferences, load-store_preferences,
}
use light_oss.Settings.Connection.{
  Test, read_draft_settings, states_of, test_answered, landing, Connection, Outcome, answered, test,
  handle_test_connection,
}
use light_oss.Settings.Connection.Fresh.{IsFresh, Reach-IsFresh, answer-ends_testing}

-- A 1 before each code unit of the first text, a 0 before the second.
written : Text → Text → Text
written [] t = 0 ∷ t
written (c ∷ s) t = 1 ∷ (c ∷ written s t)

cons_first : ℕ → Option (Text × Text) → Option (Text × Text)
cons_first c none = none
cons_first c (some (s, t)) = some (c ∷ s, t)

texts_of : Text → Option (Text × Text)
texts_of [] = none
texts_of (zero ∷ t) = some ([], t)
texts_of (suc n ∷ []) = none
texts_of (suc n ∷ (c ∷ rest)) = cons_first c (texts_of rest)

texts_of-written : (s t : Text) → texts_of (written s t) ≡ some (s, t)
unfolding texts_of written
texts_of-written [] t = refl
texts_of-written (c ∷ s) t = rw (texts_of-written s t) (unfold cons_first in refl)

written-ne : (s t : Text) → written s t ≢ []
unfolding written
written-ne [] t = λ e. cc e
written-ne (c ∷ s) t = λ e. cc e

abbrev tagged : Codec
tagged = record {
  parse_settings = λ raw.
      Option.map (λ (s, t). record { api_base_url = some s; bearer_token = some t }) (texts_of raw);
  stringify_settings = λ s. written s.api_base_url s.bearer_token;
  parse_preferences =
      λ raw. Option.map (λ (s, t). record { locale = some s; theme = some t }) (texts_of raw);
  stringify_preferences = λ p. written (locale_text p.locale) (theme_text p.theme);
  settings_ne = λ s. written-ne s.api_base_url s.bearer_token;
  settings_back = λ s. rw (texts_of-written s.api_base_url s.bearer_token) refl;
  preferences_ne = λ p. written-ne (locale_text p.locale) (theme_text p.theme);
  preferences_back = λ p. rw (texts_of-written (locale_text p.locale) (theme_text p.theme)) refl;
}

abbrev empty_storage : LocalStorage
empty_storage = record { items = λ k. none; readable = true; writable = true }

abbrev own_settings : AppSettings
own_settings = record { api_base_url = codes "http://a"; bearer_token = codes "t" }

abbrev own_preferences : AppPreferences
own_preferences = record { locale = zh_cn; theme = dark }

abbrev preferences_storage : LocalStorage
preferences_storage = record empty_storage {
  items = λ k.
      if text_eq preferences_key k
      then some (written (locale_text own_preferences.locale) (theme_text own_preferences.theme))
      else none;
}

load-store_preferences_example :
    load_preferences tagged (record { locale = en_us; theme = light }) preferences_storage
    ≡ some own_preferences
load-store_preferences_example =
    load-store_preferences tagged empty_storage preferences_storage refl
      (record { locale = en_us; theme = light }) own_preferences
      (unfold store_preferences set_item in refl)

abbrev healthy : HealthStatusResult
healthy = record { status = record { service = ok; db = ok }; version = codes "1" }

-- A service that answers each test in one way.
abbrev Steady : AppSettings → Outcome → Type 0
Steady settings outcome = outcome ≡ answered healthy

abbrev quiet : Connection
quiet = record {
  settings = own_settings;
  draft_settings = own_settings;
  manual_health_states = none;
  is_testing_connection = false;
  test_request = 0;
  tests = [];
}

quiet-IsFresh : IsFresh Steady quiet
quiet-IsFresh = record { live = tt; shown = refl; waits = refl }

Reach-IsFresh_example : IsFresh Steady (handle_test_connection quiet)
Reach-IsFresh_example = Reach-IsFresh Steady quiet-IsFresh (next here (test quiet))

answer-ends_testing_example :
    let c : Connection = handle_test_connection quiet in
    (ts : List Test) × (t : Test) × (us : List Test) × (c.tests ≡ ts ++ t ∷ us)
    × (t.settings ≡ read_draft_settings c.draft_settings)
    × ((test_answered t.request_id (answered healthy) (landing (ts ++ us) c)).is_testing_connection
        ≡ false)
    × ((test_answered t.request_id (answered healthy) (landing (ts ++ us) c)).manual_health_states
        ≡ some (states_of (answered healthy)))
answer-ends_testing_example =
    answer-ends_testing Steady (handle_test_connection quiet) (answered healthy)
      Reach-IsFresh_example (unfold handle_test_connection trim is_space in refl)
