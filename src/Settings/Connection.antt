-- ===== src/Settings/Connection.antt =====
-- The draft of the settings and the test of a connection. An answer to a test counts only where
-- its number is still that of the latest one.
pub mod Fresh
use light_oss.Base.{
  ℕ, suc, ◌+◌, ◌≤◌, ◌<◌, ◌≡◌, refl, sym, ap, ◌∙◌, Bool, true, false, not, ◌&&◌, Option, none, some,
  List, [], ◌∷◌, ◌++◌, ◌==◌, ==_iff, if◌then◌else◌, or_else, is_empty, All, All-append, arith,
  Bool-cases, inl, inr, ◌⊎◌,
}
use light_oss.Base.Reach.{Reach, invariant, All-take_out}
use light_oss.Base.Text.{Text, text_eq, trim}
use light_oss.Api.Types.{HealthStatusResult}
use light_oss.Api.Requests.{AppSettings}
use light_oss.Api.Health.{
  ConnectionHealthStates, HealthError, resolve_connection_health_states,
  create_checking_connection_health_states,
}
use light_oss.Settings.Stored.{PartialSettings}

-- A test under way: its number, and the settings that it was sent with.
pub record Test : Type 0 where
  pub request_id : ℕ
  pub settings : AppSettings

pub record Connection : Type 0 where
  pub settings : AppSettings
  pub draft_settings : AppSettings
  pub manual_health_states : Option ConnectionHealthStates
  pub is_testing_connection : Bool
  pub test_request : ℕ
  pub tests : List Test

pub data Outcome : Type 0 where
  answered : HealthStatusResult → Outcome
  failed : HealthError → Outcome

unfoldable pub read_draft_settings : AppSettings → AppSettings
read_draft_settings draft = record {
  api_base_url = trim draft.api_base_url;
  bearer_token = trim draft.bearer_token;
}

unfoldable pub clear_manual_health_states : Connection → Connection
clear_manual_health_states c = record c {
  test_request = c.test_request + 1;
  manual_health_states = none;
  is_testing_connection = false;
}

unfoldable pub update_draft_settings : PartialSettings → Connection → Connection
unfolding clear_manual_health_states
update_draft_settings next c = record (clear_manual_health_states c) {
  draft_settings = record {
    api_base_url = or_else next.api_base_url (c.draft_settings).api_base_url;
    bearer_token = or_else next.bearer_token (c.draft_settings).bearer_token;
  };
}

abbrev pub same_settings : AppSettings → AppSettings → Bool
same_settings s t = text_eq s.api_base_url t.api_base_url && text_eq s.bearer_token t.bearer_token

-- `handleSubmit`, and the effect on the settings, which copies changed ones to the draft.
unfoldable pub handle_submit : Connection → Connection
unfolding clear_manual_health_states read_draft_settings
handle_submit c =
    let saved = read_draft_settings c.draft_settings in
    record (clear_manual_health_states c) {
      settings = saved;
      draft_settings = if same_settings saved c.settings then c.draft_settings else saved;
    }

-- `handleTestConnection` up to the answer
unfoldable pub handle_test_connection : Connection → Connection
unfolding read_draft_settings create_checking_connection_health_states
handle_test_connection c =
    let draft = read_draft_settings c.draft_settings in
    if is_empty draft.api_base_url then c else record c {
      test_request = c.test_request + 1;
      is_testing_connection = true;
      manual_health_states = some create_checking_connection_health_states;
      tests = c.tests ++ record { request_id = c.test_request + 1; settings = draft } ∷ [];
    }

abbrev pub states_of : Outcome → ConnectionHealthStates
states_of (answered result) = resolve_connection_health_states true false none (some result)
states_of (failed error) = resolve_connection_health_states true false (some error) none

unfoldable pub test_answered : ℕ → Outcome → Connection → Connection
test_answered request_id outcome c =
    if c.test_request == request_id
    then record c { manual_health_states = some (states_of outcome); is_testing_connection = false }
    else c

abbrev pub landing : List Test → Connection → Connection
landing tests c = record c { tests = tests }

-- `Answered settings outcome`: a test with these settings can end so.
module _ (Answered : AppSettings → Outcome → Type 0) where
  pub data Step : Connection → Connection → Type 0 where
    edit : (c : Connection) (next : PartialSettings) → Step c (update_draft_settings next c)
    submit : (c : Connection) → Step c (handle_submit c)
    test : (c : Connection) → Step c (handle_test_connection c)
    answer :
        (c : Connection) (ts us : List Test) (t : Test) (outcome : Outcome)
        → c.tests ≡ ts ++ t ∷ us
        → Answered t.settings outcome
        → Step c (test_answered t.request_id outcome (landing (ts ++ us) c))
