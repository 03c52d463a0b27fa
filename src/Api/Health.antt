-- ===== src/Api/Health.antt =====
-- frontend/src/lib/health.ts: what the badges of the connection show.
pub mod Badges
use light_oss.Base.{ℕ, Bool, true, false, not, ◌||◌, Option, none, some, ◌==◌, if◌then◌else◌}
use light_oss.Base.Text.{Text, codes, text_eq}
use light_oss.Api.Types.{HealthState, ok, error, HealthStatusResult}

pub data BadgeState : Type 0 where
  badge_ok badge_error token_error checking unconfigured unreachable unknown : BadgeState

pub record ConnectionHealthStates : Type 0 where
  pub service : BadgeState
  pub database : BadgeState

-- A value that was thrown, with the `status` and the `code` that it has.
pub record HealthError : Type 0 where
  pub status : Option ℕ
  pub code : Option Text

abbrev has_status : Option ℕ → ℕ → Bool
has_status none n = false
has_status (some status) n = status == n

abbrev has_code : Option Text → Text → Bool
has_code none c = false
has_code (some code) c = text_eq code c

abbrev pub is_unauthorized_health_error : Option HealthError → Bool
is_unauthorized_health_error none = false
is_unauthorized_health_error (some e) =
    has_status e.status 401 || has_code e.code (codes "unauthorized")

abbrev pub badge_of : HealthState → BadgeState
badge_of ok = badge_ok
badge_of error = badge_error

abbrev pub both_show : BadgeState → ConnectionHealthStates
both_show state = record { service = state; database = state }

abbrev of_data : Option HealthError → Option HealthStatusResult → ConnectionHealthStates
of_data (some e) result = record { service = unreachable; database = unknown }
of_data none none = record { service = unreachable; database = unknown }
of_data none (some result) = record {
  service = badge_of result.status.service;
  database = badge_of result.status.db;
}

unfoldable pub resolve_connection_health_states :
    (is_configured is_pending : Bool)
    → Option HealthError
    → Option HealthStatusResult
    → ConnectionHealthStates
resolve_connection_health_states is_configured is_pending failure result =
    if not is_configured
    then both_show unconfigured
    else if is_pending
    then both_show checking
    else if is_unauthorized_health_error failure
    then both_show token_error
    else of_data failure result

unfoldable pub create_checking_connection_health_states : ConnectionHealthStates
create_checking_connection_health_states = both_show checking
