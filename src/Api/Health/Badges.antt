-- ===== src/Api/Health/Badges.antt =====
-- When the badges are green.
use light_oss.Base.{◌≡◌, ◌↔◌, Bool, true, false, Option, none, some, arith}
use light_oss.Api.Types.{ok, HealthStatusResult}
use light_oss.Api.Health.{badge_ok, HealthError, resolve_connection_health_states}

-- With a health result at hand, the badge of the service is green exactly when the connection is
-- configured, nothing is pending, nothing was thrown, and the result says that the service is
-- well.
pub resolve-ok_iff :
    (is_configured is_pending : Bool) (failure : Option HealthError) (result : HealthStatusResult)
    → ((resolve_connection_health_states is_configured is_pending failure (some result)).service
        ≡ badge_ok)
      ↔ ((is_configured ≡ true)
          × (is_pending ≡ false)
          × (failure ≡ none)
          × (result.status.service ≡ ok))
unfolding resolve_connection_health_states
resolve-ok_iff is_configured is_pending failure result = ground arith
