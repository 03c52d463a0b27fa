-- ===== src/Buckets/Create/Tests.antt =====
-- The creation of a bucket at concrete states.
use light_oss.Base.{refl, true, false, []}
use light_oss.Base.Reach.{here, next}
use light_oss.Base.Text.{codes, trim, is_space}
use light_oss.Buckets.Create.{
  Creation, is_pending, handle_open_change, submit_disabled, handle_submit, submit, change_open,
}
use light_oss.Buckets.Create.Kept.{IsKept, Reach-IsKept}

abbrev typed : Creation
typed = record {
  is_open = true;
  name = codes " docs ";
  requests = [];
  flights = [];
  toasts = [];
  buckets_invalidations = 0;
}

-- Submitted, and closed while the creation runs.
Reach-IsKept_example : IsKept (handle_open_change false (handle_submit typed))
Reach-IsKept_example =
    Reach-IsKept {c = typed} (record { holds = tt; asked = tt })
      (next (next here (submit typed (unfold submit_disabled is_pending trim is_space in refl)))
        (change_open (handle_submit typed) false))
