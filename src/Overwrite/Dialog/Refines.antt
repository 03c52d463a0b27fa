-- ===== src/Overwrite/Dialog/Refines.antt =====
-- The upload dialog only takes steps of the page.
use light_oss.Base.Reach.{Reach, here, next, joined}
use light_oss.Base.Text.{Text}
use light_oss.Overwrite.Steps
use light_oss.Overwrite.Steps.{
  System, land, start, confirm, cancel, check_error, check_absent, check_present, upload_done,
  upload_settled, upload_conflict, upload_error, retry_done, retry_end, retry_error,
}
use light_oss.Overwrite.Dialog.{Composed, Step, change_open, edit, submit, serve}

-- Each step of the dialog and the page is one of the page, or leaves the page as it is.
Step-refines :
    {prefix : Text} {c d : Composed} → Step prefix c d → Reach (Steps.Step prefix) c.system d.system
Step-refines (change_open c next_open) = here
Step-refines (edit c e i) = here
Step-refines (submit c value i e) = next here (start c.system value)
Step-refines (serve c u k o) = next here k

-- All that the dialog and the page reach together is reached by steps of the page alone.
pub Reach-refines :
    {prefix : Text} {c d : Composed}
    → Reach (Step prefix) c d
    → Reach (Steps.Step prefix) c.system d.system
Reach-refines here = here
Reach-refines (next r k) = joined (Reach-refines r) (Step-refines k)
