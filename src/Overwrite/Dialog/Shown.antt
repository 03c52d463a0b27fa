-- ===== src/Overwrite/Dialog/Shown.antt =====
-- What is uploaded, or awaits its confirmation, is what the upload dialog shows, one at a time.
use light_oss.Base.{◌≡◌, refl, true, false, [], arith, Bool-cases, inl, inr}
use light_oss.Base.Reach.{Reach, invariant}
use light_oss.Base.Text.{Text}
use light_oss.Overwrite.{
  checking, retrying, stored, overwritten, Uploads, check_failed, upload_succeeded, retry_succeeded,
  retry_settled, retry_failed, handle_cancel_overwrite_upload,
}
use light_oss.Overwrite.Steps
use light_oss.Overwrite.Steps.{
  System, land, start, confirm, cancel, check_error, check_absent, check_present, upload_done,
  upload_settled, upload_conflict, upload_error, retry_done, retry_end, retry_error,
}
use light_oss.Overwrite.Dialog.{
  UploadDialog, reset_dialog_state, submitted_value, edited, upload_pending, Composed, after,
  IsOther, IsIdle, Step, change_open, edit, submit, serve,
}
use light_oss.Overwrite.Dialog.Invariant.{IsShown, none_runs, idle, none-Waits}
use light_oss.Overwrite.Dialog.Answered.{
  submit-IsShown, ended, checks_of, retries_of, answered-Waits, check_answered-IsShown,
  upload_failed-IsShown, confirm-IsShown, closed-IsShown, stored-IsShown, overwritten-IsShown,
}

-- An idle page goes with every dialog.
idle-IsShown : (s : Uploads) (d e : UploadDialog) → IsIdle s → IsShown s d → IsShown s e
unfolding upload_pending
idle-IsShown s d e i h =
    let nothing : s.flights ≡ [] =
      none_runs (submitted_value d) s.flights s.pending_overwrite_upload s.is_checking_overwrite
        s.is_retrying_overwrite i.not_pending h.under in
    record {
      under =
          idle (submitted_value e) s.flights s.pending_overwrite_upload s.is_checking_overwrite
            s.is_retrying_overwrite nothing (ground (arith, i.not_pending))
            (ground (arith, i.not_pending))
            (none-Waits (submitted_value e) s.pending_overwrite_upload i.no_confirmation);
    }

serve-IsShown :
    {prefix : Text} {w u : System} (k : Steps.Step prefix w u) (d : UploadDialog)
    → IsOther k
    → IsShown w.uploads d
    → IsShown u.uploads (after k d)
unfolding after check_failed upload_succeeded retry_succeeded retry_settled retry_failed
    handle_cancel_overwrite_upload
serve-IsShown (start w value) d o h = absurd o
serve-IsShown {prefix} (confirm w) d o h = confirm-IsShown prefix w.uploads d h
serve-IsShown (cancel w) d o h = elim (Bool-cases w.uploads.is_retrying_overwrite) [
  | inl retries ↦ simp retries h
  | inr still ↦ simp still (closed-IsShown w.uploads d still h)
]
serve-IsShown (check_error w fs gs value key error e) d o h =
    ended fs gs (checking value key) e h _ _ refl refl (retries_of fs gs (checking value key) e h)
      (answered-Waits fs gs (checking value key) e h reset_dialog_state)
serve-IsShown {prefix} (check_absent w fs gs value key e) d o h =
    check_answered-IsShown prefix w.uploads d fs gs value key false e h
serve-IsShown {prefix} (check_present w fs gs value key e) d o h =
    check_answered-IsShown prefix w.uploads d fs gs value key true e h
serve-IsShown (upload_done w fs gs value key e) d o h =
    stored-IsShown w.uploads d fs gs value key e h
serve-IsShown (upload_settled w fs gs value key e) d o h =
    ended fs gs (stored value key) e h _ _ refl (checks_of fs gs (stored value key) e h)
      (retries_of fs gs (stored value key) e h)
      (answered-Waits fs gs (stored value key) e h reset_dialog_state)
serve-IsShown {prefix} (upload_conflict w fs gs value key error e c) d o h =
    upload_failed-IsShown prefix w.uploads d fs gs value key error e h
serve-IsShown {prefix} (upload_error w fs gs value key error e c) d o h =
    upload_failed-IsShown prefix w.uploads d fs gs value key error e h
serve-IsShown (retry_done w fs gs value key e) d o h =
    overwritten-IsShown w.uploads d fs gs value key e h
serve-IsShown (retry_end w fs gs value key e) d o h =
    ended fs gs (overwritten value key) e h _ _ refl (checks_of fs gs (overwritten value key) e h)
      refl (answered-Waits fs gs (overwritten value key) e h d)
serve-IsShown (retry_error w fs gs value key error e) d o h =
    ended fs gs (retrying value key) e h _ _ refl (checks_of fs gs (retrying value key) e h) refl
      (answered-Waits fs gs (retrying value key) e h d)

Step-IsShown :
    {prefix : Text} {c d : Composed}
    → Step prefix c d
    → IsShown c.system.uploads c.dialog
    → IsShown d.system.uploads d.dialog
unfolding edited submitted_value
Step-IsShown (change_open c next_open) h = record { under = h.under }
Step-IsShown (edit c e i) h = idle-IsShown c.system.uploads c.dialog _ i h
Step-IsShown {prefix} (submit c value i e) h =
    submit-IsShown prefix c.system.uploads c.dialog value i e h
Step-IsShown (serve c u k o) h = serve-IsShown k c.dialog o h

-- Where the dialog takes no input while an upload is pending or a confirmation is open: from a
-- page with nothing under way, after any order of input, submissions, confirmations,
-- cancellations, answers and refreshes, at most one upload is under way, none while a
-- confirmation is open, the page says whether it checks or retries, and the value that is
-- uploaded or awaits the confirmation is the one that the dialog holds, until the lists are
-- loaded again; after a confirmed overwrite the dialog is empty meanwhile.
pub Reach-IsShown :
    {prefix : Text} {c d : Composed}
    → IsShown c.system.uploads c.dialog
    → Reach (Step prefix) c d
    → IsShown d.system.uploads d.dialog
Reach-IsShown {prefix} h r =
    invariant (Step prefix) (λ c. IsShown c.system.uploads c.dialog) (λ s t k p. Step-IsShown k p) _
      _ h r
