-- ===== src/Overwrite/Dialog/Answered.antt =====
-- The upload dialog after a submission, a confirmation or an answer.
use light_oss.Base.{
  ◌≡◌, refl, ◌∙◌, Bool, true, false, not, ◌&&◌, Option, none, some, List, [], ◌∷◌, ◌++◌, is_empty,
  arith, Bool-cases, inl, inr,
}
use light_oss.Base.Text.{Text}
use light_oss.Overwrite.{
  UploadDialogValue, key_in, PendingOverwriteUpload, RequestError, Flight, checking, uploading,
  retrying, stored, overwritten, Uploads, is_object_exists_error, handle_upload, check_answered,
  upload_succeeded, upload_failed, retry, retry_succeeded, handle_confirm_overwrite_upload,
}
use light_oss.Overwrite.Steps.{land}
use light_oss.Overwrite.Dialog.{
  UploadDialog, reset_dialog_state, submitted_value, upload_pending, IsIdle,
}
use light_oss.Overwrite.Dialog.Invariant.{
  is_checking, is_retrying, Waits, Under, IsShown, only, none_runs, idle, busy, none_waits, at_rest,
  closed, none-Waits,
}

pub submit-IsShown :
    (prefix : Text) (s : Uploads) (d : UploadDialog) (value : UploadDialogValue)
    → IsIdle s
    → submitted_value d ≡ some value
    → IsShown s d
    → IsShown (handle_upload prefix value s) d
unfolding handle_upload upload_pending
submit-IsShown prefix s d value i e h =
    let nothing : s.flights ≡ [] =
      none_runs (submitted_value d) s.flights s.pending_overwrite_upload s.is_checking_overwrite
        s.is_retrying_overwrite i.not_pending h.under in
    record {
      under =
          busy (submitted_value d) s.flights (checking value (key_in prefix value))
            s.pending_overwrite_upload true s.is_retrying_overwrite nothing
            (i.no_confirmation, refl, ground (arith, i.not_pending), e);
    }

-- What an answer finds.
module _ {s : Uploads} {d : UploadDialog} (fs gs : List Flight) (f : Flight)
    (e : s.flights ≡ fs ++ f ∷ gs) (h : IsShown s d) where
  answered :
      (fs ++ gs ≡ [])
      × Under
          (submitted_value d)
          (f ∷ [])
          s.pending_overwrite_upload
          s.is_checking_overwrite
          s.is_retrying_overwrite
  answered =
      only (submitted_value d) fs gs f s.pending_overwrite_upload s.is_checking_overwrite
        s.is_retrying_overwrite (rw e at h.under)

  -- An answer that ends the upload: nothing is left, or a confirmation of its value.
  pub ended :
      (t : Uploads) (later : UploadDialog)
      → t.flights ≡ fs ++ gs
      → t.is_checking_overwrite ≡ false
      → t.is_retrying_overwrite ≡ false
      → Waits (submitted_value later) t.pending_overwrite_upload
      → IsShown t later
  ended t later k checks retries w =
      let (nothing, _) = answered in
      record {
        under =
            idle (submitted_value later) t.flights t.pending_overwrite_upload
              t.is_checking_overwrite t.is_retrying_overwrite (k ∙ nothing) checks retries w;
      }

  pub checks_of : s.is_checking_overwrite ≡ is_checking f
  checks_of = let (_, (_, checks, _, _)) = answered in checks

  pub retries_of : s.is_retrying_overwrite ≡ is_retrying f
  retries_of = let (_, (_, _, retries, _)) = answered in retries

  pub answered-Waits :
      (later : UploadDialog) → Waits (submitted_value later) s.pending_overwrite_upload
  answered-Waits later =
      let (_, (none_open, _, _, _)) = answered in
      none-Waits (submitted_value later) s.pending_overwrite_upload none_open

pub check_answered-IsShown :
    (prefix : Text) (s : Uploads) (d : UploadDialog) (fs gs : List Flight)
    (value : UploadDialogValue) (key : Text) (exists : Bool)
    → s.flights ≡ fs ++ checking value key ∷ gs
    → IsShown s d
    → IsShown (check_answered prefix value key exists (land (fs ++ gs) s)) d
unfolding check_answered
check_answered-IsShown prefix s d fs gs value key exists e h =
    let (nothing, (none_open, checks, retries, own)) = answered fs gs (checking value key) e h in
    elim (Bool-cases (exists && not (is_empty key))) [
      | inl conflict ↦ simp conflict (record {
        under =
            idle (submitted_value d) (fs ++ gs) _ false s.is_retrying_overwrite nothing refl retries
              own;
      })
      | inr free ↦ simp free (record {
        under =
            busy (submitted_value d) (fs ++ gs) (uploading value (key_in prefix value))
              s.pending_overwrite_upload false s.is_retrying_overwrite nothing
              (none_open, refl, retries, own);
      })
    ]

pub upload_failed-IsShown :
    (prefix : Text) (s : Uploads) (d : UploadDialog) (fs gs : List Flight)
    (value : UploadDialogValue) (key : Text) (error : RequestError)
    → s.flights ≡ fs ++ uploading value key ∷ gs
    → IsShown s d
    → IsShown (upload_failed prefix value error (land (fs ++ gs) s)) d
unfolding upload_failed
upload_failed-IsShown prefix s d fs gs value key error e h =
    let (nothing, (none_open, checks, retries, own)) = answered fs gs (uploading value key) e h in
    elim (Bool-cases (is_object_exists_error error)) [
      | inl conflict ↦ simp conflict (record {
        under =
            idle (submitted_value d) (fs ++ gs) _ s.is_checking_overwrite s.is_retrying_overwrite
              nothing checks retries own;
      })
      | inr broken ↦ simp broken (record {
        under =
            idle (submitted_value d) (fs ++ gs) s.pending_overwrite_upload s.is_checking_overwrite
              s.is_retrying_overwrite nothing checks retries
              (none-Waits (submitted_value d) s.pending_overwrite_upload none_open);
      })
    ]

retry-IsShown :
    (prefix : Text) (s : Uploads) (d : UploadDialog) (pending : Option PendingOverwriteUpload)
    → s.is_retrying_overwrite ≡ false
    → Under (submitted_value d) s.flights pending s.is_checking_overwrite s.is_retrying_overwrite
    → IsShown s d
    → IsShown (retry prefix pending s) d
retry-IsShown prefix s d none still u h = h
retry-IsShown prefix s d (some p) still u h =
    let nothing : s.flights ≡ [] =
      none_waits (submitted_value d) s.flights p s.is_checking_overwrite s.is_retrying_overwrite
        u in
    let (checks, _, own) =
      at_rest (submitted_value d) s.flights p s.is_checking_overwrite s.is_retrying_overwrite
        nothing u in
    record {
      under =
          busy (submitted_value d) s.flights (retrying p.value (key_in prefix p.value)) none
            s.is_checking_overwrite true nothing (refl, checks, refl, own);
    }

pub confirm-IsShown :
    (prefix : Text) (s : Uploads) (d : UploadDialog)
    → IsShown s d
    → IsShown (handle_confirm_overwrite_upload prefix s) d
unfolding handle_confirm_overwrite_upload
confirm-IsShown prefix s d h = elim (Bool-cases s.is_retrying_overwrite) [
  | inl retries ↦ simp retries h
  | inr still ↦ simp still (retry-IsShown prefix s d s.pending_overwrite_upload still h.under h)
]

pub closed-IsShown :
    (s : Uploads) (d : UploadDialog)
    → s.is_retrying_overwrite ≡ false
    → IsShown s d
    → IsShown
        (record s {
          pending_overwrite_upload = none;
          is_retrying_overwrite = false;
          upload_progress = 0;
        })
        d
closed-IsShown s d still h = record {
  under = rw still at (
      closed (submitted_value d) s.flights s.pending_overwrite_upload s.is_checking_overwrite
        s.is_retrying_overwrite h.under);
}

-- After an upload the dialog keeps its value until the lists are loaded again.
pub stored-IsShown :
    (s : Uploads) (d : UploadDialog) (fs gs : List Flight) (value : UploadDialogValue) (key : Text)
    → s.flights ≡ fs ++ uploading value key ∷ gs
    → IsShown s d
    → IsShown (upload_succeeded value key (land (fs ++ gs) s)) d
unfolding upload_succeeded
stored-IsShown s d fs gs value key e h =
    let (nothing, k) = answered fs gs (uploading value key) e h in
    record {
      under =
          busy (submitted_value d) (fs ++ gs) (stored value key) s.pending_overwrite_upload
            s.is_checking_overwrite s.is_retrying_overwrite nothing k;
    }

-- After a confirmed overwrite the dialog is reset at once.
pub overwritten-IsShown :
    (s : Uploads) (d : UploadDialog) (fs gs : List Flight) (value : UploadDialogValue) (key : Text)
    → s.flights ≡ fs ++ retrying value key ∷ gs
    → IsShown s d
    → IsShown (retry_succeeded value key (land (fs ++ gs) s)) reset_dialog_state
unfolding retry_succeeded reset_dialog_state submitted_value
overwritten-IsShown s d fs gs value key e h =
    let (nothing, (none_open, checks, retries, own)) = answered fs gs (retrying value key) e h in
    record {
      under =
          busy (submitted_value reset_dialog_state) (fs ++ gs) (overwritten value key)
            s.pending_overwrite_upload s.is_checking_overwrite s.is_retrying_overwrite nothing
            (none_open, checks, retries, refl);
    }
