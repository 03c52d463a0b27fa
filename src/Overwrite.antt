-- ===== src/Overwrite.antt =====
-- frontend/src/pages/BucketObjectsPage.tsx: uploading an object, and confirming that an existing
-- one is overwritten. An asynchronous handler is cut at each `await`: one function up to it, and
-- one for each answer. `prefix` is the directory that the page shows when the function runs.
pub mod Steps
pub mod Dialog
pub mod Confirmed
pub mod Waiting
pub mod Settling
mod Tests
use light_oss.Base.{
  ℕ, ◌+◌, ◌≡◌, Bool, true, false, not, ◌&&◌, ◌||◌, Option, none, some, List, [], ◌∷◌, ◌++◌,
  if◌then◌else◌, or_else, is_empty,
}
use light_oss.Base.Text.{Text, codes, text_eq}
use light_oss.Api.Types.{ObjectVisibility}
use light_oss.Explorer.{join_path}

pub record UploadDialogValue : Type 0 where
  pub object_key : Text
  pub file_name : Text
  pub visibility : ObjectVisibility

pub record PendingOverwriteUpload : Type 0 where
  pub value : UploadDialogValue
  pub target : Option Text

-- An `ApiError`, as the handlers look at it.
pub record RequestError : Type 0 where
  pub code : Option Text
  pub message : Text

pub data Request : Type 0 where
  head_object : Text → Request
  put_object : (object_key : Text) (value : UploadDialogValue) (allow_overwrite : Bool) → Request

-- What the handlers await, with the value that they hold: the answer to a check, to an upload or to
-- a confirmed upload, and after an upload (`stored`) or a confirmed one (`overwritten`) the lists
-- that `invalidateQueries` loads again.
pub data Flight : Type 0 where
  checking uploading retrying stored overwritten : UploadDialogValue → Text → Flight

pub data Toast : Type 0 where
  object_uploaded : Toast
  failure : Text → Toast

pub record Uploads : Type 0 where
  pub upload_progress : ℕ
  pub dialog_reset_signal : ℕ
  pub is_checking_overwrite : Bool
  pub pending_overwrite_upload : Option PendingOverwriteUpload
  pub is_retrying_overwrite : Bool
  pub requests : List Request
  pub flights : List Flight
  pub toasts : List Toast
  pub invalidations : ℕ

abbrev pub key_in : Text → UploadDialogValue → Text
key_in prefix value = join_path prefix value.object_key

-- `isObjectExistsError`
unfoldable pub is_object_exists_error : RequestError → Bool
is_object_exists_error error = elim error.code [
  | none ↦ false
  | some code ↦ text_eq code (codes "object_exists")
]

-- `uploadObjectRequest`
abbrev pub upload_object_request : Text → UploadDialogValue → Bool → Uploads → Uploads
upload_object_request prefix value allow_overwrite s = record s {
  requests = s.requests ++ put_object (key_in prefix value) value allow_overwrite ∷ [];
}

-- `handleUpload` up to the check, which `findObjectConflictTarget` sends.
unfoldable pub handle_upload : Text → UploadDialogValue → Uploads → Uploads
handle_upload prefix value s = record s {
  upload_progress = 0;
  is_checking_overwrite = true;
  requests = s.requests ++ head_object (key_in prefix value) ∷ [];
  flights = s.flights ++ checking value (key_in prefix value) ∷ [];
}

unfoldable pub check_failed : RequestError → Uploads → Uploads
check_failed error s = record s {
  toasts = s.toasts ++ failure error.message ∷ [];
  is_checking_overwrite = false;
}

-- `handleUpload` after the check of this key; an empty key is no conflict target.
unfoldable pub check_answered : Text → UploadDialogValue → Text → Bool → Uploads → Uploads
check_answered prefix value object_key exists s =
    let checked = record s { is_checking_overwrite = false } in
    if exists && not (is_empty object_key)
    then record checked {
      pending_overwrite_upload = some (record { value = value; target = some object_key });
    }
    else record (upload_object_request prefix value false checked) {
      flights = s.flights ++ uploading value (key_in prefix value) ∷ [];
    }

-- `onSuccess` of `uploadMutation` up to its `await`, and `onError`
unfoldable pub upload_succeeded : UploadDialogValue → Text → Uploads → Uploads
upload_succeeded value object_key s = record s {
  upload_progress = 0;
  toasts = s.toasts ++ object_uploaded ∷ [];
  invalidations = s.invalidations + 1;
  flights = s.flights ++ stored value object_key ∷ [];
}

unfoldable pub upload_failed : Text → UploadDialogValue → RequestError → Uploads → Uploads
unfolding is_object_exists_error
upload_failed prefix value error s =
    if is_object_exists_error error
    then record s {
      upload_progress = 0;
      pending_overwrite_upload =
          some (record { value = value; target = some (key_in prefix value) });
    }
    else record s { upload_progress = 0; toasts = s.toasts ++ failure error.message ∷ [] }

abbrev pub retry : Text → Option PendingOverwriteUpload → Uploads → Uploads
retry prefix none s = s
retry prefix (some overwrite_upload) s =
    record (upload_object_request prefix overwrite_upload.value true s) {
      pending_overwrite_upload = none;
      is_retrying_overwrite = true;
      flights =
          s.flights ++ retrying overwrite_upload.value (key_in prefix overwrite_upload.value) ∷ [];
    }

-- `handleConfirmOverwriteUpload` up to the answer
unfoldable pub handle_confirm_overwrite_upload : Text → Uploads → Uploads
handle_confirm_overwrite_upload prefix s =
    if s.is_retrying_overwrite then s else retry prefix s.pending_overwrite_upload s

-- After the answer, up to the second `await`
unfoldable pub retry_succeeded : UploadDialogValue → Text → Uploads → Uploads
retry_succeeded value object_key s = record s {
  dialog_reset_signal = s.dialog_reset_signal + 1;
  toasts = s.toasts ++ object_uploaded ∷ [];
  invalidations = s.invalidations + 1;
  flights = s.flights ++ overwritten value object_key ∷ [];
}

-- The `finally` of `handleConfirmOverwriteUpload`
unfoldable pub retry_settled : Uploads → Uploads
retry_settled s = record s { is_retrying_overwrite = false; upload_progress = 0 }

unfoldable pub retry_failed : RequestError → Uploads → Uploads
retry_failed error s = record s {
  toasts = s.toasts ++ failure error.message ∷ [];
  is_retrying_overwrite = false;
  upload_progress = 0;
}

unfoldable pub handle_cancel_overwrite_upload : Uploads → Uploads
handle_cancel_overwrite_upload s =
    if s.is_retrying_overwrite
    then s
    else record s { pending_overwrite_upload = none; upload_progress = 0 }

-- The key that the dialog names: `overwriteTarget`.
unfoldable pub overwrite_target : Text → Option PendingOverwriteUpload → Text
overwrite_target prefix none = []
overwrite_target prefix (some pending) = or_else pending.target (
    join_path prefix (
      if is_empty pending.value.object_key
      then pending.value.file_name
      else pending.value.object_key))
