-- ===== src/Overwrite/Steps.antt =====
-- The page and the server as a step relation: the user starts, confirms and cancels uploads, and
-- the server answers the requests that are under way, and loads the lists again, in any order.
use light_oss.Base.{◌≡◌, true, false, List, ◌∷◌, ◌++◌}
use light_oss.Base.Text.{Text}
use light_oss.Overwrite.{
  UploadDialogValue, RequestError, Flight, checking, uploading, retrying, stored, overwritten,
  Uploads, is_object_exists_error, handle_upload, check_failed, check_answered, upload_succeeded,
  upload_failed, handle_confirm_overwrite_upload, retry_succeeded, retry_settled, retry_failed,
  handle_cancel_overwrite_upload,
}

-- With the page: the keys that the server has reported as existing.
pub record System : Type 0 where
  pub uploads : Uploads
  pub reported : List Text

abbrev pub land : List Flight → Uploads → Uploads
land flights s = record s { flights = flights }

abbrev pub page : (Uploads → Uploads) → System → System
page f w = record w { uploads = f w.uploads }

abbrev pub report : Text → System → System
report key w = record w { reported = key ∷ w.reported }

-- One step while the page shows the directory `prefix`.
pub data Step (prefix : Text) : System → System → Type 0 where
  start :
      (w : System) (value : UploadDialogValue) → Step prefix w (page (handle_upload prefix value) w)
  confirm : (w : System) → Step prefix w (page (handle_confirm_overwrite_upload prefix) w)
  cancel : (w : System) → Step prefix w (page handle_cancel_overwrite_upload w)
  check_error :
      (w : System) (fs gs : List Flight) (value : UploadDialogValue) (key : Text)
      (error : RequestError)
      → w.uploads.flights ≡ fs ++ checking value key ∷ gs
      → Step prefix w (page (λ s. check_failed error (land (fs ++ gs) s)) w)
  check_absent :
      (w : System) (fs gs : List Flight) (value : UploadDialogValue) (key : Text)
      → w.uploads.flights ≡ fs ++ checking value key ∷ gs
      → Step prefix w (page (λ s. check_answered prefix value key false (land (fs ++ gs) s)) w)
  check_present :
      (w : System) (fs gs : List Flight) (value : UploadDialogValue) (key : Text)
      → w.uploads.flights ≡ fs ++ checking value key ∷ gs
      → Step prefix w
          (report key (page (λ s. check_answered prefix value key true (land (fs ++ gs) s)) w))
  upload_done :
      (w : System) (fs gs : List Flight) (value : UploadDialogValue) (key : Text)
      → w.uploads.flights ≡ fs ++ uploading value key ∷ gs
      → Step prefix w (page (λ s. upload_succeeded value key (land (fs ++ gs) s)) w)
  upload_settled :
      (w : System) (fs gs : List Flight) (value : UploadDialogValue) (key : Text)
      → w.uploads.flights ≡ fs ++ stored value key ∷ gs
      → Step prefix w (page (land (fs ++ gs)) w)
  upload_conflict :
      (w : System) (fs gs : List Flight) (value : UploadDialogValue) (key : Text)
      (error : RequestError)
      → w.uploads.flights ≡ fs ++ uploading value key ∷ gs
      → is_object_exists_error error ≡ true
      → Step prefix w
          (report key (page (λ s. upload_failed prefix value error (land (fs ++ gs) s)) w))
  upload_error :
      (w : System) (fs gs : List Flight) (value : UploadDialogValue) (key : Text)
      (error : RequestError)
      → w.uploads.flights ≡ fs ++ uploading value key ∷ gs
      → is_object_exists_error error ≡ false
      → Step prefix w (page (λ s. upload_failed prefix value error (land (fs ++ gs) s)) w)
  retry_done :
      (w : System) (fs gs : List Flight) (value : UploadDialogValue) (key : Text)
      → w.uploads.flights ≡ fs ++ retrying value key ∷ gs
      → Step prefix w (page (λ s. retry_succeeded value key (land (fs ++ gs) s)) w)
  retry_end :
      (w : System) (fs gs : List Flight) (value : UploadDialogValue) (key : Text)
      → w.uploads.flights ≡ fs ++ overwritten value key ∷ gs
      → Step prefix w (page (λ s. retry_settled (land (fs ++ gs) s)) w)
  retry_error :
      (w : System) (fs gs : List Flight) (value : UploadDialogValue) (key : Text)
      (error : RequestError)
      → w.uploads.flights ≡ fs ++ retrying value key ∷ gs
      → Step prefix w (page (λ s. retry_failed error (land (fs ++ gs) s)) w)
