-- ===== src/Overwrite/Dialog/Tests.antt =====
-- The upload dialog with its page at concrete states.
use light_oss.Base.{◌≡◌, refl, true, false, none, some, [], ◌∷◌, ◌++◌}
use light_oss.Base.Reach.{here, next}
use light_oss.Base.Text.{Text, codes, trim, is_space}
use light_oss.Api.Types.{public}
use light_oss.Api.FolderUpload.{File}
use light_oss.Overwrite.{
  UploadDialogValue, checking, Uploads, key_in, handle_upload, check_answered,
}
use light_oss.Overwrite.Steps.{System, land, page, report, check_present}
use light_oss.Overwrite.Dialog.{
  UploadDialog, submitted_value, upload_pending, Composed, submit, serve, Step, after,
}
use light_oss.Overwrite.Dialog.Invariant.{IsShown}
use light_oss.Overwrite.Dialog.Shown.{Reach-IsShown}

abbrev picture : File
picture = record {
  name = codes "a.png";
  content_type = codes "image/png";
  webkit_relative_path = none;
}

abbrev filled : UploadDialog
filled = record {
  is_open = true;
  selected_file = some picture;
  object_key = codes "  ";
  visibility = public;
}

-- A key of spaces leaves the name of the file.
abbrev picture_value : UploadDialogValue
picture_value = record {
  object_key = codes "a.png";
  file_name = codes "a.png";
  visibility = public;
}

abbrev docs : Text
docs = codes "docs/"

abbrev idle_page : Uploads
idle_page = record {
  upload_progress = 0;
  dialog_reset_signal = 0;
  is_checking_overwrite = false;
  pending_overwrite_upload = none;
  is_retrying_overwrite = false;
  requests = [];
  flights = [];
  toasts = [];
  invalidations = 0;
}

abbrev fresh : Composed
fresh = record { system = record { uploads = idle_page; reported = [] }; dialog = filled }

abbrev started : System
started = page (handle_upload docs picture_value) fresh.system

abbrev answered : System
answered = report (key_in docs picture_value) (
    page (λ s. check_answered docs picture_value (key_in docs picture_value) true (land [] s))
      started)

under_check :
    started.uploads.flights ≡ [] ++ checking picture_value (key_in docs picture_value) ∷ []
unfolding handle_upload
under_check = refl

-- The server says that the key exists, and the dialog keeps its file.
conflict :
    Step docs
      (record { system = started; dialog = filled })
      (record { system = answered; dialog = filled })
unfolding after
conflict =
    serve (record { system = started; dialog = filled }) answered
      (check_present started [] [] picture_value (key_in docs picture_value) under_check) tt

Reach-IsShown_example : IsShown answered.uploads filled
Reach-IsShown_example =
    Reach-IsShown {prefix = docs} {c = fresh} {d = record { system = answered; dialog = filled }}
      (record { under = (refl, refl, tt) })
      (next
        (next here (
          submit fresh picture_value
            (record { not_pending = unfold upload_pending in refl; no_confirmation = refl })
            (unfold submitted_value trim is_space in refl)))
        conflict)
