-- ===== src/Overwrite/Dialog.antt =====
-- frontend/src/features/explorer/UploadObjectDialog.tsx together with the page that it belongs to:
-- the dialog hands its value to `handleUpload`, and resets itself when that resolves or when the
-- page counts up its reset signal.
pub mod Invariant
pub mod Answered
pub mod Shown
pub mod Refines
mod Tests
use light_oss.Base.{
  ◌≡◌, Bool, true, false, ◌||◌, Option, none, some, List, [], ◌∷◌, if◌then◌else◌, is_empty,
}
use light_oss.Base.Text.{Text, trim}
use light_oss.Api.Types.{ObjectVisibility, private}
use light_oss.Api.FolderUpload.{File}
use light_oss.Overwrite.{
  UploadDialogValue, Flight, checking, uploading, retrying, stored, overwritten, Uploads,
  handle_upload,
}
use light_oss.Overwrite.Steps
use light_oss.Overwrite.Steps.{
  System, page, start, confirm, cancel, check_error, check_absent, check_present, upload_done,
  upload_settled, upload_conflict, upload_error, retry_done, retry_end, retry_error,
}

pub record UploadDialog : Type 0 where
  pub is_open : Bool
  pub selected_file : Option File
  pub object_key : Text
  pub visibility : ObjectVisibility

-- `resetDialogState`
unfoldable pub reset_dialog_state : UploadDialog
reset_dialog_state = record {
  is_open = false;
  selected_file = none;
  object_key = [];
  visibility = private;
}

abbrev key_or_name : Text → File → Text
key_or_name key file = if is_empty key then file.name else key

-- What `handleSubmit` hands to `onSubmit`, if anything.
unfoldable pub submitted_value : UploadDialog → Option UploadDialogValue
submitted_value d = elim d.selected_file [
  | none ↦ none
  | some file ↦ some (record {
    object_key = key_or_name (trim d.object_key) file;
    file_name = file.name;
    visibility = d.visibility;
  })
]

-- The inputs of the dialog.
pub data Edit : Type 0 where
  choose_file : Option File → Edit
  write_key : Text → Edit
  choose_visibility : ObjectVisibility → Edit

unfoldable pub edited : Edit → UploadDialog → UploadDialog
edited (choose_file file) d = record d { selected_file = file }
edited (write_key key) d = record d { object_key = key }
edited (choose_visibility visibility) d = record d { visibility = visibility }

abbrev pub some_uploading : List Flight → Bool
some_uploading [] = false
some_uploading (uploading value key ∷ fs) = true
some_uploading (stored value key ∷ fs) = true
some_uploading (checking value key ∷ fs) = some_uploading fs
some_uploading (retrying value key ∷ fs) = some_uploading fs
some_uploading (overwritten value key ∷ fs) = some_uploading fs

-- `uploadPending`, as far as uploads of objects go; it disables the inputs and the button.
unfoldable pub upload_pending : Uploads → Bool
upload_pending s = some_uploading s.flights || (s.is_checking_overwrite || s.is_retrying_overwrite)

pub record Composed : Type 0 where
  pub system : System
  pub dialog : UploadDialog

-- What a step of the page means to the dialog: `handleUpload` resolves after a failed check and
-- after an upload and its refresh, it throws after a conflict and after a failed upload, and a
-- confirmed overwrite changes the reset signal when its answer arrives.
unfoldable pub after :
    {prefix : Text} {w u : System} → Steps.Step prefix w u → UploadDialog → UploadDialog
unfolding reset_dialog_state
after (start w value) d = d
after (confirm w) d = d
after (cancel w) d = d
after (check_error w fs gs value key error e) d = reset_dialog_state
after (check_absent w fs gs value key e) d = d
after (check_present w fs gs value key e) d = d
after (upload_done w fs gs value key e) d = d
after (upload_settled w fs gs value key e) d = reset_dialog_state
after (upload_conflict w fs gs value key error e c) d = d
after (upload_error w fs gs value key error e c) d = d
after (retry_done w fs gs value key e) d = reset_dialog_state
after (retry_end w fs gs value key e) d = d
after (retry_error w fs gs value key error e) d = d

-- A start goes through the dialog.
abbrev pub IsOther : {prefix : Text} {w u : System} → Steps.Step prefix w u → Type 0
IsOther (start w value) = ⊥
IsOther _ = Unit

-- The dialog takes no input while an upload is pending, nor under the open confirmation, which is
-- modal.
pub record IsIdle (s : Uploads) : Type 0 where
  pub not_pending : upload_pending s ≡ false
  pub no_confirmation : s.pending_overwrite_upload ≡ none

pub data Step (prefix : Text) : Composed → Composed → Type 0 where
  change_open :
      (c : Composed) (next_open : Bool)
      → Step prefix c (record c { dialog = record (c.dialog) { is_open = next_open } })
  edit :
      (c : Composed) (e : Edit)
      → IsIdle c.system.uploads
      → Step prefix c (record c { dialog = edited e c.dialog })
  submit :
      (c : Composed) (value : UploadDialogValue)
      → IsIdle c.system.uploads
      → submitted_value c.dialog ≡ some value
      → Step prefix c (record c { system = page (handle_upload prefix value) c.system })
  serve :
      (c : Composed) (u : System) (k : Steps.Step prefix c.system u)
      → IsOther k
      → Step prefix c (record { system = u; dialog = after k c.dialog })
