-- ===== src/Actions/Dialogs.antt =====
-- frontend/src/features/explorer/UploadFolderDialog.tsx and CreateFolderDialog.tsx together with the
-- actions of the page that they belong to.
pub mod Own
pub mod Held
mod Tests
use light_oss.Base.{
  ◌≡◌, Bool, true, false, ◌||◌, Option, none, some, List, [], ◌∷◌, ◌++◌, if◌then◌else◌, is_empty,
}
use light_oss.Base.Text.{Text, trim}
use light_oss.Api.Types.{ObjectVisibility, private}
use light_oss.Api.FolderUpload.{File}
use light_oss.Actions.{
  Action, folder_upload, folder_creation, Flight, running, refreshing, Actions, started,
}
use light_oss.Actions.Marked.{action_of}
use light_oss.Actions.Steps
use light_oss.Actions.Steps.{start, progress, succeed, fail, settle}

pub record UploadFolderDialog : Type 0 where
  pub is_open : Bool
  pub selected_files : List File
  pub visibility : ObjectVisibility

pub record CreateFolderDialog : Type 0 where
  pub is_open : Bool
  pub name : Text

pub record Dialogs : Type 0 where
  pub folder : UploadFolderDialog
  pub creation : CreateFolderDialog

pub record Toolbar : Type 0 where
  pub page : Actions
  pub dialogs : Dialogs

abbrev pub is_folder_upload : Action → Bool
is_folder_upload (folder_upload files visibility) = true
is_folder_upload _ = false

abbrev pub is_folder_creation : Action → Bool
is_folder_creation (folder_creation name) = true
is_folder_creation _ = false

-- The actions of a kind that run.
abbrev pub own : (Action → Bool) → List Flight → List Action
own is_kind [] = []
own is_kind (f ∷ fs) =
    if is_kind (action_of f) then action_of f ∷ own is_kind fs else own is_kind fs

-- `isPending` of the mutation of a kind
unfoldable pub some_pending : (Action → Bool) → Actions → Bool
some_pending is_kind s = if is_empty (own is_kind s.flights) then false else true

-- `resetDialogState`
unfoldable pub reset_dialog_state : UploadFolderDialog
reset_dialog_state = record { is_open = false; selected_files = []; visibility = private }

-- What `handleSubmit` of the upload submits, if anything.
unfoldable pub chosen : UploadFolderDialog → Option Action
chosen d =
    if is_empty d.selected_files then none else some (folder_upload d.selected_files d.visibility)

-- What `handleSubmit` of the creation submits, if anything.
unfoldable pub named : CreateFolderDialog → Option Action
named d = if is_empty (trim d.name) then none else some (folder_creation (trim d.name))

-- `onSubmit`, up to the answer
unfoldable pub submitted : Text → Text → Option Action → Actions → Actions
submitted bucket prefix none s = s
submitted bucket prefix (some action) s = started bucket prefix action s

-- What follows in `handleSubmit` when `onSubmit` resolves; where it throws, nothing does.
unfoldable pub resolved : Action → Dialogs → Dialogs
unfolding reset_dialog_state
resolved (folder_upload files visibility) d = record d { folder = reset_dialog_state }
resolved (folder_creation name) d = record d { creation = record { is_open = false; name = [] } }
resolved _ d = d

-- What a step of the page means to the dialogs.
unfoldable pub after : {s u : Actions} → Steps.Step s u → Dialogs → Dialogs
after (start s bucket prefix action) d = d
after (progress s percent) d = d
after (succeed s fs gs action e) d = d
after (fail s fs gs action message e) d = d
after (settle s fs gs action e) d = resolved action d

-- Uploads and creations of folders start in their dialogs.
abbrev pub IsOther : {s u : Actions} → Steps.Step s u → Type 0
IsOther (start s bucket prefix action) =
    (is_folder_upload action || is_folder_creation action) ≡ false
IsOther _ = Unit

-- The inputs of the upload.
pub data FolderEdit : Type 0 where
  choose_files : List File → FolderEdit
  choose_visibility : ObjectVisibility → FolderEdit

unfoldable pub edited_folder : FolderEdit → UploadFolderDialog → UploadFolderDialog
edited_folder (choose_files files) d = record d { selected_files = files }
edited_folder (choose_visibility visibility) d = record d { visibility = visibility }

-- The inputs of a dialog, and the button that submits, are disabled while its action is pending;
-- those of the upload also during the other uploads.
pub data Step : Toolbar → Toolbar → Type 0 where
  open_folder :
      (s : Actions) (d : Dialogs) (next_open : Bool)
      → Step
          (record { page = s; dialogs = d })
          (record {
            page = s;
            dialogs = record d { folder = record (d.folder) { is_open = next_open } };
          })
  open_creation :
      (s : Actions) (d : Dialogs) (next_open : Bool)
      → Step
          (record { page = s; dialogs = d })
          (record {
            page = s;
            dialogs = record d { creation = record (d.creation) { is_open = next_open } };
          })
  edit_folder :
      (s : Actions) (d : Dialogs) (edit : FolderEdit)
      → some_pending is_folder_upload s ≡ false
      → Step
          (record { page = s; dialogs = d })
          (record { page = s; dialogs = record d { folder = edited_folder edit d.folder } })
  write_name :
      (s : Actions) (d : Dialogs) (name : Text)
      → some_pending is_folder_creation s ≡ false
      → Step
          (record { page = s; dialogs = d })
          (record {
            page = s;
            dialogs = record d { creation = record (d.creation) { name = name } };
          })
  submit_folder :
      (s : Actions) (d : Dialogs) (bucket prefix : Text)
      → some_pending is_folder_upload s ≡ false
      → Step
          (record { page = s; dialogs = d })
          (record { page = submitted bucket prefix (chosen d.folder) s; dialogs = d })
  submit_creation :
      (s : Actions) (d : Dialogs) (bucket prefix : Text)
      → some_pending is_folder_creation s ≡ false
      → Step
          (record { page = s; dialogs = d })
          (record { page = submitted bucket prefix (named d.creation) s; dialogs = d })
  serve :
      (s u : Actions) (d : Dialogs) (k : Steps.Step s u)
      → IsOther k
      → Step (record { page = s; dialogs = d }) (record { page = u; dialogs = after k d })
