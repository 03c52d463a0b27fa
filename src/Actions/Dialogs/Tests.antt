-- ===== src/Actions/Dialogs/Tests.antt =====
-- The dialogs of folders with their page at concrete states.
use light_oss.Base.{refl, true, false, some, [], ◌∷◌}
use light_oss.Base.Reach.{here, next}
use light_oss.Base.Text.{codes}
use light_oss.Api.Types.{public}
use light_oss.Actions.{Actions, started}
use light_oss.Actions.Dialogs.{
  UploadFolderDialog, Dialogs, some_pending, chosen, named, submitted, submit_folder,
  submit_creation, open_folder,
}
use light_oss.Actions.Dialogs.Own.{IsHeld}
use light_oss.Actions.Dialogs.Held.{Reach-IsHeld}

abbrev quiet : Actions
quiet = record {
  upload_progress = 0;
  paths = λ marker. [];
  requests = [];
  flights = [];
  toasts = [];
  entries_invalidations = 0;
  sites_invalidations = 0;
}

abbrev folder_dialog : UploadFolderDialog
folder_dialog = record {
  is_open = true;
  selected_files =
      record {
        name = codes "a.png";
        content_type = codes "image/png";
        webkit_relative_path = some (codes "docs/a.png");
      }
      ∷ [];
  visibility = public;
}

abbrev filled : Dialogs
filled = record {
  folder = folder_dialog;
  creation = record { is_open = false; name = codes " new " };
}

abbrev uploading : Actions
uploading = submitted (codes "b") [] (chosen folder_dialog) quiet

abbrev both : Actions
both = submitted (codes "b") [] (named filled.creation) uploading

-- An upload starts, a folder is created meanwhile, and the dialog of the upload is closed.
Reach-IsHeld_example :
    IsHeld both (record filled { folder = record folder_dialog { is_open = false } })
Reach-IsHeld_example =
    Reach-IsHeld {t = record { page = quiet; dialogs = filled }}
      (record { upload = tt; creation = tt })
      (next
        (next (next here (submit_folder quiet filled (codes "b") [] (unfold some_pending in refl)))
          (submit_creation uploading filled (codes "b") []
            (unfold some_pending submitted chosen started in refl)))
        (open_folder both filled false))
