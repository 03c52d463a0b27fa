-- ===== src/Actions/Dialogs/Held.antt =====
-- What is uploaded or created is what its dialog holds.
use light_oss.Base.{◌≡◌, refl, ap, false, is_empty, arith, Bool-cases, inl, inr}
use light_oss.Base.Reach.{Reach, invariant}
use light_oss.Base.Text.{Text, trim}
use light_oss.Actions.{
  Action, folder_upload, folder_creation, running, refreshing, Actions, started, failed, settled,
}
use light_oss.Actions.Steps
use light_oss.Actions.Steps.{land, start, progress, succeed, fail, settle}
use light_oss.Actions.Dialogs.{
  Dialogs, Toolbar, is_folder_upload, is_folder_creation, own, some_pending, chosen, named,
  submitted, resolved, after, IsOther, edited_folder, Step, open_folder, open_creation, edit_folder,
  write_name, submit_folder, submit_creation, serve,
}
use light_oss.Actions.Dialogs.Own.{
  IsHeld, Holds-nil, none_pending, started-Holds, own-started, ended-Holds, own-succeeded,
  upload-download, creation-download, folder-resolved, creation-resolved,
}

submit_folder-IsHeld :
    (bucket prefix : Text) (s : Actions) (d : Dialogs)
    → some_pending is_folder_upload s ≡ false
    → IsHeld s d
    → IsHeld (submitted bucket prefix (chosen d.folder) s) d
unfolding chosen submitted started
submit_folder-IsHeld bucket prefix s d i h = elim (Bool-cases (is_empty d.folder.selected_files)) [
  | inl e ↦ simp e h
  | inr e ↦
      let action : Action = folder_upload d.folder.selected_files d.folder.visibility in
      simp e (record {
        upload =
            started-Holds is_folder_upload (chosen d.folder) s.flights action refl
              (none_pending is_folder_upload s i) (simp e refl);
        creation = rw (own-started is_folder_creation s.flights action refl) h.creation;
      })
]

submit_creation-IsHeld :
    (bucket prefix : Text) (s : Actions) (d : Dialogs)
    → some_pending is_folder_creation s ≡ false
    → IsHeld s d
    → IsHeld (submitted bucket prefix (named d.creation) s) d
unfolding named submitted started
submit_creation-IsHeld bucket prefix s d i h = elim (Bool-cases (is_empty (trim d.creation.name))) [
  | inl e ↦ simp e h
  | inr e ↦
      let action : Action = folder_creation (trim d.creation.name) in
      simp e (record {
        upload = rw (own-started is_folder_upload s.flights action refl) h.upload;
        creation =
            started-Holds is_folder_creation (named d.creation) s.flights action refl
              (none_pending is_folder_creation s i) (simp e refl);
      })
]

serve-IsHeld :
    {s u : Actions} (k : Steps.Step s u) (d : Dialogs)
    → IsOther k
    → IsHeld s d
    → IsHeld u (after k d)
unfolding after started failed settled
serve-IsHeld (start s bucket prefix action) d o h = record {
  upload = rw (own-started is_folder_upload s.flights action (ground (arith, o))) h.upload;
  creation = rw (own-started is_folder_creation s.flights action (ground (arith, o))) h.creation;
}
serve-IsHeld (progress s percent) d o h = record { upload = h.upload; creation = h.creation }
serve-IsHeld (succeed s fs gs action e) d o h = record {
  upload = rw (own-succeeded is_folder_upload s fs gs action (upload-download action) e) h.upload;
  creation =
      rw (own-succeeded is_folder_creation s fs gs action (creation-download action) e) h.creation;
}
serve-IsHeld (fail s fs gs action message e) d o h = record {
  upload =
      ended-Holds is_folder_upload (chosen d.folder) (chosen d.folder) s.flights fs gs
        (running action) e (λ k. refl) h.upload;
  creation =
      ended-Holds is_folder_creation (named d.creation) (named d.creation) s.flights fs gs
        (running action) e (λ k. refl) h.creation;
}
serve-IsHeld (settle s fs gs action e) d o h = record {
  upload =
      ended-Holds is_folder_upload (chosen d.folder) (chosen (resolved action d).folder) s.flights
        fs gs (refreshing action) e (λ k. ap chosen (folder-resolved action d k)) h.upload;
  creation =
      ended-Holds is_folder_creation (named d.creation) (named (resolved action d).creation)
        s.flights fs gs (refreshing action) e (λ k. ap named (creation-resolved action d k))
        h.creation;
}

Step-IsHeld : {t u : Toolbar} → Step t u → IsHeld t.page t.dialogs → IsHeld u.page u.dialogs
unfolding chosen named
Step-IsHeld (open_folder s d next_open) h = record { upload = h.upload; creation = h.creation }
Step-IsHeld (open_creation s d next_open) h = record { upload = h.upload; creation = h.creation }
Step-IsHeld (edit_folder s d edit i) h = record {
  upload =
      Holds-nil (chosen (edited_folder edit d.folder)) (own is_folder_upload s.flights)
        (none_pending is_folder_upload s i);
  creation = h.creation;
}
Step-IsHeld (write_name s d name i) h = record {
  upload = h.upload;
  creation =
      Holds-nil (named (record (d.creation) { name = name })) (own is_folder_creation s.flights)
        (none_pending is_folder_creation s i);
}
Step-IsHeld (submit_folder s d bucket prefix i) h = submit_folder-IsHeld bucket prefix s d i h
Step-IsHeld (submit_creation s d bucket prefix i) h = submit_creation-IsHeld bucket prefix s d i h
Step-IsHeld (serve s u d k o) h = serve-IsHeld k d o h

-- Where the inputs of a dialog are disabled while its action is pending: from a page without
-- uploads and creations of folders, after any order of input, submissions, other actions,
-- progress and answers, at most one upload and one creation of a folder are under way, and each
-- is the one that its dialog holds, also where the dialog was closed.
pub Reach-IsHeld :
    {t u : Toolbar} → IsHeld t.page t.dialogs → Reach Step t u → IsHeld u.page u.dialogs
Reach-IsHeld h r =
    invariant Step (λ t. IsHeld t.page t.dialogs) (λ s t k p. Step-IsHeld k p) _ _ h r
