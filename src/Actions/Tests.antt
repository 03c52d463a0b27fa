-- ===== src/Actions/Tests.antt =====
-- The theorems on the actions at concrete pages.
use light_oss.Base.{refl, [], ◌∷◌}
use light_oss.Base.Reach.{here, next}
use light_oss.Base.Text.{Text, codes}
use light_oss.Actions.{
  Action, running, refreshing, Actions, file_deletion, folder_download, started, succeeded,
}
use light_oss.Actions.Steps.{land, start, succeed}
use light_oss.Actions.Marked.{IsMarked, Reach-IsMarked}

abbrev docs : Text
docs = codes "docs/"

abbrev quiet : Actions
quiet = record {
  upload_progress = 0;
  paths = λ marker. [];
  requests = [];
  flights = [];
  toasts = [];
  entries_invalidations = 0;
  sites_invalidations = 0;
}

abbrev delete_one : Action
delete_one = file_deletion (codes "docs/a")

abbrev archive : Action
archive = folder_download docs

abbrev both_started : Actions
both_started = started (codes "b") docs archive (started (codes "b") docs delete_one quiet)

-- A deletion and a download start, and the deletion is answered first.
abbrev answered : Actions
answered = succeeded delete_one (land (refreshing delete_one ∷ (running archive ∷ [])) both_started)

Reach-IsMarked_example : IsMarked answered
Reach-IsMarked_example =
    Reach-IsMarked {s = quiet} (record { named = λ marker. refl })
      (next
        (next (next here (start quiet (codes "b") docs delete_one))
          (start (started (codes "b") docs delete_one quiet) (codes "b") docs archive))
        (succeed both_started [] (running archive ∷ []) delete_one (unfold started in refl)))
