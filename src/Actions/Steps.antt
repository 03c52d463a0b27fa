-- ===== src/Actions/Steps.antt =====
-- The page with the actions that run, as a step relation: the user starts actions on any page, the
-- answers arrive in any order, and uploads report their progress.
use light_oss.Base.{ℕ, ◌≡◌, List, ◌∷◌, ◌++◌}
use light_oss.Base.Text.{Text}
use light_oss.Actions.{
  Action, Flight, running, refreshing, Actions, started, succeeded, followed, failed, settled,
}

abbrev pub land : List Flight → Actions → Actions
land flights s = record s { flights = flights }

pub data Step : Actions → Actions → Type 0 where
  start :
      (s : Actions) (bucket prefix : Text) (action : Action)
      → Step s (started bucket prefix action s)
  progress : (s : Actions) (percent : ℕ) → Step s (record s { upload_progress = percent })
  succeed :
      (s : Actions) (fs gs : List Flight) (action : Action)
      → s.flights ≡ fs ++ running action ∷ gs
      → Step s (succeeded action (land (fs ++ (followed action ++ gs)) s))
  fail :
      (s : Actions) (fs gs : List Flight) (action : Action) (message : Text)
      → s.flights ≡ fs ++ running action ∷ gs
      → Step s (failed message action (land (fs ++ gs) s))
  settle :
      (s : Actions) (fs gs : List Flight) (action : Action)
      → s.flights ≡ fs ++ refreshing action ∷ gs
      → Step s (settled action (land (fs ++ gs) s))
