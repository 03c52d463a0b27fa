-- ===== src/Actions/Marked.antt =====
-- A path that is marked as busy is that of an action that still runs.
use light_oss.Base.{
  ◌≡◌, refl, ap, ◌∙◌, Bool, true, false, ◌&&◌, ◌||◌, Option, none, some, List, [], ◌∷◌, ◌++◌,
  is_empty, arith, Bool-cases, inl, inr,
}
use light_oss.Base.Reach.{Reach, invariant}
use light_oss.Base.Text.{Text, text_eq, text_eq_refl}
use light_oss.Actions.{
  Action, Flight, running, refreshing, Actions, Marker, same_marker, mark_of, marked, no_mark,
  started, succeeded, is_download, failed, settled,
}
use light_oss.Actions.Steps.{Step, start, progress, succeed, fail, settle}

abbrev pub action_of : Flight → Action
action_of (running action) = action
action_of (refreshing action) = action

abbrev pub sets : Marker → Text → Option (Marker × Text) → Bool
sets marker path none = false
sets marker path (some (own, own_path)) = same_marker own marker && text_eq own_path path

-- Some flight has set the marker to the path.
abbrev pub some_sets : Marker → Text → List Flight → Bool
some_sets marker path [] = false
some_sets marker path (f ∷ fs) =
    sets marker path (mark_of (action_of f)) || some_sets marker path fs

pub record IsMarked (s : Actions) : Type 0 where
  pub named :
      (marker : Marker)
      → (is_empty (s.paths marker) || some_sets marker (s.paths marker) s.flights) ≡ true

some_sets-append :
    (marker : Marker) (path : Text) (fs gs : List Flight)
    → some_sets marker path (fs ++ gs) ≡ (some_sets marker path fs || some_sets marker path gs)
some_sets-append marker path [] gs = refl
some_sets-append marker path (f ∷ fs) gs = ground (arith, some_sets-append marker path fs gs)

more_named :
    (flights : List Flight) (path : Text) (f : Flight) (marker : Marker)
    → (is_empty path || some_sets marker path flights) ≡ true
    → (is_empty path || some_sets marker path (flights ++ f ∷ [])) ≡ true
more_named flights path f marker h = ground (arith, some_sets-append marker path flights (f ∷ []))

-- A flight that has not set the marker can go.
less_named :
    (flights fs gs : List Flight) (path : Text) (f : Flight) (marker : Marker)
    → sets marker path (mark_of (action_of f)) ≡ false
    → flights ≡ fs ++ f ∷ gs
    → (is_empty path || some_sets marker path flights) ≡ true
    → (is_empty path || some_sets marker path (fs ++ gs)) ≡ true
less_named flights fs gs path f marker m e h =
    rw (some_sets-append marker path fs gs)
      (rw m at (rw (some_sets-append marker path fs (f ∷ gs)) at (rw e at h)))

start-named :
    (mark : Option (Marker × Text)) (flights : List Flight) (paths : Marker → Text) (f : Flight)
    (marker : Marker)
    → mark_of (action_of f) ≡ mark
    → (is_empty (paths marker) || some_sets marker (paths marker) flights) ≡ true
    → (is_empty (marked mark paths marker)
        || some_sets marker (marked mark paths marker) (flights ++ f ∷ []))
      ≡ true
start-named none flights paths f marker e h = more_named flights (paths marker) f marker h
start-named (some (own, path)) flights paths f marker e h =
    elim (Bool-cases (same_marker own marker)) [
      | inl same ↦ rw same (
          rw (some_sets-append marker path flights (f ∷ []))
            (rw e (rw same (rw (text_eq_refl path) (ground arith)))))
      | inr other ↦ rw other (more_named flights (paths marker) f marker h)
    ]

land-named :
    (mark : Option (Marker × Text)) (flights : List Flight) (paths : Marker → Text)
    (fs gs : List Flight) (f : Flight) (marker : Marker)
    → mark_of (action_of f) ≡ mark
    → flights ≡ fs ++ f ∷ gs
    → (is_empty (paths marker) || some_sets marker (paths marker) flights) ≡ true
    → (is_empty (marked (no_mark mark) paths marker)
        || some_sets marker (marked (no_mark mark) paths marker) (fs ++ gs))
      ≡ true
land-named none flights paths fs gs f marker m e h =
    less_named flights fs gs (paths marker) f marker (ap (sets marker (paths marker)) m) e h
land-named (some (own, path)) flights paths fs gs f marker m e h =
    elim (Bool-cases (same_marker own marker)) [
      | inl same ↦ rw same refl
      | inr other ↦ rw other (
          less_named flights fs gs (paths marker) f marker
            (ap (sets marker (paths marker)) m ∙ ap (λ b. b && text_eq path (paths marker)) other) e
            h)
    ]

same_named :
    (flights fs gs : List Flight) (path : Text) (action : Action) (marker : Marker)
    → flights ≡ fs ++ running action ∷ gs
    → (is_empty path || some_sets marker path flights) ≡ true
    → (is_empty path || some_sets marker path (fs ++ refreshing action ∷ gs)) ≡ true
same_named flights fs gs path action marker e h =
    rw (some_sets-append marker path fs (refreshing action ∷ gs))
      (rw (some_sets-append marker path fs (running action ∷ gs)) at (rw e at h))

Step-IsMarked : {s t : Actions} → Step s t → IsMarked s → IsMarked t
unfolding started succeeded failed settled
Step-IsMarked (start s bucket prefix action) h = record {
  named = λ marker.
      start-named (mark_of action) s.flights s.paths (running action) marker refl (h.named marker);
}
Step-IsMarked (progress s percent) h = record { named = h.named }
Step-IsMarked (succeed s fs gs action e) h = elim (Bool-cases (is_download action)) [
  | inl download ↦ simp download (record {
    named = λ marker.
        land-named (mark_of action) s.flights s.paths fs gs (running action) marker refl e
          (h.named marker);
  })
  | inr mutation ↦ simp mutation (record {
    named = λ marker. same_named s.flights fs gs (s.paths marker) action marker e (h.named marker);
  })
]
Step-IsMarked (fail s fs gs action message e) h = record {
  named = λ marker.
      land-named (mark_of action) s.flights s.paths fs gs (running action) marker refl e
        (h.named marker);
}
Step-IsMarked (settle s fs gs action e) h = record {
  named = λ marker.
      land-named (mark_of action) s.flights s.paths fs gs (refreshing action) marker refl e
        (h.named marker);
}

-- From a page in which each marked path is empty or that of a running action, all starts, answers
-- and refreshes of actions in any order lead to such pages: a path that is shown as being
-- deleted, published or downloaded belongs to an action that still runs.
pub Reach-IsMarked : {s t : Actions} → IsMarked s → Reach Step s t → IsMarked t
Reach-IsMarked h r = invariant Step IsMarked (λ s t k p. Step-IsMarked k p) _ _ h r
