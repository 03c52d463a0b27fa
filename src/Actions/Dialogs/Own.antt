-- ===== src/Actions/Dialogs/Own.antt =====
-- The actions of one kind that run, and the dialog that they come from.
use light_oss.Base.{
  ◌≡◌, refl, sym, ap, ◌∙◌, Bool, true, false, Option, some, List, [], ◌∷◌, ◌++◌, if◌then◌else◌,
  is_empty, append-nil, Bool-cases, inl, inr,
}
use light_oss.Actions.{
  Action, folder_upload, folder_creation, Flight, running, Actions, succeeded, followed,
  is_download, settled,
}
use light_oss.Actions.Marked.{action_of}
use light_oss.Actions.Steps.{land}
use light_oss.Actions.Dialogs.{
  Dialogs, is_folder_upload, is_folder_creation, own, some_pending, chosen, named, resolved,
}

-- At most one action runs, the one that the dialog submits.
abbrev pub Holds : Option Action → List Action → Type 0
Holds value [] = Unit
Holds value (action ∷ []) = value ≡ some action
Holds value (action ∷ (other ∷ more)) = ⊥

pub record IsHeld (s : Actions) (d : Dialogs) : Type 0 where
  pub upload : Holds (chosen d.folder) (own is_folder_upload s.flights)
  pub creation : Holds (named d.creation) (own is_folder_creation s.flights)

nothing : (l : List Action) → (if is_empty l then false else true) ≡ false → l ≡ []
nothing [] k = refl
nothing (x ∷ l) k = cc k

pub Holds-nil : (value : Option Action) (l : List Action) → l ≡ [] → Holds value l
Holds-nil value l e = rw e tt

Holds-left :
    (value : Option Action) (xs : List Action) (action : Action) (ys : List Action)
    → Holds value (xs ++ action ∷ ys)
    → xs ++ ys ≡ []
Holds-left value [] action [] h = refl
Holds-left value [] action (y ∷ ys) h = absurd h
Holds-left value (x ∷ []) action ys h = absurd h
Holds-left value (x ∷ (y ∷ xs)) action ys h = absurd h

flights-succeeded : (s : Actions) (action : Action) → (succeeded action s).flights ≡ s.flights
unfolding succeeded settled
flights-succeeded s action = elim (Bool-cases (is_download action)) [
  | inl d ↦ simp d refl
  | inr d ↦ simp d refl
]

module _ (is_kind : Action → Bool) where
  own-append : (fs gs : List Flight) → own is_kind (fs ++ gs) ≡ own is_kind fs ++ own is_kind gs
  own-append [] gs = refl
  own-append (f ∷ fs) gs = elim (Bool-cases (is_kind (action_of f))) [
    | inl e ↦ rw e (ap (λ l. action_of f ∷ l) (own-append fs gs))
    | inr e ↦ rw e (own-append fs gs)
  ]

  pub none_pending : (s : Actions) → some_pending is_kind s ≡ false → own is_kind s.flights ≡ []
  unfolding some_pending
  none_pending s e = nothing (own is_kind s.flights) e

  -- An action of the kind starts where none runs.
  pub started-Holds :
      (value : Option Action) (flights : List Flight) (action : Action)
      → is_kind action ≡ true
      → own is_kind flights ≡ []
      → value ≡ some action
      → Holds value (own is_kind (flights ++ running action ∷ []))
  started-Holds value flights action k n e =
      rw (own-append flights (running action ∷ [])) (rw n (rw k e))

  -- An action of another kind starts.
  pub own-started :
      (flights : List Flight) (action : Action)
      → is_kind action ≡ false
      → own is_kind (flights ++ running action ∷ []) ≡ own is_kind flights
  own-started flights action k =
      own-append flights (running action ∷ []) ∙ rw k (append-nil (own is_kind flights))

  -- A flight ends: one of the kind leaves nothing of it.
  pub ended-Holds :
      (value later : Option Action) (flights fs gs : List Flight) (f : Flight)
      → flights ≡ fs ++ f ∷ gs
      → (is_kind (action_of f) ≡ false → later ≡ value)
      → Holds value (own is_kind flights)
      → Holds later (own is_kind (fs ++ gs))
  ended-Holds value later flights fs gs f e keeps h =
      let before : Holds value (own is_kind fs ++ own is_kind (f ∷ gs)) =
        rw (own-append fs (f ∷ gs)) at (rw e at h) in
      rw (own-append fs gs) (elim (Bool-cases (is_kind (action_of f))) [
        | inl k ↦
            Holds-nil later (own is_kind fs ++ own is_kind gs)
              (Holds-left value (own is_kind fs) (action_of f) (own is_kind gs) (rw k at before))
        | inr k ↦ rw (keeps k) (rw k at before)
      ])

  -- An action that succeeds still runs.
  own-followed :
      (action : Action) (gs : List Flight)
      → (is_download action ≡ true → is_kind action ≡ false)
      → own is_kind (followed action ++ gs) ≡ own is_kind (running action ∷ gs)
  own-followed action gs other = elim (Bool-cases (is_download action)) [
    | inl d ↦ rw d (rw (other d) refl)
    | inr d ↦ rw d refl
  ]

  pub own-succeeded :
      (s : Actions) (fs gs : List Flight) (action : Action)
      → (is_download action ≡ true → is_kind action ≡ false)
      → s.flights ≡ fs ++ running action ∷ gs
      → own is_kind (succeeded action (land (fs ++ (followed action ++ gs)) s)).flights
        ≡ own is_kind s.flights
  own-succeeded s fs gs action other e =
      ap (own is_kind) (flights-succeeded (land (fs ++ (followed action ++ gs)) s) action)
      ∙ own-append fs (followed action ++ gs)
      ∙ ap (λ l. own is_kind fs ++ l) (own-followed action gs other)
      ∙ sym (own-append fs (running action ∷ gs))
      ∙ ap (own is_kind) (sym e)

pub upload-download :
    (action : Action) → is_download action ≡ true → is_folder_upload action ≡ false
upload-download (folder_upload files visibility) d = cc d
upload-download _ d = refl

pub creation-download :
    (action : Action) → is_download action ≡ true → is_folder_creation action ≡ false
creation-download (folder_creation name) d = cc d
creation-download _ d = refl

-- What an action resolves is the dialog of its kind.
pub folder-resolved :
    (action : Action) (d : Dialogs)
    → is_folder_upload action ≡ false
    → (resolved action d).folder ≡ d.folder
unfolding resolved
folder-resolved (folder_upload files visibility) d k = cc k
folder-resolved _ d k = refl

pub creation-resolved :
    (action : Action) (d : Dialogs)
    → is_folder_creation action ≡ false
    → (resolved action d).creation ≡ d.creation
unfolding resolved
creation-resolved (folder_creation name) d k = cc k
creation-resolved _ d k = refl
