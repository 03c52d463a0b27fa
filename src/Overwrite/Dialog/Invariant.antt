-- ===== src/Overwrite/Dialog/Invariant.antt =====
-- What the upload dialog holds while the page works on it, one upload at a time.
use light_oss.Base.{
  ◌≡◌, refl, Bool, true, false, ◌||◌, Option, none, some, List, [], ◌∷◌, ◌++◌, arith,
}
use light_oss.Overwrite.{
  UploadDialogValue, PendingOverwriteUpload, Flight, checking, uploading, retrying, stored,
  overwritten, Uploads,
}
use light_oss.Overwrite.Dialog.{UploadDialog, submitted_value, some_uploading}

-- What the dialog would submit meanwhile: after a confirmed overwrite it has been reset.
abbrev pub held : Flight → Option UploadDialogValue
held (checking value key) = some value
held (uploading value key) = some value
held (retrying value key) = some value
held (stored value key) = some value
held (overwritten value key) = none

abbrev pub is_checking : Flight → Bool
is_checking (checking value key) = true
is_checking _ = false

abbrev pub is_retrying : Flight → Bool
is_retrying (retrying value key) = true
is_retrying (overwritten value key) = true
is_retrying _ = false

-- `d` is what the dialog would submit.
abbrev pub Waits : Option UploadDialogValue → Option PendingOverwriteUpload → Type 0
Waits d none = Unit
Waits d (some pending) = d ≡ some pending.value

abbrev pub Under :
    Option UploadDialogValue → List Flight → Option PendingOverwriteUpload → Bool → Bool → Type 0
Under d [] pending checks retries = (checks ≡ false) × (retries ≡ false) × Waits d pending
Under d (f ∷ []) pending checks retries =
    (pending ≡ none) × (checks ≡ is_checking f) × (retries ≡ is_retrying f) × (d ≡ held f)
Under d (f ∷ (g ∷ fs)) pending checks retries = ⊥

pub record IsShown (s : Uploads) (d : UploadDialog) : Type 0 where
  pub under :
      Under
        (submitted_value d)
        s.flights
        s.pending_overwrite_upload
        s.is_checking_overwrite
        s.is_retrying_overwrite

module _ (d : Option UploadDialogValue) where
  -- The flight that is answered is the only one.
  pub only :
      (fs gs : List Flight) (f : Flight) (pending : Option PendingOverwriteUpload)
      (checks retries : Bool)
      → Under d (fs ++ f ∷ gs) pending checks retries
      → (fs ++ gs ≡ []) × Under d (f ∷ []) pending checks retries
  only [] [] f pending checks retries h = (refl, h)
  only [] (g ∷ gs) f pending checks retries h = absurd h
  only (x ∷ []) gs f pending checks retries h = absurd h
  only (x ∷ (y ∷ fs)) gs f pending checks retries h = absurd h

  -- Without a pending upload nothing runs.
  pub none_runs :
      (fs : List Flight) (pending : Option PendingOverwriteUpload) (checks retries : Bool)
      → (some_uploading fs || (checks || retries)) ≡ false
      → Under d fs pending checks retries
      → fs ≡ []
  none_runs [] pending checks retries i h = refl
  none_runs (checking value key ∷ []) pending checks retries i (_, c, r, _) = ground (arith, i)
  none_runs (uploading value key ∷ []) pending checks retries i h = cc i
  none_runs (retrying value key ∷ []) pending checks retries i (_, c, r, _) = ground (arith, i)
  none_runs (stored value key ∷ []) pending checks retries i h = cc i
  none_runs (overwritten value key ∷ []) pending checks retries i (_, c, r, _) = ground (arith, i)
  none_runs (f ∷ (g ∷ fs)) pending checks retries i h = absurd h

  pub idle :
      (fs : List Flight) (pending : Option PendingOverwriteUpload) (checks retries : Bool)
      → fs ≡ []
      → checks ≡ false
      → retries ≡ false
      → Waits d pending
      → Under d fs pending checks retries
  idle fs pending checks retries e c r w = rw e (c, r, w)

  pub busy :
      (fs : List Flight) (f : Flight) (pending : Option PendingOverwriteUpload)
      (checks retries : Bool)
      → fs ≡ []
      → Under d (f ∷ []) pending checks retries
      → Under d (fs ++ f ∷ []) pending checks retries
  busy fs f pending checks retries e h = rw e h

  -- A confirmation is open only where nothing runs.
  pub none_waits :
      (fs : List Flight) (pending : PendingOverwriteUpload) (checks retries : Bool)
      → Under d fs (some pending) checks retries
      → fs ≡ []
  none_waits [] pending checks retries h = refl
  none_waits (f ∷ []) pending checks retries (e, _, _, _) = cc e
  none_waits (f ∷ (g ∷ fs)) pending checks retries h = absurd h

  pub at_rest :
      (fs : List Flight) (pending : PendingOverwriteUpload) (checks retries : Bool)
      → fs ≡ []
      → Under d fs (some pending) checks retries
      → (checks ≡ false) × (retries ≡ false) × (d ≡ some pending.value)
  at_rest fs pending checks retries e h = rw e at h

  pub closed :
      (fs : List Flight) (pending : Option PendingOverwriteUpload) (checks retries : Bool)
      → Under d fs pending checks retries
      → Under d fs none checks retries
  closed [] pending checks retries (c, r, w) = (c, r, tt)
  closed (f ∷ []) pending checks retries (o, c, r, w) = (refl, c, r, w)
  closed (f ∷ (g ∷ fs)) pending checks retries h = h

  pub none-Waits : (pending : Option PendingOverwriteUpload) → pending ≡ none → Waits d pending
  none-Waits pending e = rw e tt
