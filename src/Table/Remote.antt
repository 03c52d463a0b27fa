-- ===== src/Table/Remote.antt =====
-- The text of a Markdown or text preview, which is fetched: the effect of `RemoteTextPreview` and
-- the answers to its requests, in any order. An aborted request answers with an `AbortError`.
use light_oss.Base.{
  ◌≡◌, refl, Bool, true, false, List, [], ◌∷◌, ◌++◌, if◌then◌else◌, All, All-append, Bool-cases,
  inl, inr, ◌⊎◌,
}
use light_oss.Base.Reach.{Reach, invariant, All-take_out}
use light_oss.Base.Text.{Text}

pub data Status : Type 0 where
  loading ready error : Status

-- The dependencies of the effect; `too_large` is that of the mode.
pub record Inputs : Type 0 where
  pub is_markdown : Bool
  pub public_url : Text
  pub too_large : Bool

pub record Fetch : Type 0 where
  pub url : Text
  pub aborted : Bool

pub record RemoteText : Type 0 where
  pub inputs : Inputs
  pub preview_text : Text
  pub status : Status
  pub fetches : List Fetch

abbrev pub abort_all : List Fetch → List Fetch
abort_all [] = []
abort_all (f ∷ fs) = record { url = f.url; aborted = true } ∷ abort_all fs

-- The cleanup of the last effect, and the effect for new inputs.
unfoldable pub run_effect : Inputs → RemoteText → RemoteText
run_effect inputs s =
    if inputs.too_large
    then record {
      inputs = inputs;
      preview_text = [];
      status = ready;
      fetches = abort_all s.fetches;
    }
    else record {
      inputs = inputs;
      preview_text = [];
      status = loading;
      fetches = abort_all s.fetches ++ record { url = inputs.public_url; aborted = false } ∷ [];
    }

unfoldable pub fetch_succeeded : Text → RemoteText → RemoteText
fetch_succeeded text s = record s { preview_text = text; status = ready }

-- An answer that is not ok, and any error but an `AbortError`.
unfoldable pub fetch_failed : RemoteText → RemoteText
fetch_failed s = record s { status = error }

-- `Served url text`: the server has answered a request for the address with the text.
module _ (Served : Text → Text → Type 0) where
  pub data Step : RemoteText → RemoteText → Type 0 where
    change : (s : RemoteText) (inputs : Inputs) → Step s (run_effect inputs s)
    serve :
        (s : RemoteText) (fs gs : List Fetch) (url text : Text)
        → s.fetches ≡ fs ++ record { url = url; aborted = false } ∷ gs
        → Served url text
        → Step s (fetch_succeeded text (record s { fetches = fs ++ gs }))
    fail :
        (s : RemoteText) (fs gs : List Fetch) (url : Text)
        → s.fetches ≡ fs ++ record { url = url; aborted = false } ∷ gs
        → Step s (fetch_failed (record s { fetches = fs ++ gs }))
    abort :
        (s : RemoteText) (fs gs : List Fetch) (url : Text)
        → s.fetches ≡ fs ++ record { url = url; aborted = true } ∷ gs
        → Step s (record s { fetches = fs ++ gs })

  -- A request that is not aborted is for the present inputs.
  abbrev pub IsLive : Inputs → Fetch → Type 0
  IsLive inputs f = (f.aborted ≡ true) ⊎ ((f.url ≡ inputs.public_url) × (inputs.too_large ≡ false))

  -- What a status promises of the text.
  abbrev pub Shows : Inputs → Text → Status → Type 0
  Shows inputs text loading = text ≡ []
  Shows inputs text error = Unit
  Shows inputs text ready =
      ((inputs.too_large ≡ true) × (text ≡ [])) ⊎ Served inputs.public_url text

  pub record IsCurrent (s : RemoteText) : Type 0 where
    pub live : All (IsLive s.inputs) s.fetches
    pub shown : Shows s.inputs s.preview_text s.status

  aborted-IsLive : (inputs : Inputs) (fs : List Fetch) → All (IsLive inputs) (abort_all fs)
  aborted-IsLive inputs [] = tt
  aborted-IsLive inputs (f ∷ fs) = (inl refl, aborted-IsLive inputs fs)

  change-IsCurrent : (inputs : Inputs) (s : RemoteText) → IsCurrent (run_effect inputs s)
  unfolding run_effect
  change-IsCurrent inputs s = elim (Bool-cases inputs.too_large) [
    | inl large ↦
        simp large (record { live = aborted-IsLive inputs s.fetches; shown = inl (large, refl) })
    | inr small ↦ simp small (record {
      live =
          All-append (IsLive inputs) (abort_all s.fetches) _ (aborted-IsLive inputs s.fetches)
            (inr (refl, small), tt);
      shown = refl;
    })
  ]

  pub Step-IsCurrent : {s t : RemoteText} → Step s t → IsCurrent s → IsCurrent t
  unfolding fetch_succeeded fetch_failed
  Step-IsCurrent (change s inputs) h = change-IsCurrent inputs s
  Step-IsCurrent (serve s fs gs url text e served) h =
      let (own, rest) = All-take_out (IsLive s.inputs) fs _ gs (rw e at h.live) in
      record { live = rest; shown = inr (served_url s.inputs url text own served) }
    where
      served_url :
          (inputs : Inputs) (url text : Text)
          → IsLive inputs (record { url = url; aborted = false })
          → Served url text
          → Served inputs.public_url text
      served_url inputs url text (inl dead) k = cc
      served_url inputs url text (inr (same, small)) k = rw same at k
  Step-IsCurrent (fail s fs gs url e) h = record {
    live = (All-take_out (IsLive s.inputs) fs _ gs (rw e at h.live)).1;
    shown = tt;
  }
  Step-IsCurrent (abort s fs gs url e) h = record {
    live = (All-take_out (IsLive s.inputs) fs _ gs (rw e at h.live)).1;
    shown = h.shown;
  }

  -- For any relation of answers to addresses: after any order of changed inputs, answers,
  -- failures and aborted requests from a preview without outdated requests, a text that the
  -- preview shows as ready was served for its present address, or is the empty text of an
  -- oversized file.
  pub Reach-IsCurrent : {s t : RemoteText} → IsCurrent s → Reach Step s t → IsCurrent t
  Reach-IsCurrent h r = invariant Step IsCurrent (λ s t k p. Step-IsCurrent k p) _ _ h r
