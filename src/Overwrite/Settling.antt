-- ===== src/Overwrite/Settling.antt =====
-- The answers to the requests of the upload handlers: how many there can be without the user, and
-- what the page looks like after them.
use light_oss.Base.{
  ℕ, zero, suc, ◌+◌, ◌≤◌, ◌≡◌, refl, sym, ap, ◌∙◌, Bool, true, false, not, ◌||◌, none, List, [],
  ◌∷◌, ◌++◌, arith,
}
use light_oss.Base.Reach.{Reach, invariant}
use light_oss.Base.Text.{Text}
use light_oss.Overwrite.{
  UploadDialogValue, RequestError, Flight, checking, uploading, retrying, stored, overwritten,
  Uploads, key_in, check_failed, check_answered, upload_succeeded, upload_failed, retry_succeeded,
  retry_settled, retry_failed,
}
use light_oss.Overwrite.Steps.{
  System, Step, start, confirm, cancel, check_error, check_absent, check_present, upload_done,
  upload_settled, upload_conflict, upload_error, retry_done, retry_end, retry_error, land,
}
use light_oss.Overwrite.Waiting.{some_checking, some_retrying, IsWaiting, Step-IsWaiting}

-- How many answers a request can still bring, with those to the upload that follows a check and the
-- lists that are loaded again after an upload.
abbrev pub answers_of : Flight → ℕ
answers_of (checking value key) = 3
answers_of (uploading value key) = 2
answers_of (retrying value key) = 2
answers_of (stored value key) = 1
answers_of (overwritten value key) = 1

abbrev pub answers_left : List Flight → ℕ
answers_left [] = 0
answers_left (f ∷ fs) = answers_of f + answers_left fs

answers_left-append :
    (fs gs : List Flight) → answers_left (fs ++ gs) ≡ answers_left fs + answers_left gs
answers_left-append [] gs = omega arith
answers_left-append (f ∷ fs) gs = omega (arith, answers_left-append fs gs)

-- A step of the server.
abbrev pub IsAnswer : {prefix : Text} {w u : System} → Step prefix w u → Type 0
IsAnswer (start w value) = ⊥
IsAnswer (confirm w) = ⊥
IsAnswer (cancel w) = ⊥
IsAnswer _ = Unit

pub data Answers (prefix : Text) (w : System) : ℕ → System → Type 0 where
  none_yet : Answers prefix w 0 w
  one_more :
      {n : ℕ} {v u : System}
      → Answers prefix w n v
      → (s : Step prefix v u) → IsAnswer s
      → Answers prefix w (n + 1) u

left-one :
    (fs gs : List Flight) (f : Flight) (flights : List Flight)
    → flights ≡ fs ++ f ∷ gs
    → answers_left (fs ++ gs) + answers_of f ≡ answers_left flights
left-one fs gs f flights e =
    rw e (omega (arith, answers_left-append fs gs, answers_left-append fs (f ∷ gs)))

check_present-left :
    (prefix : Text) (flights : List Flight) (value : UploadDialogValue) (key : Text) (s : Uploads)
    → answers_left (check_answered prefix value key true (land flights s)).flights
      ≤ answers_left flights + 2
unfolding check_answered
check_present-left prefix flights value [] s =
    omega (arith, answers_left-append flights (uploading value (key_in prefix value) ∷ []))
check_present-left prefix flights value (c ∷ key) s = omega arith

-- Each answer leaves fewer of them.
step-left :
    (prefix : Text) {w u : System} (s : Step prefix w u)
    → IsAnswer s
    → answers_left u.uploads.flights + 1 ≤ answers_left w.uploads.flights
unfolding check_failed check_answered upload_succeeded upload_failed retry_succeeded retry_settled
    retry_failed
step-left prefix (start w value) a = absurd a
step-left prefix (confirm w) a = absurd a
step-left prefix (cancel w) a = absurd a
step-left prefix (check_error w fs gs value key error e) a =
    omega (arith, left-one fs gs (checking value key) w.uploads.flights e)
step-left prefix (check_absent w fs gs value key e) a = omega (
  arith,
  left-one fs gs (checking value key) w.uploads.flights e,
  answers_left-append (fs ++ gs) (uploading value (key_in prefix value) ∷ []),
)
step-left prefix (check_present w fs gs value key e) a = omega (
  arith,
  left-one fs gs (checking value key) w.uploads.flights e,
  check_present-left prefix (fs ++ gs) value key w.uploads,
)
step-left prefix (upload_done w fs gs value key e) a = omega (
  arith,
  left-one fs gs (uploading value key) w.uploads.flights e,
  answers_left-append (fs ++ gs) (stored value key ∷ []),
)
step-left prefix (upload_settled w fs gs value key e) a =
    omega (arith, left-one fs gs (stored value key) w.uploads.flights e)
step-left prefix (upload_conflict w fs gs value key error e c) a =
    rw c (omega (arith, left-one fs gs (uploading value key) w.uploads.flights e))
step-left prefix (upload_error w fs gs value key error e c) a =
    rw c (omega (arith, left-one fs gs (uploading value key) w.uploads.flights e))
step-left prefix (retry_done w fs gs value key e) a = omega (
  arith,
  left-one fs gs (retrying value key) w.uploads.flights e,
  answers_left-append (fs ++ gs) (overwritten value key ∷ []),
)
step-left prefix (retry_end w fs gs value key e) a =
    omega (arith, left-one fs gs (overwritten value key) w.uploads.flights e)
step-left prefix (retry_error w fs gs value key error e) a =
    omega (arith, left-one fs gs (retrying value key) w.uploads.flights e)

-- Without steps of the user, the server can give at most as many answers as what is under way
-- allows, three for a check, two for an upload and one for lists that are loaded again: the
-- answers given and those still possible are together at most those possible before.
pub Answers-bounds :
    (prefix : Text) (w u : System) (n : ℕ)
    → Answers prefix w n u
    → n + answers_left u.uploads.flights ≤ answers_left w.uploads.flights
Answers-bounds prefix w u n none_yet = omega arith
Answers-bounds prefix w u n (one_more r s a) =
    omega (arith, Answers-bounds prefix w _ _ r, step-left prefix s a)

abbrev lost : RequestError
lost = record { code = none; message = [] }

-- Any request can be answered.
IsAnswer-one :
    (prefix : Text) (w : System) (f : Flight) (fs : List Flight)
    → w.uploads.flights ≡ f ∷ fs
    → (u : System) × (s : Step prefix w u) × IsAnswer s
IsAnswer-one prefix w (checking value key) fs e = (_, check_error w [] fs value key lost e, tt)
IsAnswer-one prefix w (uploading value key) fs e = (_, upload_done w [] fs value key e, tt)
IsAnswer-one prefix w (retrying value key) fs e = (_, retry_done w [] fs value key e, tt)
IsAnswer-one prefix w (stored value key) fs e = (_, upload_settled w [] fs value key e, tt)
IsAnswer-one prefix w (overwritten value key) fs e = (_, retry_end w [] fs value key e, tt)

-- No request is under way, and the page waits for none.
pub record IsSettled (s : Uploads) : Type 0 where
  pub answered : s.flights ≡ []
  pub unchecked : s.is_checking_overwrite ≡ false
  pub unretried : s.is_retrying_overwrite ≡ false

settled : (s : Uploads) → IsWaiting s → s.flights ≡ [] → IsSettled s
settled s h e = record {
  answered = e;
  unchecked =
      idle s.is_checking_overwrite
        (ap (λ fs. not s.is_checking_overwrite || some_checking fs) (sym e) ∙ h.checks);
  unretried =
      idle s.is_retrying_overwrite
        (ap (λ fs. not s.is_retrying_overwrite || some_retrying fs) (sym e) ∙ h.retries);
}
  where
    idle : (b : Bool) → (not b || false) ≡ true → b ≡ false
    idle true h = cc
    idle false h = refl

answers_of-pos : (f : Flight) → 1 ≤ answers_of f
answers_of-pos (checking value key) = omega arith
answers_of-pos (uploading value key) = omega arith
answers_of-pos (retrying value key) = omega arith
answers_of-pos (stored value key) = omega arith
answers_of-pos (overwritten value key) = omega arith

settle :
    (prefix : Text) (n k : ℕ) (w v : System) (flights : List Flight)
    → v.uploads.flights ≡ flights
    → answers_left flights ≤ n
    → Answers prefix w k v
    → IsWaiting v.uploads
    → (m : ℕ) × (u : System) × Answers prefix w m u × IsSettled u.uploads
settle prefix n k w v [] e b r h = (k, v, r, settled v.uploads h e)
settle prefix zero k w v (f ∷ fs) e b r h = absurd (omega (arith, answers_of-pos f, b))
settle prefix (suc n) k w v (f ∷ fs) e b r h =
    let (u, s, a) = IsAnswer-one prefix v f fs e in
    settle prefix n (k + 1) w u u.uploads.flights refl
      (omega (arith, step-left prefix s a, ap answers_left e, b)) (one_more r s a)
      (Step-IsWaiting prefix s h)

-- From any state of the uploads that steps of the user and the server reach from one in which the
-- page waits only for requests under way, answers of the server alone lead to a state with no
-- request under way in which the page neither checks nor retries an overwrite.
pub Reach-settles :
    (prefix : Text) (w v : System)
    → IsWaiting w.uploads
    → Reach (Step prefix) w v
    → (n : ℕ) × (u : System) × Answers prefix v n u × IsSettled u.uploads
Reach-settles prefix w v h r =
    settle prefix (answers_left v.uploads.flights) 0 v v v.uploads.flights refl (omega arith)
      none_yet
      (invariant (Step prefix) (λ x. IsWaiting x.uploads) (λ x y s k. Step-IsWaiting prefix s k) w v
        h r)
