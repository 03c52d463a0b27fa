-- ===== src/Overwrite/Waiting.antt =====
-- The page waits only for requests that are under way.
use light_oss.Base.{
  ◌≡◌, refl, sym, ap, ◌∙◌, Bool, true, false, not, ◌&&◌, ◌||◌, Option, none, some, List, [], ◌∷◌,
  ◌++◌, is_empty, Bool-cases, inl, inr,
}
use light_oss.Base.Text.{Text}
use light_oss.Overwrite.{
  UploadDialogValue, PendingOverwriteUpload, Flight, checking, uploading, retrying, stored,
  overwritten, Uploads, key_in, handle_upload, check_failed, check_answered, upload_succeeded,
  upload_failed, handle_confirm_overwrite_upload, retry, retry_succeeded, retry_settled,
  retry_failed, handle_cancel_overwrite_upload,
}
use light_oss.Overwrite.Steps.{
  System, Step, start, confirm, cancel, check_error, check_absent, check_present, upload_done,
  upload_settled, upload_conflict, upload_error, retry_done, retry_end, retry_error, land,
}

abbrev pub some_checking : List Flight → Bool
some_checking [] = false
some_checking (checking value key ∷ fs) = true
some_checking (uploading value key ∷ fs) = some_checking fs
some_checking (retrying value key ∷ fs) = some_checking fs
some_checking (stored value key ∷ fs) = some_checking fs
some_checking (overwritten value key ∷ fs) = some_checking fs

abbrev pub some_retrying : List Flight → Bool
some_retrying [] = false
some_retrying (checking value key ∷ fs) = some_retrying fs
some_retrying (uploading value key ∷ fs) = some_retrying fs
some_retrying (stored value key ∷ fs) = some_retrying fs
some_retrying (retrying value key ∷ fs) = true
some_retrying (overwritten value key ∷ fs) = true

some_checking-append :
    (fs gs : List Flight) → some_checking (fs ++ gs) ≡ (some_checking fs || some_checking gs)
some_checking-append [] gs = refl
some_checking-append (checking value key ∷ fs) gs = refl
some_checking-append (uploading value key ∷ fs) gs = some_checking-append fs gs
some_checking-append (retrying value key ∷ fs) gs = some_checking-append fs gs
some_checking-append (stored value key ∷ fs) gs = some_checking-append fs gs
some_checking-append (overwritten value key ∷ fs) gs = some_checking-append fs gs

some_retrying-append :
    (fs gs : List Flight) → some_retrying (fs ++ gs) ≡ (some_retrying fs || some_retrying gs)
some_retrying-append [] gs = refl
some_retrying-append (checking value key ∷ fs) gs = some_retrying-append fs gs
some_retrying-append (uploading value key ∷ fs) gs = some_retrying-append fs gs
some_retrying-append (stored value key ∷ fs) gs = some_retrying-append fs gs
some_retrying-append (retrying value key ∷ fs) gs = refl
some_retrying-append (overwritten value key ∷ fs) gs = refl

-- The page waits only for requests that are under way.
pub record IsWaiting (s : Uploads) : Type 0 where
  pub checks : (not s.is_checking_overwrite || some_checking s.flights) ≡ true
  pub retries : (not s.is_retrying_overwrite || some_retrying s.flights) ≡ true

same_checking :
    (fs gs : List Flight) (f : Flight) (flights : List Flight)
    → flights ≡ fs ++ f ∷ gs
    → some_checking (f ∷ []) ≡ false
    → some_checking (fs ++ gs) ≡ some_checking flights
same_checking fs gs (checking value key) flights e h = cc
same_checking fs gs (uploading value key) flights e h =
    rw e (some_checking-append fs gs ∙ sym (some_checking-append fs (uploading value key ∷ gs)))
same_checking fs gs (retrying value key) flights e h =
    rw e (some_checking-append fs gs ∙ sym (some_checking-append fs (retrying value key ∷ gs)))
same_checking fs gs (stored value key) flights e h =
    rw e (some_checking-append fs gs ∙ sym (some_checking-append fs (stored value key ∷ gs)))
same_checking fs gs (overwritten value key) flights e h =
    rw e (some_checking-append fs gs ∙ sym (some_checking-append fs (overwritten value key ∷ gs)))

same_retrying :
    (fs gs : List Flight) (f : Flight) (flights : List Flight)
    → flights ≡ fs ++ f ∷ gs
    → some_retrying (f ∷ []) ≡ false
    → some_retrying (fs ++ gs) ≡ some_retrying flights
same_retrying fs gs (checking value key) flights e h =
    rw e (some_retrying-append fs gs ∙ sym (some_retrying-append fs (checking value key ∷ gs)))
same_retrying fs gs (uploading value key) flights e h =
    rw e (some_retrying-append fs gs ∙ sym (some_retrying-append fs (uploading value key ∷ gs)))
same_retrying fs gs (stored value key) flights e h =
    rw e (some_retrying-append fs gs ∙ sym (some_retrying-append fs (stored value key ∷ gs)))
same_retrying fs gs (retrying value key) flights e h = cc
same_retrying fs gs (overwritten value key) flights e h = cc

-- A request that joins the others ends no waiting.
joined : (b : Bool) (p q r : Bool) → r ≡ (p || q) → (not b || p) ≡ true → (not b || r) ≡ true
joined true true q r e h = e
joined true false q r e h = cc
joined false p q r e h = refl

or_true : (b : Bool) → (b || true) ≡ true
or_true true = refl
or_true false = refl

landed-IsWaiting :
    (fs gs : List Flight) (f : Flight) (s : Uploads)
    → some_checking (f ∷ []) ≡ false
    → some_retrying (f ∷ []) ≡ false
    → s.flights ≡ fs ++ f ∷ gs
    → IsWaiting s
    → IsWaiting (land (fs ++ gs) s)
landed-IsWaiting fs gs f s c r e h = record {
  checks = rw (same_checking fs gs f s.flights e c) h.checks;
  retries = rw (same_retrying fs gs f s.flights e r) h.retries;
}

-- One more flight.
more-IsWaiting : (s : Uploads) (f : Flight) → IsWaiting s → IsWaiting (land (s.flights ++ f ∷ []) s)
more-IsWaiting s f h = record {
  checks = joined s.is_checking_overwrite _ _ _ (some_checking-append s.flights (f ∷ [])) h.checks;
  retries =
      joined s.is_retrying_overwrite _ _ _ (some_retrying-append s.flights (f ∷ [])) h.retries;
}

-- A confirmed upload whose answer arrived goes on as a refresh.
overwritten-IsWaiting :
    (fs gs : List Flight) (value : UploadDialogValue) (key : Text) (s : Uploads)
    → s.flights ≡ fs ++ retrying value key ∷ gs
    → IsWaiting s
    → IsWaiting (land ((fs ++ gs) ++ overwritten value key ∷ []) s)
overwritten-IsWaiting fs gs value key s e h = record {
  checks =
      joined s.is_checking_overwrite (some_checking (fs ++ gs)) _ _
        (some_checking-append (fs ++ gs) (overwritten value key ∷ []))
        (rw (same_checking fs gs (retrying value key) s.flights e refl) h.checks);
  retries =
      ap (λ b. not s.is_retrying_overwrite || b)
        (some_retrying-append (fs ++ gs) (overwritten value key ∷ [])
          ∙ or_true (some_retrying (fs ++ gs)))
      ∙ or_true (not s.is_retrying_overwrite);
}

check_answered-IsWaiting :
    (prefix : Text) (flights : List Flight) (value : UploadDialogValue) (key : Text) (exists : Bool)
    (s : Uploads)
    → (not s.is_retrying_overwrite || some_retrying flights) ≡ true
    → IsWaiting (check_answered prefix value key exists (land flights s))
unfolding check_answered
check_answered-IsWaiting prefix flights value key exists s h =
    elim (Bool-cases (exists && not (is_empty key))) [
      | inl there ↦ simp there (record { checks = refl; retries = h })
      | inr absent ↦ simp absent (record {
        checks = refl;
        retries =
            joined s.is_retrying_overwrite _ _ _
              (some_retrying-append flights (uploading value (key_in prefix value) ∷ [])) h;
      })
    ]

confirm-IsWaiting :
    (prefix : Text) (s : Uploads)
    → IsWaiting s
    → IsWaiting (handle_confirm_overwrite_upload prefix s)
unfolding handle_confirm_overwrite_upload
confirm-IsWaiting prefix s h = elim (Bool-cases s.is_retrying_overwrite) [
  | inl busy ↦ simp busy h
  | inr free ↦ simp free (retry-IsWaiting s.pending_overwrite_upload)
]
  where
    retry-IsWaiting : (pending : Option PendingOverwriteUpload) → IsWaiting (retry prefix pending s)
    retry-IsWaiting none = h
    retry-IsWaiting (some upload) = record {
      checks =
          joined s.is_checking_overwrite _ _ _
            (some_checking-append s.flights
              (retrying upload.value (key_in prefix upload.value) ∷ []))
            h.checks;
      retries =
          rw
            (some_retrying-append s.flights
              (retrying upload.value (key_in prefix upload.value) ∷ []))
            (or_true (some_retrying s.flights));
    }

pub Step-IsWaiting :
    (prefix : Text) {w u : System} → Step prefix w u → IsWaiting w.uploads → IsWaiting u.uploads
unfolding handle_upload check_failed upload_succeeded upload_failed retry_succeeded retry_settled
    retry_failed handle_cancel_overwrite_upload
Step-IsWaiting prefix (start w value) h = record {
  checks =
      rw (some_checking-append w.uploads.flights (checking value (key_in prefix value) ∷ []))
        (or_true (some_checking w.uploads.flights));
  retries =
      joined w.uploads.is_retrying_overwrite _ _ _
        (some_retrying-append w.uploads.flights (checking value (key_in prefix value) ∷ []))
        h.retries;
}
Step-IsWaiting prefix (confirm w) h = confirm-IsWaiting prefix w.uploads h
Step-IsWaiting prefix (cancel w) h = elim (Bool-cases w.uploads.is_retrying_overwrite) [
  | inl busy ↦ simp busy h
  | inr free ↦ simp free (record { checks = h.checks; retries = refl })
]
Step-IsWaiting prefix (check_error w fs gs value key error e) h = record {
  checks = refl;
  retries = rw (same_retrying fs gs (checking value key) w.uploads.flights e refl) h.retries;
}
Step-IsWaiting prefix (check_absent w fs gs value key e) h =
    check_answered-IsWaiting prefix (fs ++ gs) value key false w.uploads
      (rw (same_retrying fs gs (checking value key) w.uploads.flights e refl) h.retries)
Step-IsWaiting prefix (check_present w fs gs value key e) h =
    check_answered-IsWaiting prefix (fs ++ gs) value key true w.uploads
      (rw (same_retrying fs gs (checking value key) w.uploads.flights e refl) h.retries)
Step-IsWaiting prefix (upload_done w fs gs value key e) h =
    let k =
      more-IsWaiting (land (fs ++ gs) w.uploads) (stored value key)
        (landed-IsWaiting fs gs (uploading value key) w.uploads refl refl e h) in
    record { checks = k.checks; retries = k.retries }
Step-IsWaiting prefix (upload_settled w fs gs value key e) h =
    landed-IsWaiting fs gs (stored value key) w.uploads refl refl e h
Step-IsWaiting prefix (upload_conflict w fs gs value key error e c) h =
    let k = landed-IsWaiting fs gs (uploading value key) w.uploads refl refl e h in
    simp c (record { checks = k.checks; retries = k.retries })
Step-IsWaiting prefix (upload_error w fs gs value key error e c) h =
    let k = landed-IsWaiting fs gs (uploading value key) w.uploads refl refl e h in
    simp c (record { checks = k.checks; retries = k.retries })
Step-IsWaiting prefix (retry_done w fs gs value key e) h =
    let k = overwritten-IsWaiting fs gs value key w.uploads e h in
    record { checks = k.checks; retries = k.retries }
Step-IsWaiting prefix (retry_end w fs gs value key e) h = record {
  checks = rw (same_checking fs gs (overwritten value key) w.uploads.flights e refl) h.checks;
  retries = refl;
}
Step-IsWaiting prefix (retry_error w fs gs value key error e) h = record {
  checks = rw (same_checking fs gs (retrying value key) w.uploads.flights e refl) h.checks;
  retries = refl;
}
