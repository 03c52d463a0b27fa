-- ===== src/Overwrite/Confirmed.antt =====
-- What the console overwrites. While the page stays in one directory, it asks the server to
-- overwrite only keys that the server has reported as existing.
use light_oss.Base.{
  ◌≡◌, refl, sym, ap, true, false, Option, none, some, List, [], ◌∷◌, ◌++◌, arith, All, All-append,
  Bool-cases, inl, inr, is_empty,
}
use light_oss.Base.Reach.{Reach, invariant, All-take_out}
use light_oss.Base.Text.{Text, text_key, text_eq_refl}
use light_oss.Base.JsSet.{has}
use light_oss.Overwrite.{
  UploadDialogValue, PendingOverwriteUpload, RequestError, Request, head_object, put_object, Flight,
  checking, uploading, retrying, stored, overwritten, key_in, is_object_exists_error, handle_upload,
  check_failed, check_answered, upload_succeeded, upload_failed, retry,
  handle_confirm_overwrite_upload, retry_succeeded, retry_settled, retry_failed,
  handle_cancel_overwrite_upload,
}
use light_oss.Overwrite.Steps.{
  System, land, page, report, Step, start, confirm, cancel, check_error, check_absent,
  check_present, upload_done, upload_settled, upload_conflict, upload_error, retry_done, retry_end,
  retry_error,
}

-- A request to overwrite is about a key that was reported.
abbrev pub IsReported : List Text → Request → Type 0
IsReported reported (put_object key value true) = has key reported ≡ true
IsReported reported (put_object key value false) = Unit
IsReported reported (head_object key) = Unit

module _ (prefix : Text) where
  abbrev pub IsOwn : Flight → Type 0
  IsOwn (checking value key) = key ≡ key_in prefix value
  IsOwn (uploading value key) = key ≡ key_in prefix value
  IsOwn (retrying value key) = key ≡ key_in prefix value
  IsOwn (stored value key) = key ≡ key_in prefix value
  IsOwn (overwritten value key) = key ≡ key_in prefix value

  abbrev pub IsAsked : List Text → Option PendingOverwriteUpload → Type 0
  IsAsked reported none = Unit
  IsAsked reported (some p) =
      (p.target ≡ some (key_in prefix p.value)) × (has (key_in prefix p.value) reported ≡ true)

  pub record IsSafe (w : System) : Type 0 where
    pub flights : All IsOwn w.uploads.flights
    pub pending : IsAsked w.reported w.uploads.pending_overwrite_upload
    pub sent : All (IsReported w.reported) w.uploads.requests

  grown_request :
      (key : Text) (reported : List Text) (r : Request)
      → IsReported reported r
      → IsReported (key ∷ reported) r
  grown_request key reported (put_object k value true) h = ground arith
  grown_request key reported (put_object k value false) h = tt
  grown_request key reported (head_object k) h = tt

  grown_requests :
      (key : Text) (reported : List Text) (rs : List Request)
      → All (IsReported reported) rs
      → All (IsReported (key ∷ reported)) rs
  grown_requests key reported [] h = tt
  grown_requests key reported (r ∷ rs) (h, hs) =
      (grown_request key reported r h, grown_requests key reported rs hs)

  grown_pending :
      (key : Text) (reported : List Text) (p : Option PendingOverwriteUpload)
      → IsAsked reported p
      → IsAsked (key ∷ reported) p
  grown_pending key reported none h = tt
  grown_pending key reported (some p) (h, k) = (h, ground arith)

  -- One more report does no harm.
  report-IsSafe : (key : Text) (w : System) → IsSafe w → IsSafe (report key w)
  report-IsSafe key w h = record {
    flights = h.flights;
    pending = grown_pending key w.reported w.uploads.pending_overwrite_upload h.pending;
    sent = grown_requests key w.reported w.uploads.requests h.sent;
  }

  landed :
      (w : System) (fs : List Flight) (f : Flight) (gs : List Flight)
      → w.uploads.flights ≡ fs ++ f ∷ gs
      → IsSafe w
      → IsOwn f × IsSafe (page (land (fs ++ gs)) w)
  landed w fs f gs e h =
      let (own, rest) = All-take_out IsOwn fs f gs (rw e at h.flights) in
      (own, record { flights = rest; pending = h.pending; sent = h.sent })

  start-IsSafe :
      (w : System) (value : UploadDialogValue)
      → IsSafe w
      → IsSafe (page (handle_upload prefix value) w)
  unfolding handle_upload
  start-IsSafe w value h = record {
    flights = All-append IsOwn w.uploads.flights _ h.flights (refl, tt);
    pending = h.pending;
    sent = All-append (IsReported w.reported) w.uploads.requests _ h.sent (tt, tt);
  }

  absent-IsSafe :
      (w : System) (value : UploadDialogValue) (key : Text)
      → IsSafe w
      → IsSafe (page (check_answered prefix value key false) w)
  unfolding check_answered
  absent-IsSafe w value key h = record {
    flights = All-append IsOwn w.uploads.flights _ h.flights (refl, tt);
    pending = h.pending;
    sent = All-append (IsReported w.reported) w.uploads.requests _ h.sent (tt, tt);
  }

  present-IsSafe :
      (w : System) (value : UploadDialogValue) (key : Text)
      → key ≡ key_in prefix value
      → has key w.reported ≡ true
      → IsSafe w
      → IsSafe (page (check_answered prefix value key true) w)
  unfolding check_answered
  present-IsSafe w value key own there h = elim (Bool-cases (is_empty key)) [
    | inl empty ↦ rw empty (record {
      flights = All-append IsOwn w.uploads.flights _ h.flights (refl, tt);
      pending = h.pending;
      sent = All-append (IsReported w.reported) w.uploads.requests _ h.sent (tt, tt);
    })
    | inr target ↦ rw target (record {
      flights = h.flights;
      pending = (ap (λ k. some k) own, rw own at there);
      sent = h.sent;
    })
  ]

  conflict-IsSafe :
      (w : System) (value : UploadDialogValue) (error : RequestError)
      → is_object_exists_error error ≡ true
      → has (key_in prefix value) w.reported ≡ true
      → IsSafe w
      → IsSafe (page (upload_failed prefix value error) w)
  unfolding upload_failed
  conflict-IsSafe w value error e there h =
      rw e (record { flights = h.flights; pending = (refl, there); sent = h.sent })

  error-IsSafe :
      (w : System) (value : UploadDialogValue) (error : RequestError)
      → is_object_exists_error error ≡ false
      → IsSafe w
      → IsSafe (page (upload_failed prefix value error) w)
  unfolding upload_failed
  error-IsSafe w value error e h =
      rw e (record { flights = h.flights; pending = h.pending; sent = h.sent })

  retry-IsSafe :
      (w : System) (p : Option PendingOverwriteUpload)
      → IsAsked w.reported p
      → IsSafe w
      → IsSafe (page (retry prefix p) w)
  retry-IsSafe w none asked h = record { flights = h.flights; pending = h.pending; sent = h.sent }
  retry-IsSafe w (some p) (target, there) h = record {
    flights = All-append IsOwn w.uploads.flights _ h.flights (refl, tt);
    pending = tt;
    sent = All-append (IsReported w.reported) w.uploads.requests _ h.sent (there, tt);
  }

  confirm-IsSafe :
      (w : System) → IsSafe w → IsSafe (page (handle_confirm_overwrite_upload prefix) w)
  unfolding handle_confirm_overwrite_upload
  confirm-IsSafe w h = elim (Bool-cases w.uploads.is_retrying_overwrite) [
    | inl busy ↦ rw busy (record { flights = h.flights; pending = h.pending; sent = h.sent })
    | inr idle ↦ simp idle (retry-IsSafe w w.uploads.pending_overwrite_upload h.pending h)
  ]

  cancel-IsSafe : (w : System) → IsSafe w → IsSafe (page handle_cancel_overwrite_upload w)
  unfolding handle_cancel_overwrite_upload
  cancel-IsSafe w h = elim (Bool-cases w.uploads.is_retrying_overwrite) [
    | inl busy ↦ rw busy (record { flights = h.flights; pending = h.pending; sent = h.sent })
    | inr idle ↦ rw idle (record { flights = h.flights; pending = tt; sent = h.sent })
  ]

  -- Whoever moves, every overwriting request so far names a key that was reported.
  pub Step-IsSafe : {v w : System} → Step prefix v w → IsSafe v → IsSafe w
  unfolding check_failed upload_succeeded retry_succeeded retry_settled retry_failed
  Step-IsSafe (start w value) h = start-IsSafe w value h
  Step-IsSafe (confirm w) h = confirm-IsSafe w h
  Step-IsSafe (cancel w) h = cancel-IsSafe w h
  Step-IsSafe (check_error w fs gs value key error e) h =
      let s = (landed w fs (checking value key) gs e h).1 in
      record { flights = s.flights; pending = s.pending; sent = s.sent }
  Step-IsSafe (check_absent w fs gs value key e) h =
      absent-IsSafe (page (land (fs ++ gs)) w) value key (landed w fs (checking value key) gs e h).1
  Step-IsSafe (check_present w fs gs value key e) h =
      let (own, s) = landed w fs (checking value key) gs e h in
      present-IsSafe (report key (page (land (fs ++ gs)) w)) value key own
        (ground (arith, text_eq_refl key)) (report-IsSafe key (page (land (fs ++ gs)) w) s)
  Step-IsSafe (upload_done w fs gs value key e) h =
      let (own, s) = landed w fs (uploading value key) gs e h in
      record {
        flights = All-append IsOwn (fs ++ gs) _ s.flights (own, tt);
        pending = s.pending;
        sent = s.sent;
      }
  Step-IsSafe (upload_settled w fs gs value key e) h = (landed w fs (stored value key) gs e h).1
  Step-IsSafe (upload_conflict w fs gs value key error e conflict) h =
      let (own, s) = landed w fs (uploading value key) gs e h in
      conflict-IsSafe (report key (page (land (fs ++ gs)) w)) value error conflict
        (rw (sym own) (ground (arith, text_eq_refl key)))
        (report-IsSafe key (page (land (fs ++ gs)) w) s)
  Step-IsSafe (upload_error w fs gs value key error e other) h =
      error-IsSafe (page (land (fs ++ gs)) w) value error other
        (landed w fs (uploading value key) gs e h).1
  Step-IsSafe (retry_done w fs gs value key e) h =
      let (own, s) = landed w fs (retrying value key) gs e h in
      record {
        flights = All-append IsOwn (fs ++ gs) _ s.flights (own, tt);
        pending = s.pending;
        sent = s.sent;
      }
  Step-IsSafe (retry_end w fs gs value key e) h =
      let s = (landed w fs (overwritten value key) gs e h).1 in
      record { flights = s.flights; pending = s.pending; sent = s.sent }
  Step-IsSafe (retry_error w fs gs value key error e) h =
      let s = (landed w fs (retrying value key) gs e h).1 in
      record { flights = s.flights; pending = s.pending; sent = s.sent }

  -- In every system that steps of the user and of the server reach from a safe one while the page
  -- shows one directory, whatever the order of the answers: each overwriting request names a key
  -- that the server has reported as existing, and an open confirmation has the key that
  -- confirming it overwrites.
  pub Reach-IsSafe : {v w : System} → IsSafe v → Reach (Step prefix) v w → IsSafe w
  Reach-IsSafe h r = invariant (Step prefix) IsSafe (λ s t k p. Step-IsSafe k p) _ _ h r
