-- ===== src/Overwrite/Tests.antt =====
-- The theorems on overwriting at concrete states of the page.
use light_oss.Base.{ℕ, ◌+◌, ◌≤◌, ◌≡◌, refl, true, false, none, [], ◌∷◌, ◌++◌}
use light_oss.Base.Reach.{Reach, here, next}
use light_oss.Base.Text.{Text, codes}
use light_oss.Api.Types.{private}
use light_oss.Overwrite.{
  UploadDialogValue, checking, Uploads, key_in, handle_upload, check_answered,
  handle_confirm_overwrite_upload,
}
use light_oss.Overwrite.Steps.{Step, System, land, page, report, start, confirm, check_present}
use light_oss.Overwrite.Confirmed.{IsSafe, Reach-IsSafe}
use light_oss.Overwrite.Settling.{
  answers_left, Answers, none_yet, one_more, Answers-bounds, IsSettled, Reach-settles,
}

abbrev picture : UploadDialogValue
picture = record { object_key = codes "a.png"; file_name = codes "a.png"; visibility = private }

abbrev docs : Text
docs = codes "docs/"

abbrev idle_page : Uploads
idle_page = record {
  upload_progress = 0;
  dialog_reset_signal = 0;
  is_checking_overwrite = false;
  pending_overwrite_upload = none;
  is_retrying_overwrite = false;
  requests = [];
  flights = [];
  toasts = [];
  invalidations = 0;
}

abbrev fresh : System
fresh = record { uploads = idle_page; reported = [] }

abbrev started : System
started = page (handle_upload docs picture) fresh

abbrev answered : System
answered =
    report (key_in docs picture)
      (page (λ s. check_answered docs picture (key_in docs picture) true (land [] s)) started)

one_check : started.uploads.flights ≡ [] ++ checking picture (key_in docs picture) ∷ []
unfolding handle_upload
one_check = refl

-- Upload, the server says that the key exists, confirm.
confirmed : Reach (Step docs) fresh (page (handle_confirm_overwrite_upload docs) answered)
confirmed =
    next
      (next (next here (start fresh picture))
        (check_present started [] [] picture (key_in docs picture) one_check))
      (confirm answered)

fresh-IsSafe : IsSafe docs fresh
fresh-IsSafe = record { flights = tt; pending = tt; sent = tt }

Reach-IsSafe_example : IsSafe docs (page (handle_confirm_overwrite_upload docs) answered)
Reach-IsSafe_example = Reach-IsSafe docs fresh-IsSafe confirmed

abbrev one_answer : Answers docs started 1 answered
one_answer =
    one_more none_yet (check_present started [] [] picture (key_in docs picture) one_check) tt

Answers-bounds_example :
    1 + answers_left answered.uploads.flights ≤ answers_left started.uploads.flights
Answers-bounds_example = Answers-bounds docs started answered 1 one_answer

Reach-settles_example :
    (n : ℕ) × (u : System) × Answers docs (page (handle_confirm_overwrite_upload docs) answered) n u
    × IsSettled u.uploads
Reach-settles_example =
    Reach-settles docs fresh (page (handle_confirm_overwrite_upload docs) answered)
      (record { checks = refl; retries = refl }) confirmed
