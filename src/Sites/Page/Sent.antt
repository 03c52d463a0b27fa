-- ===== src/Sites/Page/Sent.antt =====
-- What the page of the sites sends comes from a valid form, and the progress is that of a running
-- publication.
use light_oss.Base.{
  ℕ, ◌+◌, ◌≤◌, ◌≡◌, refl, sym, ap, ◌∙◌, Bool, true, false, ◌||◌, Option, List, [], ◌∷◌, ◌++◌, ◌==◌,
  All, All-append, arith,
}
use light_oss.Base.Reach.{Reach, invariant}
use light_oss.Api.Requests.{RequestConfig}
use light_oss.Sites.Form.Edits.{IsSendable, submitted-IsSendable}
use light_oss.Sites.Publish.Requests.{IsPublishable, publish_submitted-IsPublishable}
use light_oss.Sites.Page.{
  SiteAction, site_creation, site_update, site_upload, site_deletion, Flight, running, refreshing,
  SitesPage, request_for, started, progress_after, succeeded, failed, publishes, Step, create,
  update, publish, delete, progress, succeed, fail, settle,
}

-- A mutation whose value a dialog lets through.
abbrev pub IsValid : SiteAction → Type 0
IsValid (site_creation value) = IsSendable value
IsValid (site_update site_id value) = IsSendable value
IsValid (site_upload value) = IsPublishable value
IsValid (site_deletion site_id) = Unit

abbrev pub IsSent : Option RequestConfig → Type 0
IsSent request = (action : SiteAction) × IsValid action × (request ≡ request_for action)

-- One for a publication, running or waiting for the list of the sites.
abbrev pub upload_of : Flight → ℕ
upload_of (running (site_upload value)) = 1
upload_of (refreshing (site_upload value)) = 1
upload_of _ = 0

abbrev pub upload_count : List Flight → ℕ
upload_count [] = 0
upload_count (f ∷ fs) = upload_of f + upload_count fs

abbrev pub runs_upload : Flight → Bool
runs_upload (running (site_upload value)) = true
runs_upload _ = false

abbrev pub some_upload : List Flight → Bool
some_upload [] = false
some_upload (f ∷ fs) = runs_upload f || some_upload fs

pub record IsProper (p : SitesPage) : Type 0 where
  pub sent : All IsSent p.requests
  pub single : upload_count p.flights ≤ 1
  pub measured : (some_upload p.flights || p.upload_progress == 0) ≡ true

upload_count-append :
    (fs gs : List Flight) → upload_count (fs ++ gs) ≡ upload_count fs + upload_count gs
upload_count-append [] gs = omega arith
upload_count-append (f ∷ fs) gs = omega (arith, upload_count-append fs gs)

some_upload-append :
    (fs gs : List Flight) → some_upload (fs ++ gs) ≡ (some_upload fs || some_upload gs)
some_upload-append [] gs = refl
some_upload-append (f ∷ fs) gs = ground (arith, some_upload-append fs gs)

ruleset counting = (arith, upload_count-append)

upload_count_none : (fs : List Flight) → publishes fs ≡ false → upload_count fs ≡ 0
upload_count_none [] h = refl
upload_count_none (running (site_creation value) ∷ fs) h = omega (arith, upload_count_none fs h)
upload_count_none (running (site_update site_id value) ∷ fs) h =
    omega (arith, upload_count_none fs h)
upload_count_none (running (site_upload value) ∷ fs) h = cc h
upload_count_none (running (site_deletion site_id) ∷ fs) h = omega (arith, upload_count_none fs h)
upload_count_none (refreshing (site_creation value) ∷ fs) h = omega (arith, upload_count_none fs h)
upload_count_none (refreshing (site_update site_id value) ∷ fs) h =
    omega (arith, upload_count_none fs h)
upload_count_none (refreshing (site_upload value) ∷ fs) h = cc h
upload_count_none (refreshing (site_deletion site_id) ∷ fs) h =
    omega (arith, upload_count_none fs h)

started-IsProper :
    (action : SiteAction) (p : SitesPage)
    → IsValid action
    → upload_of (running action) + upload_count p.flights ≤ 1
    → IsProper p
    → IsProper (started action p)
unfolding started
started-IsProper action p valid room h = record {
  sent = All-append IsSent p.requests _ h.sent ((action, valid, refl), tt);
  single = omega (counting, room);
  measured = ground (arith, some_upload-append p.flights (running action ∷ []), h.measured);
}

-- The progress after an answer, with what still runs.
answered_measured :
    (flights : List Flight) (fs gs : List Flight) (action : SiteAction) (after : List Flight)
    (percent : ℕ)
    → flights ≡ fs ++ running action ∷ gs
    → some_upload after ≡ (some_upload fs || some_upload gs)
    → (some_upload flights || percent == 0) ≡ true
    → (some_upload after || progress_after action percent == 0) ≡ true
answered_measured flights fs gs (site_upload value) after percent e k h = ground arith
answered_measured flights fs gs (site_creation value) after percent e k h =
    rw k (rw (some_upload-append fs (running (site_creation value) ∷ gs)) at (rw e at h))
answered_measured flights fs gs (site_update site_id value) after percent e k h =
    rw k (rw (some_upload-append fs (running (site_update site_id value) ∷ gs)) at (rw e at h))
answered_measured flights fs gs (site_deletion site_id) after percent e k h =
    rw k (rw (some_upload-append fs (running (site_deletion site_id) ∷ gs)) at (rw e at h))

upload_of_refreshing : (a : SiteAction) → upload_of (refreshing a) ≡ upload_of (running a)
upload_of_refreshing (site_creation value) = refl
upload_of_refreshing (site_update site_id value) = refl
upload_of_refreshing (site_upload value) = refl
upload_of_refreshing (site_deletion site_id) = refl

Step-IsProper : {p q : SitesPage} → Step p q → IsProper p → IsProper q
unfolding succeeded failed
Step-IsProper (create p f value e) h =
    started-IsProper (site_creation value) p (submitted-IsSendable f value e)
      (omega (arith, h.single)) h
Step-IsProper (update p site f value e) h =
    started-IsProper (site_update site.id value) p (submitted-IsSendable f value e)
      (omega (arith, h.single)) h
Step-IsProper (publish p f value free e) h =
    started-IsProper (site_upload value) p (publish_submitted-IsPublishable f value e)
      (omega (arith, upload_count_none p.flights free)) h
Step-IsProper (delete p site) h =
    started-IsProper (site_deletion site.id) p tt (omega (arith, h.single)) h
Step-IsProper (progress p fs gs value percent e) h = record {
  sent = h.sent;
  single = h.single;
  measured = rw e (rw (some_upload-append fs (running (site_upload value) ∷ gs)) (ground arith));
}
Step-IsProper (succeed p fs gs action e) h = record {
  sent = h.sent;
  single = omega (counting, ap upload_count e, upload_of_refreshing action, h.single);
  measured =
      answered_measured p.flights fs gs action (fs ++ refreshing action ∷ gs) p.upload_progress e
        (some_upload-append fs (refreshing action ∷ gs)) h.measured;
}
Step-IsProper (fail p fs gs action message e) h = record {
  sent = h.sent;
  single = omega (counting, ap upload_count e, h.single);
  measured =
      answered_measured p.flights fs gs action (fs ++ gs) p.upload_progress e
        (some_upload-append fs gs) h.measured;
}
Step-IsProper (settle p fs gs action e) h = record {
  sent = h.sent;
  single = omega (counting, ap upload_count e, h.single);
  measured =
      ap (λ b. b || p.upload_progress == 0)
        (some_upload-append fs gs
          ∙ sym (some_upload-append fs (refreshing action ∷ gs))
          ∙ ap some_upload (sym e))
      ∙ h.measured;
}

-- From a page without requests, after any order of submitted dialogs, deletions, progress and
-- answers: each request is that of a deletion or of a value that is valid for its dialog, at most
-- one publication is under way, and the progress is 0 unless one is being uploaded.
pub Reach-IsProper : {p q : SitesPage} → IsProper p → Reach Step p q → IsProper q
Reach-IsProper h r = invariant Step IsProper (λ s t k q. Step-IsProper k q) _ _ h r
