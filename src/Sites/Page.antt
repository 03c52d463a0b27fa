-- ===== src/Sites/Page.antt =====
-- frontend/src/pages/SitesPage.tsx: the mutations of the page of the sites, which run until their
-- answer, and the dialogs that start them.
pub mod Sent
mod Tests
use light_oss.Base.{
  ℕ, ◌+◌, ◌≡◌, Bool, true, false, ◌||◌, Option, none, some, List, [], ◌∷◌, ◌++◌, if◌then◌else◌,
  is_empty,
}
use light_oss.Base.Text.{Text}
use light_oss.Api.Types.{Site}
use light_oss.Api.Requests.{RequestConfig}
use light_oss.Api.Sites.{create_site, update_site, delete_site}
use light_oss.Sites.Form.{SiteFormValue, SiteForm, submitted, to_site_request}
use light_oss.Sites.Publish.{PublishValue, PublishForm, publish_submitted, publish_request}

-- The mutations of the page.
pub data SiteAction : Type 0 where
  site_creation : SiteFormValue → SiteAction
  site_update : (site_id : ℕ) → SiteFormValue → SiteAction
  site_upload : PublishValue → SiteAction
  site_deletion : (site_id : ℕ) → SiteAction

pub data Toast : Type 0 where
  site_created site_updated site_published site_deleted : Toast
  failure : Text → Toast

-- A mutation waits for its answer, and after a success for the list of the sites.
pub data Flight : Type 0 where
  running refreshing : SiteAction → Flight

pub record SitesPage : Type 0 where
  pub upload_progress : ℕ
  pub requests : List (Option RequestConfig)
  pub flights : List Flight
  pub toasts : List Toast
  pub sites_invalidations : ℕ

-- The `mutationFn` of a mutation; `none` is an exception before the request is sent.
unfoldable pub request_for : SiteAction → Option RequestConfig
request_for (site_creation value) = some (create_site (to_site_request value))
request_for (site_update site_id value) = some (update_site site_id (to_site_request value))
request_for (site_upload value) = publish_request value
request_for (site_deletion site_id) = some (delete_site site_id)

-- `handleCreateSite`, `handleUpdateSite`, `handleUploadAndPublishSite` and `handleDeleteSite`
unfoldable pub started : SiteAction → SitesPage → SitesPage
started action p = record p {
  requests = p.requests ++ request_for action ∷ [];
  flights = p.flights ++ running action ∷ [];
}

-- `setUploadProgress(0)`
abbrev pub progress_after : SiteAction → ℕ → ℕ
progress_after (site_upload value) percent = 0
progress_after _ percent = percent

abbrev pub success_toast : SiteAction → Toast
success_toast (site_creation value) = site_created
success_toast (site_update site_id value) = site_updated
success_toast (site_upload value) = site_published
success_toast (site_deletion site_id) = site_deleted

-- `onSuccess`
unfoldable pub succeeded : SiteAction → SitesPage → SitesPage
succeeded action p = record p {
  upload_progress = progress_after action p.upload_progress;
  toasts = p.toasts ++ success_toast action ∷ [];
  sites_invalidations = p.sites_invalidations + 1;
}

-- `onError`
unfoldable pub failed : Text → SiteAction → SitesPage → SitesPage
failed message action p = record p {
  upload_progress = progress_after action p.upload_progress;
  toasts = p.toasts ++ failure message ∷ [];
}

-- `isPending` of the publishing mutation
abbrev pub publishes : List Flight → Bool
publishes [] = false
publishes (running (site_upload value) ∷ fs) = true
publishes (refreshing (site_upload value) ∷ fs) = true
publishes (f ∷ fs) = publishes fs

-- The domain that the confirmation of a deletion names: `site.domains[0] ?? site.bucket`.
unfoldable pub deleted_domain : Site → Text
deleted_domain site = elim site.domains [ [] ↦ site.bucket | domain ∷ domains ↦ domain ]

-- What the card with the list shows.
pub data SitesView : Type 0 where
  loading_view empty_view : SitesView
  table_view : List Site → SitesView

unfoldable pub sites_view : Bool → Bool → Option (List Site) → SitesView
sites_view sites_loading buckets_loading items =
    if sites_loading || buckets_loading then loading_view else elim items [
      | none ↦ empty_view
      | some sites ↦ if is_empty sites then empty_view else table_view sites
    ]

abbrev pub land : List Flight → SitesPage → SitesPage
land flights p = record p { flights = flights }

pub data Step : SitesPage → SitesPage → Type 0 where
  create :
      (p : SitesPage) (f : SiteForm) (value : SiteFormValue)
      → submitted f ≡ some value
      → Step p (started (site_creation value) p)
  update :
      (p : SitesPage) (site : Site) (f : SiteForm) (value : SiteFormValue)
      → submitted f ≡ some value
      → Step p (started (site_update site.id value) p)
  publish :
      (p : SitesPage) (f : PublishForm) (value : PublishValue)
      → publishes p.flights ≡ false
      → publish_submitted f ≡ some value
      → Step p (started (site_upload value) p)
  delete : (p : SitesPage) (site : Site) → Step p (started (site_deletion site.id) p)
  -- `setUploadProgress` during a publication
  progress :
      (p : SitesPage) (fs gs : List Flight) (value : PublishValue) (percent : ℕ)
      → p.flights ≡ fs ++ running (site_upload value) ∷ gs
      → Step p (record p { upload_progress = percent })
  succeed :
      (p : SitesPage) (fs gs : List Flight) (action : SiteAction)
      → p.flights ≡ fs ++ running action ∷ gs
      → Step p (succeeded action (land (fs ++ refreshing action ∷ gs) p))
  fail :
      (p : SitesPage) (fs gs : List Flight) (action : SiteAction) (message : Text)
      → p.flights ≡ fs ++ running action ∷ gs
      → Step p (failed message action (land (fs ++ gs) p))
  settle :
      (p : SitesPage) (fs gs : List Flight) (action : SiteAction)
      → p.flights ≡ fs ++ refreshing action ∷ gs
      → Step p (land (fs ++ gs) p)
