-- ===== src/Actions.antt =====
-- frontend/src/pages/BucketObjectsPage.tsx: the actions on folders and single entries, which run
-- until their answer. `bucket` and `prefix` are those of the page when an action starts.
pub mod Steps
pub mod Marked
pub mod Publishing
pub mod Dialogs
mod Tests
use light_oss.Base.{
  ℕ, ◌+◌, ◌==◌, if◌then◌else◌, Bool, true, false, Option, none, some, List, [], ◌∷◌, ◌++◌,
}
use light_oss.Base.Text.{Text}
use light_oss.Api.Types.{ObjectVisibility, public, private, ExplorerFileEntry}
use light_oss.Api.FolderUpload.{File}
use light_oss.Api.Requests.{RequestConfig}
use light_oss.Api.Objects.{
  create_folder, delete_folder, upload_folder, delete_object, update_object_visibility,
  create_signed_download_path, folder_archive,
}
use light_oss.Api.Sites.{create_site, publish_object_site}
use light_oss.Sites.Publish.{PublishValue, publish_request}

pub record PublishSiteValue : Type 0 where
  pub domains : List Text
  pub enabled : Bool
  pub index_document : Text
  pub error_document : Text
  pub spa_fallback : Bool

pub record PublishObjectSiteValue : Type 0 where
  pub domains : List Text
  pub enabled : Bool
  pub error_document : Text
  pub spa_fallback : Bool

-- The mutations of the page, and the two downloads.
pub data Action : Type 0 where
  folder_upload : List File → ObjectVisibility → Action
  folder_creation : Text → Action
  site_upload : PublishValue → Action
  file_deletion folder_deletion : Text → Action
  visibility_update : Text → ObjectVisibility → Action
  site_publication : Text → PublishSiteValue → Action
  object_publication : Text → PublishObjectSiteValue → Action
  file_download : ExplorerFileEntry → Action
  folder_download : Text → Action

-- The states that name the path of a busy row: `deletingPath`, `publishingPath`,
-- `downloadingFilePath` and `downloadingFolderPath`.
pub data Marker : Type 0 where
  deleting_path publishing_path downloading_file_path downloading_folder_path : Marker

abbrev marker_code : Marker → ℕ
marker_code deleting_path = 0
marker_code publishing_path = 1
marker_code downloading_file_path = 2
marker_code downloading_folder_path = 3

abbrev pub same_marker : Marker → Marker → Bool
same_marker a b = marker_code a == marker_code b

pub data Toast : Type 0 where
  folder_uploaded folder_created site_published object_deleted folder_deleted : Toast
  failure : Text → Toast

-- An action waits for its answer, and a mutation that succeeded for the queries it refreshes.
pub data Flight : Type 0 where
  running refreshing : Action → Flight

pub record Actions : Type 0 where
  pub upload_progress : ℕ
  pub paths : Marker → Text
  pub requests : List (Option RequestConfig)
  pub flights : List Flight
  pub toasts : List Toast
  pub entries_invalidations : ℕ
  pub sites_invalidations : ℕ

-- The request of a download link; a public object needs none.
abbrev pub download_request : ObjectVisibility → Text → Text → List (Option RequestConfig)
download_request public bucket object_key = []
download_request private bucket object_key =
    some (create_signed_download_path bucket object_key none) ∷ []

-- The request that an action sends, if any; `none` in the list is an exception before it is sent.
unfoldable pub requests_of : Text → Text → Action → List (Option RequestConfig)
requests_of bucket prefix (folder_upload files visibility) =
    upload_folder (record {
      bucket = bucket;
      prefix = prefix;
      files = files;
      visibility = visibility;
      allow_overwrite = true;
    })
    ∷ []
requests_of bucket prefix (folder_creation name) = create_folder bucket prefix name ∷ []
requests_of bucket prefix (site_upload value) = publish_request value ∷ []
requests_of bucket prefix (file_deletion object_key) = delete_object bucket object_key ∷ []
requests_of bucket prefix (folder_deletion folder_path) = delete_folder bucket folder_path true ∷ []
requests_of bucket prefix (visibility_update object_key visibility) =
    update_object_visibility bucket object_key visibility ∷ []
requests_of bucket prefix (site_publication folder_path value) =
    some (
      create_site (record {
        bucket = bucket;
        root_prefix = folder_path;
        enabled = value.enabled;
        index_document = value.index_document;
        error_document = value.error_document;
        spa_fallback = value.spa_fallback;
        domains = value.domains;
      }))
    ∷ []
requests_of bucket prefix (object_publication object_key value) =
    some (
      publish_object_site (record {
        bucket = bucket;
        object_key = object_key;
        domains = value.domains;
        enabled = value.enabled;
        error_document = value.error_document;
        spa_fallback = value.spa_fallback;
      }))
    ∷ []
requests_of bucket prefix (file_download entry) =
    download_request entry.visibility bucket entry.object_key
requests_of bucket prefix (folder_download folder_path) = folder_archive bucket folder_path ∷ []

-- The state that an action sets, and the path that it sets it to.
abbrev pub mark_of : Action → Option (Marker × Text)
mark_of (file_deletion object_key) = some (deleting_path, object_key)
mark_of (folder_deletion folder_path) = some (deleting_path, folder_path)
mark_of (site_publication folder_path value) = some (publishing_path, folder_path)
mark_of (object_publication object_key value) = some (publishing_path, object_key)
mark_of (file_download entry) = some (downloading_file_path, entry.path)
mark_of (folder_download folder_path) = some (downloading_folder_path, folder_path)
mark_of _ = none

abbrev pub marked : Option (Marker × Text) → (Marker → Text) → Marker → Text
marked none paths = paths
marked (some (marker, path)) paths = λ other. if same_marker marker other then path else paths other

abbrev pub put_mark : Option (Marker × Text) → Actions → Actions
put_mark mark s = record s { paths = marked mark s.paths }

abbrev pub no_mark : Option (Marker × Text) → Option (Marker × Text)
no_mark none = none
no_mark (some (marker, path)) = some (marker, [])

-- The handler of a folder upload resets the progress before the upload; that of a site does not.
abbrev pub progress_before : Action → ℕ → ℕ
progress_before (folder_upload files visibility) percent = 0
progress_before _ percent = percent

-- An action up to its answer.
unfoldable pub started : Text → Text → Action → Actions → Actions
unfolding requests_of
started bucket prefix action s = record (put_mark (mark_of action) s) {
  upload_progress = progress_before action s.upload_progress;
  requests = s.requests ++ requests_of bucket prefix action;
  flights = s.flights ++ running action ∷ [];
}

-- `onSettled` of a mutation, and the `finally` of a download: the state becomes empty again.
unfoldable pub settled : Action → Actions → Actions
settled action s = put_mark (no_mark (mark_of action)) s

-- A download ends with its answer; a mutation that succeeds first waits for its queries.
abbrev pub is_download : Action → Bool
is_download (file_download entry) = true
is_download (folder_download folder_path) = true
is_download _ = false

-- `setUploadProgress(0)`
abbrev pub progress_after : Action → ℕ → ℕ
progress_after (folder_upload files visibility) percent = 0
progress_after (site_upload value) percent = 0
progress_after _ percent = percent

abbrev pub success_toasts : Action → List Toast
success_toasts (folder_upload files visibility) = folder_uploaded ∷ []
success_toasts (folder_creation name) = folder_created ∷ []
success_toasts (site_upload value) = site_published ∷ []
success_toasts (file_deletion object_key) = object_deleted ∷ []
success_toasts (folder_deletion folder_path) = folder_deleted ∷ []
success_toasts (site_publication folder_path value) = site_published ∷ []
success_toasts (object_publication object_key value) = site_published ∷ []
success_toasts _ = []

-- How many times the listing of the directory is invalidated.
abbrev pub refreshed_entries : Action → ℕ
refreshed_entries (site_publication folder_path value) = 0
refreshed_entries (file_download entry) = 0
refreshed_entries (folder_download folder_path) = 0
refreshed_entries _ = 1

-- How many times the listing of the sites is invalidated.
abbrev pub refreshed_sites : Action → ℕ
refreshed_sites (site_upload value) = 1
refreshed_sites (object_publication object_key value) = 1
refreshed_sites _ = 0

-- `onSuccess` of a mutation.
abbrev pub notified : Action → Actions → Actions
notified action s = record s {
  upload_progress = progress_after action s.upload_progress;
  toasts = s.toasts ++ success_toasts action;
  entries_invalidations = s.entries_invalidations + refreshed_entries action;
  sites_invalidations = s.sites_invalidations + refreshed_sites action;
}

unfoldable pub succeeded : Action → Actions → Actions
unfolding settled
succeeded action s =
    if is_download action then settled action (notified action s) else notified action s

-- What still runs after a success.
abbrev pub followed : Action → List Flight
followed action = if is_download action then [] else refreshing action ∷ []

-- `onError`; the error of a visibility update is shown by its dialog.
abbrev pub error_toasts : Text → Action → List Toast
error_toasts message (visibility_update object_key visibility) = []
error_toasts message _ = failure message ∷ []

unfoldable pub failed : Text → Action → Actions → Actions
unfolding settled
failed message action s = settled action (record s {
  upload_progress = progress_after action s.upload_progress;
  toasts = s.toasts ++ error_toasts message action;
})
