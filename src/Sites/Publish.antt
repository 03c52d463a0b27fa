-- ===== src/Sites/Publish.antt =====
-- frontend/src/features/sites/UploadAndPublishSiteDialog.tsx, and the request that both pages make
-- of its value.
pub mod Requests
use light_oss.Base.{
  Bool, true, false, not, ◌&&◌, Option, none, some, List, [], ◌∷◌, ◌++◌, if◌then◌else◌, or_else,
  is_empty, last_of,
}
use light_oss.Base.Text.{Text, codes, slash, trim}
use light_oss.Base.Split.{split}
use light_oss.Api.Types.{Bucket}
use light_oss.Api.FolderUpload.{
  File, to_slashes, get_folder_upload_top_level_name, normalize_folder_upload_parent_prefix,
}
use light_oss.Api.Requests.{RequestConfig}
use light_oss.Api.Sites.{PublishParams, upload_and_publish_site, upload_file_and_publish_site}
use light_oss.Sites.Form.{index_html, or_index, parsed_domains}
use mathlib.Core.Option

pub data PublishMode : Type 0 where
  folder_mode file_mode : PublishMode

pub record PublishForm : Type 0 where
  pub selected_mode : PublishMode
  pub selected_bucket : Text
  pub selected_folder_files : List File
  pub selected_file : Option File
  pub parent_prefix_value : Text
  pub domains_input : Text
  pub enabled : Bool
  pub index_document : Text
  pub error_document : Text
  pub spa_fallback : Bool

-- The two kinds of value: the common part, and what the mode adds.
pub data PublishValue : Type 0 where
  folder_value : PublishParams → List File → (index_document : Text) → PublishValue
  file_value : PublishParams → File → PublishValue

abbrev bucket_or_first : Text → List Bucket → Text
bucket_or_first (c ∷ bucket) buckets = c ∷ bucket
bucket_or_first [] [] = []
bucket_or_first [] (first ∷ buckets) = first.name

-- The effect of an open dialog.
unfoldable pub reset_form : Option Text → List Bucket → Option Text → PublishForm
reset_form bucket buckets parent_prefix = record {
  selected_mode = folder_mode;
  selected_bucket = bucket_or_first (trim (or_else bucket [])) buckets;
  selected_folder_files = [];
  selected_file = none;
  parent_prefix_value = or_else parent_prefix [];
  domains_input = [];
  enabled = true;
  index_document = index_html;
  error_document = [];
  spa_fallback = true;
}

-- `getSafeFolderUploadTopLevelName`
unfoldable pub safe_top_level_name : List File → Text
unfolding get_folder_upload_top_level_name
safe_top_level_name files = or_else (get_folder_upload_top_level_name files) []

abbrev file_name_of : File → Text
file_name_of file = trim (or_else (last_of (split slash (to_slashes file.name))) [])

unfoldable pub get_upload_file_name : Option File → Text
get_upload_file_name none = []
get_upload_file_name (some file) = file_name_of file

-- The prefix that the dialog promises the site.
unfoldable pub folder_root_prefix_preview : PublishForm → Text
unfolding safe_top_level_name
folder_root_prefix_preview f =
    let name = safe_top_level_name f.selected_folder_files in
    if is_empty name
    then []
    else normalize_folder_upload_parent_prefix f.parent_prefix_value ++ (name ++ slash ∷ [])

abbrev pub has_upload_in : PublishMode → PublishForm → Bool
has_upload_in folder_mode f =
    not (is_empty f.selected_folder_files)
    && not (is_empty (safe_top_level_name f.selected_folder_files))
has_upload_in file_mode f = not (is_empty (get_upload_file_name f.selected_file))

abbrev pub has_upload : PublishForm → Bool
has_upload f = has_upload_in f.selected_mode f

unfoldable pub can_publish : PublishForm → Bool
unfolding get_upload_file_name safe_top_level_name
can_publish f =
    not (is_empty (trim f.selected_bucket))
    && not (is_empty (parsed_domains f.domains_input))
    && has_upload f

abbrev pub common_value : PublishForm → PublishParams
common_value f = record {
  bucket = trim f.selected_bucket;
  parent_prefix = normalize_folder_upload_parent_prefix f.parent_prefix_value;
  domains = parsed_domains f.domains_input;
  enabled = f.enabled;
  error_document = trim f.error_document;
  spa_fallback = f.spa_fallback;
}

abbrev pub value_in : PublishMode → PublishForm → Option PublishValue
value_in folder_mode f =
    some (folder_value (common_value f) f.selected_folder_files (or_index (trim f.index_document)))
value_in file_mode f = Option.map (file_value (common_value f)) f.selected_file

abbrev pub value_of : PublishForm → Option PublishValue
value_of f = value_in f.selected_mode f

-- What `handleSubmit` hands to `onSubmit`, if anything.
unfoldable pub publish_submitted : PublishForm → Option PublishValue
unfolding can_publish
publish_submitted f = if can_publish f then value_of f else none

-- The `mutationFn` of `uploadAndPublishSiteMutation`, in both pages.
unfoldable pub publish_request : PublishValue → Option RequestConfig
publish_request (folder_value common files index_document) =
    upload_and_publish_site
      (record { publish = common; files = files; index_document = index_document })
publish_request (file_value common file) = some (upload_file_and_publish_site common file)
