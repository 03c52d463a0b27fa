-- ===== src/Api/Objects.antt =====
-- frontend/src/api/objects.ts: the requests on objects and directories.
pub mod Addresses
pub mod Folders
pub mod Distinct
pub mod Archive
pub mod Named
mod Tests
use light_oss.Base.{
  ℕ, Bool, true, false, not, ◌+◌, Option, none, some, List, [], ◌∷◌, ◌++◌, ◌==◌, leb, if◌then◌else◌,
  or_else, is_empty, keep, last_of,
}
use light_oss.Base.Text.{Text, codes, slash, is_slash, strip_end, trim, text_eq}
use light_oss.Base.Search.{lower_text, ends_with}
use light_oss.Base.Split.{split}
use light_oss.Api.Types.{ObjectVisibility, public, private, DeleteExplorerEntriesBatchItem}
use light_oss.Api.Encoding.{is_between, encode_uri_component, encode_object_key, build_api_url}
use light_oss.Api.FolderUpload.{File, FolderUploadManifestItem, build_folder_upload_manifest}
use light_oss.Api.Requests.{
  get_method, head_method, post_method, put_method, patch_method, delete_method, Value, text,
  number, flag, texts, numbers, entries, Part, text_part, json_manifest, file_part, json_body,
  form_body, file_body, RequestConfig, request, or_undefined, bucket_url,
}
use light_oss.Explorer.{SortBy, SortOrder, sort_by_text, sort_order_text}
use mathlib.Core.Option

-- Two values that may throw, joined.
abbrev pub both {ℓ} : {A B C : Type ℓ} → (A → B → C) → Option A → Option B → Option C
both f none b = none
both f (some a) none = none
both f (some a) (some b) = some (f a b)

-- `/objects/…` of a bucket, with what stands before the key.
unfoldable pub object_url : Text → Text → Text → Option Text
unfolding encode_object_key
object_url bucket middle object_key =
    both (λ name key. codes "/api/v1/buckets/" ++ (name ++ (codes "/objects/" ++ (middle ++ key))))
      (encode_uri_component bucket) (encode_object_key object_key)

abbrev pub visibility_text : ObjectVisibility → Text
visibility_text public = codes "public"
visibility_text private = codes "private"

abbrev pub flag_text : Bool → Text
flag_text true = codes "true"
flag_text false = codes "false"

unfoldable pub list_objects : Text → Text → ℕ → Text → Option RequestConfig
unfolding bucket_url
list_objects bucket prefix limit cursor =
    Option.map
      (λ url. record (request get_method url) {
        params =
            (codes "prefix", or_undefined prefix)
            ∷ (codes "limit", some (number limit))
            ∷ (codes "cursor", or_undefined cursor)
            ∷ [];
      })
      (bucket_url bucket (codes "/objects"))

pub record ListExplorerEntriesParams : Type 0 where
  pub bucket : Text
  pub prefix : Text
  pub search : Text
  pub limit : ℕ
  pub cursor : Text
  pub sort_by : Option SortBy
  pub sort_order : Option SortOrder

unfoldable pub list_explorer_entries : ListExplorerEntriesParams → Option RequestConfig
unfolding bucket_url
list_explorer_entries p =
    Option.map
      (λ url. record (request get_method url) {
        params =
            (codes "prefix", or_undefined p.prefix)
            ∷ (codes "search", or_undefined p.search)
            ∷ (codes "limit", some (number p.limit))
            ∷ (codes "cursor", or_undefined p.cursor)
            ∷ (codes "sort_by", Option.map (λ column. text (sort_by_text column)) p.sort_by)
            ∷ (codes "sort_order", Option.map (λ order. text (sort_order_text order)) p.sort_order)
            ∷ [];
      })
      (bucket_url p.bucket (codes "/entries"))

unfoldable pub create_folder : Text → Text → Text → Option RequestConfig
unfolding bucket_url
create_folder bucket prefix name =
    Option.map
      (λ url. record (request post_method url) {
        body = json_body ((codes "prefix", text prefix) ∷ (codes "name", text name) ∷ []);
      })
      (bucket_url bucket (codes "/folders"))

unfoldable pub delete_folder : Text → Text → Bool → Option RequestConfig
unfolding bucket_url
delete_folder bucket folder_path recursive =
    Option.map
      (λ url. record (request delete_method url) {
        params =
            (codes "path", some (text folder_path))
            ∷ (codes "recursive", if recursive then some (flag true) else none)
            ∷ [];
      })
      (bucket_url bucket (codes "/folders"))

-- The request of `downloadFolderZip`.
unfoldable pub folder_archive : Text → Text → Option RequestConfig
unfolding bucket_url
folder_archive bucket folder_path =
    Option.map
      (λ url. record (request get_method url) {
        timeout = 0;
        params = (codes "path", some (text folder_path)) ∷ [];
      })
      (bucket_url bucket (codes "/folders/archive"))

-- The request of `checkObjectExists`.
unfoldable pub check_object_exists_request : Text → Text → Option RequestConfig
unfolding object_url
check_object_exists_request bucket object_key =
    Option.map (request head_method) (object_url bucket [] object_key)

unfoldable pub resolve_upload_content_type : File → Text
resolve_upload_content_type file =
    let detected_type = trim file.content_type in
    if not (is_empty detected_type)
    then detected_type
    else if ends_with (lower_text file.name) (codes ".md")
    then codes "text/markdown"
    else codes "application/octet-stream"

pub record UploadObjectParams : Type 0 where
  pub bucket : Text
  pub object_key : Text
  pub file : File
  pub visibility : ObjectVisibility
  pub allow_overwrite : Bool

unfoldable pub upload_object : UploadObjectParams → Option RequestConfig
unfolding object_url resolve_upload_content_type
upload_object p =
    both
      (λ url file_name. record (request put_method url) {
        timeout = 0;
        body = file_body p.file;
        headers =
            (codes "Content-Type", resolve_upload_content_type p.file)
            ∷ (codes "X-Object-Visibility", visibility_text p.visibility)
            ∷ (codes "X-Original-Filename", file_name)
            ∷ (codes "X-Allow-Overwrite", flag_text p.allow_overwrite)
            ∷ [];
      })
      (object_url p.bucket [] p.object_key) (encode_uri_component p.file.name)

pub record UploadFolderParams : Type 0 where
  pub bucket : Text
  pub prefix : Text
  pub files : List File
  pub visibility : ObjectVisibility
  pub allow_overwrite : Bool

-- `formData.append(item.file_field, files[index], files[index].name)` for each item.
abbrev pub file_parts : List FolderUploadManifestItem → List File → List (Text × Part)
file_parts [] files = []
file_parts (item ∷ items) [] = []
file_parts (item ∷ items) (file ∷ files) =
    (item.file_field, file_part file file.name) ∷ file_parts items files

abbrev pub folder_form : UploadFolderParams → List FolderUploadManifestItem → List (Text × Part)
folder_form p manifest =
    (if is_empty (trim p.prefix) then [] else (codes "prefix", text_part p.prefix) ∷ [])
    ++ (codes "visibility", text_part (visibility_text p.visibility)) ∷ file_parts manifest p.files
    ++ (codes "manifest", json_manifest manifest) ∷ []

-- `none` also where there are no files, or one without a relative path.
unfoldable pub upload_folder : UploadFolderParams → Option RequestConfig
unfolding bucket_url
upload_folder p =
    if is_empty p.files
    then none
    else both
        (λ url manifest. record (request post_method url) {
          timeout = 0;
          body = form_body (folder_form p manifest);
          headers = (codes "X-Allow-Overwrite", flag_text p.allow_overwrite) ∷ [];
        })
        (bucket_url p.bucket (codes "/objects/batch")) (build_folder_upload_manifest p.files)

unfoldable pub delete_object : Text → Text → Option RequestConfig
unfolding object_url
delete_object bucket object_key =
    Option.map (request delete_method) (object_url bucket [] object_key)

unfoldable pub delete_explorer_entries_batch :
    Text → List DeleteExplorerEntriesBatchItem → Option RequestConfig
unfolding bucket_url
delete_explorer_entries_batch bucket items =
    Option.map
      (λ url. record (request post_method url) {
        body = json_body ((codes "items", entries items) ∷ []);
      })
      (bucket_url bucket (codes "/entries/batch-delete"))

unfoldable pub list_recycle_bin_objects : Option Text → ℕ → Text → RequestConfig
list_recycle_bin_objects bucket limit cursor =
    record (request get_method (codes "/api/v1/recycle-bin/objects")) {
      params =
          (codes "bucket", or_undefined (or_else bucket []))
          ∷ (codes "limit", some (number limit))
          ∷ (codes "cursor", or_undefined cursor)
          ∷ [];
    }

unfoldable pub restore_recycle_bin_objects : List ℕ → RequestConfig
restore_recycle_bin_objects item_ids =
    record (request post_method (codes "/api/v1/recycle-bin/objects/restore")) {
      body = json_body ((codes "item_ids", numbers item_ids) ∷ []);
    }

unfoldable pub delete_recycle_bin_objects : List ℕ → RequestConfig
delete_recycle_bin_objects item_ids =
    record (request post_method (codes "/api/v1/recycle-bin/objects/batch-delete")) {
      body = json_body ((codes "item_ids", numbers item_ids) ∷ []);
    }

unfoldable pub update_object_visibility : Text → Text → ObjectVisibility → Option RequestConfig
unfolding object_url
update_object_visibility bucket object_key visibility =
    Option.map
      (λ url. record (request patch_method url) {
        body = json_body ((codes "visibility", text (visibility_text visibility)) ∷ []);
      })
      (object_url bucket (codes "visibility/") object_key)

abbrev expiry : Option ℕ → List (Text × Value)
expiry none = []
expiry (some seconds) = (codes "expires_in_seconds", number seconds) ∷ []

unfoldable pub create_signed_download_path : Text → Text → Option ℕ → RequestConfig
create_signed_download_path bucket object_key expires_in_seconds =
    record (request post_method (codes "/api/v1/sign/download")) {
      body = json_body (
          (codes "bucket", text bucket)
          ∷ (codes "object_key", text object_key)
          ∷ expiry expires_in_seconds);
    }

-- `buildFolderArchiveFallbackName`
unfoldable pub build_folder_archive_fallback_name : Text → Text
build_folder_archive_fallback_name folder_path =
    let trimmed = strip_end is_slash folder_path in
    let segments = keep (λ w. not (is_empty w)) (split slash trimmed) in
    or_else (last_of segments) (codes "folder") ++ codes ".zip"

unfoldable pub build_public_object_url : Text → Text → Text → Bool → Option Text
unfolding object_url
build_public_object_url api_base_url bucket object_key download =
    Option.map
      (λ url. build_api_url api_base_url url ++ (if download then codes "?download=true" else []))
      (object_url bucket [] object_key)
