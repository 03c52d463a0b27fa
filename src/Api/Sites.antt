-- ===== src/Api/Sites.antt =====
-- frontend/src/api/sites.ts: the requests on sites.
use light_oss.Base.{ℕ, Bool, Option, none, List, [], ◌∷◌, ◌++◌, if◌then◌else◌, is_empty}
use light_oss.Base.Text.{Text, codes, trim}
use light_oss.Api.Types.{CreateSiteRequest}
use light_oss.Base.Decimal.{decimal}
use light_oss.Api.FolderUpload.{File, FolderUploadManifestItem, build_folder_upload_manifest}
use light_oss.Api.Requests.{
  get_method, post_method, put_method, delete_method, text, flag, texts, Part, text_part,
  json_texts, json_manifest, file_part, json_body, site_body, form_body, RequestConfig, request,
}
use light_oss.Api.Objects.{flag_text, file_parts}
use mathlib.Core.Option

abbrev sites_path : Text
sites_path = codes "/api/v1/sites"

unfoldable pub list_sites : RequestConfig
list_sites = request get_method sites_path

unfoldable pub create_site : CreateSiteRequest → RequestConfig
create_site payload = record (request post_method sites_path) { body = site_body payload }

abbrev site_url : ℕ → Text
site_url site_id = sites_path ++ (codes "/" ++ decimal site_id)

unfoldable pub update_site : ℕ → CreateSiteRequest → RequestConfig
update_site site_id payload = record (request put_method (site_url site_id)) {
  body = site_body payload;
}

unfoldable pub delete_site : ℕ → RequestConfig
delete_site site_id = request delete_method (site_url site_id)

-- What both uploads have.
pub record PublishParams : Type 0 where
  pub bucket : Text
  pub parent_prefix : Text
  pub domains : List Text
  pub enabled : Bool
  pub error_document : Text
  pub spa_fallback : Bool

abbrev head_parts : PublishParams → List (Text × Part)
head_parts p =
    (codes "bucket", text_part p.bucket)
    ∷ ((if is_empty (trim p.parent_prefix)
          then []
          else (codes "parent_prefix", text_part p.parent_prefix) ∷ [])
        ++ ((codes "domains", json_texts p.domains)
            ∷ (codes "enabled", text_part (flag_text p.enabled))
            ∷ []))

abbrev tail_parts : PublishParams → List (Text × Part)
tail_parts p =
    (codes "error_document", text_part p.error_document)
    ∷ (codes "spa_fallback", text_part (flag_text p.spa_fallback))
    ∷ []

pub record UploadAndPublishSiteParams : Type 0 where
  pub publish : PublishParams
  pub files : List File
  pub index_document : Text

abbrev pub site_form :
    UploadAndPublishSiteParams → List FolderUploadManifestItem → List (Text × Part)
site_form p manifest =
    head_parts p.publish
    ++ ((codes "index_document", text_part p.index_document)
        ∷ (tail_parts p.publish
            ++ ((codes "manifest", json_manifest manifest) ∷ file_parts manifest p.files)))

-- `none` where there are no files, or one without a relative path.
unfoldable pub upload_and_publish_site : UploadAndPublishSiteParams → Option RequestConfig
upload_and_publish_site p =
    if is_empty p.files
    then none
    else Option.map
        (λ manifest. record (request post_method (codes "/api/v1/sites/publish")) {
          timeout = 0;
          body = form_body (site_form p manifest);
        })
        (build_folder_upload_manifest p.files)

unfoldable pub upload_file_and_publish_site : PublishParams → File → RequestConfig
upload_file_and_publish_site p file =
    record (request post_method (codes "/api/v1/sites/publish/file")) {
      timeout = 0;
      body =
          form_body
            (head_parts p ++ (tail_parts p ++ (codes "file", file_part file file.name) ∷ []));
    }

pub record PublishObjectSiteParams : Type 0 where
  pub bucket : Text
  pub object_key : Text
  pub domains : List Text
  pub enabled : Bool
  pub error_document : Text
  pub spa_fallback : Bool

unfoldable pub publish_object_site : PublishObjectSiteParams → RequestConfig
publish_object_site p = record (request post_method (codes "/api/v1/sites/publish/object")) {
  body = json_body (
      (codes "bucket", text p.bucket)
      ∷ (codes "object_key", text p.object_key)
      ∷ (codes "domains", texts p.domains)
      ∷ (codes "enabled", flag p.enabled)
      ∷ (codes "error_document", text p.error_document)
      ∷ (codes "spa_fallback", flag p.spa_fallback)
      ∷ []);
}
