-- ===== src/Sites/Publish/Requests.antt =====
-- The request that a submitted form leads to.
use light_oss.Base.{
  ◌≡◌, ◌≢◌, refl, sym, ap, ◌∙◌, Bool, true, not, some, [], is_empty, All, Bool-cases, Option-cases,
  inl, inr,
}
use light_oss.Base.Text.{trim}
use light_oss.Api.Sites.{PublishParams}
use light_oss.Sites.Form.Domains.{IsDomain, trim_twice, ne_of_empty, parsed_domains-IsDomain}
use light_oss.Sites.Form.{parsed_domains, or_index}
use mathlib.Core.Option
use light_oss.Sites.Publish.{
  PublishMode, folder_mode, file_mode, PublishForm, PublishValue, folder_value, file_value,
  has_upload_in, value_in, has_upload, can_publish, common_value, publish_submitted,
}

abbrev pub common_of : PublishValue → PublishParams
common_of (folder_value common files index_document) = common
common_of (file_value common file) = common

abbrev pub has_files : PublishValue → Bool
has_files (folder_value common files index_document) = not (is_empty files)
has_files (file_value common file) = true

-- A value that names a bucket, domains, and something to upload.
pub record IsPublishable (v : PublishValue) : Type 0 where
  pub bucket : (common_of v).bucket ≢ []
  pub bucket_trimmed : trim (common_of v).bucket ≡ (common_of v).bucket
  pub domains : (common_of v).domains ≢ []
  pub each_domain : All IsDomain (common_of v).domains
  pub files : has_files v ≡ true

value-common :
    (mode : PublishMode) (f : PublishForm) (v : PublishValue)
    → has_upload_in mode f ≡ true
    → value_in mode f ≡ some v
    → (common_of v ≡ common_value f) × (has_files v ≡ true)
value-common folder_mode f v h e = elim (Bool-cases (is_empty f.selected_folder_files)) [
  | inl empty ↦ cc (rw empty at h)
  | inr given ↦
      let same : folder_value (common_value f) f.selected_folder_files
            (or_index (trim f.index_document))
          ≡ v =
        cc in
      rw (sym same) (refl, rw given refl)
]
value-common file_mode f v h e = elim (Option-cases f.selected_file) [
  | inl absent ↦ cc (rw absent at e)
  | inr (file, given) ↦
      let same : file_value (common_value f) file ≡ v =
        cc (ap (Option.map (file_value (common_value f))) (sym given) ∙ e) in
      rw (sym same) (refl, refl)
]

-- Whatever the publish dialog submits has a trimmed bucket that is not empty, at least one
-- domain, each trimmed and not empty, and in folder mode at least one file.
pub publish_submitted-IsPublishable :
    (f : PublishForm) (v : PublishValue) → publish_submitted f ≡ some v → IsPublishable v
unfolding publish_submitted can_publish
publish_submitted-IsPublishable f v e = elim (Bool-cases (is_empty (trim f.selected_bucket))) [
  | inl nothing ↦ cc (rw nothing at e)
  | inr bucket ↦ elim (Bool-cases (is_empty (parsed_domains f.domains_input))) [
    | inl nowhere ↦ cc (rw nowhere at (rw bucket at e))
    | inr domains ↦ elim (Bool-cases (has_upload f)) [
      | inl uploads ↦
          let (same, files) =
            value-common f.selected_mode f v uploads
              (rw uploads at (rw domains at (rw bucket at e))) in
          record {
            bucket = rw same (ne_of_empty (trim f.selected_bucket) bucket);
            bucket_trimmed = rw same (trim_twice f.selected_bucket);
            domains = rw same (ne_of_empty (parsed_domains f.domains_input) domains);
            each_domain = rw same (parsed_domains-IsDomain f.domains_input);
            files = files;
          }
      | inr nothing ↦ cc (rw nothing at (rw domains at (rw bucket at e)))
    ]
  ]
]
