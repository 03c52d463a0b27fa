-- ===== src/Api/Objects/Folders.antt =====
-- The form of a folder upload.
use light_oss.Base.{
  ◌≡◌, refl, sym, ap, some, List, [], ◌∷◌, arith, Option-cases, Bool-cases, inl, inr, is_empty,
  length, or_else,
}
use light_oss.Base.Text.{Text, codes, text_key}
use light_oss.Base.JsSet.{IsDistinct}
use light_oss.Api.FolderUpload.{File, FolderUploadManifestItem, build_folder_upload_manifest}
use light_oss.Api.FolderUpload.Manifest.{fields_of, build_folder_upload_manifest-IsDistinct}
use light_oss.Api.Requests.{Part, form_body, RequestConfig, bucket_url}
use light_oss.Api.Objects.{UploadFolderParams, file_parts, folder_form, upload_folder}

abbrev pub names_of : List (Text × Part) → List Text
names_of [] = []
names_of ((name, part) ∷ parts) = name ∷ names_of parts

names_of-file_parts :
    (items : List FolderUploadManifestItem) (files : List File)
    → length items ≡ length files
    → names_of (file_parts items files) ≡ fields_of items
names_of-file_parts [] files h = refl
names_of-file_parts (item ∷ items) [] h = absurd (omega (arith, h))
names_of-file_parts (item ∷ items) (file ∷ files) h =
    ap (λ t. item.file_field ∷ t) (names_of-file_parts items files (omega (arith, h)))

-- The form of a folder upload that can be sent has the manifest of its files, one file under each
-- field of the manifest in the same order, and no field twice.
upload_folder_lem :
    (p : UploadFolderParams) (config : RequestConfig)
    → upload_folder p ≡ some config
    → (manifest : List FolderUploadManifestItem) × (build_folder_upload_manifest p.files
        ≡ some manifest)
      × (config.body ≡ form_body (folder_form p manifest))
      × (names_of (file_parts manifest p.files) ≡ fields_of manifest)
      × IsDistinct (fields_of manifest)
unfolding upload_folder
upload_folder_lem p config e = elim (Bool-cases (is_empty p.files)) [
  | inl nothing ↦ cc (rw nothing at e)
  | inr some_files ↦ elim (Option-cases (bucket_url p.bucket (codes "/objects/batch"))) [
    | inl thrown ↦ cc (rw thrown at (rw some_files at e))
    | inr (url, at_url) ↦ elim (Option-cases (build_folder_upload_manifest p.files)) [
      | inl failed ↦ cc (rw failed at (rw at_url at (rw some_files at e)))
      | inr (manifest, built) ↦
          let (counted, distinct) =
            build_folder_upload_manifest-IsDistinct p.files manifest built in
          (
            manifest,
            built,
            sym (
                ap (λ o. (or_else o config).body)
                  (rw built at (rw at_url at (rw some_files at e)))),
            names_of-file_parts manifest p.files counted,
            distinct,
          )
    ]
  ]
]
