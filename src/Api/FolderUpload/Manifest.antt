-- ===== src/Api/FolderUpload/Manifest.antt =====
-- The fields of a manifest.
use light_oss.Base.{
  ℕ, ◌+◌, ◌<◌, ◌≡◌, ◌≢◌, refl, false, some, List, [], ◌∷◌, ◌++◌, arith, Option-cases, inl, inr,
  length,
}
use light_oss.Base.Text.{Text, codes, text_eq_iff, text_key}
use light_oss.Base.JsSet.{has, IsDistinct}
use light_oss.Base.Decimal.{decimal, decimal_inj}
use light_oss.Api.FolderUpload.{
  File, FolderUploadManifestItem, get_folder_relative_path, file_field_at, manifest_from,
  build_folder_upload_manifest,
}

append_inj : (s t u : Text) → s ++ t ≡ s ++ u → t ≡ u
append_inj [] t u e = e
append_inj (c ∷ s) t u e = append_inj s t u (cc e)

file_field_at_inj : (m n : ℕ) → file_field_at m ≡ file_field_at n → m ≡ n
unfolding file_field_at
file_field_at_inj m n e = decimal_inj m n (append_inj (codes "file_") (decimal m) (decimal n) e)

abbrev pub fields_of : List FolderUploadManifestItem → List Text
fields_of [] = []
fields_of (item ∷ items) = item.file_field ∷ fields_of items

-- A manifest of a file and more is an item and the manifest of the others.
manifest_cons :
    (index : ℕ) (file : File) (files : List File) (items : List FolderUploadManifestItem)
    → manifest_from index (file ∷ files) ≡ some items
    → (path : Text) × (rest : List FolderUploadManifestItem) × (manifest_from (index + 1) files
        ≡ some rest)
      × (items ≡ record { file_field = file_field_at index; relative_path = path } ∷ rest)
unfolding manifest_from
manifest_cons index file files items e = elim (Option-cases (get_folder_relative_path file)) [
  | inl thrown ↦ cc (rw thrown at e)
  | inr (path, got) ↦ elim (Option-cases (manifest_from (index + 1) files)) [
    | inl failed ↦ cc (rw failed at (rw got at e))
    | inr (rest, more) ↦ (path, rest, more, cc (rw more at (rw got at e)))
  ]
]

manifest_nil :
    (index : ℕ) (items : List FolderUploadManifestItem)
    → manifest_from index [] ≡ some items
    → items ≡ []
unfolding manifest_from
manifest_nil index items e = cc e

-- No later file has the field of an earlier index.
fresh_field :
    (j index : ℕ) (files : List File) (items : List FolderUploadManifestItem)
    → j < index
    → manifest_from index files ≡ some items
    → has (file_field_at j) (fields_of items) ≡ false
fresh_field j index [] items h e = rw (manifest_nil index items e)
fresh_field j index (file ∷ files) items h e =
    let (path, rest, more, same) = manifest_cons index file files items e in
    let later : has (file_field_at j) (fields_of rest) ≡ false =
      fresh_field j (index + 1) files rest (omega arith) more in
    let apart : file_field_at index ≢ file_field_at j =
      λ k. absurd (omega (arith, file_field_at_inj index j k)) in
    rw same (
      ground (
        arith,
        text_eq_iff (file_field_at index) (file_field_at j),
        text_eq_iff (file_field_at j) (file_field_at index),
      ))

manifest_from-IsDistinct :
    (index : ℕ) (files : List File) (items : List FolderUploadManifestItem)
    → manifest_from index files ≡ some items
    → (length items ≡ length files) × IsDistinct (fields_of items)
manifest_from-IsDistinct index [] items e = rw (manifest_nil index items e) (refl, tt)
manifest_from-IsDistinct index (file ∷ files) items e =
    let (path, rest, more, same) = manifest_cons index file files items e in
    let (counted, distinct) = manifest_from-IsDistinct (index + 1) files rest more in
    rw same (
      omega (arith, counted),
      (fresh_field index (index + 1) files rest (omega arith) more, distinct),
    )

-- A manifest that can be made has one item for each file, and no field twice.
pub build_folder_upload_manifest-IsDistinct :
    (files : List File) (items : List FolderUploadManifestItem)
    → build_folder_upload_manifest files ≡ some items
    → (length items ≡ length files) × IsDistinct (fields_of items)
unfolding build_folder_upload_manifest
build_folder_upload_manifest-IsDistinct files items e = manifest_from-IsDistinct 0 files items e
