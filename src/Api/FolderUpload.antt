-- ===== src/Api/FolderUpload.antt =====
-- frontend/src/lib/folder-upload.ts: the relative paths of an uploaded folder and its manifest.
pub mod Manifest
use light_oss.Base.{
  ℕ, zero, suc, ◌+◌, ◌/◌, ◌%◌, Bool, Option, none, some, List, [], ◌∷◌, ◌++◌, ◌==◌, ltb, map,
  if◌then◌else◌, or_else, is_empty,
}
use light_oss.Base.Text.{Text, codes, slash, is_slash, strip_start, trim, ends_in}
use light_oss.Base.Decimal.{decimal}
use light_oss.Base.Split.{split}
use mathlib.Core.Option

pub record File : Type 0 where
  pub name : Text
  pub content_type : Text
  pub webkit_relative_path : Option Text

pub record FolderUploadManifestItem : Type 0 where
  pub file_field : Text
  pub relative_path : Text

-- `.replace(/\\/g, "/")`
abbrev pub to_slashes : Text → Text
to_slashes [] = []
to_slashes (c ∷ s) = (if c == 92 then slash else c) ∷ to_slashes s

-- `none` is the exception.
unfoldable pub get_folder_relative_path : File → Option Text
get_folder_relative_path file =
    let normalized_path =
      trim (strip_start is_slash (to_slashes (or_else file.webkit_relative_path []))) in
    if is_empty normalized_path then none else some normalized_path

unfoldable pub file_field_at : ℕ → Text
unfolding decimal
file_field_at index = codes "file_" ++ decimal index

abbrev pub cons_item :
    Text
    → Option Text
    → Option (List FolderUploadManifestItem)
    → Option (List FolderUploadManifestItem)
cons_item field none items = none
cons_item field (some path) none = none
cons_item field (some path) (some items) =
    some (record { file_field = field; relative_path = path } ∷ items)

-- The callback of `files.map`, from an index on.
unfoldable pub manifest_from : ℕ → List File → Option (List FolderUploadManifestItem)
unfolding get_folder_relative_path file_field_at
manifest_from index [] = some []
manifest_from index (file ∷ files) =
    cons_item (file_field_at index) (get_folder_relative_path file)
      (manifest_from (index + 1) files)

unfoldable pub build_folder_upload_manifest : List File → Option (List FolderUploadManifestItem)
unfolding manifest_from
build_folder_upload_manifest files = manifest_from 0 files

abbrev first_of : List Text → Text
first_of [] = []
first_of (w ∷ ws) = w

unfoldable pub get_folder_upload_top_level_name : List File → Option Text
unfolding get_folder_relative_path
get_folder_upload_top_level_name [] = some []
get_folder_upload_top_level_name (first_file ∷ files) =
    Option.map (λ path. trim (first_of (split slash path))) (get_folder_relative_path first_file)

unfoldable pub normalize_folder_upload_parent_prefix : Text → Text
normalize_folder_upload_parent_prefix value =
    let normalized = trim (strip_start is_slash (to_slashes value)) in
    if is_empty normalized
    then []
    else if ends_in is_slash normalized
    then normalized
    else normalized ++ slash ∷ []
