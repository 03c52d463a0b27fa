-- ===== src/Api/Tests.antt =====
-- The theorems on requests and answers at concrete values.
use light_oss.Base.{ℕ, ◌≡◌, ◌↔◌, refl, true, false, Option, none, some, List, [], ◌∷◌, All, arith}
use light_oss.Base.Text.{Text, codes, slash, trim, text_key}
use light_oss.Base.Split.{split, join}
use light_oss.Api.Types.{ok, HealthStatusResult}
use light_oss.Api.Encoding.{
  encode_from, encode_object_key_segment, encode_segments, encode_object_key,
}
use light_oss.Api.Encoding.Wire.{IsUnit}
use light_oss.Api.Encoding.Keys.{IsPathUnit, encode_object_key-split}
use light_oss.Api.Errors.{
  PartialError, object, Thrown, axios_error, returned, failed, check_object_exists,
}
use light_oss.Api.Errors.Agreement.{IsNotFound, fails, check_object_exists_iff}
use light_oss.Base.Decimal.{digits, decimal}
use light_oss.Api.FolderUpload.{
  File, FolderUploadManifestItem, get_folder_relative_path, file_field_at, manifest_from,
  build_folder_upload_manifest,
}
use light_oss.Api.Requests.{AppSettings}
use light_oss.Api.Health.{HealthError}
use light_oss.Explorer.Segments.{IsSegment}

abbrev dotted : Text
dotted = codes "docs/a.b"

abbrev dotted_path : Text
dotted_path = codes "docs/a%2Eb"

dotted_encoded : encode_object_key dotted ≡ some dotted_path
unfolding encode_object_key encode_segments encode_object_key_segment encode_from split join
dotted_encoded = refl

dotted_units : All IsUnit dotted
dotted_units = ground arith

encode_object_key-split_example :
    (encode_segments (split slash dotted) ≡ some (split slash dotted_path))
    × All IsPathUnit dotted_path
encode_object_key-split_example =
    encode_object_key-split dotted dotted_path dotted_units dotted_encoded

docs_segments : All IsSegment (codes "docs" ∷ codes "old" ∷ [])
docs_segments = ground arith

abbrev conflict : Option PartialError
conflict = some (record { message = some (codes "exists"); code = some (codes "object_exists") })

abbrev missing : Thrown
missing = axios_error (some (record { status = 404; payload = object none })) (codes "failed")

check_object_exists_iff_example :
    ((check_object_exists {T = ℕ} (failed missing) ≡ returned false) ↔ IsNotFound missing)
    × ((fails (check_object_exists {T = ℕ} (failed missing)) ≡ true) ↔ (IsNotFound missing → ⊥))
check_object_exists_iff_example = check_object_exists_iff ℕ missing

abbrev page_file : Text → File
page_file path = record { name = codes "a"; content_type = []; webkit_relative_path = some path }

abbrev site_files : List File
site_files = page_file (codes "site/a") ∷ page_file (codes "site/b") ∷ []

abbrev site_items : List FolderUploadManifestItem
site_items =
    record { file_field = codes "file_0"; relative_path = codes "site/a" }
    ∷ record { file_field = codes "file_1"; relative_path = codes "site/b" }
    ∷ []

site_manifest : build_folder_upload_manifest site_files ≡ some site_items
unfolding build_folder_upload_manifest manifest_from get_folder_relative_path file_field_at decimal
    digits trim
site_manifest = refl

abbrev settings : AppSettings
settings = record { api_base_url = codes "http://a"; bearer_token = codes " secret " }

abbrev healthy : HealthStatusResult
healthy = record { status = record { service = ok; db = ok }; version = codes "1" }

abbrev no_failure : Option HealthError
no_failure = none
