-- ===== src/Api/Requests.antt =====
-- frontend/src/api/client.ts, buckets.ts, health.ts and system.ts: requests, and what the client
-- adds to them. A request is the value that is handed to axios; `none` is the exception of
-- `encodeURIComponent`.
pub mod Headers
use light_oss.Base.{
  ℕ, Bool, true, false, not, ◌&&◌, ◌||◌, Option, none, some, List, [], ◌∷◌, ◌++◌, ◌==◌,
  if◌then◌else◌, or_else, is_empty,
}
use light_oss.Base.Text.{Text, codes, text_eq, is_slash, strip_end, trim}
use light_oss.Api.Types.{DeleteExplorerEntriesBatchItem, CreateSiteRequest}
use light_oss.Api.Encoding.{encode_uri_component}
use light_oss.Api.FolderUpload.{File, FolderUploadManifestItem}
use mathlib.Core.Option

pub record AppSettings : Type 0 where
  pub api_base_url : Text
  pub bearer_token : Text

pub data Method : Type 0 where
  get_method head_method post_method put_method patch_method delete_method : Method

pub data Value : Type 0 where
  text : Text → Value
  number : ℕ → Value
  flag : Bool → Value
  texts : List Text → Value
  numbers : List ℕ → Value
  entries : List DeleteExplorerEntriesBatchItem → Value

-- A part of a form: a text, the JSON of a value, or a file with its name.
pub data Part : Type 0 where
  text_part : Text → Part
  json_texts : List Text → Part
  json_manifest : List FolderUploadManifestItem → Part
  file_part : File → Text → Part

pub data Body : Type 0 where
  empty_body : Body
  json_body : List (Text × Value) → Body
  site_body : CreateSiteRequest → Body
  form_body : List (Text × Part) → Body
  file_body : File → Body

-- A parameter that is undefined is `none`. The timeout is in milliseconds, where 0 is none.
pub record RequestConfig : Type 0 where
  pub method : Method
  pub url : Text
  pub params : List (Text × Option Value)
  pub timeout : ℕ
  pub body : Body
  pub headers : List (Text × Text)

abbrev pub request : Method → Text → RequestConfig
request method url = record {
  method = method;
  url = url;
  params = [];
  timeout = 15000;
  body = empty_body;
  headers = [];
}

-- `value || undefined`
abbrev pub or_undefined : Text → Option Value
or_undefined value = if is_empty value then none else some (text value)

abbrev pub buckets_path : Text
buckets_path = codes "/api/v1/buckets"

-- A path below the one of a bucket.
unfoldable pub bucket_url : Text → Text → Option Text
bucket_url bucket tail =
    Option.map (λ name. buckets_path ++ codes "/" ++ name ++ tail) (encode_uri_component bucket)

-- `normalizeBaseUrl`
unfoldable pub normalize_base_url : Text → Text
normalize_base_url url = strip_end is_slash (trim url)

abbrev pub header : Text → List (Text × Text) → Option Text
header k [] = none
header k ((j, v) ∷ hs) = if text_eq j k then some v else header k hs

abbrev pub assign : Text → Text → List (Text × Text) → List (Text × Text)
assign k v [] = (k, v) ∷ []
assign k v ((j, w) ∷ hs) =
    let rest = assign k v hs in if text_eq j k then (k, v) ∷ hs else (j, w) ∷ rest

abbrev pub authorized : Text → List (Text × Text) → List (Text × Text)
authorized bearer_token hs =
    if is_empty (trim bearer_token)
    then hs
    else assign (codes "Authorization") (codes "Bearer " ++ trim bearer_token) hs

-- `random_uuid` is what `crypto.randomUUID` returns, where there is one.
abbrev pub identified : Option Text → List (Text × Text) → List (Text × Text)
identified none hs = hs
identified (some random_uuid) hs =
    if is_empty (or_else (header (codes "X-Request-ID") hs) [])
    then assign (codes "X-Request-ID") random_uuid hs
    else hs

-- The interceptor of `createApiClient`.
unfoldable pub intercept : AppSettings → Option Text → RequestConfig → RequestConfig
intercept settings random_uuid config = record config {
  headers = identified random_uuid (authorized settings.bearer_token config.headers);
}

unfoldable pub list_buckets : Option Text → RequestConfig
list_buckets search =
    let trimmed = trim (or_else search []) in
    record (request get_method buckets_path) {
      params = if is_empty trimmed then [] else (codes "search", some (text trimmed)) ∷ [];
    }

unfoldable pub create_bucket : Text → RequestConfig
create_bucket name = record (request post_method buckets_path) {
  body = json_body ((codes "name", text name) ∷ []);
}

unfoldable pub delete_bucket : Text → Option RequestConfig
unfolding bucket_url
delete_bucket bucket_name = Option.map (request delete_method) (bucket_url bucket_name [])

unfoldable pub get_health_status : RequestConfig
get_health_status = request get_method (codes "/api/v1/healthz")

-- The `validateStatus` of `getHealthStatus`.
unfoldable pub is_health_answer : ℕ → Bool
is_health_answer status = status == 200 || status == 503

unfoldable pub get_system_stats : RequestConfig
get_system_stats = request get_method (codes "/api/v1/system/stats")

unfoldable pub update_storage_quota : ℕ → RequestConfig
update_storage_quota max_bytes =
    record (request put_method (codes "/api/v1/system/storage/quota")) {
      body = json_body ((codes "max_bytes", number max_bytes) ∷ []);
    }
