-- ===== src/Api/Errors.antt =====
-- frontend/src/api/client.ts and objects.ts: what is thrown, and what the callers get to see of it.
pub mod Agreement
use light_oss.Base.{
  ℕ, Bool, true, false, Option, none, some, List, [], ◌∷◌, ◌==◌, if◌then◌else◌, or_else, is_empty,
}
use light_oss.Base.Text.{Text, codes}
use light_oss.Api.Types.{ApiEnvelope}

pub record ApiError : Type 0 where
  pub message : Text
  pub status : ℕ
  pub code : Option Text

-- The `error` of an answer, whose members may be missing.
pub record PartialError : Type 0 where
  pub message : Option Text
  pub code : Option Text

-- The body of an answer to a failed request. `blob` has what `JSON.parse` made of its text, and
-- `none` where reading that threw.
pub data Payload : Type 0 where
  object : Option PartialError → Payload
  blob : Option (Option PartialError) → Payload
  other : Payload

pub record Response : Type 0 where
  pub status : ℕ
  pub payload : Payload

pub data Thrown : Type 0 where
  axios_error : Option Response → Text → Thrown
  api_error : ApiError → Thrown
  plain_error : Text → Thrown
  other_value : Thrown

pub data Result {ℓ} (A : Type ℓ) : Type ℓ where
  returned : A → Result A
  threw : ApiError → Result A

abbrev status_of : Option Response → ℕ
status_of none = 500
status_of (some response) = response.status

-- `data?.error`; a text and a blob have no such member.
abbrev error_of : Option Response → Option PartialError
error_of none = none
error_of (some response) = elim response.payload [
  | object error ↦ error
  | blob text ↦ none
  | other ↦ none
]

abbrev message_of : Option PartialError → Text → Text
message_of none message = message
message_of (some error) message = or_else error.message message

abbrev code_of : Option PartialError → Option Text
code_of none = none
code_of (some error) = error.code

abbrev of_parts : Option PartialError → Text → ℕ → ApiError
of_parts error message status = record {
  message = message_of error message;
  status = status;
  code = code_of error;
}

abbrev plain : Text → ApiError
plain message = record { message = message; status = 500; code = none }

-- `normalizeApiError`; an `ApiError` is an `Error` like any other.
unfoldable pub normalize_api_error : Thrown → ApiError
normalize_api_error (axios_error response message) =
    of_parts (error_of response) message (status_of response)
normalize_api_error (api_error error) = plain error.message
normalize_api_error (plain_error message) = plain message
normalize_api_error other_value = plain (codes "Unknown error")

unfoldable pub normalize_request_error : Thrown → Text → ApiError
normalize_request_error (axios_error response message) fallback_message =
    of_parts (error_of response) message (status_of response)
normalize_request_error (api_error error) fallback_message = error
normalize_request_error (plain_error message) fallback_message = plain message
normalize_request_error other_value fallback_message = plain fallback_message

abbrev of_blob : Option (Option PartialError) → Text → ℕ → Text → ApiError
of_blob none message status fallback_message = record {
  message = if is_empty message then fallback_message else message;
  status = status;
  code = none;
}
of_blob (some error) message status fallback_message = of_parts error message status

abbrev of_response : Option Response → Text → Text → ApiError
of_response none message fallback_message = of_parts none message 500
of_response (some response) message fallback_message = elim response.payload [
  | object error ↦ of_parts error message response.status
  | blob text ↦ of_blob text message response.status fallback_message
  | other ↦ of_parts none message response.status
]

unfoldable pub normalize_blob_download_error : Thrown → Text → ApiError
normalize_blob_download_error (axios_error response message) fallback_message =
    of_response response message fallback_message
normalize_blob_download_error (api_error error) fallback_message = plain error.message
normalize_blob_download_error (plain_error message) fallback_message = plain message
normalize_blob_download_error other_value fallback_message = plain fallback_message

-- What axios made of a request: an answer, or a value thrown. `none` is the body "".
pub data Outcome {ℓ} (T : Type ℓ) : Type ℓ where
  answered : (status : ℕ) → Option (ApiEnvelope T) → Outcome T
  failed : Thrown → Outcome T

-- The envelope, of which the payload may be undefined.
pub record Envelope {ℓ} (T : Type ℓ) : Type ℓ where
  pub request_id : Text
  pub payload : Option T

abbrev no_content {ℓ} : {T : Type ℓ} → Envelope T
no_content = record { request_id = []; payload = none }

abbrev enveloped {ℓ} : {T : Type ℓ} → Option (ApiEnvelope T) → Envelope T
enveloped none = no_content
enveloped (some envelope) = record {
  request_id = envelope.request_id;
  payload = some envelope.payload;
}

unfoldable pub api_envelope_request {ℓ} : {T : Type ℓ} → Outcome T → Result (Envelope T)
unfolding normalize_api_error
api_envelope_request (answered status body) =
    returned (if status == 204 then no_content else enveloped body)
api_envelope_request (failed thrown) = threw (normalize_api_error thrown)

unfoldable pub api_request {ℓ} : {T : Type ℓ} → Outcome T → Result (Option T)
unfolding api_envelope_request
api_request outcome = elim (api_envelope_request outcome) [
  | returned envelope ↦ returned envelope.payload
  | threw error ↦ threw error
]

abbrev is_not_found : Thrown → Bool
is_not_found (axios_error (some response) message) = response.status == 404
is_not_found _ = false

-- `checkObjectExists`, whose answer has no body that it reads.
unfoldable pub check_object_exists {ℓ} : {T : Type ℓ} → Outcome T → Result Bool
unfolding normalize_request_error
check_object_exists (answered status body) = returned true
check_object_exists (failed thrown) =
    if is_not_found thrown
    then returned false
    else threw (normalize_request_error thrown (codes "Failed to check object existence"))
