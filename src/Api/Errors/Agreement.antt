-- ===== src/Api/Errors/Agreement.antt =====
-- The three ways of reading an error, and the check of a key.
use light_oss.Base.{ℕ, ◌≡◌, refl, ◌↔◌, Bool, true, false, Option, none, some, arith, ==_iff}
use light_oss.Base.Text.{Text}
use light_oss.Api.Errors.{
  PartialError, Payload, object, blob, Thrown, axios_error, api_error, plain_error, other_value,
  Result, returned, threw, normalize_api_error, normalize_request_error,
  normalize_blob_download_error, failed, check_object_exists,
}

module _ (status : ℕ) (error : Option PartialError) (message fallback_message : Text) where
  abbrev pub answer : Payload → Thrown
  answer payload = axios_error (some (record { status = status; payload = payload })) message

  -- For an answer of the server, the three functions that read errors agree on the error object,
  -- be it an object or the JSON of a blob, and give the status of the answer.
  pub normalize-agree :
      (normalize_request_error (answer (object error)) fallback_message
        ≡ normalize_api_error (answer (object error)))
      × (normalize_blob_download_error (answer (object error)) fallback_message
          ≡ normalize_api_error (answer (object error)))
      × (normalize_blob_download_error (answer (blob (some error))) fallback_message
          ≡ normalize_api_error (answer (object error)))
      × ((normalize_api_error (answer (object error))).status ≡ status)
  unfolding normalize_request_error normalize_api_error normalize_blob_download_error
  normalize-agree = (refl, refl, refl, refl)

-- The answer to the check was that there is nothing.
abbrev pub IsNotFound : Thrown → Type 0
IsNotFound (axios_error (some response) message) = response.status ≡ 404
IsNotFound (axios_error none message) = ⊥
IsNotFound (api_error error) = ⊥
IsNotFound (plain_error message) = ⊥
IsNotFound other_value = ⊥

abbrev pub fails {ℓ} : {A : Type ℓ} → Result A → Bool
fails (returned a) = false
fails (threw error) = true

-- Where the request that checks a key throws, the check says that the key is missing exactly when
-- the server answered with status 404, and throws exactly when it did not.
pub check_object_exists_iff {ℓ} :
    (T : Type ℓ) (thrown : Thrown)
    → ((check_object_exists {T = T} (failed thrown) ≡ returned false) ↔ IsNotFound thrown)
      × ((fails (check_object_exists {T = T} (failed thrown)) ≡ true) ↔ (IsNotFound thrown → ⊥))
unfolding check_object_exists
check_object_exists_iff T (axios_error (some response) message) =
    ground (arith, ==_iff response.status 404)
check_object_exists_iff T (axios_error none message) = ground arith
check_object_exists_iff T (api_error error) = ground arith
check_object_exists_iff T (plain_error message) = ground arith
check_object_exists_iff T other_value = ground arith
