-- ===== src/Api/Requests/Headers.antt =====
-- The headers that a request is sent with.
use light_oss.Base.{
  ◌≡◌, refl, ◌∙◌, not, ◌&&◌, some, List, [], ◌∷◌, ◌++◌, if◌then◌else◌, or_else, is_empty, arith,
  Bool-cases, inl, inr,
}
use light_oss.Base.Text.{Text, codes, text_eq, text_eq_iff, trim}
use light_oss.Api.Requests.{
  AppSettings, RequestConfig, header, assign, authorized, identified, intercept,
}

header-assign :
    (k j v : Text) (hs : List (Text × Text))
    → header j (assign k v hs) ≡ (if text_eq k j then some v else header j hs)
header-assign k j v [] = refl
header-assign k j v ((i, w) ∷ hs) =
    ground (arith, header-assign k j v hs, text_eq_iff i k, text_eq_iff i j, text_eq_iff k j)

abbrev pub authorization : Text
authorization = codes "Authorization"

abbrev pub request_id : Text
request_id = codes "X-Request-ID"

header-authorized :
    (token name : Text) (hs : List (Text × Text))
    → header name (authorized token hs) ≡ (
        if text_eq authorization name && not (is_empty (trim token))
        then some (codes "Bearer " ++ trim token)
        else header name hs)
header-authorized token name hs = elim (Bool-cases (is_empty (trim token))) [
  | inl none_given ↦ rw none_given (elim (Bool-cases (text_eq authorization name)) [
    | inl same ↦ rw same refl
    | inr apart ↦ rw apart refl
  ])
  | inr given ↦ rw given (
      header-assign authorization name (codes "Bearer " ++ trim token) hs
      ∙ (elim (Bool-cases (text_eq authorization name)) [
        | inl same ↦ rw same refl
        | inr apart ↦ rw apart refl
      ]))
]

header-identified :
    (random_uuid name : Text) (hs : List (Text × Text))
    → header name (identified (some random_uuid) hs) ≡ (
        if text_eq request_id name && is_empty (or_else (header request_id hs) [])
        then some random_uuid
        else header name hs)
header-identified random_uuid name hs =
    elim (Bool-cases (is_empty (or_else (header request_id hs) []))) [
      | inl absent ↦ rw absent (
          header-assign request_id name random_uuid hs
          ∙ (elim (Bool-cases (text_eq request_id name)) [
            | inl same ↦ rw same refl
            | inr apart ↦ rw apart refl
          ]))
      | inr present ↦ rw present (elim (Bool-cases (text_eq request_id name)) [
        | inl same ↦ rw same refl
        | inr apart ↦ rw apart refl
      ])
    ]

-- Given a random id, a request is sent with that id if it had none, with the trimmed token if
-- that is not empty, and with its other headers as they were.
pub header-intercept :
    (settings : AppSettings) (random_uuid : Text) (config : RequestConfig) (name : Text)
    → header name (intercept settings (some random_uuid) config).headers ≡ (
        if text_eq request_id name && is_empty (or_else (header request_id config.headers) [])
        then some random_uuid
        else if text_eq authorization name && not (is_empty (trim settings.bearer_token))
        then some (codes "Bearer " ++ trim settings.bearer_token)
        else header name config.headers)
unfolding intercept
header-intercept settings random_uuid config name =
    let kept : header request_id (authorized settings.bearer_token config.headers)
        ≡ header request_id config.headers =
      header-authorized settings.bearer_token request_id config.headers in
    header-identified random_uuid name (authorized settings.bearer_token config.headers)
    ∙ rw kept (rw (header-authorized settings.bearer_token name config.headers) refl)
