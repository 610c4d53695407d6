-- ===== src/Errors.antt =====
-- The error values of the operator, and the tests on them: `ReasonError`, `ExtractReason` and
-- `IsClientError` of internal/perses/common/constants.go, beside the errors of the libraries that
-- the operator only inspects (`errors.Is`, `errors.As`, `apierrors.IsNotFound`).
pub mod Laws
use perses_operator.Prelude.{
  ℕ, String, Bool, true, false, ◌&&◌, Option, none, some, ltb, leb, if◌then◌else◌, ◌<>◌,
}

-- `ConditionStatusReason` is a text; these are its constants.
abbrev pub ConditionStatusReason : Type 0
ConditionStatusReason = String

abbrev pub reason_missing_perses : ConditionStatusReason
reason_missing_perses = "PersesMissing"

abbrev pub reason_connection_failed : ConditionStatusReason
reason_connection_failed = "PersesConnectionFailed"

abbrev pub reason_invalid_configuration : ConditionStatusReason
reason_invalid_configuration = "InvalidConfiguration"

abbrev pub reason_missing_resource : ConditionStatusReason
reason_missing_resource = "MissingResource"

abbrev pub reason_validation_failed : ConditionStatusReason
reason_validation_failed = "ValidationFailed"

abbrev pub reason_backend_error : ConditionStatusReason
reason_backend_error = "PersesBackendError"

-- What the API server's errors are told apart by.
pub data ApiStatus : Type 0 where
  not_found conflict other_status : ApiStatus

-- An `error`. `plain` is `fmt.Errorf` with no `%w`, `wrapped` one with `%w`; `request_not_found` is
-- the value `perseshttp.RequestNotFoundError`, `request_error` a `*perseshttp.RequestError` with its
-- status code and what it unwraps to, `api_error` an error of the API server.
pub data Error : Type 0 where
  plain : String → Error
  wrapped : String → Error → Error
  reason_error : Error → ConditionStatusReason → Error
  request_not_found : Error
  request_error : ℕ → Error → Error
  api_error : ApiStatus → String → Error

-- NewReasonError
abbrev pub new_reason_error : Error → ConditionStatusReason → Error
new_reason_error err reason = reason_error err reason

-- `errors.As(err, &re)` walks the chain of `Unwrap` to the first `ReasonError`.
as_reason_error : Error → Option (Error × ConditionStatusReason)
as_reason_error (reason_error e reason) = some (e, reason)
as_reason_error (wrapped _ e) = as_reason_error e
as_reason_error (request_error _ e) = as_reason_error e
as_reason_error (plain _) = none
as_reason_error request_not_found = none
as_reason_error (api_error _ _) = none

unfoldable pub extract_reason : Error → ConditionStatusReason → ConditionStatusReason
unfolding as_reason_error
extract_reason err fallback = elim (as_reason_error err) [
  | some (_, reason) ↦ reason
  | none ↦ fallback
]

-- `errors.As(err, &reqErr)`
as_request_error : Error → Option ℕ
as_request_error (request_error status _) = some status
as_request_error (wrapped _ e) = as_request_error e
as_request_error (reason_error e _) = as_request_error e
as_request_error (plain _) = none
as_request_error request_not_found = none
as_request_error (api_error _ _) = none

abbrev status_bad_request : ℕ
status_bad_request = 400

abbrev status_internal_server_error : ℕ
status_internal_server_error = 500

unfoldable pub is_client_error : Error → Bool
unfolding as_request_error
is_client_error err = elim (as_request_error err) [
  | some status ↦ leb status_bad_request status && ltb status status_internal_server_error
  | none ↦ false
]

-- `errors.Is(err, perseshttp.RequestNotFoundError)`
unfoldable pub is_request_not_found : Error → Bool
is_request_not_found request_not_found = true
is_request_not_found (wrapped _ e) = is_request_not_found e
is_request_not_found (reason_error e _) = is_request_not_found e
is_request_not_found (request_error _ e) = is_request_not_found e
is_request_not_found (plain _) = false
is_request_not_found (api_error _ _) = false

-- `apierrors.IsNotFound(err)`
unfoldable pub is_not_found : Error → Bool
is_not_found (api_error not_found _) = true
is_not_found (api_error _ _) = false
is_not_found (wrapped _ e) = is_not_found e
is_not_found (reason_error e _) = is_not_found e
is_not_found (request_error _ e) = is_not_found e
is_not_found (plain _) = false
is_not_found request_not_found = false
