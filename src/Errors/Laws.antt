-- ===== src/Errors/Laws.antt =====
-- How a reason and a status pass through wrapped errors.
use perses_operator.Prelude.{ℕ, String, ◌≡◌, refl, true, ◌↔◌, ◌≤◌, ◌<◌, arith, List, [], ◌∷◌}
use perses_operator.Errors.{
  Error, wrapped, request_error, ConditionStatusReason, new_reason_error, extract_reason,
  is_client_error,
}

-- An error that was wrapped by fmt.Errorf any number of times on its way up.
abbrev pub wrapped_by : List String → Error → Error
wrapped_by [] err = err
wrapped_by (msg ∷ msgs) err = wrapped msg (wrapped_by msgs err)

-- The reason given to an error by NewReasonError is the one that ExtractReason returns, whatever the
-- fallback, whatever reasons were given before, and however often it was wrapped after.
pub extract_reason-new_reason_error :
    (msgs : List String) (err : Error) (reason fallback : ConditionStatusReason)
    → extract_reason (wrapped_by msgs (new_reason_error err reason)) fallback ≡ reason
unfolding extract_reason
extract_reason-new_reason_error [] err reason fallback = refl
extract_reason-new_reason_error (msg ∷ msgs) err reason fallback =
    extract_reason-new_reason_error msgs err reason fallback

-- A request error counts as the client's fault exactly when its status is in 400..499, however often
-- it was wrapped, and also behind a reason.
pub is_client_error_iff :
    (msgs : List String) (status : ℕ) (cause : Error) (reason : ConditionStatusReason)
    → (is_client_error (wrapped_by msgs (new_reason_error (request_error status cause) reason))
        ≡ true)
      ↔ ((400 ≤ status) × (status < 500))
unfolding is_client_error
is_client_error_iff [] status cause reason = (λ h. ground arith, λ h. ground arith)
is_client_error_iff (msg ∷ msgs) status cause reason = is_client_error_iff msgs status cause reason
