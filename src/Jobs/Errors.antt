-- ===== src/Jobs/Errors.antt =====
-- backend/src/modules/jobs/runner.ts: `classifyJobError`, `inferRetryableErrorCode` and
-- `defaultBackoffMs`.
pub mod Backoff
use personal_carbon_footprin.Prelude.{
  ℕ, ◌-◌, ◌*◌, ◌^◌, min, String, Bool, true, false, ◌||◌, ◌≡◌, refl, if◌then◌else◌, includes,
  to_lower_case, JsError, error, app_error, retryable_job_error, terminal_job_error, other,
}

pub record JobErrorDetails : Type 0 where
  pub code : String
  pub message : String
  pub retryable : Bool

abbrev pub details : String → String → Bool → JobErrorDetails
details code message retryable = record { code = code; message = message; retryable = retryable }

unfoldable pub infer_retryable_error_code : String → String
infer_retryable_error_code message =
    if includes message "metadata publish"
    then "metadata_publish_failed"
    else if includes message "confirmation"
    then "confirmation_timeout"
    else if includes message "unavailable" || includes message "429"
    then "rpc_unavailable"
    else "rpc_timeout"

unfoldable pub is_transient : String → Bool
is_transient message =
    includes message "timeout"
    || includes message "unavailable"
    || includes message "429"
    || includes message "metadata publish"
    || includes message "confirmation"

-- The branch for a plain `Error`.
unfoldable pub classify_message : String → JobErrorDetails
classify_message message =
    let normalized = to_lower_case message in
    if is_transient normalized
    then details (infer_retryable_error_code normalized) message true
    else details "job_execution_failed" message false

unfoldable pub classify_job_error : JsError → JobErrorDetails
classify_job_error (retryable_job_error code message) = details code message true
classify_job_error (terminal_job_error code message) = details code message false
classify_job_error (error message) = classify_message message
classify_job_error (app_error code status_code message) = classify_message message
classify_job_error other = details "job_execution_failed" "Unknown job execution failure." false

-- `Math.max(0, attemptNumber - 1)` is the truncated difference.
unfoldable pub default_backoff_ms : ℕ → ℕ
default_backoff_ms attempt_number = min 60000 (1000 * 2 ^ (attempt_number - 1))

transient_examples :
    (classify_job_error (error "RPC Timeout") ≡ details "rpc_timeout" "RPC Timeout" true)
    × (classify_job_error (error "HTTP 429") ≡ details "rpc_unavailable" "HTTP 429" true)
    × (classify_job_error (error "bad payload")
        ≡ details "job_execution_failed" "bad payload" false)
unfolding classify_job_error classify_message is_transient infer_retryable_error_code to_lower_case
    includes
transient_examples = (refl, refl, refl)
