-- ===== src/ControlPlane/Errors.antt =====
-- services/control-plane-api/src/errors.ts: the errors that the routes throw.
use ai_digital_office_os.Prelude.{false}
use ai_digital_office_os.Failure.{Failure, api_error, validation_error, policy_error}

abbrev pub validation : Failure
validation =
    api_error (record { http_status = 400; error_code = validation_error; retryable = false })

abbrev pub not_found : Failure
not_found =
    api_error (record { http_status = 404; error_code = validation_error; retryable = false })

abbrev pub conflict : Failure
conflict =
    api_error (record { http_status = 409; error_code = validation_error; retryable = false })

abbrev pub policy_denied : Failure
policy_denied =
    api_error (record { http_status = 403; error_code = policy_error; retryable = false })
