-- ===== src/ControlPlane/Middleware.antt =====
-- services/control-plane-api/src: auth-middleware.ts, requireIdempotencyKey of idempotency.ts,
-- withRequestTenant of db.ts and the error handler of errors.ts. The header that Express gives is an
-- argument, as is the principal that the context of the request holds.
pub mod Agreement
mod Tests
use ai_digital_office_os.Prelude.{
  String, Bool, true, false, not, ◌||◌, Option, none, some, List, [], ◌∷◌, any, filter, ◌==◌,
  if◌then◌else◌, trim_text,
}
use ai_digital_office_os.Failure.{
  Failure, auth_error, api_error, other_error, ApiError, authorization_error, validation_error,
  unknown_error, Result, ok, err,
}
use ai_digital_office_os.Db.{Action, require, ◌>>=◌, with_tenant_transaction}
use ai_digital_office_os.Auth.Middleware.{bearer}
use ai_digital_office_os.Auth.{
  AuthenticatedPrincipal, JwtVerify, AuthConfig, verify, filled, current_tenant_id,
}

-- `next()`, an error's answer, or `next(err)`
pub data Handled {ℓ} (A : Type ℓ) : Type ℓ where
  passed : A → Handled A
  answered : ApiError → Handled A
  failed : Failure → Handled A

abbrev pub unauthorized : ApiError
unauthorized = record { http_status = 401; error_code = authorization_error; retryable = false }

abbrev pub forbidden : ApiError
forbidden = record { http_status = 403; error_code = authorization_error; retryable = false }

abbrev pub after_verify : Result AuthenticatedPrincipal → Handled AuthenticatedPrincipal
after_verify (ok principal) = passed principal
after_verify (err (auth_error code)) = answered unauthorized
after_verify (err e) = failed e

-- with what follows "Bearer " in the header
abbrev pub authenticate : JwtVerify → AuthConfig → Option String → Handled AuthenticatedPrincipal
authenticate jwt_verify config none = answered unauthorized
authenticate jwt_verify config (some rest) =
    after_verify (verify jwt_verify config (trim_text rest))

unfoldable pub require_auth :
    JwtVerify → AuthConfig → Option String → Handled AuthenticatedPrincipal
require_auth jwt_verify config header = authenticate jwt_verify config (bearer header)

abbrev pub missing_scopes : List String → AuthenticatedPrincipal → List String
missing_scopes scopes principal =
    filter (λ scope. not (any (λ s. s == scope) principal.scopes)) scopes

abbrev pub is_empty : List String → Bool
is_empty [] = true
is_empty (s ∷ rest) = false

unfoldable pub require_scopes :
    List String → Option AuthenticatedPrincipal → Handled AuthenticatedPrincipal
require_scopes scopes none = answered unauthorized
require_scopes scopes (some principal) =
    if is_empty (missing_scopes scopes principal) then passed principal else answered forbidden

-- STATE_CHANGING_METHODS
abbrev pub changes_state : String → Bool
changes_state method = method == "POST" || method == "PATCH" || method == "DELETE"

abbrev pub key_missing : ApiError
key_missing = record { http_status = 400; error_code = validation_error; retryable = false }

-- passes on the key that the request is given, if any
unfoldable pub require_idempotency_key : String → Option String → Handled (Option String)
require_idempotency_key method key =
    if changes_state method
    then elim (filled key) [ none ↦ answered key_missing | some k ↦ passed (some k) ]
    else passed none

module _ {ℓ} {A : Type ℓ} where
  unfoldable pub with_request_tenant :
      Option AuthenticatedPrincipal → (String → Action A) → Action A
  with_request_tenant context fn = do
    tenant_id ← require (filled (current_tenant_id context)) other_error
    with_tenant_transaction tenant_id fn

-- errorHandler: what the request is answered
unfoldable pub error_handler : Failure → ApiError
error_handler (api_error e) = e
error_handler _ = record { http_status = 500; error_code = unknown_error; retryable = true }
