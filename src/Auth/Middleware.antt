-- ===== src/Auth/Middleware.antt =====
-- middleware.ts: the middleware that any service may use. What it does with a request is to pass it
-- on with a principal, to answer it, or to pass an error to the next handler.
use ai_digital_office_os.Prelude.{
  ℕ, String, Option, none, some, List, [], ◌∷◌, if◌then◌else◌, trim_text, after_prefix,
}
use ai_digital_office_os.Failure.{
  Failure, auth_error, AuthErrorCode, token_missing, insufficient_scope, Result, ok, err,
}
use ai_digital_office_os.Auth.{
  AuthenticatedPrincipal, JwtVerify, AuthConfig, verify, filled, has_all_scopes,
}

pub data HeaderValue : Type 0 where
  single : String → HeaderValue
  several : List String → HeaderValue

abbrev pub Headers : Type 0
Headers = String → Option HeaderValue

pub data Handled : Type 0 where
  passed : AuthenticatedPrincipal → Handled
  answered : (status : ℕ) (code : AuthErrorCode) → Handled
  failed : Failure → Handled

-- `Array.isArray(header) ? header[0] : header`
abbrev pub first_value : Option HeaderValue → Option String
first_value none = none
first_value (some (single value)) = some value
first_value (some (several [])) = none
first_value (some (several (value ∷ rest))) = some value

-- `req.headers["authorization"] ?? req.headers["Authorization"]`
abbrev pub authorization : Headers → Option HeaderValue
authorization headers = elim (headers "authorization") [
  | some value ↦ some value
  | none ↦ headers "Authorization"
]

-- `value.startsWith("Bearer ")` and the rest of it
abbrev pub bearer : Option String → Option String
bearer none = none
bearer (some value) = after_prefix "Bearer " value

abbrev pub trimmed : Option String → Option String
trimmed none = none
trimmed (some rest) = filled (some (trim_text rest))

unfoldable pub extract_bearer_token : Headers → Option String
extract_bearer_token headers = trimmed (bearer (first_value (authorization headers)))

-- the `try` and its `catch`
abbrev pub after_verify : Result AuthenticatedPrincipal → Handled
after_verify (ok principal) = passed principal
after_verify (err (auth_error code)) = answered 401 code
after_verify (err e) = failed e

-- once the token is extracted
abbrev pub checked : JwtVerify → AuthConfig → Option String → Handled
checked jwt_verify config none = answered 401 token_missing
checked jwt_verify config (some token) = after_verify (verify jwt_verify config token)

unfoldable pub require_auth : JwtVerify → AuthConfig → Headers → Handled
require_auth jwt_verify config headers = checked jwt_verify config (extract_bearer_token headers)

unfoldable pub require_scopes : List String → Option AuthenticatedPrincipal → Handled
require_scopes scopes none = answered 401 token_missing
require_scopes scopes (some principal) =
    if has_all_scopes principal scopes then passed principal else answered 403 insufficient_scope
