-- ===== src/Auth.antt =====
-- packages/auth/src: the principal (claims.ts), the verification of a token (verifier.ts), the
-- middleware (middleware.ts) and the principal of the current request (tenant-context.ts). The
-- parameter `jwt_verify` is jose's jwtVerify with the keys that it resolves, whose payload has the
-- claims that jose's JWTPayload types; what the storage of the async context holds is an argument.
pub mod Claims
pub mod Middleware
pub mod Tests
use ai_digital_office_os.Prelude.{
  ℕ, ◌*◌, String, Bool, true, false, not, ◌&&◌, Option, none, some, List, [], ◌∷◌, all, any, eqb,
  ◌==◌, if◌then◌else◌, split_spaces,
}
use ai_digital_office_os.Json.{Json, Fields, get}
use ai_digital_office_os.Failure.{
  Failure, auth_error, other_error, token_invalid, token_expired, claims_invalid, Result, ok, err,
  ◌>>=◌,
}

-- principalType, with the identifier that goes with it
pub data Identity : Type 0 where
  human : (user_id : String) → Identity
  service : (service_id : String) → Identity

-- times are in milliseconds
pub record AuthenticatedPrincipal : Type 0 where
  pub subject : String
  pub tenant_id : String
  pub scopes : List String
  pub issuer : String
  pub audience : String
  pub expires_at : ℕ
  pub issued_at : ℕ
  pub identity : Identity

unfoldable pub has_scope : AuthenticatedPrincipal → String → Bool
has_scope principal scope = any (λ s. s == scope) principal.scopes

unfoldable pub has_all_scopes : AuthenticatedPrincipal → List String → Bool
has_all_scopes principal scopes = all (has_scope principal) scopes

pub record AuthConfig : Type 0 where
  pub issuer : String
  pub audience : String
  pub jwks_uri : String
  pub clock_tolerance_seconds : ℕ

pub data Audience : Type 0 where
  one : String → Audience
  many : List String → Audience

-- jose's JWTPayload; `claims` are the claims that it does not name
pub record JwtPayload : Type 0 where
  pub sub : Option String
  pub iss : Option String
  pub aud : Option Audience
  pub exp : Option ℕ
  pub iat : Option ℕ
  pub claims : Fields

-- what jwtVerify does: JWTExpired is told from its other errors
pub data Verification : Type 0 where
  verified : JwtPayload → Verification
  expired : Verification
  rejected : Verification

abbrev pub JwtVerify : Type 0
JwtVerify = AuthConfig → String → Verification

abbrev pub or_empty : Option String → String
or_empty none = ""
or_empty (some s) = s

-- a string that is not empty
abbrev pub filled : Option String → Option String
filled none = none
filled (some s) = if s == "" then none else some s

-- `typeof value === "string" && value.length > 0`
abbrev pub filled_text : Option Json → Option String
filled_text (some (Json.str s)) = filled (some s)
filled_text _ = none

abbrev pub text_claim : String → JwtPayload → Option String
text_claim name payload = filled_text (get name payload.claims)

abbrev pub required : Option String → Result String
required none = err (auth_error claims_invalid)
required (some s) = ok s

abbrev pub scopes_of : Option String → List String
scopes_of none = []
scopes_of (some s) = split_spaces s

abbrev pub first_or_empty : List String → String
first_or_empty [] = ""
first_or_empty (s ∷ rest) = s

-- `Array.isArray(payload.aud) ? (payload.aud[0] ?? "") : (payload.aud ?? "")`
abbrev pub audience_of : Option Audience → String
audience_of none = ""
audience_of (some (one s)) = s
audience_of (some (many list)) = first_or_empty list

-- `seconds ? new Date(seconds * 1000) : new Date(0)`
abbrev pub date_of : Option ℕ → ℕ
date_of none = 0
date_of (some seconds) = seconds * 1000

-- the type, and the identifier that it asks for
abbrev pub identity_of : JwtPayload → Option String → Result Identity
identity_of payload none = err (auth_error claims_invalid)
identity_of payload (some kind) =
    if kind == "human"
    then required (text_claim "user_id" payload) >>= (λ id. ok (human id))
    else if kind == "service"
    then required (text_claim "service_id" payload) >>= (λ id. ok (service id))
    else err (auth_error claims_invalid)

unfoldable pub to_principal : JwtPayload → Result AuthenticatedPrincipal
to_principal payload = required (filled payload.sub) >>= λ subject.
    required (text_claim "tenant_id" payload) >>= λ tenant_id.
    identity_of payload (text_claim "principal_type" payload) >>= λ identity. ok (record {
      subject = subject;
      tenant_id = tenant_id;
      scopes = scopes_of (text_claim "scope" payload);
      issuer = or_empty payload.iss;
      audience = audience_of payload.aud;
      expires_at = date_of payload.exp;
      issued_at = date_of payload.iat;
      identity = identity;
    })

abbrev pub accept : Verification → Result AuthenticatedPrincipal
accept (verified payload) = to_principal payload
accept expired = err (auth_error token_expired)
accept rejected = err (auth_error token_invalid)

-- the `verify` of createTokenVerifier
unfoldable pub verify : JwtVerify → AuthConfig → String → Result AuthenticatedPrincipal
verify jwt_verify config token = accept (jwt_verify config token)

-- getCurrentTenantId, from what the storage holds
abbrev pub current_tenant_id : Option AuthenticatedPrincipal → Option String
current_tenant_id none = none
current_tenant_id (some principal) = some principal.tenant_id

abbrev pub require_current_principal : Option AuthenticatedPrincipal → Result AuthenticatedPrincipal
require_current_principal none = err other_error
require_current_principal (some principal) = ok principal
