-- ===== src/ControlPlane/Middleware/Agreement.antt =====
-- auth-middleware.ts against packages/auth/src/middleware.ts, and the session in which a request that
-- it lets pass runs.
use Prim.Native.String.{◌++◌ as concat}
use ai_digital_office_os.Prelude.{
  after_prefix_lem, ℕ, String, Bool, true, false, not, ◌≡◌, ◌≢◌, refl, ap, Option, none, some, List,
  [], ◌∷◌, arith, all, filter, Bool-cases, inl, inr, ◌==◌, if◌then◌else◌, eq_iff, trim_text,
}
use ai_digital_office_os.Failure.{Failure, auth_error, insufficient_scope, Result, ok, err}
use ai_digital_office_os.Schema.{Db}
use ai_digital_office_os.Db.{Action, ◌>>=◌, require, with_tenant_transaction}
use ai_digital_office_os.Auth.{
  AuthenticatedPrincipal, JwtVerify, JwtPayload, AuthConfig, verify, verified, rejected, filled,
  has_scope, has_all_scopes,
}
use ai_digital_office_os.Auth.Claims.{verify_rejected, verify_sound, Names}
use ai_digital_office_os.Auth.Middleware
use ai_digital_office_os.Auth.Middleware.{
  Headers, first_value, authorization, bearer, trimmed, extract_bearer_token,
}
use ai_digital_office_os.ControlPlane.Middleware.{
  Handled, passed, answered, failed, forbidden, after_verify, require_auth, require_scopes,
  missing_scopes, authenticate, is_empty, with_request_tenant,
}

-- What a middleware decides, the body of its answer apart.
pub data Decision : Type 0 where
  admits : AuthenticatedPrincipal → Decision
  refuses : (status : ℕ) → Decision
  fails : Failure → Decision

abbrev pub generic : Middleware.Handled → Decision
generic (Middleware.passed principal) = admits principal
generic (Middleware.answered status code) = refuses status
generic (Middleware.failed e) = fails e

abbrev pub adapted : Handled AuthenticatedPrincipal → Decision
adapted (passed principal) = admits principal
adapted (answered e) = refuses e.http_status
adapted (failed e) = fails e

after_verify-agrees :
    (r : Result AuthenticatedPrincipal)
    → generic (Middleware.after_verify r) ≡ adapted (after_verify r)
after_verify-agrees (ok principal) = refl
after_verify-agrees (err (auth_error code)) = refl
after_verify-agrees (err _) = refl

authenticate-agrees :
    (jwt_verify : JwtVerify) (config : AuthConfig) (rest : Option String)
    → jwt_verify config "" ≡ rejected
    → generic (Middleware.checked jwt_verify config (trimmed rest))
      ≡ adapted (authenticate jwt_verify config rest)
authenticate-agrees jwt_verify config none h = refl
authenticate-agrees jwt_verify config (some rest) h = elim (Bool-cases (trim_text rest == "")) [
  | inl bare ↦
      let same : trim_text rest ≡ "" = (eq_iff (trim_text rest) "").0 bare in
      rw (same, verify_rejected jwt_verify config "" h) refl
  | inr token ↦ rw token (after_verify-agrees (verify jwt_verify config (trim_text rest)))
]

-- For every request whose Authorization header has one value or none, the control plane's own
-- requireAuth and that of packages/auth admit the same principal, refuse with the same status or
-- pass on the same error, if jwtVerify rejects the empty token.
pub require_auth_agrees :
    (jwt_verify : JwtVerify) (config : AuthConfig) (headers : Headers) (value : Option String)
    → first_value (authorization headers) ≡ value
    → jwt_verify config "" ≡ rejected
    → generic (Middleware.require_auth jwt_verify config headers)
      ≡ adapted (require_auth jwt_verify config value)
unfolding Middleware.require_auth extract_bearer_token require_auth
require_auth_agrees jwt_verify config headers value given h =
    rw given (authenticate-agrees jwt_verify config (bearer value) h)

all-filter :
    (p : String → Bool) (scopes : List String)
    → all p scopes ≡ is_empty (filter (λ s. not (p s)) scopes)
all-filter p [] = refl
all-filter p (s ∷ rest) = ground (arith, all-filter p rest)

-- For every list of scopes and every context, the two requireScopes admit and refuse alike, though one
-- looks for all scopes and the other for one that is missing.
pub require_scopes_agrees :
    (scopes : List String) (context : Option AuthenticatedPrincipal)
    → generic (Middleware.require_scopes scopes context) ≡ adapted (require_scopes scopes context)
unfolding Middleware.require_scopes require_scopes has_all_scopes has_scope
require_scopes_agrees scopes none = refl
require_scopes_agrees scopes (some principal) =
    decides (has_all_scopes principal scopes) (is_empty (missing_scopes scopes principal))
      (all-filter (has_scope principal) scopes)
  where
    decides :
        (b c : Bool)
        → b ≡ c
        → generic
            (if b then Middleware.passed principal else Middleware.answered 403 insufficient_scope)
          ≡ adapted (if c then passed principal else answered forbidden)
    decides true true h = refl
    decides true false h = cc
    decides false true h = cc
    decides false false h = refl

after_verify-passed :
    (r : Result AuthenticatedPrincipal) (principal : AuthenticatedPrincipal)
    → after_verify r ≡ passed principal
    → r ≡ ok principal
after_verify-passed (ok p) principal h = ground (arith, h)
after_verify-passed (err (auth_error code)) principal h = cc
after_verify-passed (err _) principal h = cc

authenticate-passed :
    (jwt_verify : JwtVerify) (config : AuthConfig) (rest : Option String)
    (principal : AuthenticatedPrincipal)
    → authenticate jwt_verify config rest ≡ passed principal
    → (text : String) × (rest ≡ some text)
      × (verify jwt_verify config (trim_text text) ≡ ok principal)
authenticate-passed jwt_verify config none principal h = cc
authenticate-passed jwt_verify config (some text) principal h =
    (text, refl, after_verify-passed _ principal h)

-- The header that a bearer's token is taken from is "Bearer " and the text that it is the trimmed
-- form of.
bearer_lem :
    (header : Option String) (text : String)
    → bearer header ≡ some text
    → header ≡ some (concat "Bearer " text)
bearer_lem none text h = cc
bearer_lem (some value) text h = ap some (after_prefix_lem "Bearer " value text h)

filled_text : (s : String) → s ≢ "" → filled (some s) ≡ some s
filled_text s full = ground (arith, eq_iff s "")

with_request_tenant_lem {ℓ} :
    {A : Type ℓ} (principal : AuthenticatedPrincipal) (route : String → Action A) (db : Db)
    → principal.tenant_id ≢ ""
    → with_request_tenant (some principal) route db
      ≡ with_tenant_transaction principal.tenant_id route db
unfolding with_request_tenant ◌>>=◌ require
with_request_tenant_lem principal route db full = rw (filled_text principal.tenant_id full) refl

-- A request that the control plane admits to a route has a header "Bearer " with a text after it, and
-- the principal is what the payload names that jwtVerify gives for this text, trimmed: the subject,
-- the tenant and the user or service, none of them empty. The route's transaction then runs in the
-- session of the tenant that this payload names.
pub require_auth-with_request_tenant :
    {A : Type 0} (jwt_verify : JwtVerify) (config : AuthConfig) (header : Option String)
    (principal : AuthenticatedPrincipal) (route : String → Action A) (db : Db)
    → require_auth jwt_verify config header ≡ passed principal
    → (text : String) × (payload : JwtPayload) × (header ≡ some (concat "Bearer " text))
      × (jwt_verify config (trim_text text) ≡ verified payload)
      × Names payload principal
      × (with_request_tenant (some principal) route db
          ≡ with_tenant_transaction principal.tenant_id route db)
unfolding require_auth
require_auth-with_request_tenant jwt_verify config header principal route db h =
    let (text, sent, good) = authenticate-passed jwt_verify config (bearer header) principal h in
    let (payload, known, names) = verify_sound jwt_verify config (trim_text text) principal good in
    (
      text,
      payload,
      bearer_lem header text sent,
      known,
      names,
      with_request_tenant_lem principal route db names.2.1,
    )
