-- ===== src/Auth/Claims.antt =====
-- verifier.ts: a principal is what a verified token names, and nothing that is missing.
use ai_digital_office_os.Prelude.{
  String, ◌≡◌, ◌≢◌, refl, inl, inr, Option, none, some, arith, Bool-cases, ◌==◌, eq_iff,
}
use ai_digital_office_os.Json.{Json, get}
use ai_digital_office_os.Failure.{ok, err, ◌>>=◌, >>=-eq-ok, auth_error, token_invalid}
use ai_digital_office_os.Auth.{
  AuthenticatedPrincipal, Identity, human, service, JwtPayload, JwtVerify, AuthConfig, Verification,
  verified, expired, rejected, filled, filled_text, accept, text_claim, required, identity_of,
  to_principal, verify,
}

pub verify_rejected :
    (jwt_verify : JwtVerify) (config : AuthConfig) (token : String)
    → jwt_verify config token ≡ rejected
    → verify jwt_verify config token ≡ err (auth_error token_invalid)
unfolding verify
verify_rejected jwt_verify config token h = rw h refl

-- The claim is the text, which is not empty.
abbrev pub Claims : String → JwtPayload → String → Type 0
Claims name payload text = (get name payload.claims ≡ some (Json.str text)) × (text ≢ "")

-- The claims state who the principal is.
abbrev pub Identifies : JwtPayload → Identity → Type 0
Identifies payload (human id) =
    Claims "principal_type" payload "human" × Claims "user_id" payload id
Identifies payload (service id) =
    Claims "principal_type" payload "service" × Claims "service_id" payload id

filled_sound :
    (o : Option String) (text : String) → filled o ≡ some text → (o ≡ some text) × (text ≢ "")
filled_sound none text h = cc
filled_sound (some s) text h = (ground (arith, eq_iff s ""), ground (arith, eq_iff s ""))

filled_text_sound :
    (o : Option Json) (text : String)
    → filled_text o ≡ some text
    → (o ≡ some (Json.str text)) × (text ≢ "")
filled_text_sound none text h = cc
filled_text_sound (some (Json.str s)) text h =
    let (same, full) = filled_sound (some s) text h in (ground (arith, same), full)
filled_text_sound (some _) text h = cc

required_sound : (o : Option String) (text : String) → required o ≡ ok text → o ≡ some text
required_sound none text h = cc
required_sound (some s) text h = ground (arith, h)

identity_of_sound :
    (payload : JwtPayload) (kind : Option String) (identity : Identity)
    → text_claim "principal_type" payload ≡ kind
    → identity_of payload kind ≡ ok identity
    → Identifies payload identity
identity_of_sound payload none identity e h = cc
identity_of_sound payload (some kind) identity e h =
    let claimed = get "principal_type" payload.claims in
    let (named, full) = filled_text_sound claimed kind e in
    elim (Bool-cases (kind == "human")) [
      | inl is_human ↦
          let same : kind ≡ "human" = (eq_iff kind "human").0 is_human in
          let chain : (required (text_claim "user_id" payload) >>= (λ id. ok (human id)))
              ≡ ok identity =
            ground (arith, h, is_human) in
          let (id, hid, last) = >>=-eq-ok _ _ chain in
          let what : identity ≡ human id = ground (arith, last) in
          rw what (
            (rw same at named, rw same at full),
            filled_text_sound _ id (required_sound (text_claim "user_id" payload) id hid),
          )
      | inr other ↦ elim (Bool-cases (kind == "service")) [
        | inl is_service ↦
            let same : kind ≡ "service" = (eq_iff kind "service").0 is_service in
            let chain : (required (text_claim "service_id" payload) >>= (λ id. ok (service id)))
                ≡ ok identity =
              ground (arith, h, is_service, other) in
            let (id, hid, last) = >>=-eq-ok _ _ chain in
            let what : identity ≡ service id = ground (arith, last) in
            rw what (
              (rw same at named, rw same at full),
              filled_text_sound _ id (required_sound (text_claim "service_id" payload) id hid),
            )
        | inr unknown ↦ absurd (ground (arith, h, other, unknown))
      ]
    ]

-- The principal is what the payload names.
abbrev pub Names : JwtPayload → AuthenticatedPrincipal → Type 0
Names payload principal =
    (payload.sub ≡ some principal.subject)
    × (principal.subject ≢ "")
    × Claims "tenant_id" payload principal.tenant_id
    × Identifies payload principal.identity

to_principal_sound :
    (payload : JwtPayload) (principal : AuthenticatedPrincipal)
    → to_principal payload ≡ ok principal
    → Names payload principal
unfolding to_principal
to_principal_sound payload principal h =
    let (subject, hs, h₁) = >>=-eq-ok _ _ h in
    let (tenant_id, ht, h₂) = >>=-eq-ok _ _ h₁ in
    let (identity, hi, h₃) = >>=-eq-ok _ _ h₂ in
    let (sub, full) = filled_sound payload.sub subject (required_sound _ subject hs) in
    let tenant =
      filled_text_sound (get "tenant_id" payload.claims) tenant_id
        (required_sound _ tenant_id ht) in
    let who = identity_of_sound payload (text_claim "principal_type" payload) identity refl hi in
    let is_subject : principal.subject ≡ subject = ground (arith, h₃) in
    let is_tenant : principal.tenant_id ≡ tenant_id = ground (arith, h₃) in
    let is_identity : principal.identity ≡ identity = ground (arith, h₃) in
    rw (is_subject, is_tenant, is_identity) (sub, full, tenant, who)

accept_sound :
    (what : Verification) (principal : AuthenticatedPrincipal)
    → accept what ≡ ok principal
    → (payload : JwtPayload) × (what ≡ verified payload) × Names payload principal
accept_sound (verified payload) principal h =
    (payload, refl, to_principal_sound payload principal h)
accept_sound expired principal h = cc
accept_sound rejected principal h = cc

-- A token is accepted only when jwtVerify accepts it, and its principal is what the payload names: the
-- subject, the tenant, and the user of a human or the service of a service, none of them empty.
pub verify_sound :
    (jwt_verify : JwtVerify) (config : AuthConfig) (token : String)
    (principal : AuthenticatedPrincipal)
    → verify jwt_verify config token ≡ ok principal
    → (payload : JwtPayload) × (jwt_verify config token ≡ verified payload)
      × Names payload principal
unfolding verify
verify_sound jwt_verify config token principal h = accept_sound _ principal h
