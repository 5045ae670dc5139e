-- ===== src/Auth/Tests.antt =====
-- A user's token, and the verification of it.
use ai_digital_office_os.Prelude.{◌≡◌, refl, none, some, [], ◌∷◌, ◌==◌, if◌then◌else◌, split_spaces}
use ai_digital_office_os.Json.{Json, field, end}
use ai_digital_office_os.Failure.{ok}
use ai_digital_office_os.Auth.{
  AuthenticatedPrincipal, human, JwtPayload, JwtVerify, AuthConfig, verified, rejected, one,
  to_principal, verify,
}
use ai_digital_office_os.Auth.Claims.{Names, verify_sound}

abbrev pub ada_payload : JwtPayload
ada_payload = record {
  sub = some "auth0|7";
  iss = some "https://issuer";
  aud = some (one "control-plane");
  exp = some 60;
  iat = none;
  claims = field "tenant_id" (Json.str "t") (
      field "principal_type" (Json.str "human")
        (field "user_id" (Json.str "ada") (field "scope" (Json.str "read") end)));
}

abbrev pub issuer_keys : JwtVerify
issuer_keys config token = if token == "token-1" then verified ada_payload else rejected

abbrev pub config : AuthConfig
config = record {
  issuer = "https://issuer";
  audience = "control-plane";
  jwks_uri = "https://issuer/keys";
  clock_tolerance_seconds = 30;
}

abbrev pub ada : AuthenticatedPrincipal
ada = record {
  subject = "auth0|7";
  tenant_id = "t";
  scopes = "read" ∷ [];
  issuer = "https://issuer";
  audience = "control-plane";
  expires_at = 60000;
  issued_at = 0;
  identity = human "ada";
}

pub known : verify issuer_keys config "token-1" ≡ ok ada
unfolding verify to_principal split_spaces
known = refl

verify_sound_example :
    (payload : JwtPayload) × (issuer_keys config "token-1" ≡ verified payload) × Names payload ada
verify_sound_example = verify_sound issuer_keys config "token-1" ada known
