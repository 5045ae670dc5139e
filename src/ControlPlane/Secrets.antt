-- ===== src/ControlPlane/Secrets.antt =====
-- services/control-plane-api/src/routes/secrets.ts: the rotation of a secret's key material is
-- another system's; the route keeps the reference's record and the audit trail. The text of the time
-- in the response is a parameter.
pub mod Rotation
mod Tests
use ai_digital_office_os.Prelude.{ℕ, String, Bool, Option, none, some, ◌==◌}
use ai_digital_office_os.Json
use ai_digital_office_os.Json.{Json}
use ai_digital_office_os.Schema.{Db, SecretRow, AuditRow}
use ai_digital_office_os.Db.{Action, pure, lift, gets, require, ◌>>=◌, ◌>>◌, select_one}
use ai_digital_office_os.Db.Tables.{secret_owner, update_secrets, insert_audit}
use ai_digital_office_os.Auth.{
  Identity, human, service, AuthenticatedPrincipal, require_current_principal,
}
use ai_digital_office_os.ControlPlane.Errors.{not_found}
use ai_digital_office_os.ControlPlane.Body.{post_params}
use ai_digital_office_os.ControlPlane.Idempotency.{IdempotentResult, with_idempotent_write}
use ai_digital_office_os.ControlPlane.Middleware.{with_request_tenant}

abbrev pub has_reference : String → SecretRow → Bool
has_reference reference_id row = row.reference_id == reference_id

abbrev pub find_reference : String → String → Db → Option SecretRow
find_reference client reference_id db =
    select_one secret_owner client (has_reference reference_id) db.secrets

abbrev pub rotated_row : ℕ → SecretRow → SecretRow
rotated_row now row = record row { last_rotated_at = some now }

-- `principalType.toUpperCase()`
abbrev pub actor_type_of : Identity → String
actor_type_of (human id) = "HUMAN"
actor_type_of (service id) = "SERVICE"

abbrev pub actor_id_of : Identity → String
actor_id_of (human id) = id
actor_id_of (service id) = id

abbrev pub rotation_event : AuthenticatedPrincipal → AuditRow
rotation_event principal = record {
  tenant_id = some principal.tenant_id;
  event_type = "SECRET_ROTATION_TRIGGERED";
  actor_type = actor_type_of principal.identity;
  actor_id = actor_id_of principal.identity;
}

abbrev pub rotation_body : String → String → Json
rotation_body reference_id triggered_at = Json.obj (
    Json.field "referenceId" (Json.str reference_id)
      (Json.field "rotationTriggeredAt" (Json.str triggered_at) Json.end))

-- the write that is made once
unfoldable pub write_rotation :
    String → AuthenticatedPrincipal → String → String → Action (ℕ × Json)
write_rotation client principal reference_id triggered_at = do
  secret ← gets (find_reference client reference_id)
  _found ← require secret not_found
  now ← gets (λ db. db.clock)
  update_secrets client (has_reference reference_id) (rotated_row now)
  insert_audit client (rotation_event principal)
  pure (202, rotation_body reference_id triggered_at)

-- POST /secrets/{referenceId}/rotate
unfoldable pub rotate_secret :
    Option AuthenticatedPrincipal → String → String → String → String → Action IdempotentResult
rotate_secret context key path reference_id triggered_at = do
  principal ← lift (require_current_principal context)
  with_request_tenant context (λ client.
      with_idempotent_write client (post_params principal.tenant_id key path)
        (write_rotation client principal reference_id triggered_at))
