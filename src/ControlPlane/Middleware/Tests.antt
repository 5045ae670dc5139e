-- ===== src/ControlPlane/Middleware/Tests.antt =====
-- A user's request, by the two middlewares and in a route that writes an audit event.
use Prim.Native.String.{◌++◌ as concat}
use ai_digital_office_os.Prelude.{
  String, ◌≡◌, refl, Option, none, some, ◌==◌, if◌then◌else◌, trim_text, after_prefix, split_spaces,
}
use ai_digital_office_os.Schema.{AuditRow, empty_db}
use ai_digital_office_os.Db.{Action, with_tenant_transaction}
use ai_digital_office_os.Db.Tables.{insert_audit}
use ai_digital_office_os.Auth.{JwtPayload, verified, verify, to_principal}
use ai_digital_office_os.Auth.Claims.{Names}
use ai_digital_office_os.Auth.Middleware
use ai_digital_office_os.Auth.Middleware.{Headers, single}
use ai_digital_office_os.Auth.Tests.{issuer_keys, config, ada}
use ai_digital_office_os.ControlPlane.Middleware.{passed, require_auth, with_request_tenant}
use ai_digital_office_os.ControlPlane.Middleware.Agreement.{
  generic, adapted, require_auth_agrees, require_auth-with_request_tenant,
}

abbrev sent : Option String
sent = some "Bearer  token-1 "

abbrev headers : Headers
headers name = if name == "authorization" then some (single "Bearer  token-1 ") else none

require_auth_agrees_example :
    generic (Middleware.require_auth issuer_keys config headers)
    ≡ adapted (require_auth issuer_keys config sent)
require_auth_agrees_example = require_auth_agrees issuer_keys config headers sent refl refl

admitted : require_auth issuer_keys config sent ≡ passed ada
unfolding require_auth verify to_principal split_spaces trim_text after_prefix
admitted = refl

abbrev visit : String → AuditRow
visit client = record {
  tenant_id = some client;
  event_type = "VISIT";
  actor_type = "HUMAN";
  actor_id = "ada";
}

abbrev route : String → Action (Unit {0})
route client = insert_audit client (visit client)

require_auth-with_request_tenant_example :
    (text : String) × (payload : JwtPayload) × (sent ≡ some (concat "Bearer " text))
    × (issuer_keys config (trim_text text) ≡ verified payload)
    × Names payload ada
    × (with_request_tenant (some ada) route empty_db
        ≡ with_tenant_transaction ada.tenant_id route empty_db)
require_auth-with_request_tenant_example =
    require_auth-with_request_tenant issuer_keys config sent ada route empty_db admitted
