-- ===== src/ControlPlane/Idempotency.antt =====
-- withIdempotentWrite of services/control-plane-api/src/idempotency.ts.
pub mod Replay
use ai_digital_office_os.Prelude.{ℕ, String, Bool, true, false, ◌&&◌, Option, none, some, ◌==◌}
use ai_digital_office_os.Json.{Json}
use ai_digital_office_os.Schema.{Db, IdempotencyRow}
use ai_digital_office_os.Db.{Action, pure, gets, ◌>>=◌, ◌>>◌, select_one}
use ai_digital_office_os.Db.Tables.{idempotency_owner, insert_idempotency}

pub record IdempotentParams : Type 0 where
  pub tenant_id : String
  pub idempotency_key : String
  pub method : String
  pub path : String

pub record IdempotentResult : Type 0 where
  pub status : ℕ
  pub body : Json
  pub replayed : Bool

abbrev pub has_key : IdempotentParams → IdempotencyRow → Bool
has_key params row =
    row.tenant_id == params.tenant_id && row.idempotency_key == params.idempotency_key

abbrev pub response_row : IdempotentParams → ℕ → Json → IdempotencyRow
response_row params status body = record {
  tenant_id = params.tenant_id;
  idempotency_key = params.idempotency_key;
  method = params.method;
  path = params.path;
  response_status = status;
  response_body = body;
}

abbrev pub find_response : String → IdempotentParams → Db → Option IdempotencyRow
find_response client params db =
    select_one idempotency_owner client (has_key params) db.idempotency_keys

-- after the lookup of the key
unfoldable pub write_once :
    String → IdempotentParams → Action (ℕ × Json) → Option IdempotencyRow → Action IdempotentResult
write_once client params fn (some row) =
    pure (record { status = row.response_status; body = row.response_body; replayed = true })
write_once client params fn none = do
  written ← fn
  insert_idempotency client (response_row params written.0 written.1)
  pure (record { status = written.0; body = written.1; replayed = false })

unfoldable pub with_idempotent_write :
    String → IdempotentParams → Action (ℕ × Json) → Action IdempotentResult
with_idempotent_write client params fn = do
  existing ← gets (find_response client params)
  write_once client params fn existing
