-- ===== src/ControlPlane/Tasks.antt =====
-- services/control-plane-api/src/routes/tasks.ts. A task's identifier is a parameter; a column for a
-- value that is not given holds none, or the JSON null.
pub mod Replay
pub mod Tests
use ai_digital_office_os.Prelude.{
  String, Bool, true, false, ◌&&◌, Option, none, some, ◌==◌, if◌then◌else◌,
}
use ai_digital_office_os.Json
use ai_digital_office_os.Json.{Json}
use ai_digital_office_os.Schema.{Db, TaskRow}
use ai_digital_office_os.Db.{
  Action, pure, gets, require, guard, ◌>>=◌, ◌>>◌, with_tenant_transaction, select_one,
}
use ai_digital_office_os.Db.References.{task_refers, check_references}
use ai_digital_office_os.Db.Tables.{task_owner, insert_task}
use ai_digital_office_os.ControlPlane.Errors.{validation, not_found}
use ai_digital_office_os.ControlPlane.Body.{given, text_of, or_default, json_or, json_or_null}

pub record CreateTaskBody : Type 0 where
  pub project_id : Option String
  pub workflow_id : Option String
  pub parent_task_id : Option String
  pub required_capability : Option String
  pub priority : Option String
  pub risk_level : Option String
  pub security_level : Option String
  pub dependencies : Option Json
  pub input : Option Json
  pub expected_output : Option Json
  pub idempotency_key : Option String
  pub deadline : Option String

-- `value !== undefined`
abbrev pub is_present : Option Json → Bool
is_present none = false
is_present (some value) = true

abbrev pub is_complete : CreateTaskBody → Bool
is_complete body =
    given body.project_id
    && given body.required_capability
    && is_present body.input
    && given body.idempotency_key

abbrev pub task_row : String → String → CreateTaskBody → TaskRow
task_row task_id tenant_id body = record {
  task_id = task_id;
  tenant_id = tenant_id;
  project_id = text_of body.project_id;
  workflow_id = body.workflow_id;
  parent_task_id = body.parent_task_id;
  required_capability = text_of body.required_capability;
  priority = or_default body.priority "NORMAL";
  risk_level = or_default body.risk_level "GREEN";
  security_level = body.security_level;
  dependencies = json_or body.dependencies (Json.arr Json.nil);
  input = json_or body.input Json.null;
  expected_output = json_or_null body.expected_output;
  idempotency_key = text_of body.idempotency_key;
  deadline = body.deadline;
}

abbrev pub has_key : String → String → TaskRow → Bool
has_key tenant_id key row = row.tenant_id == tenant_id && row.idempotency_key == key

abbrev pub find_task_by_key : String → String → Db → Option TaskRow
find_task_by_key tenant_id key db = select_one task_owner tenant_id (has_key tenant_id key) db.tasks

-- the row that a request with the same key has created, or a new one
unfoldable pub insert_once : TaskRow → Option TaskRow → String → Action TaskRow
insert_once row (some existing) client = pure existing
insert_once row none client = do
  check_references (task_refers row)
  insert_task client row
  pure row

-- POST /tasks
unfoldable pub create_task : String → String → CreateTaskBody → Action TaskRow
create_task new_id tenant_id body = do
  guard (is_complete body) validation
  with_tenant_transaction tenant_id (λ client. do
    existing ← gets (find_task_by_key client (text_of body.idempotency_key))
    insert_once (task_row new_id tenant_id body) existing client)

abbrev pub find_task : String → String → Db → Option TaskRow
find_task client task_id db = select_one task_owner client (λ row. row.task_id == task_id) db.tasks

-- GET /tasks/{taskId}
unfoldable pub get_task : String → String → Action TaskRow
get_task tenant_id task_id = do
  row ← with_tenant_transaction tenant_id (λ client. gets (find_task client task_id))
  require row not_found
