-- ===== src/ControlPlane/Deployments.antt =====
-- services/control-plane-api/src/routes/deployments.ts, over the deployment orchestrator. The
-- orchestrator runs its transactions on a connection of its own, so that those of a rollback under a
-- health check are not part of the request's: before them the request only reads, and after them it
-- only stores its key.
pub mod Creation
pub mod Unchecked
mod Tests
use ai_digital_office_os.Prelude.{
  ℕ, String, Bool, true, false, not, ◌&&◌, Option, none, some, ◌==◌, if◌then◌else◌,
}
use ai_digital_office_os.Json
use ai_digital_office_os.Json.{Json, Fields, end, field}
use ai_digital_office_os.Schema.{
  Db, DeploymentRow, DeploymentStatus, in_progress, healthy, failed, rolled_back, ReleaseRow,
  ApprovalRow, ApprovalDecision, IdempotencyRow,
}
use ai_digital_office_os.Failure.{other_error}
use ai_digital_office_os.Db.{
  Action, pure, gets, require, guard, ◌>>=◌, ◌>>◌, with_tenant_transaction, select_one,
}
use ai_digital_office_os.Db.References.{deployment_refers, check_references}
use ai_digital_office_os.Db.Tables.{
  approval_owner, deployment_owner, insert_deployment, update_deployments, insert_idempotency,
}
use ai_digital_office_os.Deployment.{
  Check, deployment_of, is_deployment, target_of, advance_deployment, rollback_deployment,
}
use ai_digital_office_os.ControlPlane.Errors.{validation, not_found, policy_denied}
use ai_digital_office_os.ControlPlane.Body.{given, text_of, text_or_null, post_params}
use ai_digital_office_os.ControlPlane.Idempotency.{
  IdempotentParams, IdempotentResult, find_response, response_row, with_idempotent_write,
}
use ai_digital_office_os.ControlPlane.Agents.Versions.{is_approved}

pub record CreateDeploymentBody : Type 0 where
  pub project_id : Option String
  pub release_id : Option String
  pub environment : Option String
  pub strategy : Option String
  pub health_check_url : Option String
  pub approval_request_id : Option String

abbrev pub is_complete : CreateDeploymentBody → Bool
is_complete body =
    given body.project_id && given body.release_id && given body.environment && given body.strategy

abbrev pub find_release : String → String → Db → Option ReleaseRow
find_release client release_id db =
    select_one (λ (r : ReleaseRow). some r.tenant_id) client (λ r. r.release_id == release_id)
      db.releases

abbrev pub is_production_request : String → String → ApprovalRow → Bool
is_production_request tenant_id request_id row =
    row.request_id == request_id
    && row.tenant_id == tenant_id
    && row.action == "DEPLOYMENT_PRODUCTION"

abbrev pub find_production_request : String → String → String → Db → Option ApprovalRow
find_production_request client tenant_id request_id db =
    select_one approval_owner client (is_production_request tenant_id request_id) db.approvals

-- `rows.length === 0 || rows[0].decision !== "APPROVED"`, negated
abbrev pub is_granted : Option ApprovalRow → Bool
is_granted none = false
is_granted (some row) = is_approved row.decision

-- `environment === "production"`
abbrev pub is_production : Option String → Bool
is_production environment = text_of environment == "production"

unfoldable pub check_production : String → String → CreateDeploymentBody → Action (Unit {0})
check_production client tenant_id body = do
  guard (given body.approval_request_id) policy_denied
  approval ← gets (find_production_request client tenant_id (text_of body.approval_request_id))
  guard (is_granted approval) policy_denied

-- `if (environment === "production") { … }`
unfoldable pub check_environment : String → String → CreateDeploymentBody → Action (Unit {0})
check_environment client tenant_id body =
    if is_production body.environment then check_production client tenant_id body else pure tt

abbrev pub new_row : String → String → CreateDeploymentBody → DeploymentRow
new_row deployment_id tenant_id body = record {
  deployment_id = deployment_id;
  tenant_id = tenant_id;
  project_id = text_of body.project_id;
  release_id = text_of body.release_id;
  environment = text_of body.environment;
  strategy = text_of body.strategy;
  status = in_progress;
  approval_request_id = body.approval_request_id;
  rollback_target = none;
  health_check_url = body.health_check_url;
  completed_at = none;
}

abbrev pub status_text : DeploymentStatus → String
status_text in_progress = "IN_PROGRESS"
status_text healthy = "HEALTHY"
status_text failed = "FAILED"
status_text rolled_back = "ROLLED_BACK"

abbrev time_or_null : Option ℕ → Json
time_or_null none = Json.null
time_or_null (some t) = Json.num t

-- camelizeRow
abbrev pub camelize_deployment : DeploymentRow → Json
camelize_deployment row = Json.obj (
    field "deploymentId" (Json.str row.deployment_id) (
      field "tenantId" (Json.str row.tenant_id) (
        field "projectId" (Json.str row.project_id) (
          field "releaseId" (Json.str row.release_id) (
            field "environment" (Json.str row.environment) (
              field "strategy" (Json.str row.strategy) (
                field "status" (Json.str (status_text row.status)) (
                  field "approvalRequestId" (text_or_null row.approval_request_id) (
                    field "rollbackTarget" (text_or_null row.rollback_target) (
                      field "healthCheckUrl" (text_or_null row.health_check_url)
                        (field "completedAt" (time_or_null row.completed_at) end)))))))))))

-- the write of POST /deployments
unfoldable pub register_deployment :
    String → String → String → CreateDeploymentBody → Action (ℕ × Json)
register_deployment client new_id tenant_id body = do
  release ← gets (find_release client (text_of body.release_id))
  _release ← require release validation
  check_environment client tenant_id body
  check_references (deployment_refers (new_row new_id tenant_id body))
  insert_deployment client (new_row new_id tenant_id body)
  pure (201, camelize_deployment (new_row new_id tenant_id body))

-- `{ ...body, [key]: value }`
abbrev pub set_field : String → Json → Fields → Fields
set_field key value end = field key value end
set_field key value (field k v rest) =
    let later = set_field key value rest in if k == key then field k value rest else field k v later

abbrev pub set_status : DeploymentStatus → Json → Json
set_status status (Json.obj fields) =
    Json.obj (set_field "status" (Json.str (status_text status)) fields)
set_status status body = Json.obj (field "status" (Json.str (status_text status)) end)

-- `body["deploymentId"] as string`
abbrev pub id_in : Json → String
id_in (Json.obj fields) = elim (Json.get "deploymentId" fields) [ some (Json.str s) ↦ s | _ ↦ "" ]
id_in body = ""

-- after the request's transaction
unfoldable pub check_created :
    Check → String → CreateDeploymentBody → IdempotentResult → Action (ℕ × Json)
check_created check tenant_id body result =
    if not result.replayed && given body.health_check_url
    then advance_deployment check tenant_id (id_in result.body) (text_of body.health_check_url)
      >>= (λ advanced. pure (result.status, set_status advanced.0 result.body))
    else pure (result.status, result.body)

-- POST /deployments
unfoldable pub create_deployment :
    Check → String → String → String → CreateDeploymentBody → Action (ℕ × Json)
create_deployment check new_id tenant_id key body = do
  guard (is_complete body) validation
  result ← with_tenant_transaction tenant_id (λ client.
      with_idempotent_write client (post_params tenant_id key "/deployments")
        (register_deployment client new_id tenant_id body))
  check_created check tenant_id body result

unfoldable pub require_deployment : String → String → Action DeploymentRow
require_deployment deployment_id client = do
  found ← gets (deployment_of client deployment_id)
  require found not_found

-- GET /deployments/{deploymentId}
unfoldable pub get_deployment : String → String → Action Json
get_deployment tenant_id deployment_id = do
  row ← with_tenant_transaction tenant_id (require_deployment deployment_id)
  pure (camelize_deployment row)

-- the row that INSERT … SELECT makes of the deployment's own
abbrev pub unchecked_row : String → DeploymentRow → DeploymentRow
unchecked_row new_id row = record {
  deployment_id = new_id;
  tenant_id = row.tenant_id;
  project_id = row.project_id;
  release_id = row.release_id;
  environment = row.environment;
  strategy = row.strategy;
  status = in_progress;
  approval_request_id = none;
  rollback_target = some row.deployment_id;
  health_check_url = none;
  completed_at = none;
}

-- the fallback without a health check, with the storing of the key
unfoldable pub rollback_unchecked :
    String → IdempotentParams → DeploymentRow → String → Action IdempotentResult
rollback_unchecked new_id params deployment client = do
  insert_deployment client (unchecked_row new_id deployment)
  update_deployments client (is_deployment deployment.deployment_id)
      (λ row. record row { status = rolled_back })
  insert_idempotency client
      (response_row params 202 (camelize_deployment (unchecked_row new_id deployment)))
  pure (record {
    status = 202;
    body = camelize_deployment (unchecked_row new_id deployment);
    replayed = false;
  })

-- under a health check, with the storing of the key
unfoldable pub rollback_checked :
    Check → String → String → IdempotentParams → String → String → Action IdempotentResult
rollback_checked check new_id tenant_id params deployment_id url = do
  outcome ← rollback_deployment check new_id tenant_id deployment_id url
  with_tenant_transaction tenant_id (λ client. do
    found ← gets (deployment_of client outcome.rollback_deployment_id)
    row ← require found other_error
    insert_idempotency client (response_row params 202 (camelize_deployment row))
    pure (record { status = 202; body = camelize_deployment row; replayed = false }))

-- after the lookup of the key
unfoldable pub rollback_once :
    Check
    → String
    → String
    → IdempotentParams
    → String
    → Option IdempotencyRow
    → Action IdempotentResult
rollback_once check new_id tenant_id params deployment_id (some row) =
    pure (record { status = row.response_status; body = row.response_body; replayed = true })
rollback_once check new_id tenant_id params deployment_id none = do
  deployment ← with_tenant_transaction tenant_id (require_deployment deployment_id)
  _target ← require (target_of deployment) validation
  if given deployment.health_check_url
      then rollback_checked check new_id tenant_id params deployment_id
          (text_of deployment.health_check_url)
      else with_tenant_transaction tenant_id (rollback_unchecked new_id params deployment)

-- POST /deployments/{deploymentId}/rollback
unfoldable pub rollback :
    Check → String → String → String → String → String → Action IdempotentResult
rollback check new_id tenant_id key path deployment_id = do
  existing ←
      with_tenant_transaction tenant_id
        (λ client. gets (find_response client (post_params tenant_id key path)))
  rollback_once check new_id tenant_id (post_params tenant_id key path) deployment_id existing
