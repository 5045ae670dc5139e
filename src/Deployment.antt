-- ===== src/Deployment.antt =====
-- services/deployment-orchestrator/src: orchestrator.ts, with the health check of health-checker.ts.
-- The answer to the probe is the parameter `check` (the HealthChecker interface), of the state and
-- the URL; gen_random_uuid gives `new_id`.
pub mod Advance
pub mod Rollback
mod Tests
use ai_digital_office_os.Prelude.{
  ℕ, String, Bool, true, false, not, ◌&&◌, Option, none, some, leb, ltb, ◌==◌, if◌then◌else◌,
}
use ai_digital_office_os.Failure.{
  Failure, deployment_error, DeploymentOrchestratorErrorCode, invalid_state, no_rollback_target,
  other_error,
}
use ai_digital_office_os.Schema.{
  Db, DeploymentRow, DeploymentStatus, in_progress, healthy, failed, rolled_back, AuditRow,
}
use ai_digital_office_os.Db.{
  Action, pure, throw, gets, require, guard, ◌>>=◌, ◌>>◌, with_tenant_transaction, select_one,
}
use ai_digital_office_os.Db.Tables.{
  deployment_owner, insert_deployment, update_deployments, insert_audit,
}

pub data Detail : Type 0 where
  http : ℕ → Detail
  timed_out_after : ℕ → Detail
  message : String → Detail

pub record HealthCheckResult : Type 0 where
  pub is_healthy : Bool
  pub detail : Detail

-- what `fetch` does within the time limit
pub data Probe : Type 0 where
  answered : (status : ℕ) → Probe
  aborted : Probe
  network_error : String → Probe

-- HttpHealthChecker.check
unfoldable pub http_check : ℕ → Probe → HealthCheckResult
http_check timeout_ms (answered status) = record {
  is_healthy = leb 200 status && ltb status 300;
  detail = http status;
}
http_check timeout_ms aborted = record { is_healthy = false; detail = timed_out_after timeout_ms }
http_check timeout_ms (network_error text) = record { is_healthy = false; detail = message text }

abbrev pub Check : Type 0
Check = Db → String → HealthCheckResult

abbrev pub not_found : Failure
not_found = deployment_error DeploymentOrchestratorErrorCode.not_found

abbrev pub is_deployment : String → DeploymentRow → Bool
is_deployment id row = row.deployment_id == id

abbrev pub deployment_of : String → String → Db → Option DeploymentRow
deployment_of client id db = select_one deployment_owner client (is_deployment id) db.deployments

unfoldable pub require_deployment : String → String → Action DeploymentRow
require_deployment id client = do found ← gets (deployment_of client id); require found not_found

abbrev pub deployment_event : String → String → String → AuditRow
deployment_event tenant_id event_type deployment_id = record {
  tenant_id = some tenant_id;
  event_type = event_type;
  actor_type = "SERVICE";
  actor_id = deployment_id;
}

unfoldable pub audit_deployment : String → String → String → Action (Unit {0})
audit_deployment tenant_id event_type deployment_id =
    with_tenant_transaction tenant_id
      (λ client. insert_audit client (deployment_event tenant_id event_type deployment_id))

abbrev pub is_in_progress : DeploymentStatus → Bool
is_in_progress in_progress = true
is_in_progress _ = false

-- `result.healthy ? "HEALTHY" : "FAILED"`
abbrev pub status_after : HealthCheckResult → DeploymentStatus
status_after result = if result.is_healthy then healthy else failed

abbrev pub complete_row : DeploymentStatus → ℕ → DeploymentRow → DeploymentRow
complete_row status now row = record row { status = status; completed_at = some now }

unfoldable pub advance_deployment :
    Check → String → String → String → Action (DeploymentStatus × Detail)
advance_deployment check tenant_id deployment_id url = do
  deployment ← with_tenant_transaction tenant_id (require_deployment deployment_id)
  guard (is_in_progress deployment.status) (deployment_error invalid_state)
  result ← gets (λ db. check db url)
  with_tenant_transaction tenant_id (λ client. do
    now ← gets (λ db. db.clock)
    update_deployments client (is_deployment deployment_id)
        (complete_row (status_after result) now))
  audit_deployment tenant_id
      (if result.is_healthy then "DEPLOYMENT_HEALTHY" else "DEPLOYMENT_FAILED") deployment_id
  pure (status_after result, result.detail)

-- `!deployment.rollback_target`: NULL and the empty text count as none
abbrev pub target_of : DeploymentRow → Option String
target_of row = elim row.rollback_target [ none ↦ none | some t ↦ if t == "" then none else some t ]

-- the row that INSERT … SELECT makes of the target's
abbrev pub copy_of : String → DeploymentRow → DeploymentRow
copy_of new_id row = record {
  deployment_id = new_id;
  tenant_id = row.tenant_id;
  project_id = row.project_id;
  release_id = row.release_id;
  environment = row.environment;
  strategy = row.strategy;
  status = in_progress;
  approval_request_id = none;
  rollback_target = none;
  health_check_url = none;
  completed_at = none;
}

-- with no row for the target nothing is inserted, and reading rows[0] throws
unfoldable pub insert_copy : String → String → String → Action (Unit {0})
insert_copy new_id target client = do
  found ← gets (deployment_of client target)
  row ← require found other_error
  insert_deployment client (copy_of new_id row)

unfoldable pub settle_rollback : String → String → HealthCheckResult → String → Action (Unit {0})
settle_rollback new_id deployment_id result client = do
  now ← gets (λ db. db.clock)
  update_deployments client (is_deployment new_id) (complete_row (status_after result) now)
  if result.is_healthy
      then update_deployments client (is_deployment deployment_id)
          (λ row. record row { status = rolled_back })
      else pure tt

pub record RollbackDeploymentResult : Type 0 where
  pub rollback_deployment_id : String
  pub status : DeploymentStatus
  pub detail : Detail

unfoldable pub rollback_deployment :
    Check → String → String → String → String → Action RollbackDeploymentResult
rollback_deployment check new_id tenant_id deployment_id url = do
  deployment ← with_tenant_transaction tenant_id (require_deployment deployment_id)
  target ← require (target_of deployment) (deployment_error no_rollback_target)
  with_tenant_transaction tenant_id (insert_copy new_id target)
  result ← gets (λ db. check db url)
  with_tenant_transaction tenant_id (settle_rollback new_id deployment_id result)
  audit_deployment tenant_id
      (if result.is_healthy then "DEPLOYMENT_ROLLED_BACK" else "DEPLOYMENT_ROLLBACK_FAILED")
      deployment_id
  pure (record {
    rollback_deployment_id = new_id;
    status = status_after result;
    detail = result.detail;
  })
