-- ===== src/ControlPlane/Workflows.antt =====
-- services/control-plane-api/src/routes/workflows.ts: the lifecycle that users drive, on the tables
-- that the workflow engine shares.
pub mod Transitions
use ai_digital_office_os.Prelude.{
  ℕ, ◌+◌, String, Bool, true, false, ◌||◌, Option, none, some, List, [], ◌∷◌, any, ◌==◌,
  if◌then◌else◌,
}
use Prim.Native.String.{◌++◌ as concat}
use ai_digital_office_os.Failure.{Failure}
use ai_digital_office_os.Schema.{
  Db, WorkflowStatus, running, paused, completed, failed, cancelled, escalated, WorkflowRow,
  HistoryEvent, started, moved, ApprovalRow,
}
use ai_digital_office_os.Db.{
  Action, pure, gets, require, guard, ◌>>=◌, ◌>>◌, with_tenant_transaction,
}
use ai_digital_office_os.Db.Tables.{
  insert_workflow, update_workflows, insert_history, insert_approval,
}
use ai_digital_office_os.WorkflowEngine.History.{log_of, max_sequence_no, event_row}
use ai_digital_office_os.WorkflowEngine.{is_workflow, workflow_of, find_project}
use ai_digital_office_os.ControlPlane.Errors.{not_found, conflict, validation}

unfoldable pub append_history : String → String → String → HistoryEvent → Action (Unit {0})
append_history client tenant_id workflow_id event = do
  highest ← gets (λ db. max_sequence_no (log_of client workflow_id db))
  insert_history client (event_row tenant_id workflow_id (highest + 1) event)

unfoldable pub require_workflow : String → String → Action WorkflowRow
require_workflow client workflow_id = do
  found ← gets (workflow_of client workflow_id)
  require found not_found

abbrev pub same_status : WorkflowStatus → WorkflowStatus → Bool
same_status running running = true
same_status paused paused = true
same_status completed completed = true
same_status failed failed = true
same_status cancelled cancelled = true
same_status escalated escalated = true
same_status _ _ = false

-- `toStatus === "COMPLETED" || toStatus === "CANCELLED"`
abbrev pub completes : WorkflowStatus → Bool
completes completed = true
completes cancelled = true
completes _ = false

abbrev pub move_row : WorkflowStatus → ℕ → WorkflowRow → WorkflowRow
move_row to_status now row = record row {
  status = to_status;
  completed_at = if completes to_status then some now else row.completed_at;
}

-- the rows returned are the one that requireWorkflow found: workflow_id is the primary key
unfoldable pub transition :
    String → String → String → List WorkflowStatus → WorkflowStatus → String → Action WorkflowRow
transition client tenant_id workflow_id from_statuses to_status event_type = do
  workflow ← require_workflow client workflow_id
  guard (any (same_status workflow.status) from_statuses) conflict
  now ← gets (λ db. db.clock)
  update_workflows client (is_workflow workflow_id) (move_row to_status now)
  append_history client tenant_id workflow_id (moved event_type workflow.status to_status)
  pure (move_row to_status now workflow)

abbrev pub registered_row : String → String → String → WorkflowRow
registered_row workflow_id tenant_id project_id = record {
  workflow_id = workflow_id;
  tenant_id = tenant_id;
  project_id = project_id;
  current_state = none;
  status = running;
  completed_at = none;
}

-- the write of POST /workflows; its STARTED event holds no definition
unfoldable pub create_workflow : String → String → String → String → Action WorkflowRow
create_workflow client tenant_id workflow_id project_id = do
  project ← gets (find_project client project_id)
  _found ← require project validation
  insert_workflow client (registered_row workflow_id tenant_id project_id)
  append_history client tenant_id workflow_id (started none)
  pure (registered_row workflow_id tenant_id project_id)

module _ (tenant_id workflow_id : String) where
  unfoldable pub pause : Action WorkflowRow
  pause =
      with_tenant_transaction tenant_id
        (λ client. transition client tenant_id workflow_id (running ∷ []) paused "PAUSED")

  unfoldable pub resume : Action WorkflowRow
  resume =
      with_tenant_transaction tenant_id
        (λ client. transition client tenant_id workflow_id (paused ∷ []) running "RESUMED")

  unfoldable pub cancel : Action WorkflowRow
  cancel = with_tenant_transaction tenant_id (λ client.
      transition client tenant_id workflow_id (running ∷ paused ∷ failed ∷ escalated ∷ []) cancelled
        "ROLLED_BACK")

  unfoldable pub retry : Action WorkflowRow
  retry =
      with_tenant_transaction tenant_id
        (λ client. transition client tenant_id workflow_id (failed ∷ []) running "RETRY")

  -- `request_id` is generateId("appr")
  unfoldable pub escalate : String → Action ApprovalRow
  escalate request_id = with_tenant_transaction tenant_id (λ client. do
    _workflow ← require_workflow client workflow_id
    _updated ←
        transition client tenant_id workflow_id (running ∷ paused ∷ failed ∷ []) escalated
          "ESCALATED"
    let row : ApprovalRow = record {
      request_id = request_id;
      tenant_id = tenant_id;
      requester = none;
      agent_id = none;
      action = "WORKFLOW_ESCALATE";
      risk_level = "RED";
      reason = some (concat "Workflow " (concat workflow_id " escalated from status ESCALATED."));
      approver = none;
      decision = none;
      expires_at = none;
      decided_at = none;
    }
    insert_approval client row
    pure row)
