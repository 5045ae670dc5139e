-- ===== src/WorkflowEngine/Keeps.antt =====
-- execute-step.ts: a step leaves the workflows and their history to the engine.
use ai_digital_office_os.Prelude.{String, refl, List, Option, none, some}
use ai_digital_office_os.Json.{Json}
use ai_digital_office_os.Schema.{
  Db, WorkflowRow, HistoryRow, WorkflowStep, model_call, tool_call, create_artifact, ModelRunRow,
  UsageRow, PolicyDecisionRow, AuditRow, ArtifactRow, PolicyRow,
}
use ai_digital_office_os.PolicyEngine.{PolicyInput, PolicyDecision}
use ai_digital_office_os.Db.Keeps.{Keeps, Keeps-store, keeps_rules}
use ai_digital_office_os.Db.Isolation.{IsIsolated, isolation_rules}
use ai_digital_office_os.Db.Tables.{
  insert_model_run, update_model_runs, insert_usage, insert_decision, insert_audit, insert_artifact,
}
use ai_digital_office_os.Governance.{get_tenant_policy_rules, rules_of, record_policy_decision}
use ai_digital_office_os.ModelRouter.{
  execute_model_run, open_run, complete_run, fail_run, close_run, settle_run, Resolve, Complete,
  ExecuteModelRunInput,
}
use ai_digital_office_os.ModelRouter.Ledger.{execute_model_run-IsIsolated}
use ai_digital_office_os.ToolGateway.{
  Fetch, ToolCallInput, call_tool, authorize, require_tool, check_binding, require_mcp_server,
  record_audit, proxy, block, fail,
}
use ai_digital_office_os.ToolGateway.Audit.{call_tool-IsIsolated}
use ai_digital_office_os.WorkflowEngine.ExecuteStep.{Deps, execute_step}

-- what the engine reads
abbrev pub engine_view : Db → List WorkflowRow × List HistoryRow
engine_view db = (db.workflows, db.history)

Keeps-insert_model_run :
    (t : String) (row : ModelRunRow) → Keeps engine_view (insert_model_run t row)
unfolding insert_model_run
Keeps-insert_model_run t row = Keeps-store _ _ (λ new db. refl)

Keeps-update_model_runs :
    (t : String) (p : ModelRunRow → _) (f : ModelRunRow → ModelRunRow)
    → Keeps engine_view (update_model_runs t p f)
unfolding update_model_runs
Keeps-update_model_runs t p f = Keeps-store _ _ (λ new db. refl)

Keeps-insert_usage : (t : String) (row : UsageRow) → Keeps engine_view (insert_usage t row)
unfolding insert_usage
Keeps-insert_usage t row = Keeps-store _ _ (λ new db. refl)

Keeps-insert_decision :
    (t : String) (row : PolicyDecisionRow) → Keeps engine_view (insert_decision t row)
unfolding insert_decision
Keeps-insert_decision t row = Keeps-store _ _ (λ new db. refl)

Keeps-insert_audit : (t : String) (row : AuditRow) → Keeps engine_view (insert_audit t row)
unfolding insert_audit
Keeps-insert_audit t row = Keeps-store _ _ (λ new db. refl)

Keeps-insert_artifact : (t : String) (row : ArtifactRow) → Keeps engine_view (insert_artifact t row)
unfolding insert_artifact
Keeps-insert_artifact t row = Keeps-store _ _ (λ new db. refl)

ruleset step_rules = (
  keeps_rules, Keeps-insert_model_run, Keeps-update_model_runs, Keeps-insert_usage,
  Keeps-insert_decision, Keeps-insert_audit, Keeps-insert_artifact,
)

Keeps-execute_model_run :
    (resolve : Resolve) (complete : Complete) (id : String) (input : ExecuteModelRunInput)
    → Keeps engine_view (execute_model_run resolve complete id input)
unfolding execute_model_run open_run complete_run fail_run close_run settle_run
Keeps-execute_model_run resolve complete id input = search step_rules depth 12

Keeps-rules_of : (policy : Option PolicyRow) → Keeps engine_view (rules_of policy)
unfolding rules_of
Keeps-rules_of none = search keeps_rules
Keeps-rules_of (some policy) = search keeps_rules

Keeps-get_tenant_policy_rules : (t : String) → Keeps engine_view (get_tenant_policy_rules t)
unfolding get_tenant_policy_rules
Keeps-get_tenant_policy_rules t = search (keeps_rules, Keeps-rules_of)

Keeps-record_policy_decision :
    (client t : String) (input : PolicyInput) (decision : PolicyDecision)
    → Keeps engine_view (record_policy_decision client t input decision)
unfolding record_policy_decision
Keeps-record_policy_decision client t input decision = search step_rules

Keeps-authorize :
    (input : ToolCallInput) (client : String) → Keeps engine_view (authorize input client)
unfolding authorize require_tool check_binding require_mcp_server
Keeps-authorize input client =
    search (step_rules, Keeps-get_tenant_policy_rules, Keeps-record_policy_decision) depth 12

Keeps-call_tool :
    (fetch : Fetch) (input : ToolCallInput) → Keeps engine_view (call_tool fetch input)
unfolding call_tool record_audit proxy block fail
Keeps-call_tool fetch input = search (step_rules, Keeps-authorize) depth 12

module _ (deps : Deps) (tenant_id : String) where
  -- a step's rows are those of other tables
  pub execute_step-Keeps :
      (step : WorkflowStep) (prior : List (String × Json))
      → Keeps engine_view (execute_step deps tenant_id step prior)
  unfolding execute_step
  execute_step-Keeps (model_call _ _ _ _ _ _) prior =
      search (step_rules, Keeps-execute_model_run) depth 10
  execute_step-Keeps (tool_call _ _ _ _ _) prior = search (step_rules, Keeps-call_tool) depth 10
  execute_step-Keeps (create_artifact _ _ _ _ _ _) prior = search step_rules depth 10

  -- A step of a tenant's workflow changes only rows of that tenant, whatever its kind and outcome.
  pub execute_step-IsIsolated :
      (step : WorkflowStep) (prior : List (String × Json))
      → IsIsolated tenant_id (execute_step deps tenant_id step prior)
  unfolding execute_step
  execute_step-IsIsolated (model_call _ _ _ _ _ _) prior =
      search (isolation_rules, execute_model_run-IsIsolated) depth 10
  execute_step-IsIsolated (tool_call _ _ _ _ _) prior =
      search (isolation_rules, call_tool-IsIsolated) depth 10
  execute_step-IsIsolated (create_artifact _ _ _ _ _ _) prior = search isolation_rules depth 10
