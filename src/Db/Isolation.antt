-- ===== src/Db/Isolation.antt =====
-- Tenant isolation: what a tenant's actions leave alone, one rule for each way to build an action.
use ai_digital_office_os.Prelude.{String, Bool, ◌≡◌, refl, Option, some, List, ap}
use ai_digital_office_os.Failure.{Result, ok, err}
use ai_digital_office_os.Schema.{
  Db, AgentRow, AgentVersionRow, AgentMessageRow, TaskRow, RoutingDecisionRow, PolicyDecisionRow,
  AuditRow, WorkflowRow, HistoryRow, ArtifactRow, DeploymentRow, ApprovalRow, ModelRunRow,
  SecretRow, UsageRow, IdempotencyRow,
}
use ai_digital_office_os.Db.{Action, store}
use ai_digital_office_os.Db.Keeps.{Keeps, keeps_rules}
use ai_digital_office_os.Db.Rows.{foreign, foreign-insert, foreign-update}
use ai_digital_office_os.Db.Tables.{
  agent_owner, version_owner, message_owner, task_owner, routing_owner, decision_owner, audit_owner,
  workflow_owner, history_owner, artifact_owner, deployment_owner, approval_owner, model_run_owner,
  usage_owner, secret_owner, idempotency_owner, update_agents, update_versions, insert_agent,
  insert_version, insert_message, insert_task, insert_routing_decision, insert_decision,
  insert_audit, insert_workflow, update_workflows, insert_history, insert_artifact,
  insert_deployment, update_deployments, insert_approval, update_approvals, insert_model_run,
  update_model_runs, insert_usage, update_secrets, insert_idempotency,
}

-- The database less the tenant's own rows.
abbrev pub outside : String → Db → Db
outside tenant db = record db {
  agents = foreign agent_owner tenant db.agents;
  agent_versions = foreign version_owner tenant db.agent_versions;
  messages = foreign message_owner tenant db.messages;
  tasks = foreign task_owner tenant db.tasks;
  routing_decisions = foreign routing_owner tenant db.routing_decisions;
  policy_decisions = foreign decision_owner tenant db.policy_decisions;
  audit_events = foreign audit_owner tenant db.audit_events;
  workflows = foreign workflow_owner tenant db.workflows;
  history = foreign history_owner tenant db.history;
  artifacts = foreign artifact_owner tenant db.artifacts;
  deployments = foreign deployment_owner tenant db.deployments;
  approvals = foreign approval_owner tenant db.approvals;
  model_runs = foreign model_run_owner tenant db.model_runs;
  secrets = foreign secret_owner tenant db.secrets;
  usage_events = foreign usage_owner tenant db.usage_events;
  idempotency_keys = foreign idempotency_owner tenant db.idempotency_keys;
}

-- The action changes only rows that the tenant owns, whether it returns or throws.
abbrev pub IsIsolated {ℓ} : {A : Type ℓ} → String → Action A → Type ℓ
IsIsolated tenant m = Keeps (outside tenant) m

-- A statement that writes one table, whose rows outside the tenant stay.
store_isolated :
    {A : Type 0} (tenant : String) (owner : A → Option String) (rows : List A) (r : Result (List A))
    (put : List A → Db → Db) (db : Db)
    → ((rows' : List A)
        → foreign owner tenant rows' ≡ foreign owner tenant rows
        → outside tenant (put rows' db) ≡ outside tenant db)
    → ((rows' : List A) → r ≡ ok rows' → foreign owner tenant rows' ≡ foreign owner tenant rows)
    → outside tenant (store r put db).1 ≡ outside tenant db
unfolding store
store_isolated tenant owner rows (ok rows') put db hp hr = hp rows' (hr rows' refl)
store_isolated tenant owner rows (err e) put db hp hr = refl

module _ (tenant : String) where
  pub IsIsolated-update_agents :
      (p : AgentRow → Bool) (f : AgentRow → AgentRow)
      → ((r : AgentRow) → (f r).tenant_id ≡ r.tenant_id)
      → IsIsolated tenant (update_agents tenant p f)
  unfolding update_agents
  IsIsolated-update_agents p f keeps = record {
    at = λ db.
        store_isolated tenant agent_owner db.agents _ _ db
          (λ rows' h. ap (λ rows. record (outside tenant db) { agents = rows }) h)
          (foreign-update agent_owner tenant p f keeps db.agents);
  }

  pub IsIsolated-update_versions :
      (p : AgentVersionRow → Bool) (f : AgentVersionRow → AgentVersionRow)
      → ((r : AgentVersionRow) → (f r).tenant_id ≡ r.tenant_id)
      → IsIsolated tenant (update_versions tenant p f)
  unfolding update_versions
  IsIsolated-update_versions p f keeps = record {
    at = λ db.
        store_isolated tenant version_owner db.agent_versions _ _ db
          (λ rows' h. ap (λ rows. record (outside tenant db) { agent_versions = rows }) h)
          (foreign-update version_owner tenant p f (λ r. ap some (keeps r)) db.agent_versions);
  }

  pub IsIsolated-insert_agent : (row : AgentRow) → IsIsolated tenant (insert_agent tenant row)
  unfolding insert_agent
  IsIsolated-insert_agent row = record {
    at = λ db.
        store_isolated tenant agent_owner db.agents _ _ db
          (λ rows' h. ap (λ rows. record (outside tenant db) { agents = rows }) h)
          (foreign-insert agent_owner tenant row db.agents);
  }

  pub IsIsolated-insert_version :
      (row : AgentVersionRow) → IsIsolated tenant (insert_version tenant row)
  unfolding insert_version
  IsIsolated-insert_version row = record {
    at = λ db.
        store_isolated tenant version_owner db.agent_versions _ _ db
          (λ rows' h. ap (λ rows. record (outside tenant db) { agent_versions = rows }) h)
          (foreign-insert version_owner tenant row db.agent_versions);
  }

  pub IsIsolated-insert_message :
      (row : AgentMessageRow) → IsIsolated tenant (insert_message tenant row)
  unfolding insert_message
  IsIsolated-insert_message row = record {
    at = λ db.
        store_isolated tenant message_owner db.messages _ _ db
          (λ rows' h. ap (λ rows. record (outside tenant db) { messages = rows }) h)
          (foreign-insert message_owner tenant row db.messages);
  }

  pub IsIsolated-insert_task : (row : TaskRow) → IsIsolated tenant (insert_task tenant row)
  unfolding insert_task
  IsIsolated-insert_task row = record {
    at = λ db.
        store_isolated tenant task_owner db.tasks _ _ db
          (λ rows' h. ap (λ rows. record (outside tenant db) { tasks = rows }) h)
          (foreign-insert task_owner tenant row db.tasks);
  }

  pub IsIsolated-insert_routing_decision :
      (row : RoutingDecisionRow) → IsIsolated tenant (insert_routing_decision tenant row)
  unfolding insert_routing_decision
  IsIsolated-insert_routing_decision row = record {
    at = λ db.
        store_isolated tenant routing_owner db.routing_decisions _ _ db
          (λ rows' h. ap (λ rows. record (outside tenant db) { routing_decisions = rows }) h)
          (foreign-insert routing_owner tenant row db.routing_decisions);
  }

  pub IsIsolated-insert_decision :
      (row : PolicyDecisionRow) → IsIsolated tenant (insert_decision tenant row)
  unfolding insert_decision
  IsIsolated-insert_decision row = record {
    at = λ db.
        store_isolated tenant decision_owner db.policy_decisions _ _ db
          (λ rows' h. ap (λ rows. record (outside tenant db) { policy_decisions = rows }) h)
          (foreign-insert decision_owner tenant row db.policy_decisions);
  }

  pub IsIsolated-insert_audit : (row : AuditRow) → IsIsolated tenant (insert_audit tenant row)
  unfolding insert_audit
  IsIsolated-insert_audit row = record {
    at = λ db.
        store_isolated tenant audit_owner db.audit_events _ _ db
          (λ rows' h. ap (λ rows. record (outside tenant db) { audit_events = rows }) h)
          (foreign-insert audit_owner tenant row db.audit_events);
  }

  pub IsIsolated-insert_workflow :
      (row : WorkflowRow) → IsIsolated tenant (insert_workflow tenant row)
  unfolding insert_workflow
  IsIsolated-insert_workflow row = record {
    at = λ db.
        store_isolated tenant workflow_owner db.workflows _ _ db
          (λ rows' h. ap (λ rows. record (outside tenant db) { workflows = rows }) h)
          (foreign-insert workflow_owner tenant row db.workflows);
  }

  pub IsIsolated-update_workflows :
      (p : WorkflowRow → Bool) (f : WorkflowRow → WorkflowRow)
      → ((r : WorkflowRow) → (f r).tenant_id ≡ r.tenant_id)
      → IsIsolated tenant (update_workflows tenant p f)
  unfolding update_workflows
  IsIsolated-update_workflows p f keeps = record {
    at = λ db.
        store_isolated tenant workflow_owner db.workflows _ _ db
          (λ rows' h. ap (λ rows. record (outside tenant db) { workflows = rows }) h)
          (foreign-update workflow_owner tenant p f (λ r. ap some (keeps r)) db.workflows);
  }

  pub IsIsolated-insert_history : (row : HistoryRow) → IsIsolated tenant (insert_history tenant row)
  unfolding insert_history
  IsIsolated-insert_history row = record {
    at = λ db.
        store_isolated tenant history_owner db.history _ _ db
          (λ rows' h. ap (λ rows. record (outside tenant db) { history = rows }) h)
          (foreign-insert history_owner tenant row db.history);
  }

  pub IsIsolated-insert_artifact :
      (row : ArtifactRow) → IsIsolated tenant (insert_artifact tenant row)
  unfolding insert_artifact
  IsIsolated-insert_artifact row = record {
    at = λ db.
        store_isolated tenant artifact_owner db.artifacts _ _ db
          (λ rows' h. ap (λ rows. record (outside tenant db) { artifacts = rows }) h)
          (foreign-insert artifact_owner tenant row db.artifacts);
  }

  pub IsIsolated-insert_deployment :
      (row : DeploymentRow) → IsIsolated tenant (insert_deployment tenant row)
  unfolding insert_deployment
  IsIsolated-insert_deployment row = record {
    at = λ db.
        store_isolated tenant deployment_owner db.deployments _ _ db
          (λ rows' h. ap (λ rows. record (outside tenant db) { deployments = rows }) h)
          (foreign-insert deployment_owner tenant row db.deployments);
  }

  pub IsIsolated-update_deployments :
      (p : DeploymentRow → Bool) (f : DeploymentRow → DeploymentRow)
      → ((r : DeploymentRow) → (f r).tenant_id ≡ r.tenant_id)
      → IsIsolated tenant (update_deployments tenant p f)
  unfolding update_deployments
  IsIsolated-update_deployments p f keeps = record {
    at = λ db.
        store_isolated tenant deployment_owner db.deployments _ _ db
          (λ rows' h. ap (λ rows. record (outside tenant db) { deployments = rows }) h)
          (foreign-update deployment_owner tenant p f (λ r. ap some (keeps r)) db.deployments);
  }

  pub IsIsolated-insert_approval :
      (row : ApprovalRow) → IsIsolated tenant (insert_approval tenant row)
  unfolding insert_approval
  IsIsolated-insert_approval row = record {
    at = λ db.
        store_isolated tenant approval_owner db.approvals _ _ db
          (λ rows' h. ap (λ rows. record (outside tenant db) { approvals = rows }) h)
          (foreign-insert approval_owner tenant row db.approvals);
  }

  pub IsIsolated-update_approvals :
      (p : ApprovalRow → Bool) (f : ApprovalRow → ApprovalRow)
      → ((r : ApprovalRow) → (f r).tenant_id ≡ r.tenant_id)
      → IsIsolated tenant (update_approvals tenant p f)
  unfolding update_approvals
  IsIsolated-update_approvals p f keeps = record {
    at = λ db.
        store_isolated tenant approval_owner db.approvals _ _ db
          (λ rows' h. ap (λ rows. record (outside tenant db) { approvals = rows }) h)
          (foreign-update approval_owner tenant p f (λ r. ap some (keeps r)) db.approvals);
  }

  pub IsIsolated-insert_model_run :
      (row : ModelRunRow) → IsIsolated tenant (insert_model_run tenant row)
  unfolding insert_model_run
  IsIsolated-insert_model_run row = record {
    at = λ db.
        store_isolated tenant model_run_owner db.model_runs _ _ db
          (λ rows' h. ap (λ rows. record (outside tenant db) { model_runs = rows }) h)
          (foreign-insert model_run_owner tenant row db.model_runs);
  }

  pub IsIsolated-update_model_runs :
      (p : ModelRunRow → Bool) (f : ModelRunRow → ModelRunRow)
      → ((r : ModelRunRow) → (f r).tenant_id ≡ r.tenant_id)
      → IsIsolated tenant (update_model_runs tenant p f)
  unfolding update_model_runs
  IsIsolated-update_model_runs p f keeps = record {
    at = λ db.
        store_isolated tenant model_run_owner db.model_runs _ _ db
          (λ rows' h. ap (λ rows. record (outside tenant db) { model_runs = rows }) h)
          (foreign-update model_run_owner tenant p f (λ r. ap some (keeps r)) db.model_runs);
  }

  pub IsIsolated-update_secrets :
      (p : SecretRow → Bool) (f : SecretRow → SecretRow)
      → ((r : SecretRow) → (f r).tenant_id ≡ r.tenant_id)
      → IsIsolated tenant (update_secrets tenant p f)
  unfolding update_secrets
  IsIsolated-update_secrets p f keeps = record {
    at = λ db.
        store_isolated tenant secret_owner db.secrets _ _ db
          (λ rows' h. ap (λ rows. record (outside tenant db) { secrets = rows }) h)
          (foreign-update secret_owner tenant p f (λ r. ap some (keeps r)) db.secrets);
  }

  pub IsIsolated-insert_usage : (row : UsageRow) → IsIsolated tenant (insert_usage tenant row)
  unfolding insert_usage
  IsIsolated-insert_usage row = record {
    at = λ db.
        store_isolated tenant usage_owner db.usage_events _ _ db
          (λ rows' h. ap (λ rows. record (outside tenant db) { usage_events = rows }) h)
          (foreign-insert usage_owner tenant row db.usage_events);
  }

  pub IsIsolated-insert_idempotency :
      (row : IdempotencyRow) → IsIsolated tenant (insert_idempotency tenant row)
  unfolding insert_idempotency
  IsIsolated-insert_idempotency row = record {
    at = λ db.
        store_isolated tenant idempotency_owner db.idempotency_keys _ _ db
          (λ rows' h. ap (λ rows. record (outside tenant db) { idempotency_keys = rows }) h)
          (foreign-insert idempotency_owner tenant row db.idempotency_keys);
  }

pub ruleset isolation_rules = (
  keeps_rules, IsIsolated-insert_agent, IsIsolated-insert_version, IsIsolated-insert_message,
  IsIsolated-insert_task, IsIsolated-insert_routing_decision, IsIsolated-insert_decision,
  IsIsolated-insert_audit, IsIsolated-insert_workflow, IsIsolated-insert_history,
  IsIsolated-insert_artifact, IsIsolated-insert_deployment, IsIsolated-insert_approval,
  IsIsolated-insert_model_run, IsIsolated-insert_usage, IsIsolated-insert_idempotency,
)
