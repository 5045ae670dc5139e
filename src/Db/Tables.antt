-- ===== src/Db/Tables.antt =====
-- The statements that write, one for each table and kind that the services use. A table's policy
-- is that of packages/db/migrations/0021: the owner of a row is its tenant_id.
use ai_digital_office_os.Prelude.{String, Bool, Option, some}
use ai_digital_office_os.Schema.{
  AgentRow, AgentVersionRow, AgentMessageRow, TaskRow, RoutingDecisionRow, PolicyDecisionRow,
  AuditRow, WorkflowRow, HistoryRow, ArtifactRow, DeploymentRow, ApprovalRow, ModelRunRow,
  SecretRow, UsageRow, IdempotencyRow,
}
use ai_digital_office_os.Db.{Action, store, insert, update}

abbrev pub agent_owner : AgentRow → Option String
agent_owner r = r.tenant_id

abbrev pub version_owner : AgentVersionRow → Option String
version_owner r = some r.tenant_id

abbrev pub message_owner : AgentMessageRow → Option String
message_owner r = some r.tenant_id

abbrev pub task_owner : TaskRow → Option String
task_owner r = some r.tenant_id

abbrev pub routing_owner : RoutingDecisionRow → Option String
routing_owner r = some r.tenant_id

abbrev pub decision_owner : PolicyDecisionRow → Option String
decision_owner r = some r.tenant_id

abbrev pub audit_owner : AuditRow → Option String
audit_owner r = r.tenant_id

abbrev pub workflow_owner : WorkflowRow → Option String
workflow_owner r = some r.tenant_id

abbrev pub history_owner : HistoryRow → Option String
history_owner r = some r.tenant_id

abbrev pub artifact_owner : ArtifactRow → Option String
artifact_owner r = some r.tenant_id

abbrev pub deployment_owner : DeploymentRow → Option String
deployment_owner r = some r.tenant_id

abbrev pub approval_owner : ApprovalRow → Option String
approval_owner r = some r.tenant_id

abbrev pub model_run_owner : ModelRunRow → Option String
model_run_owner r = some r.tenant_id

abbrev pub secret_owner : SecretRow → Option String
secret_owner r = some r.tenant_id

abbrev pub usage_owner : UsageRow → Option String
usage_owner r = some r.tenant_id

abbrev pub idempotency_owner : IdempotencyRow → Option String
idempotency_owner r = some r.tenant_id

module _ (tenant : String) where
  unfoldable pub update_agents : (AgentRow → Bool) → (AgentRow → AgentRow) → Action (Unit {0})
  unfolding store
  update_agents p f db =
      store (update agent_owner tenant p f db.agents) (λ rows d. record d { agents = rows }) db

  unfoldable pub update_versions :
      (AgentVersionRow → Bool) → (AgentVersionRow → AgentVersionRow) → Action (Unit {0})
  unfolding store
  update_versions p f db =
      store (update version_owner tenant p f db.agent_versions)
        (λ rows d. record d { agent_versions = rows }) db

  unfoldable pub insert_agent : AgentRow → Action (Unit {0})
  unfolding store
  insert_agent row db =
      store (insert agent_owner tenant row db.agents) (λ rows d. record d { agents = rows }) db

  unfoldable pub insert_version : AgentVersionRow → Action (Unit {0})
  unfolding store
  insert_version row db =
      store (insert version_owner tenant row db.agent_versions)
        (λ rows d. record d { agent_versions = rows }) db

  unfoldable pub insert_message : AgentMessageRow → Action (Unit {0})
  unfolding store
  insert_message row db =
      store (insert message_owner tenant row db.messages) (λ rows d. record d { messages = rows })
        db

  unfoldable pub insert_task : TaskRow → Action (Unit {0})
  unfolding store
  insert_task row db =
      store (insert task_owner tenant row db.tasks) (λ rows d. record d { tasks = rows }) db

  unfoldable pub insert_routing_decision : RoutingDecisionRow → Action (Unit {0})
  unfolding store
  insert_routing_decision row db =
      store (insert routing_owner tenant row db.routing_decisions)
        (λ rows d. record d { routing_decisions = rows }) db

  unfoldable pub insert_decision : PolicyDecisionRow → Action (Unit {0})
  unfolding store
  insert_decision row db =
      store (insert decision_owner tenant row db.policy_decisions)
        (λ rows d. record d { policy_decisions = rows }) db

  unfoldable pub insert_audit : AuditRow → Action (Unit {0})
  unfolding store
  insert_audit row db =
      store (insert audit_owner tenant row db.audit_events)
        (λ rows d. record d { audit_events = rows }) db

  unfoldable pub insert_workflow : WorkflowRow → Action (Unit {0})
  unfolding store
  insert_workflow row db =
      store (insert workflow_owner tenant row db.workflows)
        (λ rows d. record d { workflows = rows }) db

  unfoldable pub update_workflows :
      (WorkflowRow → Bool) → (WorkflowRow → WorkflowRow) → Action (Unit {0})
  unfolding store
  update_workflows p f db =
      store (update workflow_owner tenant p f db.workflows)
        (λ rows d. record d { workflows = rows }) db

  unfoldable pub insert_history : HistoryRow → Action (Unit {0})
  unfolding store
  insert_history row db =
      store (insert history_owner tenant row db.history) (λ rows d. record d { history = rows }) db

  unfoldable pub insert_artifact : ArtifactRow → Action (Unit {0})
  unfolding store
  insert_artifact row db =
      store (insert artifact_owner tenant row db.artifacts)
        (λ rows d. record d { artifacts = rows }) db

  unfoldable pub insert_deployment : DeploymentRow → Action (Unit {0})
  unfolding store
  insert_deployment row db =
      store (insert deployment_owner tenant row db.deployments)
        (λ rows d. record d { deployments = rows }) db

  unfoldable pub update_deployments :
      (DeploymentRow → Bool) → (DeploymentRow → DeploymentRow) → Action (Unit {0})
  unfolding store
  update_deployments p f db =
      store (update deployment_owner tenant p f db.deployments)
        (λ rows d. record d { deployments = rows }) db

  unfoldable pub insert_approval : ApprovalRow → Action (Unit {0})
  unfolding store
  insert_approval row db =
      store (insert approval_owner tenant row db.approvals)
        (λ rows d. record d { approvals = rows }) db

  unfoldable pub update_approvals :
      (ApprovalRow → Bool) → (ApprovalRow → ApprovalRow) → Action (Unit {0})
  unfolding store
  update_approvals p f db =
      store (update approval_owner tenant p f db.approvals)
        (λ rows d. record d { approvals = rows }) db

  unfoldable pub insert_model_run : ModelRunRow → Action (Unit {0})
  unfolding store
  insert_model_run row db =
      store (insert model_run_owner tenant row db.model_runs)
        (λ rows d. record d { model_runs = rows }) db

  unfoldable pub update_model_runs :
      (ModelRunRow → Bool) → (ModelRunRow → ModelRunRow) → Action (Unit {0})
  unfolding store
  update_model_runs p f db =
      store (update model_run_owner tenant p f db.model_runs)
        (λ rows d. record d { model_runs = rows }) db

  unfoldable pub update_secrets : (SecretRow → Bool) → (SecretRow → SecretRow) → Action (Unit {0})
  unfolding store
  update_secrets p f db =
      store (update secret_owner tenant p f db.secrets) (λ rows d. record d { secrets = rows }) db

  unfoldable pub insert_usage : UsageRow → Action (Unit {0})
  unfolding store
  insert_usage row db =
      store (insert usage_owner tenant row db.usage_events)
        (λ rows d. record d { usage_events = rows }) db

  unfoldable pub insert_idempotency : IdempotencyRow → Action (Unit {0})
  unfolding store
  insert_idempotency row db =
      store (insert idempotency_owner tenant row db.idempotency_keys)
        (λ rows d. record d { idempotency_keys = rows }) db
