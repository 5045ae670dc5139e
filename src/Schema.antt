-- ===== src/Schema.antt =====
-- The rows that the services read and write: the columns of packages/db/migrations that the code
-- uses, as packages/domain-model/src/generated/tables.ts types them and the services' own Row
-- interfaces. A nullable column is an Option, except that a JSONB column that is NULL reads as the
-- JSON value null, as node-pg delivers it. Times are numbers. Amounts of money are numbers of
-- units of 0.00000001, the scale of NUMERIC(18,8).
use ai_digital_office_os.Prelude.{ℕ, String, Bool, Option, List, []}
use ai_digital_office_os.Json.{Json}
use ai_digital_office_os.Failure.{Failure}
use ai_digital_office_os.PolicyEngine.{PolicyDecisionResult, PolicyRule}

pub data LifecycleState : Type 0 where
  draft sandbox tested evaluated approved active updated deprecated retired : LifecycleState

pub record OrganizationRow : Type 0 where
  pub tenant_id : String

pub record AgentRow : Type 0 where
  pub agent_id : String
  pub tenant_id : Option String
  pub agent_name : String
  pub department : String
  pub role : String
  pub lifecycle_state : LifecycleState
  pub status : String
  pub capabilities : Json
  pub allowed_tools : Json
  pub permissions : Json
  pub data_access : Json
  pub preferred_model : Option String
  pub fallback_models : Json
  pub parent_agent_id : Option String
  pub purpose : Option String
  pub input_schema : Json
  pub output_schema : Json
  pub security_level : Option String
  pub evaluation_score : Option ℕ
  pub active_agent_version_id : Option String
  pub created_at : ℕ

pub record AgentVersionRow : Type 0 where
  pub agent_version_id : String
  pub tenant_id : String
  pub agent_id : String
  pub version : String
  pub specification_hash : String
  pub prompt_version : Option String
  pub model_policy : Json
  pub permissions_snapshot : Json
  pub lifecycle_state : LifecycleState
  pub created_at : ℕ

pub record AgentMessageRow : Type 0 where
  pub message_id : String
  pub tenant_id : String
  pub sender_agent_id : String
  pub receiver_agent_id : String
  pub message_type : String
  pub input_payload : Json
  pub status : String
  pub idempotency_key : Option String
  pub created_at : ℕ

pub record TaskRow : Type 0 where
  pub task_id : String
  pub tenant_id : String
  pub project_id : String
  pub workflow_id : Option String
  pub parent_task_id : Option String
  pub required_capability : String
  pub priority : String
  pub risk_level : String
  pub security_level : Option String
  pub dependencies : Json
  pub input : Json
  pub expected_output : Json
  pub idempotency_key : String
  pub deadline : Option String

pub record PolicyRow : Type 0 where
  pub policy_id : String
  pub tenant_id : Option String
  pub policy_name : String
  pub policy_version : String
  pub rules : Json
  pub status : String
  pub created_at : ℕ
  pub updated_at : ℕ

-- `rejected` is whether rejection_reasons is set
pub record PolicyDecisionRow : Type 0 where
  pub tenant_id : String
  pub task_id : Option String
  pub agent_id : Option String
  pub tool_id : Option String
  pub model_id : Option String
  pub provider_id : Option String
  pub decision : PolicyDecisionResult
  pub alternatives : Option PolicyRule
  pub rejected : Bool

pub record ToolRow : Type 0 where
  pub tool_id : String
  pub mcp_server_id : String
  pub tool_name : String
  pub risk_level : String
  pub enabled : Bool

pub record McpServerRow : Type 0 where
  pub mcp_server_id : String
  pub tenant_id : Option String
  pub endpoint : String
  pub enabled : Bool

pub record ToolBindingRow : Type 0 where
  pub tenant_id : String
  pub agent_id : String
  pub tool_id : String
  pub allowed_actions : Json

-- the payload is not kept
pub record AuditRow : Type 0 where
  pub tenant_id : Option String
  pub event_type : String
  pub actor_type : String
  pub actor_id : String

pub data WorkflowStatus : Type 0 where
  running paused completed failed cancelled escalated : WorkflowStatus

-- CompletionRequest of the model router, and the arguments of a tool call, are JSON values
pub data WorkflowStep : Type 0 where
  model_call :
      (step_id provider_id model_id : String) (request : Json) (task_id agent_id : Option String)
      → WorkflowStep
  tool_call : (step_id agent_id tool_id action : String) (arguments : Json) → WorkflowStep
  create_artifact :
      (step_id project_id : String) (task_id : Option String)
      (artifact_type storage_uri content_from_step : String)
      → WorkflowStep

-- an entry of workflow_history: its event_type and its payload
pub data HistoryEvent : Type 0 where
  -- STARTED; the definition is absent where the control plane starts the workflow
  started : Option (List WorkflowStep) → HistoryEvent
  step_started : String → HistoryEvent
  step_failed : String → Failure → HistoryEvent
  step_completed : String → Json → HistoryEvent
  all_completed : HistoryEvent
  -- PAUSED, RESUMED, ROLLED_BACK, RETRY and ESCALATED, with the statuses left and entered
  moved : (event_type : String) → WorkflowStatus → WorkflowStatus → HistoryEvent

pub record HistoryRow : Type 0 where
  pub tenant_id : String
  pub workflow_id : String
  pub sequence_no : ℕ
  pub event : HistoryEvent

-- the JSONB cache current_state is the definition, the completed steps and their results
pub record WorkflowState : Type 0 where
  pub definition : Option (List WorkflowStep)
  pub completed_steps : List String
  pub step_results : List (String × Json)

pub record WorkflowRow : Type 0 where
  pub workflow_id : String
  pub tenant_id : String
  pub project_id : String
  pub current_state : Option WorkflowState
  pub status : WorkflowStatus
  pub completed_at : Option ℕ

pub record ProjectRow : Type 0 where
  pub project_id : String
  pub tenant_id : String

pub record ArtifactRow : Type 0 where
  pub artifact_id : String
  pub tenant_id : String
  pub project_id : String
  pub task_id : Option String
  pub artifact_type : String
  pub storage_uri : String
  pub content_hash : String

pub data DeploymentStatus : Type 0 where
  in_progress healthy failed rolled_back : DeploymentStatus

pub record DeploymentRow : Type 0 where
  pub deployment_id : String
  pub tenant_id : String
  pub project_id : String
  pub release_id : String
  pub environment : String
  pub strategy : String
  pub status : DeploymentStatus
  pub approval_request_id : Option String
  pub rollback_target : Option String
  pub health_check_url : Option String
  pub completed_at : Option ℕ

pub record ReleaseRow : Type 0 where
  pub release_id : String
  pub tenant_id : String

pub data ApprovalDecision : Type 0 where
  approved denied expired : ApprovalDecision

pub record ApprovalRow : Type 0 where
  pub request_id : String
  pub tenant_id : String
  pub requester : Option String
  pub agent_id : Option String
  pub action : String
  pub risk_level : String
  pub reason : Option String
  pub approver : Option String
  pub decision : Option ApprovalDecision
  pub expires_at : Option ℕ
  pub decided_at : Option ℕ

pub record ProviderRow : Type 0 where
  pub provider_id : String
  pub adapter_type : String

pub record ModelRow : Type 0 where
  pub model_id : String
  pub provider_id : String
  pub cost_profile : Json
  pub availability : String
  pub capabilities : Json

pub record RoutingDecisionRow : Type 0 where
  pub tenant_id : String
  pub task_id : String
  pub agent_id : String
  pub selected_provider : Option String
  pub selected_model : Option String
  pub candidate_models : Json
  pub policy_result : String

pub data ModelRunStatus : Type 0 where
  running completed failed : ModelRunStatus

pub record ModelRunRow : Type 0 where
  pub model_run_id : String
  pub tenant_id : String
  pub provider_id : String
  pub model_id : String
  pub status : ModelRunStatus
  pub input_tokens : Option ℕ
  pub output_tokens : Option ℕ
  pub estimated_cost : Option ℕ
  pub completed_at : Option ℕ

pub record UsageRow : Type 0 where
  pub tenant_id : String
  pub task_id : Option String
  pub agent_id : Option String
  pub provider_id : Option String
  pub model_id : Option String
  pub input_tokens : ℕ
  pub output_tokens : ℕ
  pub actual_cost : ℕ
  pub currency : String
  pub event_time : ℕ

pub record SecretRow : Type 0 where
  pub reference_id : String
  pub tenant_id : String
  pub scope_provider_id : Option String
  pub vault_path : String
  pub last_rotated_at : Option ℕ
  pub created_at : ℕ

pub record BudgetTierRow : Type 0 where
  pub tenant_id : String
  pub period : String
  pub currency : String
  pub soft_limit : ℕ
  pub hard_limit : ℕ

pub record WorkingMemoryRow : Type 0 where
  pub cache_key : String
  pub tenant_id : String
  pub task_id : Option String
  pub payload : Json
  pub expires_at : ℕ

pub record IdempotencyRow : Type 0 where
  pub tenant_id : String
  pub idempotency_key : String
  pub method : String
  pub path : String
  pub response_status : ℕ
  pub response_body : Json

pub record Db : Type 0 where
  pub organizations : List OrganizationRow
  pub agents : List AgentRow
  pub agent_versions : List AgentVersionRow
  pub messages : List AgentMessageRow
  pub tasks : List TaskRow
  pub routing_decisions : List RoutingDecisionRow
  pub policies : List PolicyRow
  pub policy_decisions : List PolicyDecisionRow
  pub tools : List ToolRow
  pub mcp_servers : List McpServerRow
  pub tool_bindings : List ToolBindingRow
  pub audit_events : List AuditRow
  pub workflows : List WorkflowRow
  pub history : List HistoryRow
  pub projects : List ProjectRow
  pub artifacts : List ArtifactRow
  pub deployments : List DeploymentRow
  pub releases : List ReleaseRow
  pub approvals : List ApprovalRow
  pub providers : List ProviderRow
  pub models : List ModelRow
  pub model_runs : List ModelRunRow
  pub usage_events : List UsageRow
  pub secrets : List SecretRow
  pub budget_tiers : List BudgetTierRow
  pub working_memory : List WorkingMemoryRow
  pub idempotency_keys : List IdempotencyRow
  -- what now() gives
  pub clock : ℕ

abbrev pub empty_db : Db
empty_db = record {
  organizations = [];
  agents = [];
  agent_versions = [];
  messages = [];
  tasks = [];
  routing_decisions = [];
  policies = [];
  policy_decisions = [];
  tools = [];
  mcp_servers = [];
  tool_bindings = [];
  audit_events = [];
  workflows = [];
  history = [];
  projects = [];
  artifacts = [];
  deployments = [];
  releases = [];
  approvals = [];
  providers = [];
  models = [];
  model_runs = [];
  usage_events = [];
  secrets = [];
  budget_tiers = [];
  working_memory = [];
  idempotency_keys = [];
  clock = 0;
}
