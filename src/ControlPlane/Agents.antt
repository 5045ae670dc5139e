-- ===== src/ControlPlane/Agents.antt =====
-- services/control-plane-api/src/routes/agents.ts: registering agents and reading them. Messages and
-- Versions have the other routes. A new agent's identifier is a parameter.
pub mod Messages
pub mod Versions
pub mod Activation
pub mod Listing
mod Tests
use ai_digital_office_os.Prelude.{
  ℕ, String, Bool, true, false, ◌&&◌, ◌||◌, Option, none, some, List, [], ◌∷◌, ◌==◌, if◌then◌else◌,
}
use ai_digital_office_os.Json
use ai_digital_office_os.Json.{Json}
use ai_digital_office_os.Schema.{
  Db, AgentRow, AgentVersionRow, AgentMessageRow, ApprovalRow, ApprovalDecision, approved, denied,
  expired, LifecycleState, draft, sandbox, tested, evaluated, active, updated, deprecated, retired,
}
use ai_digital_office_os.Db.Ordering.{newest_first}
use ai_digital_office_os.Db.{
  Action, pure, gets, require, guard, ◌>>=◌, ◌>>◌, with_tenant_transaction, select, select_one,
}
use ai_digital_office_os.Db.Tables.{
  agent_owner, version_owner, message_owner, approval_owner, insert_agent, insert_version,
  insert_message, update_agents, update_versions,
}
use ai_digital_office_os.ControlPlane.Errors.{validation, not_found, policy_denied}
use ai_digital_office_os.ControlPlane.Body.{
  given, text_of, text_or_null, post_params, or_default, json_or, json_or_null,
}
use ai_digital_office_os.ControlPlane.Idempotency.{IdempotentResult, with_idempotent_write}

pub record CreateAgentBody : Type 0 where
  pub agent_name : Option String
  pub department : Option String
  pub role : Option String
  pub purpose : Option String
  pub capabilities : Option Json
  pub allowed_tools : Option Json
  pub permissions : Option Json
  pub data_access : Option Json
  pub input_schema : Option Json
  pub output_schema : Option Json
  pub security_level : Option String
  pub parent_agent_id : Option String

-- `Array.isArray(value)`
abbrev pub is_array : Option Json → Bool
is_array (some (Json.arr items)) = true
is_array _ = false

abbrev pub is_complete : CreateAgentBody → Bool
is_complete body =
    given body.agent_name
    && given body.department
    && given body.role
    && given body.purpose
    && is_array body.capabilities

abbrev pub draft_row : String → String → CreateAgentBody → ℕ → AgentRow
draft_row agent_id tenant_id body now = record {
  agent_id = agent_id;
  tenant_id = some tenant_id;
  agent_name = text_of body.agent_name;
  department = text_of body.department;
  role = text_of body.role;
  lifecycle_state = draft;
  status = "INACTIVE";
  capabilities = json_or body.capabilities Json.null;
  allowed_tools = json_or body.allowed_tools (Json.arr Json.nil);
  permissions = json_or body.permissions (Json.arr Json.nil);
  data_access = json_or body.data_access (Json.arr Json.nil);
  preferred_model = none;
  fallback_models = Json.arr Json.nil;
  parent_agent_id = body.parent_agent_id;
  purpose = body.purpose;
  input_schema = json_or_null body.input_schema;
  output_schema = json_or_null body.output_schema;
  security_level = some (or_default body.security_level "GREEN");
  evaluation_score = none;
  active_agent_version_id = none;
  created_at = now;
}

-- POST /agents
unfoldable pub create_agent : String → String → CreateAgentBody → Action AgentRow
create_agent new_id tenant_id body = do
  guard (is_complete body) validation
  with_tenant_transaction tenant_id (λ client. do
    now ← gets (λ db. db.clock)
    insert_agent client (draft_row new_id tenant_id body now)
    pure (draft_row new_id tenant_id body now))

abbrev pub same_state : LifecycleState → String → Bool
same_state draft s = s == "DRAFT"
same_state sandbox s = s == "SANDBOX"
same_state tested s = s == "TESTED"
same_state evaluated s = s == "EVALUATED"
same_state LifecycleState.approved s = s == "APPROVED"
same_state active s = s == "ACTIVE"
same_state updated s = s == "UPDATED"
same_state deprecated s = s == "DEPRECATED"
same_state retired s = s == "RETIRED"

-- a condition that is there only if the query parameter is given
abbrev pub when : Option String → (String → Bool) → Bool
when parameter test = if given parameter then test (text_of parameter) else true

-- GET /agents
unfoldable pub list_agents : String → Option String → Option String → Action (List AgentRow)
list_agents tenant_id lifecycle_state department = with_tenant_transaction tenant_id (λ client.
    gets (λ db.
      newest_first (λ row. row.created_at)
        (select agent_owner client
          (λ row.
            when lifecycle_state (same_state row.lifecycle_state)
            && when department (λ d. row.department == d))
          db.agents)))

abbrev pub has_agent_id : String → AgentRow → Bool
has_agent_id agent_id row = row.agent_id == agent_id

abbrev pub find_agent : String → String → Db → Option AgentRow
find_agent client agent_id db = select_one agent_owner client (has_agent_id agent_id) db.agents

-- GET /agents/{agentId}
unfoldable pub get_agent : String → String → Action AgentRow
get_agent tenant_id agent_id = do
  found ← with_tenant_transaction tenant_id (λ client. gets (find_agent client agent_id))
  require found not_found
