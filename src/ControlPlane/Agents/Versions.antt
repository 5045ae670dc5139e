-- ===== src/ControlPlane/Agents/Versions.antt =====
-- agents.ts: the versions of an agent, and the activation of one. A new identifier and the hash of
-- a version's payload are parameters; a version's lifecycle state is one of the named ones.
use ai_digital_office_os.Prelude.{
  ℕ, String, Bool, true, false, ◌&&◌, Option, none, some, List, ◌==◌,
}
use ai_digital_office_os.Json
use ai_digital_office_os.Json.{Json}
use ai_digital_office_os.Schema.{
  Db, AgentRow, AgentVersionRow, ApprovalRow, ApprovalDecision, approved, LifecycleState, draft,
  sandbox, tested, evaluated, active, updated, deprecated, retired,
}
use ai_digital_office_os.Db.Ordering.{newest_first}
use ai_digital_office_os.Db.{
  Action, pure, gets, require, ◌>>=◌, ◌>>◌, with_tenant_transaction, select, select_one,
}
use ai_digital_office_os.Db.Tables.{
  version_owner, approval_owner, insert_version, update_agents, update_versions,
}
use ai_digital_office_os.ControlPlane.Errors.{not_found, policy_denied}
use ai_digital_office_os.ControlPlane.Body.{text_or_null, post_params, or_default, json_or_null}
use ai_digital_office_os.ControlPlane.Idempotency.{IdempotentResult, with_idempotent_write}
use ai_digital_office_os.ControlPlane.Agents.{find_agent, has_agent_id}

pub record CreateVersionBody : Type 0 where
  pub version : Option String
  pub specification_hash : Option String
  pub prompt_version : Option String
  pub model_policy : Option Json
  pub permissions_snapshot : Option Json
  pub lifecycle_state : Option LifecycleState

abbrev pub state_or_draft : Option LifecycleState → LifecycleState
state_or_draft none = draft
state_or_draft (some state) = state

abbrev pub version_row : String → String → String → String → CreateVersionBody → ℕ → AgentVersionRow
version_row new_id payload_hash tenant_id agent_id body now = record {
  agent_version_id = new_id;
  tenant_id = tenant_id;
  agent_id = agent_id;
  version = or_default body.version "1.0.0";
  specification_hash = or_default body.specification_hash payload_hash;
  prompt_version = body.prompt_version;
  model_policy = json_or_null body.model_policy;
  permissions_snapshot = json_or_null body.permissions_snapshot;
  lifecycle_state = state_or_draft body.lifecycle_state;
  created_at = now;
}

abbrev state_text : LifecycleState → String
state_text draft = "DRAFT"
state_text sandbox = "SANDBOX"
state_text tested = "TESTED"
state_text evaluated = "EVALUATED"
state_text LifecycleState.approved = "APPROVED"
state_text active = "ACTIVE"
state_text updated = "UPDATED"
state_text deprecated = "DEPRECATED"
state_text retired = "RETIRED"

-- camelizeRow
abbrev pub camelize_version : AgentVersionRow → Json
camelize_version row = Json.obj (
    Json.field "agentVersionId" (Json.str row.agent_version_id) (
      Json.field "tenantId" (Json.str row.tenant_id) (
        Json.field "agentId" (Json.str row.agent_id) (
          Json.field "version" (Json.str row.version) (
            Json.field "specificationHash" (Json.str row.specification_hash) (
              Json.field "promptVersion" (text_or_null row.prompt_version) (
                Json.field "modelPolicy" row.model_policy (
                  Json.field "permissionsSnapshot" row.permissions_snapshot (
                    Json.field "lifecycleState" (Json.str (state_text row.lifecycle_state))
                      (Json.field "createdAt" (Json.num row.created_at) Json.end))))))))))

-- POST /agents/{agentId}/versions
unfoldable pub create_version :
    String
    → String
    → String
    → String
    → String
    → String
    → CreateVersionBody
    → Action IdempotentResult
create_version new_id payload_hash tenant_id key path agent_id body =
    with_tenant_transaction tenant_id (λ client.
      with_idempotent_write client (post_params tenant_id key path) (do
        agent ← gets (find_agent client agent_id)
        _found ← require agent not_found
        now ← gets (λ db. db.clock)
        insert_version client (version_row new_id payload_hash tenant_id agent_id body now)
        pure (201, camelize_version (version_row new_id payload_hash tenant_id agent_id body now))))

-- GET /agents/{agentId}/versions
unfoldable pub list_versions : String → String → Action (List AgentVersionRow)
list_versions tenant_id agent_id = with_tenant_transaction tenant_id (λ client. gets (λ db.
    newest_first (λ row. row.created_at)
      (select version_owner client (λ row. row.agent_id == agent_id) db.agent_versions)))

abbrev pub is_version : String → String → AgentVersionRow → Bool
is_version version_id agent_id row = row.agent_version_id == version_id && row.agent_id == agent_id

abbrev pub find_version : String → String → String → Db → Option AgentVersionRow
find_version client version_id agent_id db =
    select_one version_owner client (is_version version_id agent_id) db.agent_versions

abbrev pub is_approved : Option ApprovalDecision → Bool
is_approved (some approved) = true
is_approved _ = false

abbrev pub is_for : Option String → String → Bool
is_for none agent_id = false
is_for (some id) agent_id = id == agent_id

-- the approval that the activation asks for; which of several is read does not matter
abbrev pub approves : String → String → ApprovalRow → Bool
approves tenant_id agent_id row =
    row.tenant_id == tenant_id
    && is_for row.agent_id agent_id
    && row.action == "AGENT_ACTIVATE"
    && is_approved row.decision

abbrev pub find_activation_approval : String → String → String → Db → Option ApprovalRow
find_activation_approval client tenant_id agent_id db =
    select_one approval_owner client (approves tenant_id agent_id) db.approvals

abbrev pub activate_row : String → AgentRow → AgentRow
activate_row version_id row = record row {
  active_agent_version_id = some version_id;
  lifecycle_state = active;
  status = "ACTIVE";
}

-- the response's agentId, activeAgentVersionId and lifecycleState
pub record ActivateResponse : Type 0 where
  pub agent_id : String
  pub active_agent_version_id : String
  pub lifecycle_state : LifecycleState

-- POST /agents/{agentId}/versions/{agentVersionId}/activate
unfoldable pub activate : String → String → String → Action ActivateResponse
activate tenant_id agent_id version_id = do
  with_tenant_transaction tenant_id (λ client. do
    version ← gets (find_version client version_id agent_id)
    _version ← require version not_found
    approval ← gets (find_activation_approval client tenant_id agent_id)
    _approval ← require approval policy_denied
    update_versions client (λ row. row.agent_version_id == version_id)
        (λ row. record row { lifecycle_state = active })
    update_agents client (has_agent_id agent_id) (activate_row version_id))
  pure (record {
    agent_id = agent_id;
    active_agent_version_id = version_id;
    lifecycle_state = active;
  })
