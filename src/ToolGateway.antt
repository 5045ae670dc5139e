-- ===== src/ToolGateway.antt =====
-- services/tool-gateway-mcp/src/gateway.ts: a tool call is authorised in one transaction (the tool,
-- the agent's binding, the MCP server, the policy decision and its record), and then blocked or
-- proxied to the tool's MCP server, with one audit event. The MCP server is the parameter `fetch`.
pub mod McpClient
pub mod Authorization
pub mod Audit
mod Tests
pub use McpClient.{Fetch, McpToolCallResult, FetchOutcome}
use McpClient.{call}
use ai_digital_office_os.Prelude.{
  ℕ, String, Bool, true, false, ◌&&◌, Option, none, some, List, [], ◌∷◌, any, ◌==◌, if◌then◌else◌,
}
use ai_digital_office_os.Json
use ai_digital_office_os.Json.{Json, array_or_empty}
use ai_digital_office_os.Failure.{Failure, tool_gateway_error, ToolGatewayErrorCode, binding_denied}
use ai_digital_office_os.Schema.{Db, ToolRow, McpServerRow, ToolBindingRow, AuditRow}
use ai_digital_office_os.PolicyEngine.{PolicyInput, PolicyDecision, evaluate_policy}
use ai_digital_office_os.Db.{
  Action, pure, throw, lift, gets, require, guard, ◌>>=◌, ◌>>◌, try_catch, with_tenant_transaction,
  select_one,
}
use ai_digital_office_os.Db.Tables.{insert_audit}
use ai_digital_office_os.Governance.{
  get_tenant_policy_rules, to_risk_level, is_allow, record_policy_decision,
}

pub record ToolCallInput : Type 0 where
  pub tenant_id : String
  pub agent_id : String
  pub tool_id : String
  pub action : String
  pub arguments : Json

pub record Authorized : Type 0 where
  pub tool : ToolRow
  pub server : McpServerRow
  pub decision : PolicyDecision

abbrev pub not_found : Failure
not_found = tool_gateway_error ToolGatewayErrorCode.not_found false

abbrev pub denied : Failure
denied = tool_gateway_error binding_denied false

-- tool_registry has no row-level security: every tenant sees it
abbrev pub no_tenant : ToolRow → Option String
no_tenant tool = none

abbrev pub server_owner : McpServerRow → Option String
server_owner server = server.tenant_id

abbrev pub binding_owner : ToolBindingRow → Option String
binding_owner binding = some binding.tenant_id

abbrev pub is_tool : String → ToolRow → Bool
is_tool tool_id tool = tool.tool_id == tool_id && tool.enabled

abbrev pub is_server : String → McpServerRow → Bool
is_server id server = server.mcp_server_id == id && server.enabled

abbrev pub is_binding : ToolCallInput → ToolBindingRow → Bool
is_binding input binding =
    binding.tenant_id == input.tenant_id
    && binding.agent_id == input.agent_id
    && binding.tool_id == input.tool_id

abbrev pub is_text : String → Json → Bool
is_text s (Json.str t) = t == s
is_text s _ = false

abbrev pub find_tool : ToolCallInput → String → Db → Option ToolRow
find_tool input client db = select_one no_tenant client (is_tool input.tool_id) db.tools

abbrev pub find_server : String → String → Db → Option McpServerRow
find_server id client db = select_one server_owner client (is_server id) db.mcp_servers

abbrev pub find_binding : ToolCallInput → String → Db → Option ToolBindingRow
find_binding input client db = select_one binding_owner client (is_binding input) db.tool_bindings

unfoldable pub require_tool : ToolCallInput → String → Action ToolRow
require_tool input client = do tool ← gets (find_tool input client); require tool not_found

unfoldable pub require_mcp_server : String → String → Action McpServerRow
require_mcp_server id client = do server ← gets (find_server id client); require server not_found

abbrev pub permits : ToolBindingRow → String → Bool
permits binding action = any (is_text action) (array_or_empty binding.allowed_actions)

unfoldable pub check_binding : ToolCallInput → String → Action (Unit {0})
check_binding input client = do
  found ← gets (find_binding input client)
  binding ← require found denied
  guard (permits binding input.action) denied

abbrev pub tool_input : ToolCallInput → ToolRow → PolicyInput
tool_input input tool = record {
  action_type = "TOOL_CALL";
  risk_level = to_risk_level (some tool.risk_level);
  task_id = none;
  agent_id = some input.agent_id;
  tool_id = some input.tool_id;
  model_id = none;
  provider_id = none;
}

-- the first transaction of callTool
unfoldable pub authorize : ToolCallInput → String → Action Authorized
authorize input client = do
  tool ← require_tool input client
  check_binding input client
  server ← require_mcp_server tool.mcp_server_id client
  tenant_rules ← get_tenant_policy_rules client
  let decision = evaluate_policy (tool_input input tool) tenant_rules
  record_policy_decision client input.tenant_id (tool_input input tool) decision
  pure (record { tool = tool; server = server; decision = decision })

abbrev pub audit_row : ToolCallInput → String → AuditRow
audit_row input event_type = record {
  tenant_id = some input.tenant_id;
  event_type = event_type;
  actor_type = "SERVICE";
  actor_id = input.agent_id;
}

unfoldable pub record_audit : ToolCallInput → String → Action (Unit {0})
record_audit input event_type =
    with_tenant_transaction input.tenant_id
      (λ client. insert_audit client (audit_row input event_type))

-- the body of the `try`
unfoldable pub proxy : Fetch → ToolCallInput → Authorized → Action McpToolCallResult
unfolding call
proxy fetch input checked = do
  result ← lift (call fetch checked.server.endpoint checked.tool.tool_name input.arguments)
  record_audit input "TOOL_CALL_EXECUTED"
  pure result

unfoldable pub block : ToolCallInput → Action McpToolCallResult
block input = do
  record_audit input "TOOL_CALL_BLOCKED"
  throw (tool_gateway_error ToolGatewayErrorCode.policy_blocked false)

unfoldable pub fail : ToolCallInput → Failure → Action McpToolCallResult
fail input e = do record_audit input "TOOL_CALL_FAILED"; throw e

unfoldable pub call_tool : Fetch → ToolCallInput → Action McpToolCallResult
call_tool fetch input = do
  checked ← with_tenant_transaction input.tenant_id (authorize input)
  if is_allow checked.decision.decision
      then try_catch (proxy fetch input checked) pure (fail input)
      else block input
