-- ===== src/ToolGateway/Tests.antt =====
-- One tool behind one MCP server, and the theorems at calls of it.
use ai_digital_office_os.Prelude.{◌≡◌, refl, none, some, [], ◌∷◌, ◌++◌, true, false}
use ai_digital_office_os.Json
use ai_digital_office_os.Json.{Json}
use ai_digital_office_os.Failure.{ok}
use ai_digital_office_os.Schema.{Db, empty_db, ToolRow, McpServerRow}
use ai_digital_office_os.PolicyEngine.{
  allow, evaluate_policy, best_of, consider, specificity, decide, risk_level_of,
}
use ai_digital_office_os.Db.{actions, select_one, insert}
use ai_digital_office_os.Db.Tables.{insert_decision, insert_audit}
use ai_digital_office_os.Governance.{
  get_tenant_policy_rules, active_policy, rules_of, record_policy_decision, to_risk_level,
}
use ai_digital_office_os.ToolGateway.McpClient.{call, request, read_response, read_result}
use ai_digital_office_os.ToolGateway.Authorization.{IsAuthorized, call_tool_authorized}
use ai_digital_office_os.ToolGateway.Audit.{call_tool_audited, expected_event}
use ai_digital_office_os.ToolGateway.{
  Fetch, FetchOutcome, McpToolCallResult, ToolCallInput, Authorized, call_tool, authorize,
  require_tool, check_binding, require_mcp_server, record_audit, proxy, block, fail, audit_row,
  tool_input,
}

abbrev answering : Fetch
answering endpoint id method params = FetchOutcome.responded (
    some (
      Json.obj (
        Json.field "id" (Json.num 1) (
          Json.field "result" (Json.obj (Json.field "content" (Json.str "done") Json.end))
            Json.end))))

abbrev the_tool : ToolRow
the_tool = record {
  tool_id = "tool-1";
  mcp_server_id = "mcp-1";
  tool_name = "search";
  risk_level = "GREEN";
  enabled = true;
}

abbrev the_server : McpServerRow
the_server = record {
  mcp_server_id = "mcp-1";
  tenant_id = none;
  endpoint = "http://mcp";
  enabled = true;
}

abbrev unbound : Db
unbound = record empty_db { tools = the_tool ∷ []; mcp_servers = the_server ∷ [] }

abbrev bound : Db
bound = record unbound {
  tool_bindings =
      record {
        tenant_id = "t";
        agent_id = "agent-1";
        tool_id = "tool-1";
        allowed_actions = Json.arr (Json.cons (Json.str "read") Json.nil);
      }
      ∷ [];
}

abbrev input : ToolCallInput
input = record {
  tenant_id = "t";
  agent_id = "agent-1";
  tool_id = "tool-1";
  action = "read";
  arguments = Json.null;
}

abbrev answer : McpToolCallResult
answer = record { content = Json.str "done"; is_error = Json.bool false }

abbrev allowed : Authorized
allowed = record {
  tool = the_tool;
  server = the_server;
  decision = evaluate_policy (tool_input input the_tool) [];
}

run : Unit {0}
unfolding call_tool authorize require_tool check_binding require_mcp_server record_audit proxy block
    fail call request read_response read_result get_tenant_policy_rules active_policy rules_of
    record_policy_decision to_risk_level evaluate_policy best_of consider specificity decide
    risk_level_of insert_decision insert_audit insert select_one actions
run = tt

call_tool_authorized_example :
    (checked : Authorized) × IsAuthorized input bound checked
    × (checked.decision.decision ≡ allow)
    × (call answering checked.server.endpoint checked.tool.tool_name input.arguments ≡ ok answer)
unfolding run
call_tool_authorized_example = call_tool_authorized input bound answering answer refl

call_tool_audited_example :
    (call_tool answering input bound).1.audit_events
    ≡ [] ++ audit_row input (expected_event answering input allowed) ∷ []
unfolding run
call_tool_audited_example = call_tool_audited answering input bound allowed refl
