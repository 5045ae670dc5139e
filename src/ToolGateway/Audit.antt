-- ===== src/ToolGateway/Audit.antt =====
-- gateway.ts: every authorised call leaves one audit event, and a refused one leaves nothing.
use ai_digital_office_os.Prelude.{◌≡◌, String, [], ◌∷◌, ◌++◌, arith, eq_refl, if◌then◌else◌}
use ai_digital_office_os.Failure.{Failure, Result, ok, err}
use ai_digital_office_os.Schema.{Db}
use ai_digital_office_os.Db.{actions, insert}
use ai_digital_office_os.Db.Isolation.{IsIsolated, isolation_rules}
use ai_digital_office_os.Db.Tables.{insert_audit, insert_decision}
use ai_digital_office_os.AgentFactory.Isolation.{
  get_tenant_policy_rules-IsIsolated, record_policy_decision-IsIsolated,
}
use ai_digital_office_os.Governance.{is_allow, get_tenant_policy_rules_lem, record_policy_decision}
use ai_digital_office_os.ToolGateway.McpClient.{Fetch, McpToolCallResult, call}
use ai_digital_office_os.ToolGateway.{
  ToolCallInput, Authorized, authorize, require_tool, check_binding, require_mcp_server, call_tool,
  proxy, record_audit, audit_row, block, fail,
}

-- the event of a proxied call, by what the server answered
abbrev pub event_of : Result McpToolCallResult → String
event_of (ok result) = "TOOL_CALL_EXECUTED"
event_of (err e) = "TOOL_CALL_FAILED"

abbrev pub expected_event : Fetch → ToolCallInput → Authorized → String
expected_event fetch input checked =
    if is_allow checked.decision.decision
    then event_of (call fetch checked.server.endpoint checked.tool.tool_name input.arguments)
    else "TOOL_CALL_BLOCKED"

module _ (fetch : Fetch) (input : ToolCallInput) (db : Db) where
  authorize_audit :
      (checked : Authorized)
      → (authorize input input.tenant_id db).0 ≡ ok checked
      → (authorize input input.tenant_id db).1.audit_events ≡ db.audit_events
  unfolding authorize require_tool check_binding require_mcp_server record_policy_decision
      insert_decision actions
  authorize_audit checked h = ground (arith, h, get_tenant_policy_rules_lem input.tenant_id db)

  -- A call that passed its authorisation transaction leaves exactly one more audit event, whatever
  -- happens then: BLOCKED if the policy decision is not ALLOW, and else EXECUTED or FAILED as the
  -- MCP server answered.
  pub call_tool_audited :
      (checked : Authorized)
      → (authorize input input.tenant_id db).0 ≡ ok checked
      → (call_tool fetch input db).1.audit_events
        ≡ db.audit_events ++ audit_row input (expected_event fetch input checked) ∷ []
  unfolding call_tool proxy record_audit block fail insert_audit insert actions
  call_tool_audited checked h =
      ground (arith, h, authorize_audit checked h, eq_refl input.tenant_id)

  -- A call that its authorisation refuses fails with that error and leaves the database as it was.
  pub call_tool_refused :
      (e : Failure)
      → (authorize input input.tenant_id db).0 ≡ err e
      → call_tool fetch input db ≡ (err e, db)
  unfolding call_tool actions
  call_tool_refused e h = ground (arith, h)

-- A tool call changes only rows of its own tenant, whether it returns or throws.
pub call_tool-IsIsolated :
    (fetch : Fetch) (input : ToolCallInput) → IsIsolated input.tenant_id (call_tool fetch input)
unfolding call_tool authorize require_tool check_binding require_mcp_server proxy record_audit block
    fail
call_tool-IsIsolated fetch input =
    search (isolation_rules, get_tenant_policy_rules-IsIsolated, record_policy_decision-IsIsolated)
      depth 12
