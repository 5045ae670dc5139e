-- ===== src/ToolGateway/Authorization.antt =====
-- gateway.ts: what a tool call that succeeds was authorised by, and what a refusal leaves.
use ai_digital_office_os.Prelude.{◌≡◌, true, none, some, List, arith, Option-cases, inl, inr}
use ai_digital_office_os.Failure.{Result-cases, Failure, ok, err}
use ai_digital_office_os.Schema.{Db, ToolRow, McpServerRow, ToolBindingRow}
use ai_digital_office_os.PolicyEngine.{PolicyRule, allow, evaluate_policy}
use ai_digital_office_os.Db.{actions}
use ai_digital_office_os.Db.Tables.{insert_decision}
use ai_digital_office_os.Governance.{
  active_policy, rules_in, get_tenant_policy_rules_lem, record_policy_decision,
}
use ai_digital_office_os.ToolGateway.McpClient.{Fetch, McpToolCallResult, call}
use ai_digital_office_os.ToolGateway.{
  ToolCallInput, Authorized, find_tool, find_server, find_binding, permits, tool_input,
  require_tool, require_mcp_server, check_binding, authorize, call_tool, proxy, record_audit, block,
  fail, denied, not_found,
}

-- What must stand in the database for a call to be proxied.
pub record IsAuthorized (input : ToolCallInput) (db : Db) (checked : Authorized) : Type 0 where
  pub registered : find_tool input input.tenant_id db ≡ some checked.tool
  pub binding : ToolBindingRow
  pub bound : find_binding input input.tenant_id db ≡ some binding
  pub permitted : permits binding input.action ≡ true
  pub served : find_server checked.tool.mcp_server_id input.tenant_id db ≡ some checked.server
  pub rules : List PolicyRule
  pub governed : rules_in (active_policy input.tenant_id db) ≡ ok rules
  pub evaluated : checked.decision ≡ evaluate_policy (tool_input input checked.tool) rules

module _ (input : ToolCallInput) (db : Db) where
  no_tool :
      find_tool input input.tenant_id db ≡ none
      → (authorize input input.tenant_id db).0 ≡ err not_found
  unfolding authorize require_tool actions
  no_tool h = ground (arith, h)

  -- Nothing is permitted by default: with no binding for the tenant, the agent and the tool, the
  -- call is denied, the MCP server is not reached and the database is as it was.
  pub call_tool_unbound :
      (fetch : Fetch) (tool : ToolRow)
      → find_tool input input.tenant_id db ≡ some tool
      → find_binding input input.tenant_id db ≡ none
      → call_tool fetch input db ≡ (err denied, db)
  unfolding call_tool authorize require_tool check_binding actions
  call_tool_unbound fetch tool h e = ground (arith, h, e)

  authorize_ok :
      (checked : Authorized) (tool : ToolRow) (binding : ToolBindingRow) (server : McpServerRow)
      (rules : List PolicyRule)
      → find_tool input input.tenant_id db ≡ some tool
      → find_binding input input.tenant_id db ≡ some binding
      → find_server tool.mcp_server_id input.tenant_id db ≡ some server
      → rules_in (active_policy input.tenant_id db) ≡ ok rules
      → (authorize input input.tenant_id db).0 ≡ ok checked
      → IsAuthorized input db checked
  unfolding authorize require_tool check_binding require_mcp_server record_policy_decision
      insert_decision actions
  authorize_ok checked tool binding server rules ht hb hs hr h =
      let facts = get_tenant_policy_rules_lem input.tenant_id db in
      record {
        registered = ground (arith, ht, hb, hs, hr, facts, h);
        binding = binding;
        bound = hb;
        permitted = ground (arith, ht, hb, hs, hr, facts, h);
        served = ground (arith, ht, hb, hs, hr, facts, h);
        rules = rules;
        governed = hr;
        evaluated = ground (arith, ht, hb, hs, hr, facts, h);
      }

  no_server :
      (tool : ToolRow) (binding : ToolBindingRow) (checked : Authorized)
      → find_tool input input.tenant_id db ≡ some tool
      → find_binding input input.tenant_id db ≡ some binding
      → find_server tool.mcp_server_id input.tenant_id db ≡ none
      → ¬ ((authorize input input.tenant_id db).0 ≡ ok checked)
  unfolding authorize require_tool check_binding require_mcp_server actions
  no_server tool binding checked ht hb hs h = ground (arith, ht, hb, hs, h)

  no_rules :
      (tool : ToolRow) (binding : ToolBindingRow) (server : McpServerRow) (checked : Authorized)
      (e : Failure)
      → find_tool input input.tenant_id db ≡ some tool
      → find_binding input input.tenant_id db ≡ some binding
      → find_server tool.mcp_server_id input.tenant_id db ≡ some server
      → rules_in (active_policy input.tenant_id db) ≡ err e
      → ¬ ((authorize input input.tenant_id db).0 ≡ ok checked)
  unfolding authorize require_tool check_binding require_mcp_server actions
  no_rules tool binding server checked e ht hb hs hr h =
      ground (arith, ht, hb, hs, hr, get_tenant_policy_rules_lem input.tenant_id db, h)

  no_binding :
      (tool : ToolRow) (checked : Authorized)
      → find_tool input input.tenant_id db ≡ some tool
      → find_binding input input.tenant_id db ≡ none
      → ¬ ((authorize input input.tenant_id db).0 ≡ ok checked)
  unfolding authorize require_tool check_binding actions
  no_binding tool checked ht hb h = ground (arith, ht, hb, h)

  authorize_sound :
      (checked : Authorized)
      → (authorize input input.tenant_id db).0 ≡ ok checked
      → IsAuthorized input db checked
  authorize_sound checked h = elim (Option-cases (find_tool input input.tenant_id db)) [
    | inl none_found ↦ absurd (ground (arith, no_tool none_found, h))
    | inr (tool, ht) ↦ elim (Option-cases (find_binding input input.tenant_id db)) [
      | inl unbound ↦ absurd (no_binding tool checked ht unbound h)
      | inr (binding, hb) ↦
          elim (Option-cases (find_server tool.mcp_server_id input.tenant_id db)) [
            | inl unserved ↦ absurd (no_server tool binding checked ht hb unserved h)
            | inr (server, hs) ↦ elim (Result-cases (rules_in (active_policy input.tenant_id db))) [
              | inl (rules, hr) ↦ authorize_ok checked tool binding server rules ht hb hs hr h
              | inr (e, hr) ↦ absurd (no_rules tool binding server checked e ht hb hs hr h)
            ]
          ]
    ]
  ]

  proxied :
      (fetch : Fetch) (result : McpToolCallResult) (checked : Authorized)
      → (authorize input input.tenant_id db).0 ≡ ok checked
      → (call_tool fetch input db).0 ≡ ok result
      → (checked.decision.decision ≡ allow)
        × (call fetch checked.server.endpoint checked.tool.tool_name input.arguments ≡ ok result)
  unfolding call_tool proxy record_audit block fail actions
  proxied fetch result checked h e = (ground (arith, h, e), ground (arith, h, e))

  unauthorized :
      (fetch : Fetch) (result : McpToolCallResult) (e : Failure)
      → (authorize input input.tenant_id db).0 ≡ err e
      → ¬ ((call_tool fetch input db).0 ≡ ok result)
  unfolding call_tool actions
  unauthorized fetch result e h passed = ground (arith, h, passed)

  -- A tool call that returns a result was authorised: the tool is registered and enabled, the
  -- tenant's agent has a binding that permits the action, the MCP server is enabled and visible to
  -- the tenant, the tenant's rules decide ALLOW for the tool's risk level, and the result is the one
  -- that this server gave for this tool.
  pub call_tool_authorized :
      (fetch : Fetch) (result : McpToolCallResult)
      → (call_tool fetch input db).0 ≡ ok result
      → (checked : Authorized) × IsAuthorized input db checked
        × (checked.decision.decision ≡ allow)
        × (call fetch checked.server.endpoint checked.tool.tool_name input.arguments ≡ ok result)
  call_tool_authorized fetch result h = elim (Result-cases (authorize input input.tenant_id db).0) [
    | inl (checked, passed) ↦
        let (allowed, answered) = proxied fetch result checked passed h in
        (checked, authorize_sound checked passed, allowed, answered)
    | inr (e, refused) ↦ absurd (unauthorized fetch result e refused h)
  ]
