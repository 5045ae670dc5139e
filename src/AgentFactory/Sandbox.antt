-- ===== src/AgentFactory/Sandbox.antt =====
-- advanceToSandbox of pipeline.ts: the policy gate, the record of its decision and the tools.
use ai_digital_office_os.Prelude.{
  ◌≡◌, refl, String, true, some, List, [], ◌∷◌, ◌++◌, arith, all, eq_refl,
}
use ai_digital_office_os.Json.{array_or_empty}
use ai_digital_office_os.Failure.{Failure, ok, err}
use ai_digital_office_os.Schema.{Db, AgentRow, draft, sandbox}
use ai_digital_office_os.PolicyEngine.{PolicyRule, allow, evaluate_policy}
use ai_digital_office_os.Db.{actions, insert}
use ai_digital_office_os.Db.Tables.{insert_decision, update_agents}
use ai_digital_office_os.Governance.{
  active_policy, record_policy_decision, decision_row, rules_in, get_tenant_policy_rules_lem,
}
use ai_digital_office_os.AgentFactory.{
  require_agent, set_state, check_tools, is_enabled_tool, sandbox_input, decide_sandbox,
  enter_sandbox, advance_to_sandbox,
}
use ai_digital_office_os.AgentFactory.Lifecycle.{agent_of, update_agents-found}

module _ (tenant_id agent_id : String) (db : Db) (agent : AgentRow)
    (found : agent_of tenant_id agent_id db ≡ some agent) where
  -- the first transaction, for an agent in DRAFT and a policy that parses
  decide_sandbox_lem :
      (rules : List PolicyRule)
      → agent.lifecycle_state ≡ draft
      → rules_in (active_policy tenant_id db) ≡ ok rules
      → let decision = evaluate_policy (sandbox_input agent agent_id) rules in
        decide_sandbox tenant_id agent_id tenant_id db ≡ (
          ok (agent, decision),
          record db {
            policy_decisions =
                db.policy_decisions
                ++ decision_row tenant_id (sandbox_input agent agent_id) decision ∷ [];
          },
        )
  unfolding decide_sandbox require_agent record_policy_decision insert_decision insert actions
  decide_sandbox_lem rules h e =
      ground (arith, found, get_tenant_policy_rules_lem tenant_id db, eq_refl tenant_id)

  -- A DRAFT agent's request for the sandbox leaves one more policy decision on record, the
  -- evaluation of its own risk level under the tenant's rules, whether the request then succeeds,
  -- is refused by that decision or fails on its tools.
  pub advance_to_sandbox_logged :
      (rules : List PolicyRule)
      → agent.lifecycle_state ≡ draft
      → rules_in (active_policy tenant_id db) ≡ ok rules
      → (advance_to_sandbox tenant_id agent_id db).1.policy_decisions
        ≡ db.policy_decisions
          ++ decision_row tenant_id
              (sandbox_input agent agent_id)
              (evaluate_policy (sandbox_input agent agent_id) rules)
            ∷ []
  unfolding advance_to_sandbox enter_sandbox check_tools set_state update_agents actions
  advance_to_sandbox_logged rules h e =
      let first = decide_sandbox_lem rules h e in ground (arith, first)

  -- A request for the sandbox that succeeds, of an agent in DRAFT and under a policy that parses,
  -- was decided ALLOW, every tool that the agent is allowed is registered and enabled, and the
  -- agent is now in SANDBOX.
  pub advance_to_sandbox_ok :
      (rules : List PolicyRule)
      → agent.lifecycle_state ≡ draft
      → rules_in (active_policy tenant_id db) ≡ ok rules
      → (advance_to_sandbox tenant_id agent_id db).0 ≡ ok tt
      → ((evaluate_policy (sandbox_input agent agent_id) rules).decision ≡ allow)
        × (all (is_enabled_tool db.tools) (array_or_empty agent.allowed_tools) ≡ true)
        × (agent_of tenant_id agent_id (advance_to_sandbox tenant_id agent_id db).1
            ≡ some (record agent { lifecycle_state = sandbox }))
  unfolding advance_to_sandbox enter_sandbox check_tools set_state actions
  advance_to_sandbox_ok rules h e passed =
      let first = decide_sandbox_lem rules h e in
      let logged : Db = record db {
        policy_decisions =
            db.policy_decisions
            ++ decision_row tenant_id (sandbox_input agent agent_id)
                (evaluate_policy (sandbox_input agent agent_id) rules)
              ∷ [];
      } in
      ground (
        arith,
        first,
        found,
        update_agents-found tenant_id agent_id (λ row. record row { lifecycle_state = sandbox })
            logged agent (λ r. refl),
      )

-- A request for the sandbox that throws, for whatever reason, leaves every agent as it was.
pub advance_to_sandbox_err :
    (tenant_id agent_id : String) (db : Db) {e : Failure}
    → (advance_to_sandbox tenant_id agent_id db).0 ≡ err e
    → (advance_to_sandbox tenant_id agent_id db).1.agents ≡ db.agents
unfolding advance_to_sandbox decide_sandbox require_agent record_policy_decision insert_decision
    enter_sandbox check_tools set_state update_agents actions
advance_to_sandbox_err tenant_id agent_id db h =
    ground (arith, get_tenant_policy_rules_lem tenant_id db)
