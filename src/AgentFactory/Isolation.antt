-- ===== src/AgentFactory/Isolation.antt =====
-- pipeline.ts: the transitions touch no other tenant's rows and no template.
use ai_digital_office_os.Prelude.{ℕ, String, refl, Option, none, some, Bool}
use ai_digital_office_os.Json.{Json}
use ai_digital_office_os.Schema.{AgentRow, LifecycleState, evaluated, PolicyRow}
use ai_digital_office_os.PolicyEngine.{PolicyInput, PolicyDecision}
use ai_digital_office_os.Db.Tables.{update_agents}
use ai_digital_office_os.Db.Isolation.{IsIsolated, IsIsolated-update_agents, isolation_rules}
use ai_digital_office_os.Governance.{get_tenant_policy_rules, rules_of, record_policy_decision}
use ai_digital_office_os.AgentFactory.{
  has_id, require_agent, set_state, check_tools, decide_sandbox, enter_sandbox, advance_to_sandbox,
  enter_tested, advance_to_tested, enter_evaluated, advance_to_evaluated, enter_approved,
  advance_to_approved,
}

module _ (tenant_id : String) where
  rules_of-IsIsolated : (policy : Option PolicyRow) → IsIsolated tenant_id (rules_of policy)
  unfolding rules_of
  rules_of-IsIsolated none = search isolation_rules
  rules_of-IsIsolated (some policy) = search isolation_rules

  pub get_tenant_policy_rules-IsIsolated : IsIsolated tenant_id (get_tenant_policy_rules tenant_id)
  unfolding get_tenant_policy_rules
  get_tenant_policy_rules-IsIsolated = search (isolation_rules, rules_of-IsIsolated)

  pub record_policy_decision-IsIsolated :
      (t : String) (input : PolicyInput) (decision : PolicyDecision)
      → IsIsolated tenant_id (record_policy_decision tenant_id t input decision)
  unfolding record_policy_decision
  record_policy_decision-IsIsolated t input decision = search isolation_rules

  require_agent-IsIsolated :
      (agent_id : String) (expected : LifecycleState)
      → IsIsolated tenant_id (require_agent tenant_id agent_id expected)
  unfolding require_agent
  require_agent-IsIsolated agent_id expected = search isolation_rules

  set_state-IsIsolated :
      (agent_id : String) (state : LifecycleState)
      → IsIsolated tenant_id (set_state tenant_id agent_id state)
  unfolding set_state
  set_state-IsIsolated agent_id state = IsIsolated-update_agents tenant_id _ _ (λ r. refl)

  check_tools-IsIsolated : (agent : AgentRow) → IsIsolated tenant_id (check_tools agent)
  unfolding check_tools
  check_tools-IsIsolated agent = search isolation_rules

  set_score-IsIsolated :
      (agent_id : String) (score : ℕ)
      → IsIsolated tenant_id (
          update_agents tenant_id
            (has_id agent_id)
            (λ row. record row { evaluation_score = some score; lifecycle_state = evaluated }))
  set_score-IsIsolated agent_id score = IsIsolated-update_agents tenant_id _ _ (λ r. refl)

ruleset factory_rules = (
  isolation_rules, get_tenant_policy_rules-IsIsolated, record_policy_decision-IsIsolated,
  require_agent-IsIsolated, set_state-IsIsolated, check_tools-IsIsolated, set_score-IsIsolated,
)

module _ (tenant_id agent_id : String) where
  -- advance_to_sandbox changes only rows of its own tenant, whether it returns or throws.
  pub advance_to_sandbox-IsIsolated : IsIsolated tenant_id (advance_to_sandbox tenant_id agent_id)
  unfolding advance_to_sandbox decide_sandbox enter_sandbox
  advance_to_sandbox-IsIsolated = search factory_rules depth 9

  pub advance_to_tested-IsIsolated :
      (compiles : Json → Bool)
      → IsIsolated tenant_id (advance_to_tested compiles tenant_id agent_id)
  unfolding advance_to_tested enter_tested
  advance_to_tested-IsIsolated compiles = search factory_rules depth 8

  pub advance_to_evaluated-IsIsolated :
      IsIsolated tenant_id (advance_to_evaluated tenant_id agent_id)
  unfolding advance_to_evaluated enter_evaluated
  advance_to_evaluated-IsIsolated = search factory_rules depth 8

  pub advance_to_approved-IsIsolated :
      (min_score : ℕ) → IsIsolated tenant_id (advance_to_approved tenant_id agent_id min_score)
  unfolding advance_to_approved enter_approved
  advance_to_approved-IsIsolated min_score = search factory_rules depth 8
