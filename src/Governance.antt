-- ===== src/Governance.antt =====
-- The policy check that the services make inside a transaction: the query for the tenant's rules
-- (getTenantPolicyRules of services/agent-factory/src/pipeline.ts, the same query in
-- services/tool-gateway-mcp/src/gateway.ts), packages/policy-engine/src/record.ts, and the reading
-- of a stored risk level.
use ai_digital_office_os.Prelude.{
  String, Bool, true, false, ◌&&◌, Option, none, some, List, [], ◌==◌, ◌≡◌, refl,
}
use ai_digital_office_os.Schema.{Db, PolicyRow, PolicyDecisionRow}
use ai_digital_office_os.PolicyEngine.{
  RiskLevel, yellow, PolicyDecisionResult, allow, deny, require_escalation, PolicyRule, PolicyInput,
  PolicyDecision, risk_level_of, parse_policy_rules,
}
use ai_digital_office_os.Db.{Action, pure, lift, gets, ◌>>=◌, select_one}
use ai_digital_office_os.Failure.{Result, ok}
use ai_digital_office_os.Db.Tables.{insert_decision}

abbrev pub policy_owner : PolicyRow → Option String
policy_owner r = r.tenant_id

abbrev pub is_own : PolicyRow → Bool
is_own r = elim r.tenant_id [ none ↦ false | some t ↦ true ]

-- ORDER BY tenant_id NULLS LAST LIMIT 1, over the ACTIVE rows that the tenant sees
unfoldable pub active_policy : String → Db → Option PolicyRow
active_policy tenant db =
    elim (select_one policy_owner tenant (λ r. is_own r && r.status == "ACTIVE") db.policies) [
      | some own ↦ some own
      | none ↦ select_one policy_owner tenant (λ r. r.status == "ACTIVE") db.policies
    ]

unfoldable pub rules_of : Option PolicyRow → Action (List PolicyRule)
rules_of none = pure []
rules_of (some policy) = lift (parse_policy_rules (some policy.rules))

unfoldable pub get_tenant_policy_rules : String → Action (List PolicyRule)
get_tenant_policy_rules tenant = do policy ← gets (active_policy tenant); rules_of policy

-- a missing or unknown level counts as YELLOW
unfoldable pub to_risk_level : Option String → RiskLevel
unfolding risk_level_of
to_risk_level none = yellow
to_risk_level (some s) = elim (risk_level_of s) [ none ↦ yellow | some r ↦ r ]

abbrev pub is_allow : PolicyDecisionResult → Bool
is_allow allow = true
is_allow _ = false

abbrev pub is_rejection : PolicyDecisionResult → Bool
is_rejection deny = true
is_rejection require_escalation = true
is_rejection _ = false

abbrev pub decision_row : String → PolicyInput → PolicyDecision → PolicyDecisionRow
decision_row tenant input decision = record {
  tenant_id = tenant;
  task_id = input.task_id;
  agent_id = input.agent_id;
  tool_id = input.tool_id;
  model_id = input.model_id;
  provider_id = input.provider_id;
  decision = decision.decision;
  alternatives = decision.matched_rule;
  rejected = is_rejection decision.decision;
}

-- the row is written for `tenant_id`, in the session of `client`
unfoldable pub record_policy_decision :
    String → String → PolicyInput → PolicyDecision → Action (Unit {0})
record_policy_decision client tenant_id input decision =
    insert_decision client (decision_row tenant_id input decision)

-- the rules that the tenant's active policy holds
abbrev pub rules_in : Option PolicyRow → Result (List PolicyRule)
rules_in none = ok []
rules_in (some policy) = parse_policy_rules (some policy.rules)

rules_of_lem : (policy : Option PolicyRow) (db : Db) → rules_of policy db ≡ (rules_in policy, db)
unfolding rules_of pure lift
rules_of_lem none db = refl
rules_of_lem (some policy) db = refl

pub get_tenant_policy_rules_lem :
    (tenant_id : String) (db : Db)
    → get_tenant_policy_rules tenant_id db ≡ (rules_in (active_policy tenant_id db), db)
unfolding get_tenant_policy_rules gets ◌>>=◌
get_tenant_policy_rules_lem tenant_id db = rules_of_lem (active_policy tenant_id db) db
