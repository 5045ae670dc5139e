-- ===== src/PolicyEngine/Tests.antt =====
-- Evaluations and parses at concrete inputs.
use ai_digital_office_os.Prelude.{
  ◌≡◌, refl, String, none, some, [], ◌∷◌, ◌++◌, ℕ, eq_iff, arith, ◌≢◌,
}
use ai_digital_office_os.Failure.{ok}
use ai_digital_office_os.PolicyEngine.{
  RiskLevel, green, red, allow, deny, require_escalation, any, exactly, PolicyRule, PolicyInput,
  default_rules, specificity, consider, best_of, decide, evaluate_policy, parse_policy_rules,
}
use ai_digital_office_os.PolicyEngine.Evaluation.{IsFirstBest, evaluate_policy-IsFirstBest}
use ai_digital_office_os.PolicyEngine.Precedence.{evaluate_policy-blanket}
use ai_digital_office_os.PolicyEngine.Parsing.{rules_to_json, parse_policy_rules-rules_to_json}

abbrev ask : String → RiskLevel → PolicyInput
ask action risk = record {
  action_type = action;
  risk_level = risk;
  task_id = none;
  agent_id = none;
  tool_id = none;
  model_id = none;
  provider_id = none;
}

abbrev allow_tool : PolicyRule
allow_tool = record {
  action_type = "TOOL_CALL";
  risk_level = exactly red;
  decision = allow;
  note = none;
}

abbrev deny_all : PolicyRule
deny_all = record { action_type = "*"; risk_level = any; decision = deny; note = some "stop" }

evaluation : Unit {0}
unfolding evaluate_policy best_of consider specificity decide
evaluation = tt

red_escalates : (evaluate_policy (ask "TOOL_CALL" red) []).decision ≡ require_escalation
unfolding evaluation
red_escalates = refl

evaluate_policy-IsFirstBest_example :
    (rule : PolicyRule) × (score : ℕ) × IsFirstBest
      (ask "TOOL_CALL" red)
      ((deny_all ∷ []) ++ default_rules)
      rule
      score
    × (evaluate_policy (ask "TOOL_CALL" red) (deny_all ∷ [])
        ≡ record { decision = rule.decision; matched_rule = some rule })
evaluate_policy-IsFirstBest_example =
    evaluate_policy-IsFirstBest (ask "TOOL_CALL" red) (deny_all ∷ [])

evaluate_policy-blanket_example :
    evaluate_policy (ask "TOOL_CALL" green) (deny_all ∷ [])
    ≡ evaluate_policy (ask "TOOL_CALL" green) []
evaluate_policy-blanket_example =
    evaluate_policy-blanket (ask "TOOL_CALL" green) (deny_all ∷ []) ((refl, refl), tt)

filled : ◌≢◌ {A = String} "TOOL_CALL" ""
filled = ground (arith, eq_iff "TOOL_CALL" "")

parse_policy_rules-rules_to_json_example :
    parse_policy_rules (some (rules_to_json (allow_tool ∷ []))) ≡ ok (allow_tool ∷ [])
parse_policy_rules-rules_to_json_example =
    parse_policy_rules-rules_to_json (allow_tool ∷ []) (filled, tt)
