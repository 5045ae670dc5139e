-- ===== src/PolicyEngine.antt =====
-- packages/policy-engine/src: rule types, the built-in rules, the parser of stored rules, and the
-- evaluation of a policy. A rule's `"*"` action type is the text itself; its `"*"` risk level is
-- `any`. The reason text and the constant policy version are not kept.
pub mod Evaluation
pub mod Precedence
pub mod Parsing
mod Tests
use ai_digital_office_os.Prelude.{
  ℕ, suc, ◌+◌, String, Bool, true, false, not, ◌||◌, Option, none, some, List, [], ◌∷◌, ◌++◌, ltb,
  ◌==◌, if◌then◌else◌,
}
use ai_digital_office_os.Json
use ai_digital_office_os.Json.{Json, Fields}
use ai_digital_office_os.Failure.{
  RuleError, not_an_array, not_an_object, missing_action_type, invalid_risk_level, invalid_decision,
  policy_engine_error, Result, ok, err, ◌>>=◌,
}

pub data RiskLevel : Type 0 where
  green yellow red : RiskLevel

pub data PolicyDecisionResult : Type 0 where
  allow deny require_approval require_escalation : PolicyDecisionResult

-- `RiskLevel | "*"`
pub data RiskPattern : Type 0 where
  any : RiskPattern
  exactly : RiskLevel → RiskPattern

pub record PolicyRule : Type 0 where
  pub action_type : String
  pub risk_level : RiskPattern
  pub decision : PolicyDecisionResult
  pub note : Option String

pub record PolicyInput : Type 0 where
  pub action_type : String
  pub risk_level : RiskLevel
  pub task_id : Option String
  pub agent_id : Option String
  pub tool_id : Option String
  pub model_id : Option String
  pub provider_id : Option String

pub record PolicyDecision : Type 0 where
  pub decision : PolicyDecisionResult
  pub matched_rule : Option PolicyRule

abbrev pub same_risk : RiskLevel → RiskLevel → Bool
same_risk green green = true
same_risk yellow yellow = true
same_risk red red = true
same_risk _ _ = false

abbrev pub is_any : RiskPattern → Bool
is_any any = true
is_any (exactly r) = false

abbrev pub risk_matches : RiskPattern → RiskLevel → Bool
risk_matches any r = true
risk_matches (exactly s) r = same_risk s r

abbrev pub default_rules : List PolicyRule
default_rules =
    record {
      action_type = "AGENT_ACTIVATE";
      risk_level = any;
      decision = require_approval;
      note = some "activation always requires approval";
    }
    ∷ record {
      action_type = "*";
      risk_level = exactly red;
      decision = require_escalation;
      note = none;
    }
    ∷ record {
      action_type = "*";
      risk_level = exactly yellow;
      decision = require_approval;
      note = none;
    }
    ∷ record { action_type = "*"; risk_level = exactly green; decision = allow; note = none }
    ∷ []

-- `null` is `none`: the rule does not apply
unfoldable pub specificity : PolicyRule → PolicyInput → Option ℕ
specificity rule input =
    if not (rule.action_type == "*" || rule.action_type == input.action_type)
      || not (risk_matches rule.risk_level input.risk_level)
    then none
    else some
        ((if rule.action_type == "*" then 0 else 2) + (if is_any rule.risk_level then 0 else 1))

-- one round of the loop: `!best || score > best.score`
unfoldable pub consider : Option (PolicyRule × ℕ) → PolicyRule → Option ℕ → Option (PolicyRule × ℕ)
consider best rule none = best
consider none rule (some score) = some (rule, score)
consider (some (held, top)) rule (some score) =
    if ltb top score then some (rule, score) else some (held, top)

-- the loop over the candidates
unfoldable pub best_of :
    PolicyInput → Option (PolicyRule × ℕ) → List PolicyRule → Option (PolicyRule × ℕ)
best_of input best [] = best
best_of input best (rule ∷ rest) = best_of input (consider best rule (specificity rule input)) rest

unfoldable pub decide : Option (PolicyRule × ℕ) → PolicyDecision
decide none = record { decision = require_escalation; matched_rule = none }
decide (some (rule, score)) = record { decision = rule.decision; matched_rule = some rule }

unfoldable pub evaluate_policy : PolicyInput → List PolicyRule → PolicyDecision
evaluate_policy input tenant_rules = decide (best_of input none (tenant_rules ++ default_rules))

-- `RISK_LEVELS.includes`, with the value that it is
unfoldable pub risk_level_of : String → Option RiskLevel
risk_level_of s =
    if s == "GREEN"
    then some green
    else if s == "YELLOW"
    then some yellow
    else if s == "RED"
    then some red
    else none

unfoldable pub risk_pattern_of : Option Json → Option RiskPattern
unfolding risk_level_of
risk_pattern_of (some (Json.str s)) =
    if s == "*"
    then some any
    else elim (risk_level_of s) [ none ↦ none | some r ↦ some (exactly r) ]
risk_pattern_of _ = none

-- `DECISIONS.includes`
unfoldable pub decision_of : Option Json → Option PolicyDecisionResult
decision_of (some (Json.str s)) =
    if s == "ALLOW"
    then some allow
    else if s == "DENY"
    then some deny
    else if s == "REQUIRE_APPROVAL"
    then some require_approval
    else if s == "REQUIRE_ESCALATION"
    then some require_escalation
    else none
decision_of _ = none

-- a non-empty string
unfoldable pub text_of : Option Json → Option String
text_of (some (Json.str s)) = if s == "" then none else some s
text_of _ = none

unfoldable pub note_of : Option Json → Option String
note_of (some (Json.str s)) = some s
note_of _ = none

abbrev pub require {ℓ} : {A : Type ℓ} → Option A → RuleError → Result A
require none e = err (policy_engine_error e)
require (some a) e = ok a

-- one entry of the array, at its index; an array is an object to `typeof`, with no such keys
unfoldable pub parse_fields : ℕ → Fields → Result PolicyRule
parse_fields index rule = do
  action_type ← require (text_of (Json.get "actionType" rule)) (missing_action_type index)
  risk_level ← require (risk_pattern_of (Json.get "riskLevel" rule)) (invalid_risk_level index)
  decision ← require (decision_of (Json.get "decision" rule)) (invalid_decision index)
  ok (record {
    action_type = action_type;
    risk_level = risk_level;
    decision = decision;
    note = note_of (Json.get "note" rule);
  })

unfoldable pub parse_rule : ℕ → Json → Result PolicyRule
parse_rule index (Json.obj rule) = parse_fields index rule
parse_rule index (Json.arr items) = err (policy_engine_error (missing_action_type index))
parse_rule index _ = err (policy_engine_error (not_an_object index))

unfoldable pub parse_entries : ℕ → List Json → Result (List PolicyRule)
parse_entries index [] = ok []
parse_entries index (entry ∷ rest) = do
  rule ← parse_rule index entry
  rules ← parse_entries (suc index) rest
  ok (rule ∷ rules)

-- `none` is undefined
unfoldable pub parse_policy_rules : Option Json → Result (List PolicyRule)
parse_policy_rules none = ok []
parse_policy_rules (some Json.null) = ok []
parse_policy_rules (some (Json.arr items)) = parse_entries 0 (Json.to_list items)
parse_policy_rules (some _) = err (policy_engine_error not_an_array)
