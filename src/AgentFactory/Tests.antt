-- ===== src/AgentFactory/Tests.antt =====
-- One agent, in the states that it passes through, and the theorems at its transitions.
use ai_digital_office_os.Prelude.{
  ℕ, ◌≤◌, ◌≡◌, ◌↔◌, refl, Option, none, some, [], ◌∷◌, true, false, Bool, all, length,
}
use ai_digital_office_os.Json
use ai_digital_office_os.Json.{Json, Fields, array_or_empty}
use ai_digital_office_os.Failure.{ok}
use ai_digital_office_os.Schema.{Db, empty_db, AgentRow, LifecycleState, draft, sandbox}
use ai_digital_office_os.PolicyEngine.{
  allow, evaluate_policy, best_of, consider, specificity, decide, risk_level_of, parse_policy_rules,
}
use ai_digital_office_os.Db.{actions, select_one, insert, update, update_row}
use ai_digital_office_os.Db.Tables.{insert_decision, update_agents}
use ai_digital_office_os.Governance.{
  get_tenant_policy_rules, active_policy, rules_of, record_policy_decision, to_risk_level, rules_in,
}
use ai_digital_office_os.AgentFactory.{
  compute_evaluation_score, states_purpose, states_security, is_null, trim, drop_spaces,
  utf16_length, validate_json_schema_shape, require_agent, set_state, is_enabled_tool, check_tools,
  sandbox_input, decide_sandbox, enter_sandbox, advance_to_sandbox, enter_tested, advance_to_tested,
  enter_evaluated, advance_to_evaluated, enter_approved, advance_to_approved,
}
use ai_digital_office_os.AgentFactory.Scoring.{compute_evaluation_score_full}
use ai_digital_office_os.AgentFactory.Lifecycle.{agent_of}
use ai_digital_office_os.AgentFactory.Sandbox.{advance_to_sandbox_ok}

abbrev pub helper : LifecycleState → Option ℕ → AgentRow
helper state score = record {
  agent_id = "agent-1";
  tenant_id = some "t";
  agent_name = "helper";
  preferred_model = none;
  fallback_models = Json.arr Json.nil;
  department = "ops";
  role = "clerk";
  lifecycle_state = state;
  status = "ACTIVE";
  capabilities = Json.arr (
      Json.cons (Json.str "read")
        (Json.cons (Json.str "write") (Json.cons (Json.str "plan") Json.nil)));
  allowed_tools = Json.arr Json.nil;
  permissions = Json.arr Json.nil;
  data_access = Json.arr Json.nil;
  parent_agent_id = none;
  purpose = none;
  input_schema = Json.obj Json.end;
  output_schema = Json.obj Json.end;
  security_level = some "GREEN";
  evaluation_score = score;
  active_agent_version_id = none;
  created_at = 0;
}

abbrev pub staff : LifecycleState → Option ℕ → Db
staff state score = record empty_db { agents = helper state score ∷ [] }

abbrev pub compiles : Json → Bool
compiles schema = true

found_in :
    (state : LifecycleState) (score : Option ℕ)
    → agent_of "t" "agent-1" (staff state score) ≡ some (helper state score)
unfolding select_one
found_in state score = refl

pub run : Unit {0}
unfolding advance_to_sandbox decide_sandbox enter_sandbox check_tools is_enabled_tool require_agent
    set_state advance_to_tested enter_tested validate_json_schema_shape advance_to_evaluated
    enter_evaluated compute_evaluation_score states_purpose states_security trim drop_spaces
    utf16_length advance_to_approved enter_approved get_tenant_policy_rules active_policy rules_of
    record_policy_decision to_risk_level evaluate_policy best_of consider specificity decide
    risk_level_of parse_policy_rules insert_decision update_agents insert update update_row
    select_one actions
run = tt

no_rules : rules_in (active_policy "t" (staff draft none)) ≡ ok []
unfolding run
no_rules = refl

advance_to_sandbox_ok_example :
    ((evaluate_policy (sandbox_input (helper draft none) "agent-1") []).decision ≡ allow)
    × (all (is_enabled_tool []) (array_or_empty (Json.arr Json.nil)) ≡ true)
    × (agent_of "t" "agent-1" (advance_to_sandbox "t" "agent-1" (staff draft none)).1
        ≡ some (helper sandbox none))
unfolding run
advance_to_sandbox_ok_example =
    advance_to_sandbox_ok "t" "agent-1" (staff draft none) (helper draft none) (found_in draft none)
      [] refl no_rules refl

abbrev blank : AgentRow
blank = record (helper draft none) { capabilities = Json.null }

compute_evaluation_score_full_example :
    (compute_evaluation_score blank ≤ 100)
    × ((compute_evaluation_score blank ≡ 100) ↔ (
        (3 ≤ length (array_or_empty blank.capabilities))
        × (states_purpose blank.purpose ≡ true)
        × (is_null blank.input_schema ≡ false)
        × (is_null blank.output_schema ≡ false)
        × (states_security blank.security_level ≡ true)))
compute_evaluation_score_full_example = compute_evaluation_score_full blank
