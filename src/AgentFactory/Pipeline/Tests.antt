-- ===== src/AgentFactory/Pipeline/Tests.antt =====
-- A full run of the pipeline for one agent.
use ai_digital_office_os.Prelude.{ℕ, ◌≤◌, ◌≡◌, refl, Option, none, some}
use ai_digital_office_os.Schema.{draft, approved, LifecycleState}
use ai_digital_office_os.Db.{actions}
use ai_digital_office_os.AgentFactory.Tests.{staff, compiles}
use ai_digital_office_os.AgentFactory.Pipeline.{
  PipelineResult, Reports, run_full_pipeline, run_full_pipeline-Reports, run_steps, report, steps,
  quiet, scored, current_lifecycle_state,
}
use ai_digital_office_os.AgentFactory.Pipeline.Gate.{run_full_pipeline_passed}
use ai_digital_office_os.Db.{select_one, insert, update, update_row}
use ai_digital_office_os.Db.Tables.{insert_decision, update_agents}
use ai_digital_office_os.PolicyEngine.{
  evaluate_policy, best_of, consider, specificity, decide, risk_level_of, parse_policy_rules,
}
use ai_digital_office_os.Governance.{
  get_tenant_policy_rules, active_policy, rules_of, record_policy_decision, to_risk_level,
}
use ai_digital_office_os.AgentFactory.{
  compute_evaluation_score, states_purpose, states_security, trim, drop_spaces, utf16_length,
  validate_json_schema_shape, require_agent, set_state, is_enabled_tool, check_tools,
  decide_sandbox, enter_sandbox, advance_to_sandbox, enter_tested, advance_to_tested,
  enter_evaluated, advance_to_evaluated, enter_approved, advance_to_approved,
}

run_full_pipeline-Reports_example :
    Reports "t" "agent-1" (run_full_pipeline compiles "t" "agent-1" (staff draft none))
run_full_pipeline-Reports_example =
    run_full_pipeline-Reports compiles "t" "agent-1" (staff draft none)

abbrev all_passed : PipelineResult
all_passed = record {
  agent_id = "agent-1";
  reached_state = some approved;
  evaluation_score = some 80;
  stopped_at = none;
}

run_full_pipeline_passed_example :
    (score : ℕ) × (◌≡◌ {A = Option LifecycleState} (some approved) (some approved))
    × (◌≡◌ {A = Option ℕ} (some 80) (some score))
    × (60 ≤ score)
unfolding run_full_pipeline steps run_steps report current_lifecycle_state quiet scored
    advance_to_sandbox decide_sandbox enter_sandbox check_tools is_enabled_tool require_agent
    set_state advance_to_tested enter_tested validate_json_schema_shape advance_to_evaluated
    enter_evaluated compute_evaluation_score states_purpose states_security trim drop_spaces
    utf16_length advance_to_approved enter_approved get_tenant_policy_rules active_policy rules_of
    record_policy_decision to_risk_level evaluate_policy best_of consider specificity decide
    risk_level_of parse_policy_rules insert_decision update_agents insert update update_row
    select_one actions
run_full_pipeline_passed_example =
    run_full_pipeline_passed compiles "t" "agent-1" (staff draft none) all_passed refl refl
