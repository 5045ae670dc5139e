-- ===== src/Budget/Tests.antt =====
-- The theorems on costs, at one tier and two usage events.
use ai_digital_office_os.Prelude.{ℕ, ◌+◌, String, ◌≡◌, refl, Option, none, some, [], ◌∷◌, filter}
use ai_digital_office_os.Failure.{ok}
use ai_digital_office_os.Schema.{Db, empty_db, UsageRow}
use ai_digital_office_os.ModelRouter.{execute_model_run}
use ai_digital_office_os.ModelRouter.Tests.{
  keys, echo, run_input, shop, echo_model, echo_result, shop-find_model, shop-run,
}
use ai_digital_office_os.Budget.{
  CostSummaryInput, CostSummary, UpsertBudgetTierInput, sum_cost, get_cost_summary, usage_in,
}
use ai_digital_office_os.Budget.Summary.{sum_groups, is_unassigned, get_cost_summary_adds_up}
use ai_digital_office_os.Budget.Charges.{execute_model_run-get_cost_summary}

abbrev event : Option String → ℕ → UsageRow
event provider cost = record {
  tenant_id = "t";
  task_id = none;
  agent_id = none;
  provider_id = provider;
  model_id = none;
  input_tokens = 0;
  output_tokens = 0;
  actual_cost = cost;
  currency = "USD";
  event_time = 5;
}

abbrev ledger : Db
ledger = record empty_db { usage_events = event (some "p") 30 ∷ event none 12 ∷ [] }

abbrev month : CostSummaryInput
month = record { from = 0; until = 9; period = none }

get_cost_summary_adds_up_example :
    (summary : CostSummary) × (get_cost_summary "t" month ledger ≡ (ok summary, ledger))
    × (sum_groups summary.breakdown_by_provider
          + sum_cost (filter is_unassigned (usage_in "t" month ledger))
        ≡ summary.total_cost)
get_cost_summary_adds_up_example = get_cost_summary_adds_up "t" month ledger

abbrev daily : UpsertBudgetTierInput
daily = record { period = "DAILY"; currency = none; soft_limit = 80; hard_limit = 100 }

execute_model_run-get_cost_summary_example :
    let after = (execute_model_run keys echo "run-1" run_input shop).1 in
    (old : CostSummary) × (new : CostSummary) × ((get_cost_summary "t" month shop).0 ≡ ok old)
    × ((get_cost_summary "t" month after).0 ≡ ok new)
    × (new.total_cost ≡ old.total_cost + echo_result.estimated_cost)
execute_model_run-get_cost_summary_example =
    execute_model_run-get_cost_summary keys echo "run-1" run_input month shop echo_model echo_result
      shop-find_model shop-run refl
