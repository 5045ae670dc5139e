-- ===== src/ModelRouter/Tests.antt =====
-- One provider with one model, and the theorems at a run of it.
use ai_digital_office_os.Prelude.{
  ℕ, ◌+◌, String, ◌≡◌, refl, length, map, none, some, [], ◌∷◌, ◌++◌, arith, true, Bool, ltb,
  if◌then◌else◌,
}
use ai_digital_office_os.Json
use ai_digital_office_os.Json.{Json}
use ai_digital_office_os.Failure.{Failure, Result, ok, err, model_router_error, rate_limited}
use ai_digital_office_os.Schema.{Db, empty_db, ModelRow}
use ai_digital_office_os.Db.{actions, select, select_one, insert, update, update_row}
use ai_digital_office_os.Db.Tables.{insert_model_run, update_model_runs, insert_usage}
use ai_digital_office_os.ModelRouter.Benchmark.{
  BenchmarkSuiteResult, RunBenchmarkSuiteInput, prompts_of, success_count, run_benchmark_suite,
}
use ai_digital_office_os.ModelRouter.Benchmark.Reliability.{IsNearest, run_benchmark_suite_finishes}
use ai_digital_office_os.ModelRouter.Retry.{Tried, attempts, with_retry, with_retry-Tried}
use ai_digital_office_os.ModelRouter.Ledger.{execute_model_run_charged}
use ai_digital_office_os.ModelRouter.{
  Resolve, Complete, CompletionResult, ExecuteModelRunInput, ExecuteModelRunResult, create_adapter,
  estimate_cost, rates, find_model, find_secret, resolve_key, open_run, complete_run, fail_run,
  close_run, settle_run, execute_model_run, usage_row,
}

abbrev pub keys : Resolve
keys path = ok "key"

abbrev pub reply : CompletionResult
reply = record {
  content = "hello";
  input_tokens = 1000;
  output_tokens = 2000;
  finish_reason = "stop";
}

-- the provider is busy at the first attempt
abbrev pub echo : Complete
echo adapter request key attempt =
    if ltb attempt 2 then err (model_router_error rate_limited true) else ok reply

abbrev pub run_input : ExecuteModelRunInput
run_input = record {
  tenant_id = "t";
  task_id = none;
  agent_id = none;
  provider_id = "p";
  model_id = "m";
  request = Json.null;
}

abbrev pub prices : Json
prices =
    Json.obj
      (Json.field "input_per_1k" (Json.num 3) (Json.field "output_per_1k" (Json.num 5) Json.end))

abbrev pub echo_model : ModelRow
echo_model = record {
  model_id = "m";
  provider_id = "p";
  cost_profile = prices;
  availability = "ACTIVE";
  capabilities = Json.arr Json.nil;
}

abbrev pub shop_of : String → Db
shop_of adapter = record empty_db {
  providers = record { provider_id = "p"; adapter_type = adapter } ∷ [];
  models = echo_model ∷ [];
}

abbrev pub shop : Db
shop = shop_of "local-echo"

abbrev pub echo_result : ExecuteModelRunResult
echo_result = record { model_run_id = "run-1"; completion = reply; estimated_cost = 13 }

pub shop-find_model : find_model run_input "t" shop ≡ some echo_model
unfolding select_one
shop-find_model = refl

run : Unit {0}
unfolding execute_model_run open_run complete_run fail_run close_run settle_run find_secret
    resolve_key create_adapter estimate_cost rates with_retry attempts insert_model_run
    update_model_runs insert_usage insert update update_row select select_one actions
run = tt

pub shop-run : (execute_model_run keys echo "run-1" run_input shop).0 ≡ ok echo_result
unfolding run
shop-run = refl

execute_model_run_charged_example :
    ((execute_model_run keys echo "run-1" run_input shop).1.usage_events
      ≡ [] ++ usage_row run_input reply 13 0 ∷ [])
    × (◌≡◌ {A = ℕ} 13 (estimate_cost prices 1000 2000))
execute_model_run_charged_example =
    execute_model_run_charged keys echo "run-1" run_input shop echo_model echo_result
      shop-find_model shop-run

abbrev busy : ℕ → Result ℕ
busy attempt = if ltb attempt 2 then err (model_router_error rate_limited true) else ok 7

abbrev always : Failure → Bool
always e = true

with_retry-Tried_example : Tried busy always 3 200 1 (with_retry busy always 3 200)
with_retry-Tried_example = with_retry-Tried busy always 3 200 (omega arith)

abbrev keys_of_runs : ℕ → String
keys_of_runs n = if ltb n 1 then "run-1" else "run-2"

abbrev echoes : ℕ → Complete
echoes n = echo

abbrev seconds : ℕ → ℕ
seconds n = 1000

abbrev suite_input : RunBenchmarkSuiteInput
suite_input = record {
  tenant_id = "t";
  provider_id = "p";
  model_id = "m";
  prompts = some ("hello" ∷ "goodbye" ∷ []);
}

run_benchmark_suite_finishes_example :
    (result : BenchmarkSuiteResult) × ((run_benchmark_suite keys echoes keys_of_runs seconds
        suite_input shop).0
      ≡ ok result)
    × (map (λ c. c.prompt) result.cases ≡ prompts_of (some ("hello" ∷ "goodbye" ∷ [])))
    × (length (run_benchmark_suite keys echoes keys_of_runs seconds suite_input shop).1.usage_events
        ≡ success_count result.cases + length shop.usage_events)
    × IsNearest 10000 (success_count result.cases) (length result.cases) result.score
run_benchmark_suite_finishes_example =
    run_benchmark_suite_finishes keys echoes keys_of_runs seconds suite_input shop
