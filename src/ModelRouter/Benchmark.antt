-- ===== src/ModelRouter/Benchmark.antt =====
-- services/model-router-gateway/src/evaluate.ts: prompts through the real executeModelRun, and the
-- share of them that completed. The identifiers, the adapter's answers and the time that a case takes
-- are parameters, by the number of the case. Where the source rounds a quotient to a number of
-- decimals, the model has that many decimals as a natural number: scores, and averages, are
-- hundredths.
pub mod Reliability
use ai_digital_office_os.Prelude.{
  ℕ, zero, ◌+◌, ◌*◌, ◌/◌, suc, String, Bool, true, false, Option, none, some, List, [], ◌∷◌, length,
  filter,
}
use ai_digital_office_os.Json
use ai_digital_office_os.Json.{Json, Items}
use ai_digital_office_os.Failure.{Failure}
use ai_digital_office_os.Db.{Action, pure, ◌>>=◌, try_catch}
use ai_digital_office_os.ModelRouter.{
  Resolve, Complete, ExecuteModelRunInput, ExecuteModelRunResult, execute_model_run,
}

pub record BenchmarkCaseResult : Type 0 where
  pub prompt : String
  pub success : Bool
  pub latency : ℕ
  pub output_tokens : ℕ
  -- the message is left out
  pub error : Option Failure

pub record BenchmarkSuiteResult : Type 0 where
  pub score : ℕ
  pub success_rate : ℕ
  pub average_latency : ℕ
  pub average_output_tokens : ℕ
  pub cases : List BenchmarkCaseResult

abbrev pub default_prompts : List String
default_prompts =
    "Summarize the following in one sentence: The quick brown fox jumps over the lazy dog."
    ∷ "What is 7 multiplied by 6?" ∷ "List three primary colors." ∷ []

pub record RunBenchmarkSuiteInput : Type 0 where
  pub tenant_id : String
  pub provider_id : String
  pub model_id : String
  pub prompts : Option (List String)

-- `input.prompts && input.prompts.length > 0 ? input.prompts : DEFAULT_BENCHMARK_PROMPTS`
abbrev pub prompts_of : Option (List String) → List String
prompts_of none = default_prompts
prompts_of (some []) = default_prompts
prompts_of (some (p ∷ ps)) = p ∷ ps

abbrev pub user_message : String → Json
user_message prompt =
    Json.obj (Json.field "role" (Json.str "user") (Json.field "content" (Json.str prompt) Json.end))

abbrev pub case_input : RunBenchmarkSuiteInput → String → ExecuteModelRunInput
case_input input prompt = record {
  tenant_id = input.tenant_id;
  task_id = none;
  agent_id = none;
  provider_id = input.provider_id;
  model_id = input.model_id;
  request = Json.obj (
      Json.field "model" (Json.str input.model_id)
        (Json.field "messages" (Json.arr (Json.cons (user_message prompt) Json.nil)) Json.end));
}

abbrev pub succeeded : String → ℕ → ExecuteModelRunResult → BenchmarkCaseResult
succeeded prompt elapsed result = record {
  prompt = prompt;
  success = true;
  latency = elapsed;
  output_tokens = result.completion.output_tokens;
  error = none;
}

abbrev pub failed : String → ℕ → Failure → BenchmarkCaseResult
failed prompt elapsed e = record {
  prompt = prompt;
  success = false;
  latency = elapsed;
  output_tokens = 0;
  error = some e;
}

module _ (resolve : Resolve) (complete : ℕ → Complete) (id : ℕ → String) (elapsed : ℕ → ℕ)
    (input : RunBenchmarkSuiteInput) where
  -- a failure is caught and recorded
  unfoldable pub run_case : ℕ → String → Action BenchmarkCaseResult
  run_case n prompt =
      try_catch (execute_model_run resolve (complete n) (id n) (case_input input prompt))
        (λ result. pure (succeeded prompt (elapsed n) result))
        (λ e. pure (failed prompt (elapsed n) e))

  -- the cases from number n on
  unfoldable pub run_cases : ℕ → List String → Action (List BenchmarkCaseResult)
  run_cases n [] = pure []
  run_cases n (prompt ∷ prompts) = do
    result ← run_case n prompt
    rest ← run_cases (suc n) prompts
    pure (result ∷ rest)

abbrev pub success_count : List BenchmarkCaseResult → ℕ
success_count cases = length (filter (λ c. c.success) cases)

sum : (BenchmarkCaseResult → ℕ) → List BenchmarkCaseResult → ℕ
sum f [] = 0
sum f (c ∷ cases) = f c + sum f cases

-- the quotient to the nearest unit of 1 / scale, and 0 of no cases
unfoldable pub rounded : ℕ → ℕ → ℕ → ℕ
rounded scale total zero = 0
rounded scale total (suc n) = (2 * (scale * total) + suc n) / (2 * suc n)

-- the score is a percentage with two decimals, and the rate has four
unfoldable pub suite_result : List BenchmarkCaseResult → BenchmarkSuiteResult
unfolding sum
suite_result cases = record {
  score = rounded 10000 (success_count cases) (length cases);
  success_rate = rounded 10000 (success_count cases) (length cases);
  average_latency = rounded 100 (sum (λ c. c.latency) cases) (length cases);
  average_output_tokens = rounded 100 (sum (λ c. c.output_tokens) cases) (length cases);
  cases = cases;
}

unfoldable pub run_benchmark_suite :
    Resolve
    → (ℕ → Complete)
    → (ℕ → String)
    → (ℕ → ℕ)
    → RunBenchmarkSuiteInput
    → Action BenchmarkSuiteResult
run_benchmark_suite resolve complete id elapsed input = do
  cases ← run_cases resolve complete id elapsed input 0 (prompts_of input.prompts)
  pure (suite_result cases)
