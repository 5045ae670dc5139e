-- ===== src/ModelRouter/Benchmark/Reliability.antt =====
-- evaluate.ts: the suite finishes whatever the provider does, and what its score says.
use ai_digital_office_os.Prelude.{
  ℕ, if◌then◌else◌, inl, inr, ◌+◌, ◌*◌, ◌/◌, ◌≤◌, suc, String, ◌≡◌, refl, List, [], ◌∷◌, ◌++◌, map,
  length, arith, ap, ◌∙◌, zero, length-append, eq_refl,
}
use native.Mathlib.Nat.{div-mul-le_self, lt-div-mul-add}
use ai_digital_office_os.Failure.{Result-cases, ok}
use ai_digital_office_os.Schema.{Db}
use ai_digital_office_os.Db.{actions, insert}
use ai_digital_office_os.Db.Tables.{insert_model_run, update_model_runs, insert_usage}
use ai_digital_office_os.ModelRouter.{
  Resolve, Complete, ExecuteModelRunInput, ExecuteModelRunResult, open_run, complete_run, fail_run,
  close_run, settle_run, execute_model_run, usage_row,
}
use ai_digital_office_os.ModelRouter.Ledger.{
  execute_model_run_uncharged, execute_model_run-IsIsolated,
}
use ai_digital_office_os.Db.Keeps.{Keeps-bind, Keeps-try_catch}
use ai_digital_office_os.Db.Isolation.{IsIsolated, isolation_rules}
use ai_digital_office_os.ModelRouter.Benchmark.{
  BenchmarkCaseResult, BenchmarkSuiteResult, RunBenchmarkSuiteInput, prompts_of, case_input,
  run_case, run_cases, succeeded, failed, success_count, rounded, suite_result, run_benchmark_suite,
}

-- A run that returns adds its event to the ledger.
charged_event :
    (resolve : Resolve) (complete : Complete) (id : String) (input : ExecuteModelRunInput) (db : Db)
    (result : ExecuteModelRunResult)
    → (execute_model_run resolve complete id input db).0 ≡ ok result
    → (execute_model_run resolve complete id input db).1.usage_events
      ≡ db.usage_events ++ usage_row input result.completion result.estimated_cost db.clock ∷ []
unfolding execute_model_run open_run complete_run fail_run close_run settle_run insert_model_run
    update_model_runs insert_usage insert actions
charged_event resolve complete id input db result h = ground (arith, h, eq_refl input.tenant_id)

module _ (resolve : Resolve) (complete : ℕ → Complete) (id : ℕ → String) (elapsed : ℕ → ℕ)
    (input : RunBenchmarkSuiteInput) where
  -- what a case has done to the ledger
  abbrev charge : BenchmarkCaseResult → ℕ
  charge c = if c.success then 1 else 0

  run_case_finishes :
      (n : ℕ) (prompt : String) (db : Db)
      → (result : BenchmarkCaseResult) × ((run_case resolve complete id elapsed input n prompt db).0
          ≡ ok result)
        × (result.prompt ≡ prompt)
        × (length (run_case resolve complete id elapsed input n prompt db).1.usage_events
            ≡ charge result + length db.usage_events)
  unfolding run_case actions
  run_case_finishes n prompt db =
      let run = execute_model_run resolve (complete n) (id n) (case_input input prompt) in
      elim (Result-cases (run db).0) [
        | inl (result, h) ↦
            let charged =
              charged_event resolve (complete n) (id n) (case_input input prompt) db result h in
            let counted = ap length charged ∙ length-append db.usage_events _ in
            (
              succeeded prompt (elapsed n) result,
              ground (arith, h),
              refl,
              ground (arith, h, counted),
            )
        | inr (e, h) ↦
            let free = ap length (
              execute_model_run_uncharged resolve (complete n) (id n) (case_input input prompt) db
                h) in
            (failed prompt (elapsed n) e, ground (arith, h), refl, ground (arith, h, free))
      ]

  run_cases_finishes :
      (n : ℕ) (prompts : List String) (db : Db)
      → (cases : List BenchmarkCaseResult) × ((run_cases resolve complete id elapsed input n prompts
            db).0
          ≡ ok cases)
        × (map (λ c. c.prompt) cases ≡ prompts)
        × (length (run_cases resolve complete id elapsed input n prompts db).1.usage_events
            ≡ success_count cases + length db.usage_events)
  unfolding run_cases actions
  run_cases_finishes n [] db = ([], refl, refl, omega arith)
  run_cases_finishes n (prompt ∷ prompts) db =
      let (result, ran, asked, charged) = run_case_finishes n prompt db in
      let after = (run_case resolve complete id elapsed input n prompt db).1 in
      let (cases, ran_all, asked_all, charged_all) = run_cases_finishes (suc n) prompts after in
      (
        result ∷ cases,
        ground (arith, ran, ran_all),
        ground (arith, asked, asked_all),
        ground (arith, ran, ran_all, charged, charged_all),
      )

  run_case-IsIsolated :
      (n : ℕ) (prompt : String)
      → IsIsolated input.tenant_id (run_case resolve complete id elapsed input n prompt)
  unfolding run_case
  run_case-IsIsolated n prompt =
      Keeps-try_catch (execute_model_run resolve (complete n) (id n) (case_input input prompt)) _ _
        (execute_model_run-IsIsolated resolve (complete n) (id n) (case_input input prompt))
        (λ result. search isolation_rules) (λ e. search isolation_rules)

  run_cases-IsIsolated :
      (n : ℕ) (prompts : List String)
      → IsIsolated input.tenant_id (run_cases resolve complete id elapsed input n prompts)
  unfolding run_cases
  run_cases-IsIsolated n [] = search isolation_rules
  run_cases-IsIsolated n (prompt ∷ prompts) =
      Keeps-bind (run_case resolve complete id elapsed input n prompt) _
        (run_case-IsIsolated n prompt)
        (λ result.
          Keeps-bind (run_cases resolve complete id elapsed input (suc n) prompts) _
            (run_cases-IsIsolated (suc n) prompts) (λ rest. search isolation_rules))

  -- The suite changes only rows of the tenant that runs it.
  pub run_benchmark_suite-IsIsolated :
      IsIsolated input.tenant_id (run_benchmark_suite resolve complete id elapsed input)
  unfolding run_benchmark_suite
  run_benchmark_suite-IsIsolated = search (isolation_rules, run_cases-IsIsolated)

success_count_bound : (cases : List BenchmarkCaseResult) → success_count cases ≤ length cases
success_count_bound [] = omega arith
success_count_bound (c ∷ cases) = ground (arith, success_count_bound cases)

-- The quotient of scale * part by whole to the nearest unit: it is at most half a unit away.
abbrev pub IsNearest : ℕ → ℕ → ℕ → ℕ → Type 0
IsNearest scale part whole quotient =
    (2 * (quotient * whole) ≤ 2 * (scale * part) + whole)
    × (2 * (scale * part) ≤ 2 * (quotient * whole) + whole)

double_factor : (q n : ℕ) → q * (2 * n) ≡ 2 * (q * n)
double_factor q n = grind arith

rounded-IsNearest :
    (scale part whole : ℕ) → part ≤ whole → IsNearest scale part whole (rounded scale part whole)
unfolding rounded
rounded-IsNearest scale part zero h =
    let none_of : scale * part ≡ 0 = grind arith in (omega arith, omega (arith, none_of))
rounded-IsNearest scale part (suc n) h =
    let total = 2 * (scale * part) + suc n in
    let doubled = double_factor (total / (2 * suc n)) (suc n) in
    let below = div-mul-le_self total (2 * suc n) in
    let above = lt-div-mul-add {a = total} {b = 2 * suc n} (omega arith) in
    (omega (arith, doubled, below), omega (arith, doubled, above))

module _ (resolve : Resolve) (complete : ℕ → Complete) (id : ℕ → String) (elapsed : ℕ → ℕ)
    (input : RunBenchmarkSuiteInput) (db : Db) where
  -- The suite finishes whatever the provider, the key and the model do. It reports one case for each
  -- prompt, in the prompts' order; the ledger has one more usage event for each case that succeeded
  -- and none for the others; and the score is, to the nearest hundredth, the percentage of the cases
  -- that succeeded.
  pub run_benchmark_suite_finishes :
      (result : BenchmarkSuiteResult) × ((run_benchmark_suite resolve complete id elapsed input
          db).0
        ≡ ok result)
      × (map (λ c. c.prompt) result.cases ≡ prompts_of input.prompts)
      × (length (run_benchmark_suite resolve complete id elapsed input db).1.usage_events
          ≡ success_count result.cases + length db.usage_events)
      × IsNearest 10000 (success_count result.cases) (length result.cases) result.score
  unfolding run_benchmark_suite suite_result actions
  run_benchmark_suite_finishes =
      let (cases, ran, asked, charged) =
        run_cases_finishes resolve complete id elapsed input 0 (prompts_of input.prompts) db in
      (
        suite_result cases,
        ground (arith, ran),
        asked,
        ground (arith, ran, charged),
        rounded-IsNearest 10000 (success_count cases) (length cases) (success_count_bound cases),
      )
