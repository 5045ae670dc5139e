-- ===== src/ModelRouter/Ledger.antt =====
-- execute.ts: the usage ledger and the run's record, on each outcome.
use ai_digital_office_os.Prelude.{ℕ, ◌*◌, ◌≤◌, ◌≡◌, String, some, [], ◌∷◌, ◌++◌, arith, eq_refl}
use ai_digital_office_os.Json.{Json}
use ai_digital_office_os.Failure.{Failure, ok, err}
use ai_digital_office_os.Schema.{Db, ModelRow}
use ai_digital_office_os.Db.{actions, insert}
use ai_digital_office_os.Db.Isolation.{IsIsolated, isolation_rules, IsIsolated-update_model_runs}
use ai_digital_office_os.Db.Tables.{insert_model_run, update_model_runs, insert_usage}
use ai_digital_office_os.ModelRouter.{
  Resolve, Complete, ExecuteModelRunInput, ExecuteModelRunResult, open_run, complete_run, fail_run,
  close_run, settle_run, execute_model_run, usage_row, estimate_cost, rates, find_model,
}

module _ (resolve : Resolve) (complete : Complete) (id : String) (input : ExecuteModelRunInput)
    (db : Db) where
  -- A run that fails, at whatever step, charges nothing: the usage ledger is as it was.
  pub execute_model_run_uncharged :
      {e : Failure}
      → (execute_model_run resolve complete id input db).0 ≡ err e
      → (execute_model_run resolve complete id input db).1.usage_events ≡ db.usage_events
  unfolding execute_model_run open_run complete_run fail_run close_run settle_run insert_model_run
      update_model_runs insert_usage actions
  execute_model_run_uncharged h = ground arith

  -- A run that returns has charged the tenant once: the ledger has one more event, with the tokens
  -- that the provider reported and the cost returned, which is the estimate of those tokens under
  -- the model's cost profile.
  pub execute_model_run_charged :
      (model : ModelRow) (result : ExecuteModelRunResult)
      → find_model input input.tenant_id db ≡ some model
      → (execute_model_run resolve complete id input db).0 ≡ ok result
      → ((execute_model_run resolve complete id input db).1.usage_events
          ≡ db.usage_events
            ++ usage_row input result.completion result.estimated_cost db.clock ∷ [])
        × (result.estimated_cost
            ≡ estimate_cost model.cost_profile result.completion.input_tokens
                result.completion.output_tokens)
  unfolding execute_model_run open_run complete_run fail_run close_run settle_run insert_model_run
      update_model_runs insert_usage insert actions
  execute_model_run_charged model result f h = ground (arith, f, h, eq_refl input.tenant_id)

times_mono : (m n k : ℕ) → m ≤ n → m * k ≤ n * k
times_mono m n k h = grind arith

-- More tokens, in either direction, never cost less.
pub estimate_cost_mono :
    (profile : Json) (i j o p : ℕ)
    → i ≤ j
    → o ≤ p
    → estimate_cost profile i o ≤ estimate_cost profile j p
unfolding estimate_cost
estimate_cost_mono profile i j o p h k =
    omega (arith, times_mono i j (rates profile).0 h, times_mono o p (rates profile).1 k)

-- A model run changes only rows of its own tenant, whether it returns or throws.
pub execute_model_run-IsIsolated :
    (resolve : Resolve) (complete : Complete) (id : String) (input : ExecuteModelRunInput)
    → IsIsolated input.tenant_id (execute_model_run resolve complete id input)
unfolding execute_model_run open_run complete_run fail_run close_run settle_run
execute_model_run-IsIsolated resolve complete id input =
    search (isolation_rules, IsIsolated-update_model_runs) depth 12
