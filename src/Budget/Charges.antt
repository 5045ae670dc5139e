-- ===== src/Budget/Charges.antt =====
-- execute.ts against budget.ts: what the model router charges, the cost summary counts.
use ai_digital_office_os.Prelude.{
  ◌+◌, String, true, ◌&&◌, ◌≡◌, refl, some, List, [], ◌∷◌, ◌++◌, filter, filter-append, arith,
  eq_refl,
}
use ai_digital_office_os.Failure.{ok}
use ai_digital_office_os.Schema.{Db, UsageRow, ModelRow}
use ai_digital_office_os.Db.{actions, select, visible}
use ai_digital_office_os.Db.Tables.{usage_owner}
use ai_digital_office_os.ModelRouter.{
  Resolve, Complete, ExecuteModelRunInput, ExecuteModelRunResult, execute_model_run, find_model,
  usage_row,
}
use ai_digital_office_os.ModelRouter.Ledger.{execute_model_run_charged}
use ai_digital_office_os.Budget.{
  CostSummary, CostSummaryInput, in_range, sum_cost, get_cost_summary,
}
use ai_digital_office_os.Budget.Summary.{sum_cost-append}

module _ (tenant_id : String) (range : CostSummaryInput) (rows : List UsageRow)
    (row : UsageRow) where
  sum_cost-charged :
      row.tenant_id ≡ tenant_id
      → in_range range row ≡ true
      → sum_cost (select usage_owner tenant_id (in_range range) (rows ++ row ∷ []))
        ≡ sum_cost (select usage_owner tenant_id (in_range range) rows) + row.actual_cost
  unfolding select sum_cost
  sum_cost-charged own inside =
      let counts = λ (r : UsageRow). visible tenant_id (usage_owner r) && in_range range r in
      let hit : counts row ≡ true = rw own (rw (eq_refl tenant_id) inside) in
      rw
        (
          filter-append counts rows (row ∷ []),
          sum_cost-append (filter counts rows) (filter counts (row ∷ [])),
        )
        (rw hit (omega arith))

-- A model run that returns, at a time in the range, raises the total of the tenant's cost summary for
-- the range by exactly the cost that it returned.
pub execute_model_run-get_cost_summary :
    (resolve : Resolve) (complete : Complete) (id : String) (input : ExecuteModelRunInput)
    (range : CostSummaryInput) (db : Db) (model : ModelRow) (result : ExecuteModelRunResult)
    → find_model input input.tenant_id db ≡ some model
    → (execute_model_run resolve complete id input db).0 ≡ ok result
    → in_range range (usage_row input result.completion result.estimated_cost db.clock) ≡ true
    → let after = (execute_model_run resolve complete id input db).1 in
      (old : CostSummary) × (new : CostSummary) × ((get_cost_summary input.tenant_id range db).0
        ≡ ok old)
      × ((get_cost_summary input.tenant_id range after).0 ≡ ok new)
      × (new.total_cost ≡ old.total_cost + result.estimated_cost)
unfolding get_cost_summary actions
execute_model_run-get_cost_summary resolve complete id input range db model result found returned
      inside =
    let (charged, _) =
      execute_model_run_charged resolve complete id input db model result found returned in
    (
      _,
      _,
      refl,
      refl,
      rw charged (sum_cost-charged input.tenant_id range db.usage_events _ refl inside),
    )
