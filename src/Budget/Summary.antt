-- ===== src/Budget/Summary.antt =====
-- budget.ts: what the summary adds up to, the order of the budget statuses, and the model router's
-- charges in it.
use ai_digital_office_os.Prelude.{
  ℕ, ◌+◌, ◌≤◌, String, Bool, true, false, ◌≡◌, refl, none, some, List, [], ◌∷◌, ◌++◌, filter, arith,
  eq_refl, any, ◌==◌, Option-cases, inl, inr,
}
use ai_digital_office_os.Failure.{ok}
use ai_digital_office_os.Schema.{Db, UsageRow}
use ai_digital_office_os.Db.{actions, insert, store}
use ai_digital_office_os.Db.Rows.{select_one-insert, select_one-update, update_passes}
use ai_digital_office_os.Budget.{
  BudgetStatus, within, warning, soft_limit_reached, hard_limit_reached, CostSummaryInput,
  CostSummary, compute_budget_status, sum_cost, add_cost, group_by_provider, get_cost_summary,
  usage_in, UpsertBudgetTierInput, upsert_budget_tier, write_tier, tier_row, tier_owner, is_tier,
  find_tier, valid_periods,
}

-- the severity of a status
abbrev pub rank : BudgetStatus → ℕ
rank within = 0
rank warning = 1
rank soft_limit_reached = 2
rank hard_limit_reached = 3

-- Under limits that stay, a higher total never has a milder status.
pub compute_budget_status_mono :
    (total more soft hard : ℕ)
    → total ≤ more
    → rank (compute_budget_status total soft hard) ≤ rank (compute_budget_status more soft hard)
unfolding compute_budget_status
compute_budget_status_mono total more soft hard h = ground arith

abbrev pub sum_groups : List (String × ℕ) → ℕ
sum_groups [] = 0
sum_groups ((p, c) ∷ groups) = c + sum_groups groups

abbrev pub is_unassigned : UsageRow → Bool
is_unassigned row = elim row.provider_id [ none ↦ true | some p ↦ false ]

sum_groups-add_cost :
    (p : String) (cost : ℕ) (groups : List (String × ℕ))
    → sum_groups (add_cost p cost groups) ≡ cost + sum_groups groups
unfolding add_cost
sum_groups-add_cost p cost [] = refl
sum_groups-add_cost p cost ((q, c) ∷ groups) =
    let rest = sum_groups-add_cost p cost groups in ground (arith, rest)

sum_groups-group_by_provider :
    (rows : List UsageRow)
    → sum_groups (group_by_provider rows) + sum_cost (filter is_unassigned rows) ≡ sum_cost rows
unfolding group_by_provider sum_cost
sum_groups-group_by_provider [] = refl
sum_groups-group_by_provider (row ∷ rows) =
    let rest = sum_groups-group_by_provider rows in
    elim (Option-cases row.provider_id) [
      | inl unassigned ↦ rw unassigned (omega (arith, rest))
      | inr (p, assigned) ↦
          rw (assigned, sum_groups-add_cost p row.actual_cost (group_by_provider rows))
            (omega (arith, rest))
    ]

-- A cost summary is always returned and changes nothing, and its costs by provider, with the cost of
-- the events that have no provider, add up to its total.
pub get_cost_summary_adds_up :
    (tenant_id : String) (input : CostSummaryInput) (db : Db)
    → (summary : CostSummary) × (get_cost_summary tenant_id input db ≡ (ok summary, db))
      × (sum_groups summary.breakdown_by_provider
            + sum_cost (filter is_unassigned (usage_in tenant_id input db))
          ≡ summary.total_cost)
unfolding get_cost_summary actions
get_cost_summary_adds_up tenant_id input db =
    (_, refl, sum_groups-group_by_provider (usage_in tenant_id input db))

-- A tier that is written with a valid period is the one on record for that period, whether there was
-- one before or not, and the write succeeds.
pub upsert_budget_tier_stored :
    (tenant_id : String) (tier : UpsertBudgetTierInput) (db : Db)
    → any (λ p. p == tier.period) valid_periods ≡ true
    → let (r, after) = upsert_budget_tier tenant_id tier db in
      (r ≡ ok tt)
      × (find_tier tenant_id tenant_id tier.period after ≡ some (tier_row tenant_id tier))
unfolding upsert_budget_tier write_tier store insert actions
upsert_budget_tier_stored tenant_id tier db valid =
    elim (Option-cases (find_tier tenant_id tenant_id tier.period db)) [
      | inr (old, found) ↦
          let (new, passed) =
            update_passes tier_owner tenant_id (is_tier tenant_id tier.period)
              (λ _. tier_row tenant_id tier) (λ r seen. eq_refl tenant_id) db.budget_tiers in
          let kept =
            select_one-update tier_owner tenant_id (is_tier tenant_id tier.period)
              (λ _. tier_row tenant_id tier)
              (λ r h. rw (eq_refl tenant_id, eq_refl tier.period) refl) db.budget_tiers new old
              passed found in
          rw valid (rw found (rw passed (refl, kept)))
      | inl missing ↦
          let kept =
            select_one-insert tier_owner tenant_id (is_tier tenant_id tier.period)
              (tier_row tenant_id tier) db.budget_tiers _ (rw (eq_refl tenant_id) refl) missing
              (rw (eq_refl tenant_id, eq_refl tier.period) refl) in
          rw valid (rw missing (rw (eq_refl tenant_id) (refl, kept)))
    ]

pub sum_cost-append : (xs ys : List UsageRow) → sum_cost (xs ++ ys) ≡ sum_cost xs + sum_cost ys
unfolding sum_cost
sum_cost-append [] ys = omega arith
sum_cost-append (x ∷ xs) ys = let rest = sum_cost-append xs ys in omega (arith, rest)
