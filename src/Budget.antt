-- ===== src/Budget.antt =====
-- services/cost-usage-service/src/budget.ts: budget tiers, and the cost summary over a range of
-- time. Amounts are units of 0.00000001, exact, where the source compares floating-point numbers;
-- MAX(currency) compares by code points.
pub mod Summary
pub mod Charges
mod Tests
use Prim.Native.Nat.{Ordering}
use Prim.Native.String.{compare}
use ai_digital_office_os.Prelude.{
  ℕ, ◌+◌, ◌*◌, String, Bool, true, false, not, ◌&&◌, ◌||◌, Option, none, some, List, [], ◌∷◌, map,
  filter, any, leb, ltb, ◌==◌, if◌then◌else◌, is_some,
}
use ai_digital_office_os.Failure.{Failure, cost_usage_error, invalid_period}
use ai_digital_office_os.Schema.{Db, UsageRow, BudgetTierRow}
use ai_digital_office_os.Db.{
  Action, pure, gets, guard, ◌>>=◌, ◌>>◌, with_tenant_transaction, select, select_one, insert,
  update, store,
}
use ai_digital_office_os.Db.Tables.{usage_owner}

pub data BudgetStatus : Type 0 where
  within warning soft_limit_reached hard_limit_reached : BudgetStatus

pub record UpsertBudgetTierInput : Type 0 where
  pub period : String
  pub currency : Option String
  pub soft_limit : ℕ
  pub hard_limit : ℕ

pub record CostSummaryInput : Type 0 where
  pub from : ℕ
  pub until : ℕ
  pub period : Option String

pub record CostSummary : Type 0 where
  pub total_cost : ℕ
  pub currency : String
  pub budget_status : BudgetStatus
  pub breakdown_by_provider : List (String × ℕ)
  -- the soft and the hard limit
  pub budget_tier : Option (ℕ × ℕ)

abbrev pub valid_periods : List String
valid_periods = "DAILY" ∷ "MONTHLY" ∷ []

abbrev pub tier_owner : BudgetTierRow → Option String
tier_owner r = some r.tenant_id

abbrev pub is_tier : String → String → BudgetTierRow → Bool
is_tier tenant_id period row = row.tenant_id == tenant_id && row.period == period

abbrev pub currency_or_usd : Option String → String
currency_or_usd none = "USD"
currency_or_usd (some c) = c

abbrev pub tier_row : String → UpsertBudgetTierInput → BudgetTierRow
tier_row tenant_id input = record {
  tenant_id = tenant_id;
  period = input.period;
  currency = currency_or_usd input.currency;
  soft_limit = input.soft_limit;
  hard_limit = input.hard_limit;
}

abbrev pub find_tier : String → String → String → Db → Option BudgetTierRow
find_tier client tenant_id period db =
    select_one tier_owner client (is_tier tenant_id period) db.budget_tiers

-- INSERT … ON CONFLICT (tenant_id, period) DO UPDATE
unfoldable pub write_tier : String → String → UpsertBudgetTierInput → Action (Unit {0})
unfolding store
write_tier client tenant_id input db =
    let put = λ (rows : List BudgetTierRow) (d : Db). record d { budget_tiers = rows } in
    if is_some (find_tier client tenant_id input.period db)
    then store
        (update tier_owner client (is_tier tenant_id input.period) (λ _. tier_row tenant_id input)
          db.budget_tiers)
        put db
    else store (insert tier_owner client (tier_row tenant_id input) db.budget_tiers) put db

unfoldable pub upsert_budget_tier : String → UpsertBudgetTierInput → Action (Unit {0})
upsert_budget_tier tenant_id input = do
  guard (any (λ p. p == input.period) valid_periods) (cost_usage_error invalid_period)
  with_tenant_transaction tenant_id (λ client. write_tier client tenant_id input)

-- `total / softLimit >= 0.8`
unfoldable pub compute_budget_status : ℕ → ℕ → ℕ → BudgetStatus
compute_budget_status total soft hard =
    if leb hard total
    then hard_limit_reached
    else if leb soft total
    then soft_limit_reached
    else if ltb 0 soft && leb (8 * soft) (10 * total)
    then warning
    else within

abbrev pub in_range : CostSummaryInput → UsageRow → Bool
in_range input row = leb input.from row.event_time && leb row.event_time input.until

-- the rows that the aggregates range over
abbrev pub usage_in : String → CostSummaryInput → Db → List UsageRow
usage_in client input db = select usage_owner client (in_range input) db.usage_events

-- COALESCE(SUM(actual_cost), 0)
unfoldable pub sum_cost : List UsageRow → ℕ
sum_cost [] = 0
sum_cost (row ∷ rows) = row.actual_cost + sum_cost rows

-- MAX(currency)
unfoldable pub max_currency : List UsageRow → Option String
max_currency [] = none
max_currency (row ∷ rows) =
    let rest = max_currency rows in
    elim rest [
      | none ↦ some row.currency
      | some c ↦ elim (compare row.currency c) [ Ordering.lt ↦ some c | _ ↦ some row.currency ]
    ]

unfoldable pub add_cost : String → ℕ → List (String × ℕ) → List (String × ℕ)
add_cost provider cost [] = (provider, cost) ∷ []
add_cost provider cost ((p, c) ∷ groups) =
    let rest = add_cost provider cost groups in
    if p == provider then (p, c + cost) ∷ groups else (p, c) ∷ rest

-- GROUP BY provider_id, of the rows that have one
unfoldable pub group_by_provider : List UsageRow → List (String × ℕ)
unfolding add_cost
group_by_provider [] = []
group_by_provider (row ∷ rows) =
    let rest = group_by_provider rows in
    elim row.provider_id [ none ↦ rest | some p ↦ add_cost p row.actual_cost rest ]

abbrev pub monthly_or : Option String → String
monthly_or none = "MONTHLY"
monthly_or (some p) = p

abbrev pub limits_of : Option BudgetTierRow → Option (ℕ × ℕ)
limits_of none = none
limits_of (some tier) = some (tier.soft_limit, tier.hard_limit)

abbrev pub status_under : ℕ → Option (ℕ × ℕ) → BudgetStatus
status_under total none = within
status_under total (some (soft, hard)) = compute_budget_status total soft hard

unfoldable pub get_cost_summary : String → CostSummaryInput → Action CostSummary
unfolding sum_cost max_currency group_by_provider
get_cost_summary tenant_id input = with_tenant_transaction tenant_id (λ client. do
  rows ← gets (usage_in client input)
  tier ← gets (find_tier client tenant_id (monthly_or input.period))
  let total = sum_cost rows
  pure (record {
    total_cost = total;
    currency = currency_or_usd (max_currency rows);
    budget_status = status_under total (limits_of tier);
    breakdown_by_provider = group_by_provider rows;
    budget_tier = limits_of tier;
  }))
