-- ===== src/Scheduler.antt =====
-- services/scheduler-worker/src: sweeps.ts, and the tick of scheduler.ts. The owner's connection sees
-- every organization; the sweeps themselves run in each tenant's session.
pub mod Sweeps
mod Tests
use ai_digital_office_os.Prelude.{
  ℕ, ◌+◌, String, Bool, true, false, Option, none, some, List, [], ◌∷◌, length, map, if◌then◌else◌,
}
use ai_digital_office_os.Schema.{Db, OrganizationRow}
use ai_digital_office_os.Db.{Action, pure, gets, ◌>>=◌, try_catch}
use ai_digital_office_os.WorkingMemory.{purge_expired_working_memory}
use ai_digital_office_os.ControlPlane.Approvals.{expire_pending_approvals}

pub record SweepSummary : Type 0 where
  pub tenants_swept : ℕ
  pub approvals_expired : ℕ
  pub working_memory_purged : ℕ

abbrev pub list_tenant_ids : Db → List String
list_tenant_ids db = map (λ (r : OrganizationRow). r.tenant_id) db.organizations

-- `try { total += await sweep; } catch (err) { … }`
abbrev pub add_swept : Action ℕ → ℕ → Action ℕ
add_swept sweep total = try_catch sweep (λ swept. pure (total + swept)) (λ e. pure total)

-- the loop over the tenants, with the two totals
unfoldable pub sweep_tenants : List String → ℕ → ℕ → Action (ℕ × ℕ)
sweep_tenants [] expired purged = pure (expired, purged)
sweep_tenants (tenant_id ∷ rest) expired purged = do
  expired' ← add_swept (expire_pending_approvals tenant_id) expired
  purged' ← add_swept (purge_expired_working_memory tenant_id) purged
  sweep_tenants rest expired' purged'

unfoldable pub run_sweep_once : Action SweepSummary
run_sweep_once = do
  tenant_ids ← gets list_tenant_ids
  totals ← sweep_tenants tenant_ids 0 0
  pure (record {
    tenants_swept = length tenant_ids;
    approvals_expired = totals.0;
    working_memory_purged = totals.1;
  })

-- the `tick` of startScheduler
unfoldable pub tick : Bool → Action (Option SweepSummary)
tick stopped =
    if stopped
    then pure none
    else try_catch run_sweep_once (λ summary. pure (some summary)) (λ e. pure none)
