-- ===== src/Scheduler/Sweeps.antt =====
-- sweeps.ts: a pass sweeps every tenant, and none of them undoes another's.
use ai_digital_office_os.Prelude.{
  ℕ, ◌+◌, String, false, ◌≡◌, refl, ◌∙◌, some, List, [], ◌∷◌, length, All,
}
use ai_digital_office_os.Failure.{ok}
use ai_digital_office_os.Schema.{Db}
use ai_digital_office_os.Db.{actions, select, delete}
use ai_digital_office_os.Db.Rows.{select-delete, select-delete_stays}
use ai_digital_office_os.Db.Tables.{approval_owner}
use ai_digital_office_os.WorkingMemory.{memory_owner, is_expired, purge_expired_working_memory}
use ai_digital_office_os.ControlPlane.Approvals.{is_overdue}
use ai_digital_office_os.ControlPlane.Approvals.Decided.{expire_pending_approvals_lem}
use ai_digital_office_os.Scheduler.{
  SweepSummary, list_tenant_ids, sweep_tenants, run_sweep_once, tick,
}

-- The tenant has no undecided request at or past its expiry and no expired entry.
abbrev pub IsSwept : Db → String → Type 0
IsSwept db tenant_id =
    (select approval_owner tenant_id (is_overdue db.clock) db.approvals ≡ [])
    × (select memory_owner tenant_id (is_expired db.clock) db.working_memory ≡ [])

-- what two sweeps of a tenant do
sweep_tenant_lem :
    (tenant_id : String) (rest : List String) (expired purged : ℕ) (db : Db)
    → (after : Db) × (expired' : ℕ) × (purged' : ℕ) × (sweep_tenants
          (tenant_id ∷ rest)
          expired
          purged
          db
        ≡ sweep_tenants rest expired' purged' after)
      × (after.clock ≡ db.clock)
      × IsSwept after tenant_id
      × ((other : String) → IsSwept db other → IsSwept after other)
unfolding sweep_tenants purge_expired_working_memory actions
sweep_tenant_lem tenant_id rest expired purged db =
    let (new, swept, outcome, cleared, stays) = expire_pending_approvals_lem tenant_id db in
    let after : Db = record db {
      approvals = new;
      working_memory = delete memory_owner tenant_id (is_expired db.clock) db.working_memory;
    } in
    (
      after,
      expired + swept,
      purged + length (select memory_owner tenant_id (is_expired db.clock) db.working_memory),
      rw outcome refl,
      refl,
      (cleared, select-delete memory_owner tenant_id (is_expired db.clock) db.working_memory),
      λ other h. (
        stays other h.0,
        select-delete_stays memory_owner other tenant_id (is_expired db.clock) db.working_memory
            h.1,
      ),
    )

sweep_tenants_lem :
    (tenant_ids : List String) (expired purged : ℕ) (db : Db)
    → (totals : ℕ × ℕ) × (after : Db) × (sweep_tenants tenant_ids expired purged db
        ≡ (ok totals, after))
      × (after.clock ≡ db.clock)
      × All (IsSwept after) tenant_ids
      × ((other : String) → IsSwept db other → IsSwept after other)
unfolding sweep_tenants actions
sweep_tenants_lem [] expired purged db = ((expired, purged), db, refl, refl, tt, λ other h. h)
sweep_tenants_lem (tenant_id ∷ rest) expired purged db =
    let (mid, expired', purged', outcome, clock, swept, stays) =
      sweep_tenant_lem tenant_id rest expired purged db in
    let (totals, after, last, clock', all, stays') = sweep_tenants_lem rest expired' purged' mid in
    (
      totals,
      after,
      outcome ∙ last,
      clock' ∙ clock,
      (stays' tenant_id swept, all),
      λ other h. stays' other (stays other h),
    )

-- A pass returns and reports one sweep for each organization. After it no tenant has an undecided
-- request at or past its expiry or an expired entry in its working memory, whatever the order of
-- the tenants; and so does a tick of the scheduler that is not stopped.
pub tick-IsSwept :
    (db : Db)
    → (summary : SweepSummary) × (after : Db) × (tick false db ≡ (ok (some summary), after))
      × (summary.tenants_swept ≡ length (list_tenant_ids db))
      × All (IsSwept after) (list_tenant_ids db)
unfolding tick run_sweep_once actions
tick-IsSwept db =
    let (totals, after, outcome, _, all, _) = sweep_tenants_lem (list_tenant_ids db) 0 0 db in
    let summary : SweepSummary = record {
      tenants_swept = length (list_tenant_ids db);
      approvals_expired = totals.0;
      working_memory_purged = totals.1;
    } in
    (summary, after, rw outcome refl, refl, all)
