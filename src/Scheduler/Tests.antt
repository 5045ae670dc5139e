-- ===== src/Scheduler/Tests.antt =====
-- A pass over two tenants, of which one has a request past its expiry and the other an old entry.
use ai_digital_office_os.Prelude.{◌≡◌, false, none, some, [], ◌∷◌, length, All}
use ai_digital_office_os.Json.{Json}
use ai_digital_office_os.Failure.{ok}
use ai_digital_office_os.Schema.{Db, empty_db}
use ai_digital_office_os.Scheduler.{SweepSummary, list_tenant_ids, tick}
use ai_digital_office_os.Scheduler.Sweeps.{IsSwept, tick-IsSwept}

abbrev offices : Db
offices = record empty_db {
  organizations = record { tenant_id = "t" } ∷ record { tenant_id = "u" } ∷ [];
  approvals =
      record {
        request_id = "appr-1";
        tenant_id = "t";
        requester = none;
        agent_id = none;
        action = "DEPLOY";
        risk_level = "RED";
        reason = none;
        approver = none;
        decision = none;
        expires_at = some 5;
        decided_at = none;
      }
      ∷ [];
  working_memory =
      record {
        cache_key = "k";
        tenant_id = "u";
        task_id = none;
        payload = Json.null;
        expires_at = 3;
      }
      ∷ [];
  clock = 9;
}

tick-IsSwept_example :
    (summary : SweepSummary) × (after : Db) × (tick false offices ≡ (ok (some summary), after))
    × (summary.tenants_swept ≡ length (list_tenant_ids offices))
    × All (IsSwept after) (list_tenant_ids offices)
tick-IsSwept_example = tick-IsSwept offices
