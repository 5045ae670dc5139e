-- ===== src/WorkingMemory/Purge.antt =====
-- working-memory.ts: the purge is for storage only.
use ai_digital_office_os.Prelude.{String, ◌≡◌, ap, true, false, arith}
use ai_digital_office_os.Failure.{ok}
use ai_digital_office_os.Schema.{Db, WorkingMemoryRow}
use ai_digital_office_os.Db.{actions}
use ai_digital_office_os.Db.Rows.{select_one-delete}
use ai_digital_office_os.WorkingMemory.{
  memory_owner, is_live, is_expired, payload_or_null, get_working_memory,
  purge_expired_working_memory,
}

live-unexpired :
    (key : String) (db : Db) (row : WorkingMemoryRow)
    → is_live key db.clock row ≡ true
    → is_expired db.clock row ≡ false
live-unexpired key db row h = ground arith

-- A purge changes no answer: right after it, the tenant reads the same value under every key.
pub get_working_memory-purge :
    (tenant_id key : String) (db : Db)
    → (get_working_memory tenant_id key (purge_expired_working_memory tenant_id db).1).0
      ≡ (get_working_memory tenant_id key db).0
unfolding get_working_memory purge_expired_working_memory actions
get_working_memory-purge tenant_id key db =
    ap (λ found. ok (payload_or_null found))
      (select_one-delete memory_owner tenant_id (is_live key db.clock) (is_expired db.clock)
        (live-unexpired key db) db.working_memory)
