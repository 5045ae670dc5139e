-- ===== src/WorkingMemory/Tests.antt =====
-- A cache with a live and an expired entry.
use ai_digital_office_os.Prelude.{ℕ, String, ◌≡◌, none, [], ◌∷◌}
use ai_digital_office_os.Json.{Json}
use ai_digital_office_os.Schema.{Db, empty_db, WorkingMemoryRow}
use ai_digital_office_os.WorkingMemory.{get_working_memory, purge_expired_working_memory}
use ai_digital_office_os.WorkingMemory.Purge.{get_working_memory-purge}

abbrev entry : String → ℕ → WorkingMemoryRow
entry key expires_at = record {
  cache_key = key;
  tenant_id = "t";
  task_id = none;
  payload = Json.str key;
  expires_at = expires_at;
}

abbrev cache : Db
cache = record empty_db { working_memory = entry "old" 3 ∷ entry "new" 9 ∷ []; clock = 5 }

get_working_memory-purge_example :
    (get_working_memory "t" "new" (purge_expired_working_memory "t" cache).1).0
    ≡ (get_working_memory "t" "new" cache).0
get_working_memory-purge_example = get_working_memory-purge "t" "new" cache
