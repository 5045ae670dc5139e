-- ===== src/WorkingMemory.antt =====
-- services/memory-service/src/working-memory.ts: a cache whose entries expire at read time. Times to
-- live are in the units of the clock.
pub mod Purge
mod Tests
use ai_digital_office_os.Prelude.{
  ℕ, ◌+◌, String, Bool, true, false, ◌&&◌, Option, none, some, List, length, find, leb, ltb, ◌==◌,
  if◌then◌else◌,
}
use ai_digital_office_os.Json
use ai_digital_office_os.Json.{Json}
use ai_digital_office_os.Failure.{Result, ok, err, database_error, row_level_security}
use ai_digital_office_os.Schema.{Db, WorkingMemoryRow}
use ai_digital_office_os.Db.{
  Action, pure, gets, ◌>>=◌, ◌>>◌, modify, with_tenant_transaction, select, select_one, insert,
  update, delete, store,
}

pub record SetWorkingMemoryInput : Type 0 where
  pub cache_key : String
  pub task_id : Option String
  pub payload : Json
  pub ttl_seconds : ℕ

abbrev pub memory_owner : WorkingMemoryRow → Option String
memory_owner r = some r.tenant_id

abbrev pub has_cache_key : String → WorkingMemoryRow → Bool
has_cache_key key row = row.cache_key == key

abbrev pub memory_row : String → ℕ → SetWorkingMemoryInput → WorkingMemoryRow
memory_row tenant_id now input = record {
  cache_key = input.cache_key;
  tenant_id = tenant_id;
  task_id = input.task_id;
  payload = input.payload;
  expires_at = now + input.ttl_seconds;
}

abbrev pub refresh_row : ℕ → SetWorkingMemoryInput → WorkingMemoryRow → WorkingMemoryRow
refresh_row now input row = record row {
  payload = input.payload;
  expires_at = now + input.ttl_seconds;
  task_id = input.task_id;
}

-- ON CONFLICT (cache_key) DO UPDATE; the key is the whole table's, and a conflict with another
-- tenant's row is refused
unfoldable pub upsert_rows :
    String → ℕ → SetWorkingMemoryInput → List WorkingMemoryRow → Result (List WorkingMemoryRow)
upsert_rows client now input rows = elim (find (has_cache_key input.cache_key) rows) [
  | none ↦ insert memory_owner client (memory_row client now input) rows
  | some held ↦
      if held.tenant_id == client
      then update memory_owner client (has_cache_key input.cache_key) (refresh_row now input) rows
      else err (database_error row_level_security)
]

unfoldable pub set_working_memory : String → SetWorkingMemoryInput → Action (Unit {0})
unfolding store
set_working_memory tenant_id input = with_tenant_transaction tenant_id (λ client. λ db.
    store (upsert_rows client db.clock input db.working_memory)
      (λ rows d. record d { working_memory = rows }) db)

abbrev pub is_live : String → ℕ → WorkingMemoryRow → Bool
is_live key now row = row.cache_key == key && ltb now row.expires_at

-- `rows[0]?.payload ?? null`
abbrev pub payload_or_null : Option WorkingMemoryRow → Json
payload_or_null none = Json.null
payload_or_null (some row) = row.payload

unfoldable pub get_working_memory : String → String → Action Json
get_working_memory tenant_id key = with_tenant_transaction tenant_id (λ client. gets (λ db.
    payload_or_null (select_one memory_owner client (is_live key db.clock) db.working_memory)))

abbrev pub is_expired : ℕ → WorkingMemoryRow → Bool
is_expired now row = leb row.expires_at now

unfoldable pub purge_expired_working_memory : String → Action ℕ
purge_expired_working_memory tenant_id = with_tenant_transaction tenant_id (λ client. do
  now ← gets (λ db. db.clock)
  purged ← gets (λ db. length (select memory_owner client (is_expired now) db.working_memory))
  modify (λ db. record db {
    working_memory = delete memory_owner client (is_expired now) db.working_memory;
  })
  pure purged)
