-- ===== src/WorkflowEngine/Sequence.antt =====
-- history.ts: the numbering of a workflow's history, and what replaying it gives.
use ai_digital_office_os.Prelude.{
  ℕ, suc, ◌+◌, max, String, ◌≡◌, refl, List, [], ◌∷◌, ◌++◌, length, filter-append, arith, eq_refl,
  ◌&&◌,
}
use ai_digital_office_os.Failure.{ok}
use ai_digital_office_os.Schema.{Db, HistoryRow, HistoryEvent}
use ai_digital_office_os.Db.{actions, insert, select, visible}
use ai_digital_office_os.Db.Tables.{history_owner, insert_history}
use ai_digital_office_os.WorkflowEngine.History.{
  log_of, max_sequence_no, event_row, append_event, insert_by_sequence_no, order_by_sequence_no,
  replay_rows, replay_row, replay_state, initial_state, ReplayedState, is_event_of,
}

-- the rows are numbered n + 1, n + 2, … in the order in which they were written
abbrev pub IsNumbered : ℕ → List HistoryRow → Type 0
IsNumbered n [] = Unit
IsNumbered n (row ∷ rows) = (row.sequence_no ≡ suc n) × IsNumbered (suc n) rows

-- the history of the workflow, as the tenant sees it, is numbered 1, 2, 3, …
abbrev pub IsGapless : String → String → Db → Type 0
IsGapless tenant_id workflow_id db = IsNumbered 0 (log_of tenant_id workflow_id db)

max_numbered :
    (n : ℕ) (rows : List HistoryRow)
    → IsNumbered n rows
    → max n (max_sequence_no rows) ≡ n + length rows
unfolding max_sequence_no
max_numbered n [] h = omega arith
max_numbered n (row ∷ rows) (h, hs) =
    let later = max_numbered (suc n) rows hs in omega (arith, h, later)

IsNumbered-append :
    (n : ℕ) (rows : List HistoryRow) (row : HistoryRow)
    → IsNumbered n rows
    → row.sequence_no ≡ suc (n + length rows)
    → IsNumbered n (rows ++ row ∷ [])
IsNumbered-append n [] row h e = (omega (arith, e), tt)
IsNumbered-append n (r ∷ rows) row (h, hs) e =
    (h, IsNumbered-append (suc n) rows row hs (omega (arith, e)))

insert_by_numbered :
    (row : HistoryRow) (rows : List HistoryRow)
    → IsNumbered row.sequence_no rows
    → insert_by_sequence_no row rows ≡ row ∷ rows
unfolding insert_by_sequence_no
insert_by_numbered row [] h = refl
insert_by_numbered row (first ∷ rest) (h, hs) = ground arith

order_by_numbered :
    (n : ℕ) (rows : List HistoryRow) → IsNumbered n rows → order_by_sequence_no rows ≡ rows
unfolding order_by_sequence_no
order_by_numbered n [] h = refl
order_by_numbered n (row ∷ rows) (h, hs) =
    rw (order_by_numbered (suc n) rows hs) (insert_by_numbered row rows (rw h hs))

replay_rows-append :
    (state : ReplayedState) (rows : List HistoryRow) (row : HistoryRow)
    → replay_rows state (rows ++ row ∷ []) ≡ replay_row (replay_rows state rows) row
replay_rows-append state [] row = refl
replay_rows-append state (r ∷ rows) row = replay_rows-append (replay_row state r) rows row

-- the row that is appended
abbrev pub next_row : String → String → HistoryEvent → Db → HistoryRow
next_row tenant_id workflow_id event db =
    event_row tenant_id workflow_id (max_sequence_no (log_of tenant_id workflow_id db) + 1) event

-- the database with the event appended
abbrev pub appended : String → String → HistoryEvent → Db → Db
appended tenant_id workflow_id event db = record db {
  history = db.history ++ next_row tenant_id workflow_id event db ∷ [];
}

module _ (tenant_id workflow_id : String) (event : HistoryEvent) (db : Db) where
  pub append_event_lem :
      append_event tenant_id tenant_id workflow_id event db
      ≡ (ok tt, appended tenant_id workflow_id event db)
  unfolding append_event insert_history insert actions
  append_event_lem = ground (arith, eq_refl tenant_id)

  pub log_of-appended :
      log_of tenant_id workflow_id (appended tenant_id workflow_id event db)
      ≡ log_of tenant_id workflow_id db ++ next_row tenant_id workflow_id event db ∷ []
  unfolding select
  log_of-appended =
      let split =
        filter-append (λ r. visible tenant_id (history_owner r) && is_event_of workflow_id r)
          db.history (next_row tenant_id workflow_id event db ∷ []) in
      rw (split, eq_refl tenant_id, eq_refl workflow_id) refl

  -- the appended history is gap-free
  pub IsGapless-appended :
      IsGapless tenant_id workflow_id db
      → IsGapless tenant_id workflow_id (appended tenant_id workflow_id event db)
  IsGapless-appended h = rw log_of-appended (
      IsNumbered-append 0 (log_of tenant_id workflow_id db) _ h
        (omega (arith, max_numbered 0 (log_of tenant_id workflow_id db) h)))

  -- what the appended history replays to
  pub replay_state-appended :
      IsGapless tenant_id workflow_id db
      → replay_state tenant_id workflow_id (appended tenant_id workflow_id event db)
        ≡ replay_row
            (replay_state tenant_id workflow_id db)
            (next_row tenant_id workflow_id event db)
  unfolding replay_state
  replay_state-appended h =
      rw (order_by_numbered 0 _ (IsGapless-appended h), order_by_numbered 0 _ h, log_of-appended)
        (replay_rows-append initial_state (log_of tenant_id workflow_id db) _)
