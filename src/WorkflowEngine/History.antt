-- ===== src/WorkflowEngine/History.antt =====
-- services/workflow-engine/src/history.ts: appending to a workflow's history and replaying it.
use ai_digital_office_os.Prelude.{
  ℕ, ◌+◌, max, String, Bool, Option, none, some, List, [], ◌∷◌, ◌++◌, ltb, ◌==◌, if◌then◌else◌,
}
use ai_digital_office_os.Json.{Json}
use ai_digital_office_os.Schema.{
  Db, HistoryRow, HistoryEvent, WorkflowStep, started, step_completed,
}
use ai_digital_office_os.Db.{Action, gets, ◌>>=◌, select}
use ai_digital_office_os.Db.Tables.{history_owner, insert_history}

pub record ReplayedState : Type 0 where
  pub definition : Option (List WorkflowStep)
  pub completed_steps : List String
  pub step_results : List (String × Json)
  pub last_sequence_no : ℕ

abbrev pub initial_state : ReplayedState
initial_state = record {
  definition = none;
  completed_steps = [];
  step_results = [];
  last_sequence_no = 0;
}

abbrev pub is_event_of : String → HistoryRow → Bool
is_event_of workflow_id row = row.workflow_id == workflow_id

-- the rows of a workflow's history that the tenant sees
abbrev pub log_of : String → String → Db → List HistoryRow
log_of client workflow_id db = select history_owner client (is_event_of workflow_id) db.history

-- COALESCE(MAX(sequence_no), 0)
unfoldable pub max_sequence_no : List HistoryRow → ℕ
max_sequence_no [] = 0
max_sequence_no (row ∷ rows) = max row.sequence_no (max_sequence_no rows)

abbrev pub event_row : String → String → ℕ → HistoryEvent → HistoryRow
event_row tenant_id workflow_id next event = record {
  tenant_id = tenant_id;
  workflow_id = workflow_id;
  sequence_no = next;
  event = event;
}

unfoldable pub append_event : String → String → String → HistoryEvent → Action (Unit {0})
append_event client tenant_id workflow_id event = do
  highest ← gets (λ db. max_sequence_no (log_of client workflow_id db))
  insert_history client (event_row tenant_id workflow_id (highest + 1) event)

-- ORDER BY sequence_no ASC
unfoldable pub insert_by_sequence_no : HistoryRow → List HistoryRow → List HistoryRow
insert_by_sequence_no row [] = row ∷ []
insert_by_sequence_no row (first ∷ rest) =
    let later = insert_by_sequence_no row rest in
    if ltb first.sequence_no row.sequence_no then first ∷ later else row ∷ first ∷ rest

unfoldable pub order_by_sequence_no : List HistoryRow → List HistoryRow
unfolding insert_by_sequence_no
order_by_sequence_no [] = []
order_by_sequence_no (row ∷ rows) = insert_by_sequence_no row (order_by_sequence_no rows)

-- `stepResults[stepId] = result`
unfoldable pub set_result : String → Json → List (String × Json) → List (String × Json)
set_result step_id result results = (step_id, result) ∷ results

-- `stepResults[stepId]`
unfoldable pub result_of : String → List (String × Json) → Option Json
result_of step_id [] = none
result_of step_id ((k, v) ∷ results) = if k == step_id then some v else result_of step_id results

abbrev pub apply_event : HistoryEvent → ReplayedState → ReplayedState
apply_event (started definition) state = record state { definition = definition }
apply_event (step_completed step_id result) state = record state {
  completed_steps = state.completed_steps ++ step_id ∷ [];
  step_results = set_result step_id result state.step_results;
}
apply_event _ state = state

abbrev pub replay_row : ReplayedState → HistoryRow → ReplayedState
replay_row state row = apply_event row.event (record state { last_sequence_no = row.sequence_no })

abbrev pub replay_rows : ReplayedState → List HistoryRow → ReplayedState
replay_rows state [] = state
replay_rows state (row ∷ rows) = replay_rows (replay_row state row) rows

unfoldable pub replay_state : String → String → Db → ReplayedState
unfolding order_by_sequence_no
replay_state client workflow_id db =
    replay_rows initial_state (order_by_sequence_no (log_of client workflow_id db))
