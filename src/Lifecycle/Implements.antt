-- ===== src/Lifecycle/Implements.antt =====
-- What it means that a workflow's row and its history stand for a state of the machine.
use ai_digital_office_os.Prelude.{String, ◌≡◌, refl, ◌⊎◌, inl, some}
use ai_digital_office_os.Schema.{Db, WorkflowRow}
use ai_digital_office_os.WorkflowEngine.History.{replay_state, ReplayedState}
use ai_digital_office_os.WorkflowEngine.Sequence.{IsGapless}
use ai_digital_office_os.WorkflowEngine.{workflow_of}
use ai_digital_office_os.Lifecycle.{Lifecycle, at, Step}

-- The workflow's row and its history, which is gap-free, stand for the state.
pub record Implements (tenant_id workflow_id : String) (l : Lifecycle) (db : Db) : Type 0 where
  pub row : WorkflowRow
  pub found : workflow_of tenant_id workflow_id db ≡ some row
  pub gapless : IsGapless tenant_id workflow_id db
  pub shows :
      let replayed = replay_state tenant_id workflow_id db in
      l ≡ at row.status replayed.definition replayed.completed_steps

-- The state that the database stands for is the old one, or one step from it.
abbrev pub Refines : String → String → Lifecycle → Db → Type 0
Refines tenant_id workflow_id l after =
    (m : Lifecycle) × ((m ≡ l) ⊎ Step l m) × Implements tenant_id workflow_id m after

module _ (tenant_id workflow_id : String) (db : Db) (row : WorkflowRow)
    (found : workflow_of tenant_id workflow_id db ≡ some row)
    (gapless : IsGapless tenant_id workflow_id db) where
  abbrev pub replayed : ReplayedState
  replayed = replay_state tenant_id workflow_id db

  abbrev pub shown : Lifecycle
  shown = at row.status replayed.definition replayed.completed_steps

  pub unchanged : (after : Db) → after ≡ db → Refines tenant_id workflow_id shown after
  unchanged after same =
      rw same
        (shown, inl refl, record { row = row; found = found; gapless = gapless; shows = refl })
