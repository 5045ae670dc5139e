-- ===== src/Lifecycle.antt =====
-- What a workflow promises, apart from tables, events and transactions: a state machine over the
-- statuses of services/workflow-engine/src/types.ts, the definition and the steps completed. The
-- moves are those of services/control-plane-api/src/routes/workflows.ts, the other steps those of
-- services/workflow-engine/src/engine.ts. A command is one call that a client may make.
pub mod Machine
pub mod Implements
pub mod Engine
pub mod Routes
pub mod Refinement
mod Tests
use ai_digital_office_os.Prelude.{String, ◌≡◌, Option, none, some, List, [], ◌∷◌, ◌++◌}
use ai_digital_office_os.Schema.{
  Db, WorkflowStatus, running, paused, completed, failed, cancelled, escalated, WorkflowStep,
}
use ai_digital_office_os.WorkflowEngine.ExecuteStep.{Deps}
use ai_digital_office_os.WorkflowEngine.{step_id_of, next_step, run_next_step}
use ai_digital_office_os.ControlPlane.Workflows.{pause, resume, cancel, retry, escalate}

-- the status, the definition and the steps completed
pub data Lifecycle : Type 0 where
  at : WorkflowStatus → Option (List WorkflowStep) → List String → Lifecycle

-- the moves that users make
pub data Moves : WorkflowStatus → WorkflowStatus → Type 0 where
  pauses : Moves running paused
  resumes : Moves paused running
  retries : Moves failed running
  cancels_running : Moves running cancelled
  cancels_paused : Moves paused cancelled
  cancels_failed : Moves failed cancelled
  cancels_escalated : Moves escalated cancelled
  escalates_running : Moves running escalated
  escalates_paused : Moves paused escalated
  escalates_failed : Moves failed escalated

pub data Step : Lifecycle → Lifecycle → Type 0 where
  moves :
      {from to : WorkflowStatus} {definition : Option (List WorkflowStep)} {ids : List String}
      → Moves from to
      → Step (at from definition ids) (at to definition ids)
  completes_step :
      {steps : List WorkflowStep} {ids : List String} {step : WorkflowStep}
      → next_step steps ids ≡ some step
      → Step (at running (some steps) ids) (at running (some steps) (ids ++ step_id_of step ∷ []))
  fails_step :
      {steps : List WorkflowStep} {ids : List String} {step : WorkflowStep}
      → next_step steps ids ≡ some step
      → Step (at running (some steps) ids) (at failed (some steps) ids)
  finishes :
      {steps : List WorkflowStep} {ids : List String}
      → next_step steps ids ≡ none
      → Step (at running (some steps) ids) (at completed (some steps) ids)

-- any number of steps
pub data Reaches : Lifecycle → Lifecycle → Type 0 where
  stays : {l : Lifecycle} → Reaches l l
  then : {l m n : Lifecycle} → Step l m → Reaches m n → Reaches l n

pub data Command : Type 0 where
  run_next pause_it resume_it cancel_it retry_it : Command
  escalate_it : (request_id : String) → Command

-- what the call leaves, whether it returns or throws
unfoldable pub perform : Deps → String → String → Command → Db → Db
perform deps tenant_id workflow_id run_next db = (run_next_step deps tenant_id workflow_id db).1
perform deps tenant_id workflow_id pause_it db = (pause tenant_id workflow_id db).1
perform deps tenant_id workflow_id resume_it db = (resume tenant_id workflow_id db).1
perform deps tenant_id workflow_id cancel_it db = (cancel tenant_id workflow_id db).1
perform deps tenant_id workflow_id retry_it db = (retry tenant_id workflow_id db).1
perform deps tenant_id workflow_id (escalate_it request_id) db =
    (escalate tenant_id workflow_id request_id db).1

unfoldable pub perform_all : Deps → String → String → List Command → Db → Db
perform_all deps tenant_id workflow_id [] db = db
perform_all deps tenant_id workflow_id (command ∷ commands) db =
    perform_all deps tenant_id workflow_id commands (perform deps tenant_id workflow_id command db)
