-- ===== src/WorkflowEngine/Progress.antt =====
-- engine.ts: a completed step stays completed in the replayed history.
use ai_digital_office_os.Prelude.{
  String, ◌≡◌, refl, ap, ◌∙◌, some, List, [], ◌∷◌, ◌++◌, arith, eq_refl,
}
use ai_digital_office_os.Json.{Json}
use ai_digital_office_os.Failure.{Result, ok}
use ai_digital_office_os.Schema.{
  Db, WorkflowRow, WorkflowStep, running, step_started, step_completed, HistoryEvent,
}
use ai_digital_office_os.WorkflowEngine.History.{replay_state, result_of, set_result, replay_row}
use ai_digital_office_os.WorkflowEngine.ExecuteStep.{Deps, execute_step}
use ai_digital_office_os.WorkflowEngine.Sequence.{
  appended, IsGapless, IsGapless-appended, replay_state-appended, next_row,
}
use ai_digital_office_os.WorkflowEngine.Keeps.{execute_step-Keeps}
use ai_digital_office_os.WorkflowEngine.Steps.{completed_result, run_next_step_completed}
use ai_digital_office_os.WorkflowEngine.{
  step_id_of, workflow_of, next_step, run_next_step, new_state,
}

-- The workflow is RUNNING, with these steps and those completed, and its history is gap-free.
pub record IsReady (tenant_id workflow_id : String) (steps : List WorkflowStep) (wf : WorkflowRow)
    (db : Db) : Type 0 where
  pub found : workflow_of tenant_id workflow_id db ≡ some wf
  pub is_running : wf.status ≡ running
  pub gapless : IsGapless tenant_id workflow_id db
  pub defined : (replay_state tenant_id workflow_id db).definition ≡ some steps

module _ (tenant_id workflow_id : String) where
  -- only the history counts
  pub replay_state-history :
      (a b : Db)
      → a.history ≡ b.history
      → replay_state tenant_id workflow_id a ≡ replay_state tenant_id workflow_id b
  unfolding replay_state
  replay_state-history a b h = rw h refl

  pub IsGapless-history :
      (a b : Db)
      → a.history ≡ b.history
      → IsGapless tenant_id workflow_id b
      → IsGapless tenant_id workflow_id a
  IsGapless-history a b h g = rw h g

module _ (deps : Deps) (tenant_id workflow_id : String) (db : Db) (wf : WorkflowRow)
    (steps : List WorkflowStep) (ready : IsReady tenant_id workflow_id steps wf db)
    (step : WorkflowStep)
    (next : next_step steps (replay_state tenant_id workflow_id db).completed_steps
      ≡ some step) where
  -- the state in which the step runs
  abbrev pub before : Db
  before = appended tenant_id workflow_id (step_started (step_id_of step)) db

  -- what the step returns
  abbrev pub ran : Result Json × Db
  ran = execute_step deps tenant_id step (replay_state tenant_id workflow_id db).step_results before

  pub ran-view : (ran.1.workflows ≡ db.workflows) × (ran.1.history ≡ before.history)
  ran-view =
      let kept = (execute_step-Keeps deps tenant_id step _).at before in
      (ap (λ v. v.0) kept, ap (λ v. v.1) kept)

  ran-IsGapless : IsGapless tenant_id workflow_id ran.1
  ran-IsGapless =
      IsGapless-history tenant_id workflow_id ran.1 before ran-view.1
        (IsGapless-appended tenant_id workflow_id _ db ready.gapless)

  ran-replay :
      replay_state tenant_id workflow_id ran.1
      ≡ replay_row
          (replay_state tenant_id workflow_id db)
          (next_row tenant_id workflow_id (step_started (step_id_of step)) db)
  ran-replay =
      replay_state-history tenant_id workflow_id ran.1 before ran-view.1
      ∙ replay_state-appended tenant_id workflow_id _ db ready.gapless

  module _ (event : HistoryEvent) (new : List WorkflowRow) where
    -- the state after the last transaction, which appends the event
    abbrev pub end : Db
    end = record (appended tenant_id workflow_id event ran.1) { workflows = new }

    pub end-IsGapless : IsGapless tenant_id workflow_id end
    end-IsGapless =
        IsGapless-history tenant_id workflow_id end (appended tenant_id workflow_id event ran.1)
          refl (IsGapless-appended tenant_id workflow_id event ran.1 ran-IsGapless)

    pub end-replay :
        replay_state tenant_id workflow_id end
        ≡ replay_row
            (replay_row
              (replay_state tenant_id workflow_id db)
              (next_row tenant_id workflow_id (step_started (step_id_of step)) db))
            (next_row tenant_id workflow_id event ran.1)
    end-replay =
        replay_state-history tenant_id workflow_id end (appended tenant_id workflow_id event ran.1)
          refl
        ∙ (replay_state-appended tenant_id workflow_id event ran.1 ran-IsGapless
            ∙ ap (λ s. replay_row s (next_row tenant_id workflow_id event ran.1)) ran-replay)

  -- A step that runs to a result is reported completed, and from then on the history replays to the
  -- same definition, to the completed steps with this one after them and to its result under its
  -- name; the history stays gap-free, the workflow stays RUNNING, and its row's cached state holds
  -- the completed steps that the history replays to.
  pub run_next_step_recorded :
      (result : Json)
      → ran.0 ≡ ok result
      → let after = (run_next_step deps tenant_id workflow_id db).1 in
        let replayed = replay_state tenant_id workflow_id after in
        let wf' : WorkflowRow = record wf {
          current_state = some (new_state (replay_state tenant_id workflow_id db) step result);
        } in
        ((run_next_step deps tenant_id workflow_id db).0 ≡ ok (completed_result step))
        × IsReady tenant_id workflow_id steps wf' after
        × (replayed.completed_steps
            ≡ (replay_state tenant_id workflow_id db).completed_steps ++ step_id_of step ∷ [])
        × (result_of (step_id_of step) replayed.step_results ≡ some result)
  unfolding result_of set_result
  run_next_step_recorded result h =
      let (new, outcome, changed) =
        run_next_step_completed deps tenant_id workflow_id db wf steps ready.found ready.is_running
          ready.defined step next ran.1 ran-view.0 result (ground (arith, h)) in
      let event = step_completed (step_id_of step) result in
      let replayed = end-replay event new in
      rw outcome (
        refl,
        record {
          found = changed;
          is_running = ready.is_running;
          gapless = end-IsGapless event new;
          defined = rw replayed ready.defined;
        },
        rw replayed refl,
        rw (replayed, eq_refl (step_id_of step)) refl,
      )
