-- ===== src/ControlPlane/Workflows/Transitions.antt =====
-- routes/workflows.ts against engine.ts: what a user's transition does to the workflow's row and its
-- history, and to the engine's next call.
use ai_digital_office_os.Prelude.{
  ℕ, ◌<◌, String, true, false, ◌≡◌, refl, ◌∙◌, ap, some, List, [], ◌∷◌, ◌++◌, any, arith, eq_refl,
}
use ai_digital_office_os.Failure.{ok, err}
use ai_digital_office_os.Schema.{
  Db, WorkflowRow, WorkflowStatus, WorkflowStep, running, paused, failed, moved, HistoryEvent,
}
use ai_digital_office_os.Db.{actions, select_one, insert}
use ai_digital_office_os.Db.Tables.{workflow_owner, insert_history}
use ai_digital_office_os.WorkflowEngine.History.{replay_state, replay_row}
use ai_digital_office_os.WorkflowEngine.ExecuteStep.{Deps}
use ai_digital_office_os.WorkflowEngine.Sequence.{
  appended, next_row, IsGapless, IsGapless-appended, replay_state-appended,
}
use ai_digital_office_os.WorkflowEngine.Steps.{update_workflows-found, run_next_step_stopped}
use ai_digital_office_os.WorkflowEngine.Progress.{IsReady, replay_state-history}
use ai_digital_office_os.WorkflowEngine.Termination.{
  pending, IsSettled, run_to_completion-terminates,
}
use ai_digital_office_os.WorkflowEngine.{
  workflow_of, is_workflow, run_next_step, did_not_run, not_running, WorkflowRunResult,
  run_to_completion,
}
use ai_digital_office_os.ControlPlane.Errors.{conflict}
use ai_digital_office_os.ControlPlane.Workflows.{
  append_history, require_workflow, same_status, move_row, transition, pause, retry,
}

append_history_lem :
    (tenant_id workflow_id : String) (event : HistoryEvent) (db : Db)
    → append_history tenant_id tenant_id workflow_id event db
      ≡ (ok tt, appended tenant_id workflow_id event db)
unfolding append_history insert_history insert actions
append_history_lem tenant_id workflow_id event db = ground (arith, eq_refl tenant_id)

module _ (tenant_id workflow_id : String) (db : Db) where
  module _ (from_statuses : List WorkflowStatus) (to_status : WorkflowStatus) (event_type : String)
      (wf : WorkflowRow) (found : workflow_of tenant_id workflow_id db ≡ some wf) where
    -- A transition from a status that it does not allow answers 409 and changes nothing.
    pub transition-conflict :
        any (same_status wf.status) from_statuses ≡ false
        → transition tenant_id tenant_id workflow_id from_statuses to_status event_type db
          ≡ (err conflict, db)
    unfolding transition require_workflow actions
    transition-conflict h = rw found (rw h refl)

    transition_lem :
        any (same_status wf.status) from_statuses ≡ true
        → (new : List WorkflowRow) × (transition tenant_id tenant_id workflow_id from_statuses
              to_status event_type db
            ≡ (
              ok (move_row to_status db.clock wf),
              appended tenant_id workflow_id
                  (moved event_type wf.status to_status)
                  (record db { workflows = new }),
            ))
          × (select_one workflow_owner tenant_id (is_workflow workflow_id) new
              ≡ some (move_row to_status db.clock wf))
    unfolding transition require_workflow actions
    transition_lem h =
        let (new, passed, changed) =
          update_workflows-found tenant_id workflow_id (move_row to_status db.clock) db wf
            (λ r. refl) (λ r. refl) found in
        (
          new,
          rw found (
              rw h (
                rw
                  (
                    passed,
                    append_history_lem tenant_id workflow_id (moved event_type wf.status to_status)
                        (record db { workflows = new }),
                  )
                  refl)),
          changed,
        )

    -- A transition from a status that it allows moves the workflow's row to the new status and appends
    -- one event with both statuses to its history, which stays gap-free and replays to the same
    -- definition, completed steps and results.
    pub transition_moves :
        any (same_status wf.status) from_statuses ≡ true
        → IsGapless tenant_id workflow_id db
        → let (r, after) =
            transition tenant_id tenant_id workflow_id from_statuses to_status event_type db in
          let replayed = replay_state tenant_id workflow_id after in
          let replayed₀ = replay_state tenant_id workflow_id db in
          (r ≡ ok (move_row to_status db.clock wf))
          × (workflow_of tenant_id workflow_id after ≡ some (move_row to_status db.clock wf))
          × (after.history
              ≡ db.history
                ++ next_row tenant_id workflow_id (moved event_type wf.status to_status) db ∷ [])
          × IsGapless tenant_id workflow_id after
          × (replayed.definition ≡ replayed₀.definition)
          × (replayed.completed_steps ≡ replayed₀.completed_steps)
          × (replayed.step_results ≡ replayed₀.step_results)
    transition_moves h gapless =
        let (new, outcome, changed) = transition_lem h in
        let event = moved event_type wf.status to_status in
        let moved_db : Db = record db { workflows = new } in
        let replayed =
          replay_state-appended tenant_id workflow_id event moved_db gapless
          ∙ ap (λ s. replay_row s (next_row tenant_id workflow_id event db))
              (replay_state-history tenant_id workflow_id moved_db db refl) in
        rw outcome (
          refl,
          changed,
          refl,
          IsGapless-appended tenant_id workflow_id event moved_db gapless,
          ap (λ s. s.definition) replayed,
          ap (λ s. s.completed_steps) replayed,
          ap (λ s. s.step_results) replayed,
        )

module _ (deps : Deps) (tenant_id workflow_id : String) (db : Db) (wf : WorkflowRow)
    (found : workflow_of tenant_id workflow_id db ≡ some wf) where
  -- After a pause of a RUNNING workflow is committed, the engine's next call for it runs no step and
  -- changes nothing.
  pub pause-run_next_step :
      wf.status ≡ running
      → let after = (pause tenant_id workflow_id db).1 in
        run_next_step deps tenant_id workflow_id after
        ≡ (ok (did_not_run paused (not_running paused)), after)
  unfolding pause actions
  pause-run_next_step h =
      let (new, outcome, changed) =
        transition_lem tenant_id workflow_id db (running ∷ []) paused "PAUSED" wf found
          (rw h refl) in
      rw outcome (run_next_step_stopped deps tenant_id workflow_id _ _ changed (λ e. cc))

  -- A retry of a FAILED workflow whose history is gap-free and holds a definition returns its row as
  -- RUNNING, and the registry has that row; the history replays to the definition, the completed
  -- steps and the results that it had, and is gap-free; and the engine then runs the workflow to
  -- COMPLETED, with every step completed in the history, or FAILED, within one round more than there
  -- are steps not yet completed.
  pub retry-run_to_completion :
      (steps : List WorkflowStep) (fuel : ℕ)
      → IsGapless tenant_id workflow_id db
      → wf.status ≡ failed
      → (replay_state tenant_id workflow_id db).definition ≡ some steps
      → pending steps (replay_state tenant_id workflow_id db).completed_steps < fuel
      → let after = (retry tenant_id workflow_id db).1 in
        let replayed = replay_state tenant_id workflow_id after in
        let replayed₀ = replay_state tenant_id workflow_id db in
        let (r, finished) = run_to_completion deps tenant_id workflow_id fuel after in
        (retry tenant_id workflow_id db ≡ (ok (move_row running db.clock wf), after))
        × (workflow_of tenant_id workflow_id after ≡ some (move_row running db.clock wf))
        × IsGapless tenant_id workflow_id after
        × (replayed.definition ≡ some steps)
        × (replayed.completed_steps ≡ replayed₀.completed_steps)
        × (replayed.step_results ≡ replayed₀.step_results)
        × (result : WorkflowRunResult) × (r ≡ ok (some result))
        × IsSettled tenant_id workflow_id steps result finished
  unfolding retry actions
  retry-run_to_completion steps fuel gapless h defined enough =
      let allowed : any (same_status wf.status) (failed ∷ []) ≡ true = rw h refl in
      let (new, outcome, _) =
        transition_lem tenant_id workflow_id db (failed ∷ []) running "RETRY" wf found allowed in
      let (answered, row, _, kept, definition, completed_steps, results) =
        transition_moves tenant_id workflow_id db (failed ∷ []) running "RETRY" wf found allowed
          gapless in
      let step = transition tenant_id tenant_id workflow_id (failed ∷ []) running "RETRY" in
      let ready : IsReady tenant_id workflow_id steps (move_row running db.clock wf) (step db).1 =
        record { found = row; is_running = refl; gapless = kept; defined = definition ∙ defined } in
      let committed : retry tenant_id workflow_id db ≡ step db = rw outcome refl in
      let (result, ended, settled) =
        run_to_completion-terminates deps tenant_id workflow_id steps fuel (step db).1 _ ready
          (rw completed_steps enough) in
      rw committed (
        ap (λ r. (r, (step db).1)) answered,
        row,
        kept,
        definition ∙ defined,
        completed_steps,
        results,
        result,
        ended,
        settled,
      )
