-- ===== src/WorkflowEngine/Steps.antt =====
-- runNextStep of engine.ts: what one call does, for each way that it can go.
use ai_digital_office_os.Prelude.{
  String, true, ◌≡◌, refl, ◌∙◌, Option, some, none, List, arith, ◌≢◌,
}
use ai_digital_office_os.Json.{Json}
use ai_digital_office_os.Failure.{Failure, ok, err}
use ai_digital_office_os.Schema.{
  Db, WorkflowRow, WorkflowStep, WorkflowStatus, running, paused, cancelled, escalated, completed,
  failed, step_started, step_completed, step_failed, all_completed,
}
use ai_digital_office_os.Db.{actions, select_one, store}
use ai_digital_office_os.Db.Rows.{select_one-update, update_passes}
use ai_digital_office_os.Db.Tables.{workflow_owner, update_workflows}
use ai_digital_office_os.WorkflowEngine.History.{ReplayedState, replay_state}
use ai_digital_office_os.WorkflowEngine.ExecuteStep.{Deps, execute_step}
use ai_digital_office_os.WorkflowEngine.Sequence.{appended, append_event_lem}
use ai_digital_office_os.WorkflowEngine.{
  StepRunResult, step_id_of, is_workflow, workflow_of, read_state, next_step, did_not_run,
  set_status, finish_workflow, record_failure, record_completion, run_step, run_pending, dispatch,
  run_next_step, not_found, not_running, malformed_history, all_steps_completed, step_error, done,
  error, new_state,
}

-- what a step that ran returns
abbrev pub completed_result : WorkflowStep → StepRunResult
completed_result step = record {
  ran_step = true;
  step_id = some (step_id_of step);
  step_status = some done;
  workflow_status = running;
  reason = none;
}

abbrev pub failed_result : WorkflowStep → Failure → StepRunResult
failed_result step e = record {
  ran_step = true;
  step_id = some (step_id_of step);
  step_status = some error;
  workflow_status = failed;
  reason = some (step_error e);
}

-- an update of the workflow's row passes, and it is then that row's
pub update_workflows-found :
    (tenant_id workflow_id : String) (f : WorkflowRow → WorkflowRow) (db : Db) (wf : WorkflowRow)
    → ((r : WorkflowRow) → (f r).tenant_id ≡ r.tenant_id)
    → ((r : WorkflowRow) → (f r).workflow_id ≡ r.workflow_id)
    → workflow_of tenant_id workflow_id db ≡ some wf
    → (new : List WorkflowRow) × (update_workflows tenant_id (is_workflow workflow_id) f db
        ≡ (ok tt, record db { workflows = new }))
      × (select_one workflow_owner tenant_id (is_workflow workflow_id) new ≡ some (f wf))
unfolding update_workflows store
update_workflows-found tenant_id workflow_id f db wf keeps same found =
    let (new, passed) =
      update_passes workflow_owner tenant_id (is_workflow workflow_id) f
        (λ r seen. rw (keeps r) seen) db.workflows in
    (
      new,
      rw passed refl,
      select_one-update workflow_owner tenant_id (is_workflow workflow_id) f (λ r h. rw (same r) h)
          db.workflows new wf passed found,
    )

module _ (deps : Deps) (tenant_id workflow_id : String) (db : Db) where
  -- A call for a workflow that the tenant does not see throws NOT_FOUND and changes nothing.
  pub run_next_step_missing :
      workflow_of tenant_id workflow_id db ≡ none
      → run_next_step deps tenant_id workflow_id db ≡ (err not_found, db)
  unfolding run_next_step read_state actions
  run_next_step_missing h = ground arith

  -- what the first transaction reads
  run_next_step-dispatch :
      (wf : WorkflowRow)
      → workflow_of tenant_id workflow_id db ≡ some wf
      → let replayed = replay_state tenant_id workflow_id db in
        run_next_step deps tenant_id workflow_id db
        ≡ dispatch deps tenant_id workflow_id wf.status replayed replayed.definition db
  unfolding run_next_step read_state actions
  run_next_step-dispatch wf h = rw h refl

  dispatch_stopped :
      (status : WorkflowStatus) (replayed : ReplayedState) (definition : Option (List WorkflowStep))
      → status ≢ running
      → dispatch deps tenant_id workflow_id status replayed definition db
        ≡ (ok (did_not_run status (not_running status)), db)
  unfolding dispatch actions
  dispatch_stopped running replayed definition h = absurd (h refl)
  dispatch_stopped paused replayed definition h = refl
  dispatch_stopped completed replayed definition h = refl
  dispatch_stopped failed replayed definition h = refl
  dispatch_stopped cancelled replayed definition h = refl
  dispatch_stopped escalated replayed definition h = refl

  -- A call for a workflow that is not RUNNING runs no step, reports the status and changes nothing.
  pub run_next_step_stopped :
      (wf : WorkflowRow)
      → workflow_of tenant_id workflow_id db ≡ some wf
      → wf.status ≢ running
      → run_next_step deps tenant_id workflow_id db
        ≡ (ok (did_not_run wf.status (not_running wf.status)), db)
  run_next_step_stopped wf h s = run_next_step-dispatch wf h ∙ dispatch_stopped wf.status _ _ s

  -- A RUNNING workflow whose history holds no definition runs no step, and nothing changes.
  pub run_next_step_malformed :
      (wf : WorkflowRow)
      → workflow_of tenant_id workflow_id db ≡ some wf
      → wf.status ≡ running
      → (replay_state tenant_id workflow_id db).definition ≡ none
      → run_next_step deps tenant_id workflow_id db
        ≡ (ok (did_not_run running malformed_history), db)
  unfolding dispatch actions
  run_next_step_malformed wf h is_running missing =
      run_next_step-dispatch wf h ∙ rw (is_running, missing) refl

  module _ (wf : WorkflowRow) (steps : List WorkflowStep)
      (found : workflow_of tenant_id workflow_id db ≡ some wf) (is_running : wf.status ≡ running)
      (defined : (replay_state tenant_id workflow_id db).definition ≡ some steps) where
    -- a running workflow with a definition goes on to its next step
    run_next_step-run_pending :
        let replayed = replay_state tenant_id workflow_id db in
        run_next_step deps tenant_id workflow_id db
        ≡ run_pending deps tenant_id workflow_id replayed
            (next_step steps replayed.completed_steps)
            db
    unfolding dispatch
    run_next_step-run_pending = run_next_step-dispatch wf found ∙ rw (is_running, defined) refl

    -- A RUNNING workflow whose steps are all completed becomes COMPLETED, which its history records.
    pub run_next_step_finished :
        next_step steps (replay_state tenant_id workflow_id db).completed_steps ≡ none
        → (new : List WorkflowRow) × (run_next_step deps tenant_id workflow_id db ≡ (
          ok (did_not_run completed all_steps_completed),
          appended tenant_id workflow_id all_completed (record db { workflows = new }),
        ))
          × (select_one workflow_owner tenant_id (is_workflow workflow_id) new
              ≡ some (set_status completed db.clock wf))
    unfolding run_pending finish_workflow actions
    run_next_step_finished last =
        let (new, passed, after) =
          update_workflows-found tenant_id workflow_id (set_status completed db.clock) db wf
            (λ r. refl) (λ r. refl) found in
        (
          new,
          run_next_step-run_pending
              ∙ rw
                  (
                    last,
                    passed,
                    append_event_lem tenant_id workflow_id all_completed
                        (record db { workflows = new }),
                  )
                  refl,
          after,
        )

    module _ (step : WorkflowStep)
        (next : next_step steps (replay_state tenant_id workflow_id db).completed_steps ≡ some step)
        (after : Db) (kept : after.workflows ≡ db.workflows) where
      found_after : workflow_of tenant_id workflow_id after ≡ some wf
      found_after = rw kept found

      -- the step ran to a result
      pub run_next_step_completed :
          (result : Json)
          → execute_step deps tenant_id step
              (replay_state tenant_id workflow_id db).step_results
              (appended tenant_id workflow_id (step_started (step_id_of step)) db)
            ≡ (ok result, after)
          → (new : List WorkflowRow) × (run_next_step deps tenant_id workflow_id db ≡ (
            ok (completed_result step),
            record (appended tenant_id workflow_id
                (step_completed (step_id_of step) result)
                after) { workflows = new },
          ))
            × (select_one workflow_owner tenant_id (is_workflow workflow_id) new
                ≡ some (record wf {
                  current_state =
                      some (new_state (replay_state tenant_id workflow_id db) step result);
                }))
      unfolding run_pending run_step record_completion actions
      run_next_step_completed result ran =
          let event = step_completed (step_id_of step) result in
          let (new, passed, changed) =
            update_workflows-found tenant_id workflow_id
              (λ row. record row {
                current_state =
                    some (new_state (replay_state tenant_id workflow_id db) step result);
              })
              (appended tenant_id workflow_id event after) wf (λ r. refl) (λ r. refl) found_after in
          (
            new,
            run_next_step-run_pending
                ∙ rw
                    (
                      next,
                      append_event_lem tenant_id workflow_id (step_started (step_id_of step)) db,
                      ran,
                      append_event_lem tenant_id workflow_id event after,
                      passed,
                    )
                    refl,
            changed,
          )

      -- the step threw
      pub run_next_step_failed :
          (e : Failure)
          → execute_step deps tenant_id step
              (replay_state tenant_id workflow_id db).step_results
              (appended tenant_id workflow_id (step_started (step_id_of step)) db)
            ≡ (err e, after)
          → (new : List WorkflowRow) × (run_next_step deps tenant_id workflow_id db ≡ (
            ok (failed_result step e),
            record (appended tenant_id workflow_id (step_failed (step_id_of step) e) after) {
              workflows = new;
            },
          ))
            × (select_one workflow_owner tenant_id (is_workflow workflow_id) new
                ≡ some (set_status failed after.clock wf))
      unfolding run_pending run_step record_failure actions
      run_next_step_failed e ran =
          let event = step_failed (step_id_of step) e in
          let (new, passed, changed) =
            update_workflows-found tenant_id workflow_id (set_status failed after.clock)
              (appended tenant_id workflow_id event after) wf (λ r. refl) (λ r. refl) found_after in
          (
            new,
            run_next_step-run_pending
                ∙ rw
                    (
                      next,
                      append_event_lem tenant_id workflow_id (step_started (step_id_of step)) db,
                      ran,
                      append_event_lem tenant_id workflow_id event after,
                      passed,
                    )
                    refl,
            changed,
          )
