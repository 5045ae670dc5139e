-- ===== src/Lifecycle/Engine.antt =====
-- engine.ts: a call of the engine makes a step of the machine, or none.
use ai_digital_office_os.Prelude.{
  String, ◌≡◌, ◌≢◌, refl, ap, ◌⊎◌, inl, inr, none, some, List, [], ◌∷◌, ◌++◌, arith, Option-cases,
}
use ai_digital_office_os.Failure.{ok, err, Result-cases}
use ai_digital_office_os.Schema.{
  Db, WorkflowRow, WorkflowStatus, running, paused, completed, failed, cancelled, escalated,
  WorkflowStep, all_completed, step_failed,
}
use ai_digital_office_os.WorkflowEngine.ExecuteStep.{Deps}
use ai_digital_office_os.WorkflowEngine.History.{replay_state, ReplayedState}
use ai_digital_office_os.WorkflowEngine.Sequence.{
  IsGapless, IsGapless-appended, replay_state-appended,
}
use ai_digital_office_os.WorkflowEngine.Steps.{
  run_next_step_stopped, run_next_step_finished, run_next_step_failed, run_next_step_malformed,
}
use ai_digital_office_os.WorkflowEngine.Progress.{
  IsReady, ran, ran-view, end-IsGapless, end-replay, run_next_step_recorded, replay_state-history,
}
use ai_digital_office_os.WorkflowEngine.{step_id_of, workflow_of, next_step, run_next_step}
use ai_digital_office_os.Lifecycle.{Lifecycle, at, completes_step, fails_step, finishes}
use ai_digital_office_os.Lifecycle.Implements.{Refines, unchanged}

running-cases : (status : WorkflowStatus) → (status ≡ running) ⊎ (status ≢ running)
running-cases running = inl refl
running-cases paused = inr (λ e. cc)
running-cases completed = inr (λ e. cc)
running-cases failed = inr (λ e. cc)
running-cases cancelled = inr (λ e. cc)
running-cases escalated = inr (λ e. cc)

module _ (tenant_id workflow_id : String) (db : Db) (row : WorkflowRow)
    (found : workflow_of tenant_id workflow_id db ≡ some row)
    (gapless : IsGapless tenant_id workflow_id db) where
  abbrev replayed : ReplayedState
  replayed = replay_state tenant_id workflow_id db

  abbrev shown : Lifecycle
  shown = at row.status replayed.definition replayed.completed_steps

  module _ (deps : Deps) (steps : List WorkflowStep) (is_running : row.status ≡ running)
      (defined : replayed.definition ≡ some steps) where
    abbrev ready : IsReady tenant_id workflow_id steps row db
    ready = record { found = found; is_running = is_running; gapless = gapless; defined = defined }

    from_running : shown ≡ at running (some steps) replayed.completed_steps
    from_running = rw (is_running, defined) refl

    run_next_step-finishes :
        next_step steps replayed.completed_steps ≡ none
        → Refines tenant_id workflow_id shown (run_next_step deps tenant_id workflow_id db).1
    run_next_step-finishes last =
        let (new, outcome, changed) =
          run_next_step_finished deps tenant_id workflow_id db row steps found is_running defined
            last in
        let before : Db = record db { workflows = new } in
        let replay = replay_state-appended tenant_id workflow_id all_completed before gapless in
        let same = replay_state-history tenant_id workflow_id before db refl in
        rw (outcome, from_running)
          (
            at completed (some steps) replayed.completed_steps,
            inr (finishes last),
            record {
              row = _;
              found = changed;
              gapless = IsGapless-appended tenant_id workflow_id all_completed before gapless;
              shows = rw (replay, same, defined) refl;
            },
          )

    module _ (step : WorkflowStep)
        (next : next_step steps replayed.completed_steps ≡ some step) where
      run_next_step-completes :
          (result : _)
          → (ran deps tenant_id workflow_id db row steps ready step next).0 ≡ ok result
          → Refines tenant_id workflow_id shown (run_next_step deps tenant_id workflow_id db).1
      run_next_step-completes result passed =
          let (_, ready', completed_steps, _) =
            run_next_step_recorded deps tenant_id workflow_id db row steps ready step next result
              passed in
          rw from_running (
            at running (some steps) (replayed.completed_steps ++ step_id_of step ∷ []),
            inr (completes_step next),
            record {
              row = _;
              found = ready'.found;
              gapless = ready'.gapless;
              shows = rw (ready'.is_running, ready'.defined, completed_steps) refl;
            },
          )

      run_next_step-fails :
          (e : _)
          → (ran deps tenant_id workflow_id db row steps ready step next).0 ≡ err e
          → Refines tenant_id workflow_id shown (run_next_step deps tenant_id workflow_id db).1
      run_next_step-fails e threw =
          let (new, outcome, changed) =
            run_next_step_failed deps tenant_id workflow_id db row steps found is_running defined
              step next (ran deps tenant_id workflow_id db row steps ready step next).1
              (ran-view deps tenant_id workflow_id db row steps ready step next).0 e
              (ground (arith, threw)) in
          let event = step_failed (step_id_of step) e in
          let replay =
            end-replay deps tenant_id workflow_id db row steps ready step next event new in
          rw (outcome, from_running)
            (
              at failed (some steps) replayed.completed_steps,
              inr (fails_step next),
              record {
                row = _;
                found = changed;
                gapless =
                    end-IsGapless deps tenant_id workflow_id db row steps ready step next event new;
                shows = rw (replay, defined) refl;
              },
            )

      run_next_step-ran :
          Refines tenant_id workflow_id shown (run_next_step deps tenant_id workflow_id db).1
      run_next_step-ran =
          elim (Result-cases (ran deps tenant_id workflow_id db row steps ready step next).0) [
            | inl (result, passed) ↦ run_next_step-completes result passed
            | inr (e, threw) ↦ run_next_step-fails e threw
          ]

  pub run_next_step-Refines :
      (deps : Deps)
      → Refines tenant_id workflow_id shown (run_next_step deps tenant_id workflow_id db).1
  run_next_step-Refines deps = elim (running-cases row.status) [
    | inr other ↦
        unchanged tenant_id workflow_id db row found gapless _
          (ap (λ r. r.1) (run_next_step_stopped deps tenant_id workflow_id db row found other))
    | inl is_running ↦ elim (Option-cases replayed.definition) [
      | inl missing ↦ unchanged tenant_id workflow_id db row found gapless _ (
          ap (λ r. r.1)
            (run_next_step_malformed deps tenant_id workflow_id db row found is_running missing))
      | inr (steps, defined) ↦ elim (Option-cases (next_step steps replayed.completed_steps)) [
        | inl last ↦ run_next_step-finishes deps steps is_running defined last
        | inr (step, next) ↦ run_next_step-ran deps steps is_running defined step next
      ]
    ]
  ]
