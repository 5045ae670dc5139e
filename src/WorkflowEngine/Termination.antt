-- ===== src/WorkflowEngine/Termination.antt =====
-- runToCompletion of engine.ts: the loop ends, and how it ends.
use ai_digital_office_os.Prelude.{
  ℕ, suc, zero, ◌<◌, ◌≤◌, String, Bool, true, not, ◌≡◌, refl, ◌⊎◌, inl, inr, some, none, List, [],
  ◌∷◌, ◌++◌, arith, eq_refl, ◌==◌, length, filter, any, Bool-cases, Option-cases,
}
use ai_digital_office_os.Failure.{Failure, ok, err, Result-cases}
use ai_digital_office_os.Schema.{Db, WorkflowRow, WorkflowStep, completed, failed, all_completed}
use ai_digital_office_os.Db.{actions}
use ai_digital_office_os.WorkflowEngine.History.{replay_state}
use ai_digital_office_os.WorkflowEngine.ExecuteStep.{Deps}
use ai_digital_office_os.WorkflowEngine.Sequence.{replay_state-appended}
use ai_digital_office_os.WorkflowEngine.Steps.{run_next_step_failed, run_next_step_finished}
use ai_digital_office_os.WorkflowEngine.Progress.{
  IsReady, ran, ran-view, run_next_step_recorded, replay_state-history,
}
use ai_digital_office_os.WorkflowEngine.{
  step_id_of, workflow_of, next_step, is_completed, WorkflowRunResult, run_loop, run_to_completion,
}

any-append {ℓ} :
    {A : Type ℓ} (p : A → Bool) (xs ys : List A) → any p xs ≡ true → any p (xs ++ ys) ≡ true
any-append p (x ∷ xs) ys h = ground (arith, any-append p xs ys)
any-append p [] ys h = cc

any-last {ℓ} :
    {A : Type ℓ} (p : A → Bool) (xs : List A) (x : A) → p x ≡ true → any p (xs ++ x ∷ []) ≡ true
any-last p [] x h = ground arith
any-last p (y ∷ xs) x h = ground (arith, any-last p xs x h)

-- the number of steps not yet completed
abbrev pub pending : List WorkflowStep → List String → ℕ
pending steps completed_steps = length (filter (λ s. not (is_completed completed_steps s)) steps)

pending_le :
    (steps : List WorkflowStep) (ids : List String) (id : String)
    → pending steps (ids ++ id ∷ []) ≤ pending steps ids
pending_le [] ids id = omega arith
pending_le (s ∷ steps) ids id =
    let later = pending_le steps ids id in
    ground (arith, later, any-append (λ i. i == step_id_of s) ids (id ∷ []))

pending_lt :
    (steps : List WorkflowStep) (ids : List String) (step : WorkflowStep)
    → next_step steps ids ≡ some step
    → pending steps (ids ++ step_id_of step ∷ []) < pending steps ids
unfolding next_step
pending_lt [] ids step h = cc
pending_lt (s ∷ steps) ids step h = elim (Bool-cases (is_completed ids s)) [
  | inl before ↦
      let later : next_step steps ids ≡ some step = rw before at h in
      let smaller = pending_lt steps ids step later in
      ground (
        arith,
        smaller,
        before,
        any-append (λ i. i == step_id_of s) ids (step_id_of step ∷ []) before,
      )
  | inr now ↦
      let same : some s ≡ some step = rw now at h in
      let is_step : s ≡ step = ground (arith, same) in
      let others = pending_le steps ids (step_id_of step) in
      let noted =
        any-last (λ i. i == step_id_of s) ids (step_id_of step)
          (rw is_step (eq_refl (step_id_of step))) in
      ground (arith, others, now, noted)
]

-- The loop's result is the workflow's status in the registry: COMPLETED with no step left, or
-- FAILED.
abbrev pub IsSettled : String → String → List WorkflowStep → WorkflowRunResult → Db → Type 0
IsSettled tenant_id workflow_id steps r db =
    ((wf : WorkflowRow) × (workflow_of tenant_id workflow_id db ≡ some wf)
      × (wf.status ≡ r.final_status))
    × (((r.final_status ≡ completed)
          × (next_step steps (replay_state tenant_id workflow_id db).completed_steps ≡ none))
        ⊎ (r.final_status ≡ failed))

module _ (deps : Deps) (tenant_id workflow_id : String) (steps : List WorkflowStep) where
  run_loop-finished :
      (fuel : ℕ) (ids : List String) (db : Db) (wf : WorkflowRow)
      → IsReady tenant_id workflow_id steps wf db
      → next_step steps (replay_state tenant_id workflow_id db).completed_steps ≡ none
      → let (r, after) = run_loop deps tenant_id workflow_id (suc fuel) ids db in
        (result : WorkflowRunResult) × (r ≡ ok (some result))
        × IsSettled tenant_id workflow_id steps result after
  unfolding run_loop actions
  run_loop-finished fuel ids db wf ready last =
      let (new, outcome, changed) =
        run_next_step_finished deps tenant_id workflow_id db wf steps ready.found ready.is_running
          ready.defined last in
      let replayed =
        replay_state-appended tenant_id workflow_id all_completed (record db { workflows = new })
          ready.gapless in
      let same =
        replay_state-history tenant_id workflow_id (record db { workflows = new }) db refl in
      rw outcome (_, refl, ((_, changed, refl), inl (refl, rw (replayed, same) last)))

  run_loop-failed :
      (fuel : ℕ) (ids : List String) (db : Db) (wf : WorkflowRow)
      → (ready : IsReady tenant_id workflow_id steps wf db) → (step : WorkflowStep)
      → (next : next_step steps (replay_state tenant_id workflow_id db).completed_steps ≡ some step)
      → (e : Failure) → (ran deps tenant_id workflow_id db wf steps ready step next).0 ≡ err e
      → let (r, after) = run_loop deps tenant_id workflow_id (suc fuel) ids db in
        (result : WorkflowRunResult) × (r ≡ ok (some result))
        × IsSettled tenant_id workflow_id steps result after
  unfolding run_loop actions
  run_loop-failed fuel ids db wf ready step next e threw =
      let (new, outcome, changed) =
        run_next_step_failed deps tenant_id workflow_id db wf steps ready.found ready.is_running
          ready.defined step next (ran deps tenant_id workflow_id db wf steps ready step next).1
          (ran-view deps tenant_id workflow_id db wf steps ready step next).0 e
          (ground (arith, threw)) in
      rw outcome (_, refl, ((_, changed, refl), inr refl))

  run_loop-stops :
      (fuel : ℕ) (ids : List String) (db : Db) (wf : WorkflowRow)
      → IsReady tenant_id workflow_id steps wf db
      → pending steps (replay_state tenant_id workflow_id db).completed_steps < fuel
      → let (r, after) = run_loop deps tenant_id workflow_id fuel ids db in
        (result : WorkflowRunResult) × (r ≡ ok (some result))
        × IsSettled tenant_id workflow_id steps result after
  unfolding run_loop actions
  run_loop-stops zero ids db wf ready h = absurd (omega (arith, h))
  run_loop-stops (suc fuel) ids db wf ready h =
      elim (Option-cases
        (next_step steps (replay_state tenant_id workflow_id db).completed_steps)) [
          | inl last ↦ run_loop-finished fuel ids db wf ready last
          | inr (step, next) ↦
              elim (Result-cases (ran deps tenant_id workflow_id db wf steps ready step next).0) [
                | inr (e, threw) ↦ run_loop-failed fuel ids db wf ready step next e threw
                | inl (result, passed) ↦
                    let (outcome, ready', completed_steps, _) =
                      run_next_step_recorded deps tenant_id workflow_id db wf steps ready step next
                        result passed in
                    let smaller =
                      pending_lt steps (replay_state tenant_id workflow_id db).completed_steps step
                        next in
                    rw outcome (
                      run_loop-stops fuel _ _ _ ready'
                        (rw completed_steps (omega (arith, smaller, h))))
              ]
        ]

  -- For a RUNNING workflow whose history is gap-free and holds a definition, the loop ends within one
  -- round more than there are steps not yet completed, and does not throw, whatever the providers,
  -- the secret store and the MCP servers answer: the result's status is the workflow's in the
  -- registry, and it is COMPLETED, with every step of the definition completed in the history, or
  -- FAILED.
  pub run_to_completion-terminates :
      (fuel : ℕ) (db : Db) (wf : WorkflowRow)
      → IsReady tenant_id workflow_id steps wf db
      → pending steps (replay_state tenant_id workflow_id db).completed_steps < fuel
      → let (r, after) = run_to_completion deps tenant_id workflow_id fuel db in
        (result : WorkflowRunResult) × (r ≡ ok (some result))
        × IsSettled tenant_id workflow_id steps result after
  unfolding run_to_completion
  run_to_completion-terminates fuel db wf ready h = run_loop-stops fuel [] db wf ready h
