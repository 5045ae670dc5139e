-- ===== src/Lifecycle/Routes.antt =====
-- routes/workflows.ts: a user's transition makes a move of the machine, or none.
use ai_digital_office_os.Prelude.{
  String, true, ◌≡◌, refl, ap, ◌⊎◌, inl, inr, some, List, [], ◌∷◌, arith, any, Bool-cases, eq_refl,
}
use ai_digital_office_os.Failure.{Failure, Result, ok, err}
use ai_digital_office_os.Schema.{
  Db, WorkflowRow, ApprovalRow, WorkflowStatus, running, paused, completed, failed, cancelled,
  escalated,
}
use ai_digital_office_os.Db.{actions, insert, with_tenant_transaction, finish}
use ai_digital_office_os.Db.Tables.{insert_approval}
use ai_digital_office_os.WorkflowEngine.History.{replay_state, ReplayedState}
use ai_digital_office_os.WorkflowEngine.Sequence.{IsGapless}
use ai_digital_office_os.WorkflowEngine.Progress.{replay_state-history}
use ai_digital_office_os.WorkflowEngine.{workflow_of}
use ai_digital_office_os.ControlPlane.Errors.{conflict}
use ai_digital_office_os.ControlPlane.Workflows.{
  transition, same_status, move_row, pause, resume, cancel, retry, escalate, require_workflow,
}
use ai_digital_office_os.ControlPlane.Workflows.Transitions.{transition-conflict, transition_moves}
use ai_digital_office_os.Lifecycle.{
  Lifecycle, at, Moves, moves, pauses, resumes, retries, cancels_running, cancels_paused,
  cancels_failed, cancels_escalated, escalates_running, escalates_paused, escalates_failed,
}
use ai_digital_office_os.Lifecycle.Implements.{Refines, unchanged}

module _ {A : Type 0} (before : Db) where
  finish_ok : (p : Result A × Db) (a : A) → p.0 ≡ ok a → (finish before p).1 ≡ p.1
  finish_ok (ok b, after) a h = refl
  finish_ok (err e, after) a h = cc

  finish_err : (p : Result A × Db) (e : Failure) → p.0 ≡ err e → (finish before p).1 ≡ before
  finish_err (ok b, after) e h = cc
  finish_err (err e', after) e h = refl

-- the statuses that each route allows
pause-Moves :
    (status : WorkflowStatus) → any (same_status status) (running ∷ []) ≡ true → Moves status paused
pause-Moves running h = pauses
pause-Moves paused h = cc
pause-Moves completed h = cc
pause-Moves failed h = cc
pause-Moves cancelled h = cc
pause-Moves escalated h = cc

resume-Moves :
    (status : WorkflowStatus) → any (same_status status) (paused ∷ []) ≡ true → Moves status running
resume-Moves paused h = resumes
resume-Moves running h = cc
resume-Moves completed h = cc
resume-Moves failed h = cc
resume-Moves cancelled h = cc
resume-Moves escalated h = cc

cancel-Moves :
    (status : WorkflowStatus)
    → any (same_status status) (running ∷ paused ∷ failed ∷ escalated ∷ []) ≡ true
    → Moves status cancelled
cancel-Moves running h = cancels_running
cancel-Moves paused h = cancels_paused
cancel-Moves failed h = cancels_failed
cancel-Moves escalated h = cancels_escalated
cancel-Moves completed h = cc
cancel-Moves cancelled h = cc

retry-Moves :
    (status : WorkflowStatus) → any (same_status status) (failed ∷ []) ≡ true → Moves status running
retry-Moves failed h = retries
retry-Moves running h = cc
retry-Moves paused h = cc
retry-Moves completed h = cc
retry-Moves cancelled h = cc
retry-Moves escalated h = cc

escalate-Moves :
    (status : WorkflowStatus)
    → any (same_status status) (running ∷ paused ∷ failed ∷ []) ≡ true
    → Moves status escalated
escalate-Moves running h = escalates_running
escalate-Moves paused h = escalates_paused
escalate-Moves failed h = escalates_failed
escalate-Moves completed h = cc
escalate-Moves cancelled h = cc
escalate-Moves escalated h = cc

module _ (tenant_id workflow_id : String) (db : Db) (row : WorkflowRow)
    (found : workflow_of tenant_id workflow_id db ≡ some row)
    (gapless : IsGapless tenant_id workflow_id db) where
  abbrev replayed : ReplayedState
  replayed = replay_state tenant_id workflow_id db

  abbrev shown : Lifecycle
  shown = at row.status replayed.definition replayed.completed_steps

  -- a user's transition, as the statuses that it allows are those of a move
  module _ (from_statuses : List WorkflowStatus) (to_status : WorkflowStatus) (event_type : String)
      (allows : (status : WorkflowStatus)
        → any (same_status status) from_statuses ≡ true
        → Moves status to_status) where
    abbrev moved : Result WorkflowRow × Db
    moved = transition tenant_id tenant_id workflow_id from_statuses to_status event_type db

    transition-cases :
        ((e : Failure) × (moved.0 ≡ err e))
        ⊎ ((r : WorkflowRow) × (moved.0 ≡ ok r) × Refines tenant_id workflow_id shown moved.1)
    transition-cases = elim (Bool-cases (any (same_status row.status) from_statuses)) [
      | inr refused ↦
          let outcome =
            transition-conflict tenant_id workflow_id db from_statuses to_status event_type row
              found refused in
          inl (conflict, ap (λ p. p.0) outcome)
      | inl allowed ↦
          let (r, changed, _, kept, definition, completed_steps, _) =
            transition_moves tenant_id workflow_id db from_statuses to_status event_type row found
              allowed gapless in
          inr (
            move_row to_status db.clock row,
            r,
            (
              at to_status replayed.definition replayed.completed_steps,
              inr (moves (allows row.status allowed)),
              record {
                row = move_row to_status db.clock row;
                found = changed;
                gapless = kept;
                shows = rw (definition, completed_steps) refl;
              },
            ),
          )
    ]

    transition-Refines : Refines tenant_id workflow_id shown (finish db moved).1
    transition-Refines = elim transition-cases [
      | inl (e, threw) ↦
          unchanged tenant_id workflow_id db row found gapless (finish db moved).1
            (finish_err db moved e threw)
      | inr (r, passed, refines) ↦ rw (finish_ok db moved r passed) refines
    ]

  pub pause-Refines : Refines tenant_id workflow_id shown (pause tenant_id workflow_id db).1
  unfolding pause with_tenant_transaction
  pause-Refines = transition-Refines (running ∷ []) paused "PAUSED" pause-Moves

  pub resume-Refines : Refines tenant_id workflow_id shown (resume tenant_id workflow_id db).1
  unfolding resume with_tenant_transaction
  resume-Refines = transition-Refines (paused ∷ []) running "RESUMED" resume-Moves

  pub cancel-Refines : Refines tenant_id workflow_id shown (cancel tenant_id workflow_id db).1
  unfolding cancel with_tenant_transaction
  cancel-Refines =
      transition-Refines (running ∷ paused ∷ failed ∷ escalated ∷ []) cancelled "ROLLED_BACK"
        cancel-Moves

  pub retry-Refines : Refines tenant_id workflow_id shown (retry tenant_id workflow_id db).1
  unfolding retry with_tenant_transaction
  retry-Refines = transition-Refines (failed ∷ []) running "RETRY" retry-Moves

  abbrev escalation : Result WorkflowRow × Db
  escalation = moved (running ∷ paused ∷ failed ∷ []) escalated "ESCALATED" escalate-Moves

  escalate_err :
      (request_id : String) (e : Failure)
      → escalation.0 ≡ err e
      → (escalate tenant_id workflow_id request_id db).1 ≡ db
  unfolding escalate require_workflow actions
  escalate_err request_id e threw = ground (arith, found, threw)

  escalate_ok :
      (request_id : String) (r : WorkflowRow)
      → escalation.0 ≡ ok r
      → (new : List ApprovalRow) × ((escalate tenant_id workflow_id request_id db).1
          ≡ record escalation.1 { approvals = new })
  unfolding escalate require_workflow insert_approval insert actions
  escalate_ok request_id r passed = (
    (escalate tenant_id workflow_id request_id db).1.approvals,
    ground (arith, found, passed, eq_refl tenant_id),
  )

  pub escalate-Refines :
      (request_id : String)
      → Refines tenant_id workflow_id shown (escalate tenant_id workflow_id request_id db).1
  escalate-Refines request_id =
      elim (transition-cases (running ∷ paused ∷ failed ∷ []) escalated "ESCALATED"
        escalate-Moves) [
          | inl (e, threw) ↦
              unchanged tenant_id workflow_id db row found gapless _
                (escalate_err request_id e threw)
          | inr (r, passed, (m, reached, implements)) ↦
              let (new, outcome) = escalate_ok request_id r passed in
              rw outcome (
                m,
                reached,
                record {
                  row = implements.row;
                  found = implements.found;
                  gapless = implements.gapless;
                  shows =
                      rw
                        (replay_state-history tenant_id workflow_id
                          (record escalation.1 { approvals = new }) escalation.1 refl)
                        implements.shows;
                },
              )
        ]
