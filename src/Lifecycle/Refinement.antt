-- ===== src/Lifecycle/Refinement.antt =====
-- The engine and the routes against the state machine: every call makes a step of it, or none.
use ai_digital_office_os.Prelude.{String, ◌≡◌, inl, inr, some, List, [], ◌∷◌, ◌++◌}
use ai_digital_office_os.Schema.{Db, WorkflowRow}
use ai_digital_office_os.WorkflowEngine.ExecuteStep.{Deps}
use ai_digital_office_os.WorkflowEngine.History.{replay_state, ReplayedState}
use ai_digital_office_os.WorkflowEngine.Sequence.{IsGapless}
use ai_digital_office_os.WorkflowEngine.{workflow_of}
use ai_digital_office_os.Lifecycle.{
  Lifecycle, at, Reaches, stays, then, Command, run_next, pause_it, resume_it, cancel_it, retry_it,
  escalate_it, perform, perform_all,
}
use ai_digital_office_os.Lifecycle.Machine.{
  IsDistinct, IsFinished, IsSound, definition_of, completed_of, Reaches-IsSound, Reaches-extends,
}
use ai_digital_office_os.Lifecycle.Implements.{Implements, Refines}
use ai_digital_office_os.Lifecycle.Engine.{run_next_step-Refines}
use ai_digital_office_os.Lifecycle.Routes.{
  pause-Refines, resume-Refines, cancel-Refines, retry-Refines, escalate-Refines,
}

module _ (tenant_id workflow_id : String) (db : Db) (row : WorkflowRow)
    (found : workflow_of tenant_id workflow_id db ≡ some row)
    (gapless : IsGapless tenant_id workflow_id db) where
  abbrev replayed : ReplayedState
  replayed = replay_state tenant_id workflow_id db

  abbrev shown : Lifecycle
  shown = at row.status replayed.definition replayed.completed_steps

  perform-shown :
      (deps : Deps) (command : Command)
      → Refines tenant_id workflow_id shown (perform deps tenant_id workflow_id command db)
  unfolding perform
  perform-shown deps run_next =
      run_next_step-Refines tenant_id workflow_id db row found gapless deps
  perform-shown deps pause_it = pause-Refines tenant_id workflow_id db row found gapless
  perform-shown deps resume_it = resume-Refines tenant_id workflow_id db row found gapless
  perform-shown deps cancel_it = cancel-Refines tenant_id workflow_id db row found gapless
  perform-shown deps retry_it = retry-Refines tenant_id workflow_id db row found gapless
  perform-shown deps (escalate_it request_id) =
      escalate-Refines tenant_id workflow_id db row found gapless request_id

module _ (deps : Deps) (tenant_id workflow_id : String) where
  perform-Refines :
      (command : Command) (l : Lifecycle) (db : Db)
      → Implements tenant_id workflow_id l db
      → Refines tenant_id workflow_id l (perform deps tenant_id workflow_id command db)
  perform-Refines command l db implements = rw implements.shows (
      perform-shown tenant_id workflow_id db implements.row implements.found implements.gapless deps
        command)

  -- Where a workflow's row and its gap-free history stand for a state of the machine, they stand for
  -- one that the machine reaches from it after any sequence of engine steps, pauses, resumptions,
  -- cancellations, retries and escalations, in any order, whether these return or throw and
  -- whatever the providers answer.
  pub perform_all-Refines :
      (commands : List Command) (l : Lifecycle) (db : Db)
      → Implements tenant_id workflow_id l db
      → (m : Lifecycle) × Reaches l m
        × Implements tenant_id workflow_id m (perform_all deps tenant_id workflow_id commands db)
  unfolding perform_all
  perform_all-Refines [] l db implements = (l, stays, implements)
  perform_all-Refines (command ∷ commands) l db implements =
      let (m, reached, implements') = perform-Refines command l db implements in
      let (n, rest, last) = perform_all-Refines commands m _ implements' in
      elim reached [ inl same ↦ (n, rw same at rest, last) | inr step ↦ (n, then step rest, last) ]

  -- After any such sequence, from a state in which no step is completed twice and which is not
  -- COMPLETED with steps left, the history replays to the same definition, to the completed steps
  -- with others after them, none twice; and the row is COMPLETED only if every step of the
  -- definition is completed in the history.
  pub perform_all-IsSound :
      (commands : List Command) (l : Lifecycle) (db : Db)
      → Implements tenant_id workflow_id l db
      → IsSound l
      → let after = perform_all deps tenant_id workflow_id commands db in
        let replayed' = replay_state tenant_id workflow_id after in
        (row : WorkflowRow) × (workflow_of tenant_id workflow_id after ≡ some row)
        × (replayed'.definition ≡ definition_of l)
        × ((more : List String) × (replayed'.completed_steps ≡ completed_of l ++ more))
        × IsDistinct replayed'.completed_steps
        × IsFinished row.status replayed'.definition replayed'.completed_steps
  perform_all-IsSound commands l db implements sound =
      let (m, reached, last) = perform_all-Refines commands l db implements in
      let (definition, (more, steps)) = Reaches-extends reached in
      let kept : IsSound m = Reaches-IsSound reached sound in
      let (distinct, finished) = rw last.shows at kept in
      (
        last.row,
        last.found,
        rw last.shows at definition,
        (more, rw last.shows at steps),
        distinct,
        finished,
      )
