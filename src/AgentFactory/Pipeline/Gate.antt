-- ===== src/AgentFactory/Pipeline/Gate.antt =====
-- runFullPipeline of pipeline.ts: what a run with no stop has established.
use ai_digital_office_os.Prelude.{
  ℕ, Bool, ◌≤◌, ◌≡◌, refl, String, Option, none, some, [], ◌∷◌, arith, Option-cases, inl, inr,
}
use ai_digital_office_os.Json.{Json}
use ai_digital_office_os.Failure.{agent_factory_error, AgentFactoryErrorCode, ok, err}
use ai_digital_office_os.Schema.{Db, AgentRow, tested, evaluated, approved}
use ai_digital_office_os.Db.{actions}
use ai_digital_office_os.AgentFactory.{
  require_agent, enter_tested, advance_to_sandbox, advance_to_tested, advance_to_evaluated,
  advance_to_approved,
}
use ai_digital_office_os.AgentFactory.Lifecycle.{
  agent_of, advance_to_tested_lem, advance_to_evaluated_lem, advance_to_approved_lem,
}
use ai_digital_office_os.AgentFactory.Pipeline.{
  PipelineResult, quiet, scored, run_steps, report, current_lifecycle_state, run_full_pipeline,
  run_steps_passed, quiet_passed, scored_passed,
}

advance_to_tested_missing :
    (compiles : Json → Bool) (tenant_id agent_id : String) (db : Db)
    → agent_of tenant_id agent_id db ≡ none
    → (advance_to_tested compiles tenant_id agent_id db).0
      ≡ err (agent_factory_error AgentFactoryErrorCode.not_found)
unfolding advance_to_tested enter_tested require_agent actions
advance_to_tested_missing compiles tenant_id agent_id db h = ground (arith, h)

module _ (compiles : Json → Bool) (tenant_id agent_id : String) where
  -- the report at the end
  from_approved :
      (db : Db) (agent : AgentRow) (score : Option ℕ) (result : PipelineResult)
      → agent_of tenant_id agent_id db ≡ some agent
      → (run_steps tenant_id agent_id score [] db).0 ≡ ok result
      → (result.reached_state ≡ some agent.lifecycle_state) × (result.evaluation_score ≡ score)
  unfolding run_steps report current_lifecycle_state actions
  from_approved db agent score result found h = ground (arith, found, h)

  -- the last step, from an agent in EVALUATED
  from_evaluated :
      (db : Db) (agent : AgentRow) (score : ℕ) (result : PipelineResult)
      → agent_of tenant_id agent_id db ≡ some agent
      → agent.evaluation_score ≡ some score
      → (run_steps tenant_id agent_id
          (some score)
          (("advanceToApproved", quiet (advance_to_approved tenant_id agent_id 60)) ∷ [])
          db).0
        ≡ ok result
      → result.stopped_at ≡ none
      → (result.reached_state ≡ some approved)
        × (result.evaluation_score ≡ some score)
        × (60 ≤ score)
  from_evaluated db agent score result found held h stopped =
      let (new, e, h') =
        run_steps_passed tenant_id agent_id (some score) "advanceToApproved"
          (quiet (advance_to_approved tenant_id agent_id 60)) [] db result h stopped in
      let (passed, silent, same) =
        quiet_passed (advance_to_approved tenant_id agent_id 60) db new e in
      let (was, enough, now) =
        advance_to_approved_lem tenant_id agent_id db agent found 60 passed in
      let (reached, points) =
        from_approved (quiet (advance_to_approved tenant_id agent_id 60) db).1
          (record agent { lifecycle_state = approved }) (some score) result (rw same now)
          (rw silent at h') in
      (reached, points, ground (arith, enough, held))

  -- the last two steps, from an agent that is found
  from_tested :
      (db : Db) (agent : AgentRow) (result : PipelineResult)
      → agent_of tenant_id agent_id db ≡ some agent
      → (run_steps tenant_id agent_id none
          (("advanceToEvaluated", scored (advance_to_evaluated tenant_id agent_id))
            ∷ ("advanceToApproved", quiet (advance_to_approved tenant_id agent_id 60))
            ∷ [])
          db).0
        ≡ ok result
      → result.stopped_at ≡ none
      → (score : ℕ) × (result.reached_state ≡ some approved)
        × (result.evaluation_score ≡ some score)
        × (60 ≤ score)
  from_tested db agent result found h stopped =
      let (new, e, h') =
        run_steps_passed tenant_id agent_id none "advanceToEvaluated"
          (scored (advance_to_evaluated tenant_id agent_id))
          (("advanceToApproved", quiet (advance_to_approved tenant_id agent_id 60)) ∷ []) db result
          h stopped in
      let (score, passed, is_new, same) =
        scored_passed (advance_to_evaluated tenant_id agent_id) db new e in
      let (was, computed, now) =
        advance_to_evaluated_lem tenant_id agent_id db agent found score passed in
      let (reached, points, enough) =
        from_evaluated (scored (advance_to_evaluated tenant_id agent_id) db).1
          (record agent { lifecycle_state = evaluated; evaluation_score = some score }) score result
          (rw same now) refl (rw is_new at h') stopped in
      (score, reached, points, enough)

  from_sandbox :
      (db : Db) (result : PipelineResult)
      → (run_steps tenant_id agent_id none
          (("advanceToTested", quiet (advance_to_tested compiles tenant_id agent_id))
            ∷ ("advanceToEvaluated", scored (advance_to_evaluated tenant_id agent_id))
            ∷ ("advanceToApproved", quiet (advance_to_approved tenant_id agent_id 60))
            ∷ [])
          db).0
        ≡ ok result
      → result.stopped_at ≡ none
      → (score : ℕ) × (result.reached_state ≡ some approved)
        × (result.evaluation_score ≡ some score)
        × (60 ≤ score)
  from_sandbox db result h stopped =
      let (new, e, h') =
        run_steps_passed tenant_id agent_id none "advanceToTested"
          (quiet (advance_to_tested compiles tenant_id agent_id))
          (("advanceToEvaluated", scored (advance_to_evaluated tenant_id agent_id))
            ∷ ("advanceToApproved", quiet (advance_to_approved tenant_id agent_id 60))
            ∷ [])
          db result h stopped in
      let (passed, silent, same) =
        quiet_passed (advance_to_tested compiles tenant_id agent_id) db new e in
      elim (Option-cases (agent_of tenant_id agent_id db)) [
        | inl missing ↦
            let failed = advance_to_tested_missing compiles tenant_id agent_id db missing in
            absurd (ground (arith, failed, passed))
        | inr (agent, found) ↦
            let (was, inputs, outputs, now) =
              advance_to_tested_lem tenant_id agent_id db agent found compiles passed in
            from_tested (quiet (advance_to_tested compiles tenant_id agent_id) db).1
              (record agent { lifecycle_state = tested }) result (rw same now) (rw silent at h')
              stopped
      ]

-- A run that stopped nowhere has brought the agent to APPROVED, and the score that it reports is
-- at least the 60 points of the quality gate.
pub run_full_pipeline_passed :
    (compiles : Json → Bool) (tenant_id agent_id : String) (db : Db) (result : PipelineResult)
    → (run_full_pipeline compiles tenant_id agent_id db).0 ≡ ok result
    → result.stopped_at ≡ none
    → (score : ℕ) × (result.reached_state ≡ some approved)
      × (result.evaluation_score ≡ some score)
      × (60 ≤ score)
unfolding run_full_pipeline
run_full_pipeline_passed compiles tenant_id agent_id db result h stopped =
    let (new, e, h') =
      run_steps_passed tenant_id agent_id none "advanceToSandbox"
        (quiet (advance_to_sandbox tenant_id agent_id))
        (("advanceToTested", quiet (advance_to_tested compiles tenant_id agent_id))
          ∷ ("advanceToEvaluated", scored (advance_to_evaluated tenant_id agent_id))
          ∷ ("advanceToApproved", quiet (advance_to_approved tenant_id agent_id 60))
          ∷ [])
        db result h stopped in
    let (passed, silent, same) = quiet_passed (advance_to_sandbox tenant_id agent_id) db new e in
    from_sandbox compiles tenant_id agent_id (quiet (advance_to_sandbox tenant_id agent_id) db).1
      result (rw silent at h') stopped
