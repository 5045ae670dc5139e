-- ===== src/AgentFactory/Pipeline.antt =====
-- runFullPipeline of pipeline.ts: the four transitions in order, up to the first that throws.
pub mod Gate
mod Tests
use ai_digital_office_os.Prelude.{
  ℕ, Bool, ◌≤◌, ◌≡◌, refl, String, Option, none, some, List, [], ◌∷◌, arith, Option-cases, inl, inr,
  ◌⊎◌,
}
use ai_digital_office_os.Json.{Json}
use ai_digital_office_os.Failure.{Failure, Result, ok, err}
use ai_digital_office_os.Schema.{Db, AgentRow, LifecycleState, sandbox, tested, evaluated, approved}
use ai_digital_office_os.Db.{Action, pure, gets, ◌>>=◌, ◌>>◌, try_catch, handle, actions}
use ai_digital_office_os.AgentFactory.{
  advance_to_sandbox, advance_to_tested, advance_to_evaluated, advance_to_approved,
}
use ai_digital_office_os.AgentFactory.Lifecycle.{
  agent_of, advance_to_tested_lem, advance_to_evaluated_lem, advance_to_approved_lem,
}

-- `reached_state` is `none` for "UNKNOWN"
pub record PipelineResult : Type 0 where
  pub agent_id : String
  pub reached_state : Option LifecycleState
  pub evaluation_score : Option ℕ
  pub stopped_at : Option (String × Failure)

abbrev pub state_of : Option AgentRow → Option LifecycleState
state_of none = none
state_of (some agent) = some agent.lifecycle_state

pub current_lifecycle_state : String → String → Action (Option LifecycleState)
current_lifecycle_state tenant_id agent_id = gets (λ db. state_of (agent_of tenant_id agent_id db))

-- a step that yields a score sets the variable `evaluationScore`
abbrev keep : Option ℕ → Option ℕ → Option ℕ
keep none score = score
keep (some new) score = some new

abbrev pub Step : Type 0
Step = String × Action (Option ℕ)

report : String → String → Option ℕ → Option (String × Failure) → Action PipelineResult
report tenant_id agent_id score stopped = do
  state ← current_lifecycle_state tenant_id agent_id
  pure (record {
    agent_id = agent_id;
    reached_state = state;
    evaluation_score = score;
    stopped_at = stopped;
  })

-- the loop over the steps
run_steps : String → String → Option ℕ → List Step → Action PipelineResult
run_steps tenant_id agent_id score [] = report tenant_id agent_id score none
run_steps tenant_id agent_id score ((name, run) ∷ rest) =
    try_catch run (λ new. run_steps tenant_id agent_id (keep new score) rest)
      (λ e. report tenant_id agent_id score (some (name, e)))

-- a step without a score
quiet : Action (Unit {0}) → Action (Option ℕ)
quiet run = do run; pure none

scored : Action ℕ → Action (Option ℕ)
scored run = do score ← run; pure (some score)

steps : (Json → Bool) → String → String → List Step
unfolding quiet scored
steps compiles tenant_id agent_id =
    ("advanceToSandbox", quiet (advance_to_sandbox tenant_id agent_id))
    ∷ ("advanceToTested", quiet (advance_to_tested compiles tenant_id agent_id))
    ∷ ("advanceToEvaluated", scored (advance_to_evaluated tenant_id agent_id))
    ∷ ("advanceToApproved", quiet (advance_to_approved tenant_id agent_id 60))
    ∷ []

pub run_full_pipeline : (Json → Bool) → String → String → Action PipelineResult
unfolding steps run_steps report current_lifecycle_state
run_full_pipeline compiles tenant_id agent_id =
    run_steps tenant_id agent_id none (steps compiles tenant_id agent_id)

-- The outcome is a result, and states where the agent is in the database left.
abbrev pub Reports : String → String → Result PipelineResult × Db → Type 0
Reports tenant_id agent_id outcome =
    (result : PipelineResult) × (outcome.0 ≡ ok result)
    × (result.reached_state ≡ state_of (agent_of tenant_id agent_id outcome.1))

module _ (tenant_id agent_id : String) where
  report-Reports :
      (score : Option ℕ) (stopped : Option (String × Failure)) (db : Db)
      → Reports tenant_id agent_id (report tenant_id agent_id score stopped db)
  unfolding report current_lifecycle_state actions
  report-Reports score stopped db = (
    record {
      agent_id = agent_id;
      reached_state = state_of (agent_of tenant_id agent_id db);
      evaluation_score = score;
      stopped_at = stopped;
    },
    refl,
    refl,
  )

  handle-Reports :
      (r : Result (Option ℕ)) (f : Option ℕ → Action PipelineResult)
      (h : Failure → Action PipelineResult)
      → ((new : Option ℕ) (db : Db) → Reports tenant_id agent_id (f new db))
      → ((e : Failure) (db : Db) → Reports tenant_id agent_id (h e db))
      → (db : Db) → Reports tenant_id agent_id (handle r f h db)
  handle-Reports (ok new) f h hf hh db = hf new db
  handle-Reports (err e) f h hf hh db = hh e db

  run_steps-Reports :
      (score : Option ℕ) (rest : List Step) (db : Db)
      → Reports tenant_id agent_id (run_steps tenant_id agent_id score rest db)
  unfolding run_steps actions
  run_steps-Reports score [] db = report-Reports score none db
  run_steps-Reports score ((name, run) ∷ rest) db =
      handle-Reports (run db).0 (λ new. run_steps tenant_id agent_id (keep new score) rest)
        (λ e. report tenant_id agent_id score (some (name, e)))
        (λ new. run_steps-Reports (keep new score) rest)
        (λ e. report-Reports score (some (name, e))) (run db).1

  -- a result with no stop has passed its first step
  run_steps_passed :
      (score : Option ℕ) (name : String) (run : Action (Option ℕ)) (rest : List Step) (db : Db)
      (result : PipelineResult)
      → (run_steps tenant_id agent_id score ((name, run) ∷ rest) db).0 ≡ ok result
      → result.stopped_at ≡ none
      → (new : Option ℕ) × ((run db).0 ≡ ok new)
        × ((run_steps tenant_id agent_id (keep new score) rest (run db).1).0 ≡ ok result)
  unfolding run_steps report current_lifecycle_state actions
  run_steps_passed score name run rest db result h stopped = go (run db).0 refl
    where
      go :
          (r : Result (Option ℕ))
          → (run db).0 ≡ r
          → (new : Option ℕ) × ((run db).0 ≡ ok new)
            × ((run_steps tenant_id agent_id (keep new score) rest (run db).1).0 ≡ ok result)
      go (ok new) e = (new, e, ground (arith, e, h))
      go (err x) e = absurd (ground (arith, e, h, stopped))

quiet_passed :
    (run : Action (Unit {0})) (db : Db) (new : Option ℕ)
    → (quiet run db).0 ≡ ok new
    → ((run db).0 ≡ ok tt) × (new ≡ none) × ((quiet run db).1 ≡ (run db).1)
unfolding quiet actions
quiet_passed run db new h = ground arith

scored_passed :
    (run : Action ℕ) (db : Db) (new : Option ℕ)
    → (scored run db).0 ≡ ok new
    → (score : ℕ) × ((run db).0 ≡ ok score) × (new ≡ some score) × ((scored run db).1 ≡ (run db).1)
unfolding scored actions
scored_passed run db new h = ground arith

-- The pipeline never throws: whatever its steps do, it returns a result, whose reached state is
-- the agent's state in the database that it leaves (and unknown if there is no such agent).
pub run_full_pipeline-Reports :
    (compiles : Json → Bool) (tenant_id agent_id : String) (db : Db)
    → Reports tenant_id agent_id (run_full_pipeline compiles tenant_id agent_id db)
unfolding run_full_pipeline
run_full_pipeline-Reports compiles tenant_id agent_id db =
    run_steps-Reports tenant_id agent_id none (steps compiles tenant_id agent_id) db
