-- ===== src/WorkflowEngine.antt =====
-- services/workflow-engine/src: the history (History), the steps (ExecuteStep) and in this file
-- engine.ts. Each transaction of runNextStep is one Action, so that whatever other requests commit
-- can be put between two calls. The text of a `reason` is a constructor of StopReason.
pub mod History
pub mod ExecuteStep
pub mod Sequence
pub mod Steps
pub mod Keeps
pub mod Progress
pub mod Termination
pub mod Tests
use History.{ReplayedState, append_event, replay_state, set_result}
use ExecuteStep.{Deps, execute_step}
use ai_digital_office_os.Prelude.{
  ℕ, suc, zero, String, Bool, true, false, not, Option, none, some, List, [], ◌∷◌, ◌++◌, any, find,
  ◌==◌, if◌then◌else◌,
}
use ai_digital_office_os.Json.{Json}
use ai_digital_office_os.Failure.{Failure, workflow_engine_error, WorkflowEngineErrorCode}
use ai_digital_office_os.Schema.{
  Db, WorkflowStatus, running, completed, failed, WorkflowStep, model_call, tool_call,
  create_artifact, WorkflowRow, ProjectRow, started, step_started, step_failed, step_completed,
  all_completed, WorkflowState,
}
use ai_digital_office_os.Db.{
  Action, pure, gets, require, ◌>>=◌, ◌>>◌, try_catch, with_tenant_transaction, select_one,
}
use ai_digital_office_os.Db.Tables.{workflow_owner, insert_workflow, update_workflows}

pub record StartWorkflowInput : Type 0 where
  pub project_id : String
  pub workflow_type : String
  pub definition_version : String
  pub definition : List WorkflowStep

pub data StepStatus : Type 0 where
  done error : StepStatus

pub data StopReason : Type 0 where
  not_running : WorkflowStatus → StopReason
  malformed_history all_steps_completed : StopReason
  step_error : Failure → StopReason

pub record StepRunResult : Type 0 where
  pub ran_step : Bool
  pub step_id : Option String
  pub step_status : Option StepStatus
  pub workflow_status : WorkflowStatus
  pub reason : Option StopReason

pub record WorkflowRunResult : Type 0 where
  pub workflow_id : String
  pub final_status : WorkflowStatus
  pub completed_steps : List String
  pub stopped_reason : Option StopReason

abbrev pub not_found : Failure
not_found = workflow_engine_error WorkflowEngineErrorCode.not_found

abbrev pub step_id_of : WorkflowStep → String
step_id_of (model_call step_id _ _ _ _ _) = step_id
step_id_of (tool_call step_id _ _ _ _) = step_id
step_id_of (create_artifact step_id _ _ _ _ _) = step_id

abbrev pub is_workflow : String → WorkflowRow → Bool
is_workflow id row = row.workflow_id == id

abbrev pub workflow_of : String → String → Db → Option WorkflowRow
workflow_of client id db = select_one workflow_owner client (is_workflow id) db.workflows

abbrev pub find_project : String → String → Db → Option ProjectRow
find_project client id db =
    select_one (λ (r : ProjectRow). some r.tenant_id) client (λ r. r.project_id == id) db.projects

abbrev pub new_row : String → String → StartWorkflowInput → WorkflowRow
new_row workflow_id tenant_id input = record {
  workflow_id = workflow_id;
  tenant_id = tenant_id;
  project_id = input.project_id;
  current_state =
      some (record { definition = some input.definition; completed_steps = []; step_results = [] });
  status = running;
  completed_at = none;
}

unfoldable pub start_workflow : Deps → String → StartWorkflowInput → Action String
unfolding append_event
start_workflow deps tenant_id input = with_tenant_transaction tenant_id (λ client. do
  project ← gets (find_project client input.project_id)
  _found ← require project not_found
  workflow_id ← gets deps.generate_id
  insert_workflow client (new_row workflow_id tenant_id input)
  append_event client tenant_id workflow_id (started (some input.definition))
  pure workflow_id)

-- the first transaction of runNextStep
unfoldable pub read_state : String → String → Action (WorkflowStatus × ReplayedState)
read_state workflow_id client = do
  found ← gets (workflow_of client workflow_id)
  wf ← require found not_found
  replayed ← gets (replay_state client workflow_id)
  pure (wf.status, replayed)

abbrev pub is_completed : List String → WorkflowStep → Bool
is_completed completed_steps s = any (λ id. id == step_id_of s) completed_steps

-- `definition.steps.find((s) => !completedSteps.includes(s.stepId))`
unfoldable pub next_step : List WorkflowStep → List String → Option WorkflowStep
next_step steps completed_steps = find (λ s. not (is_completed completed_steps s)) steps

abbrev pub did_not_run : WorkflowStatus → StopReason → StepRunResult
did_not_run status reason = record {
  ran_step = false;
  step_id = none;
  step_status = none;
  workflow_status = status;
  reason = some reason;
}

-- `status = $1, completed_at = now(), updated_at = now()`
abbrev pub set_status : WorkflowStatus → ℕ → WorkflowRow → WorkflowRow
set_status status now row = record row { status = status; completed_at = some now }

-- no step is left
unfoldable pub finish_workflow : String → String → Action StepRunResult
finish_workflow tenant_id workflow_id = do
  with_tenant_transaction tenant_id (λ client. do
    now ← gets (λ db. db.clock)
    update_workflows client (is_workflow workflow_id) (set_status completed now)
    append_event client tenant_id workflow_id all_completed)
  pure (did_not_run completed all_steps_completed)

-- the handler of the `catch`
unfoldable pub record_failure : String → String → WorkflowStep → Failure → Action StepRunResult
record_failure tenant_id workflow_id step e = do
  with_tenant_transaction tenant_id (λ client. do
    append_event client tenant_id workflow_id (step_failed (step_id_of step) e)
    now ← gets (λ db. db.clock)
    update_workflows client (is_workflow workflow_id) (set_status failed now))
  pure (record {
    ran_step = true;
    step_id = some (step_id_of step);
    step_status = some error;
    workflow_status = failed;
    reason = some (step_error e);
  })

abbrev pub new_state : ReplayedState → WorkflowStep → Json → WorkflowState
new_state replayed step result = record {
  definition = replayed.definition;
  completed_steps = replayed.completed_steps ++ step_id_of step ∷ [];
  step_results = set_result (step_id_of step) result replayed.step_results;
}

-- after the `try`
unfoldable pub record_completion :
    String → String → ReplayedState → WorkflowStep → Json → Action StepRunResult
record_completion tenant_id workflow_id replayed step result = do
  with_tenant_transaction tenant_id (λ client. do
    append_event client tenant_id workflow_id (step_completed (step_id_of step) result)
    update_workflows client (is_workflow workflow_id)
        (λ row. record row { current_state = some (new_state replayed step result) }))
  pure (record {
    ran_step = true;
    step_id = some (step_id_of step);
    step_status = some done;
    workflow_status = running;
    reason = none;
  })

unfoldable pub run_step :
    Deps → String → String → ReplayedState → WorkflowStep → Action StepRunResult
unfolding execute_step
run_step deps tenant_id workflow_id replayed step = do
  with_tenant_transaction tenant_id
      (λ client. append_event client tenant_id workflow_id (step_started (step_id_of step)))
  try_catch (execute_step deps tenant_id step replayed.step_results)
      (record_completion tenant_id workflow_id replayed step)
      (record_failure tenant_id workflow_id step)

unfoldable pub run_pending :
    Deps → String → String → ReplayedState → Option WorkflowStep → Action StepRunResult
run_pending deps tenant_id workflow_id replayed none = finish_workflow tenant_id workflow_id
run_pending deps tenant_id workflow_id replayed (some step) =
    run_step deps tenant_id workflow_id replayed step

-- the tests of runNextStep, in their order
unfoldable pub dispatch :
    Deps
    → String
    → String
    → WorkflowStatus
    → ReplayedState
    → Option (List WorkflowStep)
    → Action StepRunResult
dispatch deps tenant_id workflow_id running replayed none =
    pure (did_not_run running malformed_history)
dispatch deps tenant_id workflow_id running replayed (some steps) =
    run_pending deps tenant_id workflow_id replayed (next_step steps replayed.completed_steps)
dispatch deps tenant_id workflow_id status replayed definition =
    pure (did_not_run status (not_running status))

unfoldable pub run_next_step : Deps → String → String → Action StepRunResult
run_next_step deps tenant_id workflow_id = do
  seen ← with_tenant_transaction tenant_id (read_state workflow_id)
  dispatch deps tenant_id workflow_id seen.0 seen.1 seen.1.definition

-- `if (result.stepId && result.stepStatus === "completed") completedSteps.push(result.stepId)`
abbrev pub note_completed : StepRunResult → List String → List String
note_completed result steps = elim result.step_status [
  | some done ↦ elim result.step_id [
    | none ↦ steps
    | some id ↦ if id == "" then steps else steps ++ id ∷ []
  ]
  | _ ↦ steps
]

abbrev pub stop : String → StepRunResult → List String → WorkflowRunResult
stop workflow_id result steps = record {
  workflow_id = workflow_id;
  final_status = result.workflow_status;
  completed_steps = steps;
  stopped_reason = result.reason;
}

-- whether the loop returns: `!result.ranStep`, or `result.stepStatus === "failed"`
abbrev pub stops : StepRunResult → Bool
stops result =
    if not result.ran_step then true else elim result.step_status [ some error ↦ true | _ ↦ false ]

-- the `for (;;)` loop, `none` when the fuel runs out
unfoldable pub run_loop :
    Deps → String → String → ℕ → List String → Action (Option WorkflowRunResult)
run_loop deps tenant_id workflow_id zero steps = pure none
run_loop deps tenant_id workflow_id (suc fuel) steps = do
  result ← run_next_step deps tenant_id workflow_id
  let steps' = note_completed result steps
  let rest = run_loop deps tenant_id workflow_id fuel steps'
  if stops result then pure (some (stop workflow_id result steps')) else rest

unfoldable pub run_to_completion : Deps → String → String → ℕ → Action (Option WorkflowRunResult)
run_to_completion deps tenant_id workflow_id fuel = run_loop deps tenant_id workflow_id fuel []
