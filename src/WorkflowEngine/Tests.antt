-- ===== src/WorkflowEngine/Tests.antt =====
-- A workflow of two steps, of which the first is completed, and the theorems at it.
use ai_digital_office_os.Prelude.{◌<◌, ◌≡◌, refl, none, some, List, [], ◌∷◌, ◌++◌, arith}
use ai_digital_office_os.Json
use ai_digital_office_os.Json.{Json}
use ai_digital_office_os.Failure.{ok, err, other_error}
use ai_digital_office_os.Schema.{
  Db, empty_db, WorkflowRow, WorkflowStep, tool_call, create_artifact, HistoryRow, started,
  step_completed, running, WorkflowStatus,
}
use ai_digital_office_os.Db.{select, select_one, actions, insert}
use ai_digital_office_os.Db.Tables.{insert_artifact}
use ai_digital_office_os.Db.Isolation.{IsIsolated}
use ai_digital_office_os.ToolGateway.{FetchOutcome}
use ai_digital_office_os.WorkflowEngine.History.{
  replay_state, order_by_sequence_no, insert_by_sequence_no, result_of, set_result,
}
use ai_digital_office_os.WorkflowEngine.ExecuteStep.{Deps, execute_step}
use ai_digital_office_os.WorkflowEngine.Keeps.{execute_step-IsIsolated}
use ai_digital_office_os.WorkflowEngine.Steps.{completed_result}
use ai_digital_office_os.WorkflowEngine.Progress.{IsReady, run_next_step_recorded}
use ai_digital_office_os.WorkflowEngine.Termination.{
  pending, IsSettled, run_to_completion-terminates,
}
use ai_digital_office_os.WorkflowEngine.{
  workflow_of, next_step, run_next_step, run_to_completion, WorkflowRunResult, new_state,
}

abbrev pub world : Deps
world = record {
  resolve = λ db path. ok "key";
  complete = λ db adapter request key attempt. err other_error;
  fetch = λ db endpoint id method params. FetchOutcome.aborted;
  content_hash = λ v. "sha256:00";
  generate_id = λ db. "art-1";
}

abbrev pub ask_tool : WorkflowStep
ask_tool = tool_call "a" "agent-1" "tool-1" "read" Json.null

abbrev pub keep_result : WorkflowStep
keep_result = create_artifact "b" "project-1" none "REPORT" "s3://bucket/b" "a"

abbrev pub plan : List WorkflowStep
plan = ask_tool ∷ keep_result ∷ []

abbrev pub wf_row : WorkflowStatus → WorkflowRow
wf_row status = record {
  workflow_id = "w";
  tenant_id = "t";
  project_id = "project-1";
  current_state = none;
  status = status;
  completed_at = none;
}

abbrev pub half_done : List HistoryRow
half_done =
    record { tenant_id = "t"; workflow_id = "w"; sequence_no = 1; event = started (some plan) }
    ∷ record {
      tenant_id = "t";
      workflow_id = "w";
      sequence_no = 2;
      event = step_completed "a" (Json.str "text");
    }
    ∷ []

abbrev pub office : WorkflowStatus → Db
office status = record empty_db { workflows = wf_row status ∷ []; history = half_done }

pub found_in :
    (status : WorkflowStatus) → workflow_of "t" "w" (office status) ≡ some (wf_row status)
unfolding select_one
found_in status = refl

replayed : Unit {0}
unfolding replay_state select order_by_sequence_no insert_by_sequence_no set_result next_step
replayed = tt

pub is_ready : IsReady "t" "w" plan (wf_row running) (office running)
unfolding replay_state select order_by_sequence_no insert_by_sequence_no
is_ready = record {
  found = found_in running;
  is_running = refl;
  gapless = (refl, (refl, tt));
  defined = refl;
}

next_is : next_step plan (replay_state "t" "w" (office running)).completed_steps ≡ some keep_result
unfolding replayed
next_is = refl

abbrev artifact : Json
artifact = Json.obj (
    Json.field "artifactId" (Json.str "art-1")
      (Json.field "contentHash" (Json.str "sha256:00") Json.end))

run_next_step_recorded_example :
    let after = (run_next_step world "t" "w" (office running)).1 in
    let state = replay_state "t" "w" after in
    let wf' : WorkflowRow = record (wf_row running) {
      current_state = some (new_state (replay_state "t" "w" (office running)) keep_result artifact);
    } in
    ((run_next_step world "t" "w" (office running)).0 ≡ ok (completed_result keep_result))
    × IsReady "t" "w" plan wf' after
    × (state.completed_steps ≡ (replay_state "t" "w" (office running)).completed_steps ++ "b" ∷ [])
    × (result_of "b" state.step_results ≡ some artifact)
unfolding replayed execute_step insert_artifact insert actions result_of
run_next_step_recorded_example =
    run_next_step_recorded world "t" "w" (office running) (wf_row running) plan is_ready keep_result
      next_is artifact refl

two_rounds : pending plan (replay_state "t" "w" (office running)).completed_steps < 2
unfolding replayed
two_rounds = omega arith

run_to_completion-terminates_example :
    let (r, after) = run_to_completion world "t" "w" 2 (office running) in
    (result : WorkflowRunResult) × (r ≡ ok (some result)) × IsSettled "t" "w" plan result after
run_to_completion-terminates_example =
    run_to_completion-terminates world "t" "w" plan 2 (office running) (wf_row running) is_ready
      two_rounds

execute_step-IsIsolated_example :
    IsIsolated "t" (execute_step world "t" keep_result (("a", Json.null) ∷ []))
execute_step-IsIsolated_example =
    execute_step-IsIsolated world "t" keep_result (("a", Json.null) ∷ [])
