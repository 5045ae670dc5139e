-- ===== src/ControlPlane/Tests.antt =====
-- The theorems on the routes, at the workflow of the engine's tests and at one approval request.
use ai_digital_office_os.Prelude.{◌<◌, ◌≡◌, refl, none, some, [], ◌∷◌, arith, true, false}
use ai_digital_office_os.Json.{Json}
use ai_digital_office_os.Failure.{ok, err}
use ai_digital_office_os.Schema.{running, Db, empty_db, failed, ApprovalRow, approved}
use ai_digital_office_os.Db.{actions, pure, select, select_one, insert, update, update_row, store}
use ai_digital_office_os.Db.Keeps.{Keeps-pure}
use ai_digital_office_os.Db.Tables.{insert_idempotency, update_approvals}
use ai_digital_office_os.WorkflowEngine.History.{
  replay_state, order_by_sequence_no, insert_by_sequence_no, set_result,
}
use ai_digital_office_os.WorkflowEngine.Sequence.{IsGapless}
use ai_digital_office_os.WorkflowEngine.Termination.{pending, IsSettled}
use ai_digital_office_os.WorkflowEngine.Tests.{world, plan, office, wf_row, found_in}
use ai_digital_office_os.WorkflowEngine.{workflow_of, run_to_completion, WorkflowRunResult}
use ai_digital_office_os.ControlPlane.Errors.{not_found}
use ai_digital_office_os.ControlPlane.Idempotency.{
  IdempotentParams, IdempotentResult, with_idempotent_write, write_once,
}
use ai_digital_office_os.ControlPlane.Idempotency.Replay.{with_idempotent_write-replays}
use ai_digital_office_os.ControlPlane.Body.{post_params}
use ai_digital_office_os.ControlPlane.Approvals.{
  decide_approval, write_decision, camelize_row, decide_row,
}
use ai_digital_office_os.ControlPlane.Approvals.Decided.{decide_approval_once}
use ai_digital_office_os.ControlPlane.Workflows.{move_row, retry}
use ai_digital_office_os.ControlPlane.Workflows.Transitions.{retry-run_to_completion}

IsGapless-in : (status : _) → IsGapless "t" "w" (office status)
unfolding select
IsGapless-in status = (refl, (refl, tt))

replays : Unit {0}
unfolding replay_state select order_by_sequence_no insert_by_sequence_no set_result
replays = tt

defined_in : (status : _) → (replay_state "t" "w" (office status)).definition ≡ some plan
unfolding replays
defined_in status = refl

two_rounds : pending plan (replay_state "t" "w" (office failed)).completed_steps < 2
unfolding replays
two_rounds = omega arith

retry-run_to_completion_example :
    let after = (retry "t" "w" (office failed)).1 in
    let replayed = replay_state "t" "w" after in
    let replayed₀ = replay_state "t" "w" (office failed) in
    let (r, finished) = run_to_completion world "t" "w" 2 after in
    (retry "t" "w" (office failed) ≡ (ok (move_row running 0 (wf_row failed)), after))
    × (workflow_of "t" "w" after ≡ some (move_row running 0 (wf_row failed)))
    × IsGapless "t" "w" after
    × (replayed.definition ≡ some plan)
    × (replayed.completed_steps ≡ replayed₀.completed_steps)
    × (replayed.step_results ≡ replayed₀.step_results)
    × (result : WorkflowRunResult) × (r ≡ ok (some result))
    × IsSettled "t" "w" plan result finished
retry-run_to_completion_example =
    retry-run_to_completion world "t" "w" (office failed) (wf_row failed) (found_in failed) plan 2
      (IsGapless-in failed) refl (defined_in failed) two_rounds

abbrev params : IdempotentParams
params = post_params "t" "key-1" "/approvals"

abbrev answer : IdempotentResult
answer = record { status = 201; body = Json.null; replayed = false }

abbrev answered_db : Db
answered_db = record empty_db {
  idempotency_keys =
      record {
        tenant_id = "t";
        idempotency_key = "key-1";
        method = "POST";
        path = "/approvals";
        response_status = 201;
        response_body = Json.null;
      }
      ∷ [];
}

with_idempotent_write-replays_example :
    with_idempotent_write "t" params (pure (500, Json.null)) answered_db
    ≡ (ok (record answer { replayed = true }), answered_db)
unfolding with_idempotent_write write_once insert_idempotency insert select_one actions
with_idempotent_write-replays_example =
    with_idempotent_write-replays params (pure (201, Json.null)) (pure (500, Json.null)) empty_db
      answered_db answer (Keeps-pure (201, Json.null)) refl

abbrev request : ApprovalRow
request = record {
  request_id = "appr-1";
  tenant_id = "t";
  requester = some "ann";
  agent_id = none;
  action = "DEPLOY";
  risk_level = "RED";
  reason = none;
  approver = none;
  decision = none;
  expires_at = some 5;
  decided_at = none;
}

abbrev inbox : Db
inbox = record empty_db { approvals = request ∷ []; clock = 3 }

abbrev decided : IdempotentResult
decided = record {
  status = 200;
  body = camelize_row (decide_row approved "bob" none 3 request);
  replayed = false;
}

abbrev decided_db : Db
decided_db = record inbox {
  approvals = decide_row approved "bob" none 3 request ∷ [];
  idempotency_keys =
      record {
        tenant_id = "t";
        idempotency_key = "key-1";
        method = "POST";
        path = "/approvals/appr-1/decision";
        response_status = 200;
        response_body = camelize_row (decide_row approved "bob" none 3 request);
      }
      ∷ [];
}

decide_approval_once_example :
    decide_approval "t" "key-2" "/approvals/appr-1/decision" "appr-1" "eve"
      (some "DENIED")
      none
      decided_db
    ≡ (err not_found, decided_db)
unfolding decide_approval write_decision with_idempotent_write write_once insert_idempotency
    update_approvals insert update update_row select_one store actions
decide_approval_once_example =
    decide_approval_once "t" "appr-1" "key-1" "key-2" "/approvals/appr-1/decision"
      "/approvals/appr-1/decision" "bob" "eve" (some "APPROVED") (some "DENIED") none none _ inbox
      decided_db decided refl refl refl refl
