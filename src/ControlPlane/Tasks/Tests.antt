-- ===== src/ControlPlane/Tasks/Tests.antt =====
-- A task, and a retry of the request that created it with another priority.
use ai_digital_office_os.Prelude.{true, false, ◌⊎◌, [], ◌∷◌, ◌≡◌, refl, none, some}
use ai_digital_office_os.Json
use ai_digital_office_os.Failure.{ok, err}
use ai_digital_office_os.Schema.{Db, TaskRow, empty_db}
use ai_digital_office_os.Db.References.{task_refers, no_such_key}
use ai_digital_office_os.ControlPlane.Tasks.{CreateTaskBody, find_task_by_key, create_task}
use ai_digital_office_os.ControlPlane.Tasks.Replay.{AnswersWith, asked, added, create_task_replays}

abbrev pub translation : CreateTaskBody
translation = record {
  project_id = some "proj-1";
  workflow_id = none;
  parent_task_id = none;
  required_capability = some "translate";
  priority = none;
  risk_level = none;
  security_level = none;
  dependencies = none;
  input = some (Json.str "bonjour");
  expected_output = none;
  idempotency_key = some "key-1";
  deadline = none;
}

abbrev urgent : CreateTaskBody
urgent = record translation { priority = some "HIGH" }

abbrev office : Db
office = record empty_db {
  organizations = record { tenant_id = "t" } ∷ [];
  projects = record { project_id = "proj-1"; tenant_id = "t" } ∷ [];
}

create_task_replays_example :
    ((row : TaskRow) × (after : Db) × AnswersWith "task-1" "t" translation office row after
      × (create_task "task-2" "t" urgent after ≡ (ok row, after))
      × (((find_task_by_key "t" "key-1" office ≡ some row) × (after ≡ office))
          ⊎ ((find_task_by_key "t" "key-1" office ≡ none)
              × (task_refers (asked "task-1" "t" translation office) office ≡ true)
              × (row ≡ asked "task-1" "t" translation office)
              × (after ≡ added "task-1" "t" translation office))))
    ⊎ ((find_task_by_key "t" "key-1" office ≡ none)
        × (task_refers (asked "task-1" "t" translation office) office ≡ false)
        × (create_task "task-1" "t" translation office ≡ (err no_such_key, office)))
create_task_replays_example =
    create_task_replays "task-1" "t" translation office "task-2" urgent refl refl refl
