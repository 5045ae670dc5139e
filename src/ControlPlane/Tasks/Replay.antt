-- ===== src/ControlPlane/Tasks/Replay.antt =====
-- tasks.ts: a retried request gives the task that the first one created.
use ai_digital_office_os.Prelude.{
  String, true, false, refl, ◌⊎◌, Bool-cases, ◌≡◌, none, some, Option, Option-cases, eq_refl, arith,
  inl, inr, ◌++◌, ◌∷◌, [],
}
use ai_digital_office_os.Failure.{ok, err}
use ai_digital_office_os.Schema.{Db, TaskRow}
use ai_digital_office_os.Db.{actions, insert, store}
use ai_digital_office_os.Db.Rows.{select_one-insert}
use ai_digital_office_os.Db.Isolation.{IsIsolated, isolation_rules}
use ai_digital_office_os.Db.References.{task_refers, no_such_key}
use ai_digital_office_os.Db.Tables.{task_owner, insert_task}
use ai_digital_office_os.ControlPlane.Body.{text_of}
use ai_digital_office_os.ControlPlane.Tasks.{
  CreateTaskBody, is_complete, task_row, has_key, find_task_by_key, insert_once, create_task,
}

-- A request whose key has a row is answered with that row.
answers_again :
    (new_id tenant_id : String) (body : CreateTaskBody) (db : Db) (row : TaskRow)
    → is_complete body ≡ true
    → find_task_by_key tenant_id (text_of body.idempotency_key) db ≡ some row
    → create_task new_id tenant_id body db ≡ (ok row, db)
unfolding create_task insert_once actions
answers_again new_id tenant_id body db row valid found = ground (arith, valid, found)

insert_once-IsIsolated :
    (tenant_id : String) (row : TaskRow) (existing : Option TaskRow)
    → IsIsolated tenant_id (insert_once row existing tenant_id)
unfolding insert_once
insert_once-IsIsolated tenant_id row none = search isolation_rules
insert_once-IsIsolated tenant_id row (some existing) = search isolation_rules

module _ (new_id tenant_id : String) (body : CreateTaskBody) (db : Db) where
  -- the row that the request asks for
  abbrev pub asked : TaskRow
  asked = task_row new_id tenant_id body

  abbrev key : String
  key = text_of body.idempotency_key

  abbrev pub added : Db
  added = record db { tasks = db.tasks ++ asked ∷ [] }

  create_task-inserts :
      is_complete body ≡ true
      → find_task_by_key tenant_id key db ≡ none
      → task_refers asked db ≡ true
      → create_task new_id tenant_id body db ≡ (ok asked, added)
  unfolding create_task insert_once insert_task insert store actions
  create_task-inserts valid absent refers = ground (arith, valid, absent, refers, eq_refl tenant_id)

  create_task-refused :
      is_complete body ≡ true
      → find_task_by_key tenant_id key db ≡ none
      → task_refers asked db ≡ false
      → create_task new_id tenant_id body db ≡ (err no_such_key, db)
  unfolding create_task insert_once actions
  create_task-refused valid absent missing = ground (arith, valid, absent, missing)

  added_found :
      find_task_by_key tenant_id key db ≡ none → find_task_by_key tenant_id key added ≡ some asked
  unfolding insert
  added_found absent =
      let stored : insert task_owner tenant_id asked db.tasks ≡ ok (db.tasks ++ asked ∷ []) =
        ground (arith, eq_refl tenant_id) in
      select_one-insert task_owner tenant_id (has_key tenant_id key) asked db.tasks _ stored absent
        (ground (arith, eq_refl tenant_id, eq_refl key))

  -- what the request is answered, if it is answered with a task, and what it leaves
  abbrev pub AnswersWith : TaskRow → Db → Type 0
  AnswersWith row after =
      (create_task new_id tenant_id body db ≡ (ok row, after))
      × (find_task_by_key tenant_id key after ≡ some row)

  -- A request with a complete body does one of three things. If the tenant has a task under its key,
  -- it is answered with that task and changes nothing. Otherwise, if the tenant, the project, the
  -- workflow and the parent task that it names are there, it adds the task that the body describes
  -- and is answered with it; and if one of them is not, it throws and changes nothing. If it is
  -- answered with a task, a later request of the tenant with the same key and a complete body,
  -- whatever else this says, is answered with the same task and changes nothing.
  pub create_task_replays :
      (retry_id : String) (retry_body : CreateTaskBody)
      → is_complete body ≡ true
      → is_complete retry_body ≡ true
      → text_of retry_body.idempotency_key ≡ text_of body.idempotency_key
      → ((row : TaskRow) × (after : Db) × AnswersWith row after
          × (create_task retry_id tenant_id retry_body after ≡ (ok row, after))
          × (((find_task_by_key tenant_id key db ≡ some row) × (after ≡ db))
              ⊎ ((find_task_by_key tenant_id key db ≡ none)
                  × (task_refers asked db ≡ true)
                  × (row ≡ asked)
                  × (after ≡ added))))
        ⊎ ((find_task_by_key tenant_id key db ≡ none)
            × (task_refers asked db ≡ false)
            × (create_task new_id tenant_id body db ≡ (err no_such_key, db)))
  create_task_replays retry_id retry_body valid valid_retry same_key =
      elim (Option-cases (find_task_by_key tenant_id key db)) [
        | inr (row, found) ↦ inl (
          row,
          db,
          (answers_again new_id tenant_id body db row valid found, found),
          answers_again retry_id tenant_id retry_body db row valid_retry (rw same_key found),
          inl (found, refl),
        )
        | inl absent ↦ elim (Bool-cases (task_refers asked db)) [
          | inl refers ↦
              let found = added_found absent in
              inl (
                asked,
                added,
                (create_task-inserts valid absent refers, found),
                answers_again retry_id tenant_id retry_body added asked valid_retry
                    (rw same_key found),
                inr (absent, refers, refl, refl),
              )
          | inr missing ↦ inr (absent, missing, create_task-refused valid absent missing)
        ]
      ]

  -- Creating a task changes only rows of the tenant.
  pub create_task-IsIsolated : IsIsolated tenant_id (create_task new_id tenant_id body)
  unfolding create_task
  create_task-IsIsolated = search (isolation_rules, insert_once-IsIsolated)
