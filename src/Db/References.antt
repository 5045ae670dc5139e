-- ===== src/Db/References.antt =====
-- The foreign keys of packages/db/migrations that a request's own text reaches: those of task_registry
-- (0004, 0011), routing_decision_records (0018) and deployment_registry (0016). PostgreSQL checks
-- them on all rows, whatever the tenant of the session. A key that is not here is one of a row that
-- the statement's own transaction has read, or is copied from such a row.
use ai_digital_office_os.Prelude.{
  String, Bool, true, ◌&&◌, Option, none, some, List, ◌∷◌, ◌==◌, any,
}
use ai_digital_office_os.Failure.{Failure, database_error, foreign_key_violation}
use ai_digital_office_os.Schema.{Db, TaskRow, RoutingDecisionRow, DeploymentRow}
use ai_digital_office_os.Db.{Action, gets, guard, ◌>>=◌}

-- NULL refers to nothing
abbrev pub refers {ℓ} : {A : Type ℓ} → (A → String) → List A → Option String → Bool
refers key rows none = true
refers key rows (some id) = any (λ row. key row == id) rows

abbrev pub is_organization : Db → String → Bool
is_organization db tenant_id = refers (λ o. o.tenant_id) db.organizations (some tenant_id)

-- a task may be its own parent
abbrev pub task_refers : TaskRow → Db → Bool
task_refers row db =
    is_organization db row.tenant_id
    && refers (λ p. p.project_id) db.projects (some row.project_id)
    && refers (λ w. w.workflow_id) db.workflows row.workflow_id
    && refers (λ t. t.task_id) (row ∷ db.tasks) row.parent_task_id

abbrev pub routing_refers : RoutingDecisionRow → Db → Bool
routing_refers row db =
    is_organization db row.tenant_id && refers (λ t. t.task_id) db.tasks (some row.task_id)

abbrev pub deployment_refers : DeploymentRow → Db → Bool
deployment_refers row db =
    is_organization db row.tenant_id
    && refers (λ p. p.project_id) db.projects (some row.project_id)
    && refers (λ a. a.request_id) db.approvals row.approval_request_id

abbrev pub no_such_key : Failure
no_such_key = database_error foreign_key_violation

-- the statement that inserts the row throws if a key is missing
abbrev pub check_references : (Db → Bool) → Action (Unit {0})
check_references holds = gets holds >>= λ found. guard found no_such_key
