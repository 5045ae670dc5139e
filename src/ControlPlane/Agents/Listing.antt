-- ===== src/ControlPlane/Agents/Listing.antt =====
-- agents.ts: what a list of agents holds.
use ai_digital_office_os.Prelude.{ℕ, String, Bool, ◌&&◌, ◌≡◌, refl, Option, List, ◌==◌}
use ai_digital_office_os.Failure.{ok}
use ai_digital_office_os.Schema.{Db, AgentRow}
use ai_digital_office_os.Db.{actions, select}
use ai_digital_office_os.Db.Ordering.{
  IsNewestFirst, count, newest_first-IsNewestFirst, count-newest_first,
}
use ai_digital_office_os.Db.Tables.{agent_owner}
use ai_digital_office_os.ControlPlane.Agents.{same_state, when, list_agents}

abbrev pub created : AgentRow → ℕ
created row = row.created_at

-- the agents that the tenant sees, of the state and the department asked for
abbrev pub matching : String → Option String → Option String → Db → List AgentRow
matching tenant_id lifecycle_state department db =
    select agent_owner tenant_id
      (λ row.
        when lifecycle_state (same_state row.lifecycle_state)
        && when department (λ d. row.department == d))
      db.agents

-- A list of agents is answered without a change. It is newest first, and holds each agent that the
-- tenant sees and that meets the state and the department asked for, as often as the table does.
pub list_agents_lem :
    (tenant_id : String) (lifecycle_state department : Option String) (db : Db)
    → (rows : List AgentRow) × (list_agents tenant_id lifecycle_state department db ≡ (ok rows, db))
      × IsNewestFirst created rows
      × ((test : AgentRow → Bool)
          → count created test rows
            ≡ count created test (matching tenant_id lifecycle_state department db))
unfolding list_agents actions
list_agents_lem tenant_id lifecycle_state department db =
    let rows = matching tenant_id lifecycle_state department db in
    (_, refl, newest_first-IsNewestFirst created rows, λ test. count-newest_first created test rows)
