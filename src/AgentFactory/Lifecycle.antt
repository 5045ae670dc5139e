-- ===== src/AgentFactory/Lifecycle.antt =====
-- pipeline.ts: what each transition requires, what it leaves, and what a failure leaves alone.
use ai_digital_office_os.Prelude.{
  ℕ, ◌≤◌, ◌≡◌, refl, String, Bool, Option, some, List, [], ◌∷◌, ◌++◌, arith,
}
use ai_digital_office_os.Json.{Json}
use ai_digital_office_os.Failure.{Result, ok, err}
use ai_digital_office_os.Schema.{Db, AgentRow, sandbox, tested, evaluated, approved}
use ai_digital_office_os.Db.{actions, store, select_one, update}
use ai_digital_office_os.Db.Rows.{select_one-update}
use ai_digital_office_os.Db.Tables.{agent_owner, update_agents}
use ai_digital_office_os.AgentFactory.{
  has_id, require_agent, set_state, validate_json_schema_shape, compute_evaluation_score,
  enter_tested, advance_to_tested, enter_evaluated, advance_to_evaluated, enter_approved,
  advance_to_approved, score_or_zero,
}

-- the agent that the tenant's statements find
abbrev pub agent_of : String → String → Db → Option AgentRow
agent_of tenant_id agent_id db = select_one agent_owner tenant_id (has_id agent_id) db.agents

-- the table after an update of the agent
pub agent_of-update :
    (tenant_id agent_id : String) (f : AgentRow → AgentRow) (db : Db) (rows : List AgentRow)
    (agent : AgentRow)
    → ((r : AgentRow) → (f r).agent_id ≡ r.agent_id)
    → update agent_owner tenant_id (has_id agent_id) f db.agents ≡ ok rows
    → agent_of tenant_id agent_id db ≡ some agent
    → agent_of tenant_id agent_id (record db { agents = rows }) ≡ some (f agent)
agent_of-update tenant_id agent_id f db rows agent keeps h e =
    select_one-update agent_owner tenant_id (has_id agent_id) f (λ r hr. rw (keeps r) hr) db.agents
      rows agent h e

-- an update of the agent that succeeds
pub update_agents-found :
    (tenant_id agent_id : String) (f : AgentRow → AgentRow) (db : Db) (agent : AgentRow)
    → ((r : AgentRow) → (f r).agent_id ≡ r.agent_id)
    → agent_of tenant_id agent_id db ≡ some agent
    → (update_agents tenant_id (has_id agent_id) f db).0 ≡ ok tt
    → agent_of tenant_id agent_id (update_agents tenant_id (has_id agent_id) f db).1
      ≡ some (f agent)
unfolding update_agents
update_agents-found tenant_id agent_id f db agent keeps e h =
    go (update agent_owner tenant_id (has_id agent_id) f db.agents) refl
  where
    go :
        (u : Result (List AgentRow))
        → update agent_owner tenant_id (has_id agent_id) f db.agents ≡ u
        → agent_of tenant_id agent_id (update_agents tenant_id (has_id agent_id) f db).1
          ≡ some (f agent)
    go (ok rows) hu =
        rw (hu, update_agents, store)
          (agent_of-update tenant_id agent_id f db rows agent keeps hu e)
    go (err x) hu = absurd (ground (arith, hu, h))

append-eq-nil {ℓ} : {A : Type ℓ} (xs ys : List A) → xs ++ ys ≡ [] → (xs ≡ []) × (ys ≡ [])
append-eq-nil [] ys h = (refl, h)
append-eq-nil (x ∷ xs) ys h = cc

module _ (tenant_id agent_id : String) (db : Db) (agent : AgentRow)
    (found : agent_of tenant_id agent_id db ≡ some agent) where
  -- If advance_to_tested returns, the agent was in SANDBOX, neither of its schemas has an error,
  -- and it is now in TESTED, with its other columns as they were.
  pub advance_to_tested_lem :
      (compiles : Json → Bool)
      → (advance_to_tested compiles tenant_id agent_id db).0 ≡ ok tt
      → (agent.lifecycle_state ≡ sandbox)
        × (validate_json_schema_shape compiles agent.input_schema "input_schema" ≡ [])
        × (validate_json_schema_shape compiles agent.output_schema "output_schema" ≡ [])
        × (agent_of tenant_id agent_id (advance_to_tested compiles tenant_id agent_id db).1
            ≡ some (record agent { lifecycle_state = tested }))
  unfolding advance_to_tested enter_tested require_agent set_state actions
  advance_to_tested_lem compiles h = ground (
    arith,
    found,
    append-eq-nil (validate_json_schema_shape compiles agent.input_schema "input_schema")
        (validate_json_schema_shape compiles agent.output_schema "output_schema"),
    update_agents-found tenant_id agent_id (λ row. record row { lifecycle_state = tested }) db agent
        (λ r. refl),
  )

  -- If advance_to_evaluated returns, the agent was in TESTED, the score returned is the completeness
  -- score of its row, and the agent is now in EVALUATED with that score.
  pub advance_to_evaluated_lem :
      (score : ℕ)
      → (advance_to_evaluated tenant_id agent_id db).0 ≡ ok score
      → (agent.lifecycle_state ≡ tested)
        × (score ≡ compute_evaluation_score agent)
        × (agent_of tenant_id agent_id (advance_to_evaluated tenant_id agent_id db).1
            ≡ some (record agent { lifecycle_state = evaluated; evaluation_score = some score }))
  unfolding advance_to_evaluated enter_evaluated require_agent actions
  advance_to_evaluated_lem score h = ground (
    arith,
    found,
    update_agents-found tenant_id agent_id
        (λ row. record row {
          evaluation_score = some (compute_evaluation_score agent);
          lifecycle_state = evaluated;
        })
        db agent (λ r. refl),
  )

  -- If advance_to_approved returns, the agent was in EVALUATED with a stored score of at least
  -- min_score (a missing score counts as 0), and it is now in APPROVED.
  pub advance_to_approved_lem :
      (min_score : ℕ)
      → (advance_to_approved tenant_id agent_id min_score db).0 ≡ ok tt
      → (agent.lifecycle_state ≡ evaluated)
        × (min_score ≤ score_or_zero agent.evaluation_score)
        × (agent_of tenant_id agent_id (advance_to_approved tenant_id agent_id min_score db).1
            ≡ some (record agent { lifecycle_state = approved }))
  unfolding advance_to_approved enter_approved require_agent set_state actions
  advance_to_approved_lem min_score h = ground (
    arith,
    found,
    update_agents-found tenant_id agent_id (λ row. record row { lifecycle_state = approved }) db
        agent (λ r. refl),
  )
