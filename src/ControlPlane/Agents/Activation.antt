-- ===== src/ControlPlane/Agents/Activation.antt =====
-- agents.ts: a version is activated only under an approval, and an approval given is enough.
use ai_digital_office_os.Prelude.{
  ap, eq_iff, String, true, false, ◌≡◌, refl, ◌⊎◌, inl, inr, Option, none, some, List, arith, All,
  Option-cases, ◌==◌, eq_refl,
}
use ai_digital_office_os.Failure.{ok, err}
use ai_digital_office_os.Schema.{
  Db, AgentRow, AgentVersionRow, ApprovalRow, ApprovalDecision, approved, active,
}
use ai_digital_office_os.Db.{actions, store, update, writable}
use ai_digital_office_os.Db.Rows.{
  select_one-update, select_one-update-some, update_passes, select_one_holds, update_passes-All,
}
use ai_digital_office_os.Db.Tables.{
  agent_owner, version_owner, approval_owner, update_agents, update_versions,
}
use ai_digital_office_os.ControlPlane.Errors.{policy_denied}
use ai_digital_office_os.ControlPlane.Approvals.{is_open, find_open, decide_row, decide_approval}
use ai_digital_office_os.ControlPlane.Approvals.Decided.{decide_approval-writes}
use ai_digital_office_os.ControlPlane.Idempotency.{IdempotentResult}
use ai_digital_office_os.ControlPlane.Agents.{has_agent_id, find_agent}
use ai_digital_office_os.ControlPlane.Agents.Versions.{
  ActivateResponse, find_version, is_for, is_approved, is_version, approves,
  find_activation_approval, activate_row, activate,
}

is_approved_sound : (d : Option ApprovalDecision) → is_approved d ≡ true → d ≡ some approved
is_approved_sound none h = cc
is_approved_sound (some approved) h = refl
is_approved_sound (some ApprovalDecision.denied) h = cc
is_approved_sound (some ApprovalDecision.expired) h = cc

is_for_sound :
    (o : Option String) (agent_id : String) → is_for o agent_id ≡ true → o ≡ some agent_id
is_for_sound none agent_id h = cc
is_for_sound (some id) agent_id h = ap some ((eq_iff id agent_id).0 h)

-- The request is the tenant's, to activate the agent, and it is answered APPROVED.
abbrev pub Permits : String → String → ApprovalRow → Type 0
Permits tenant_id agent_id approval =
    (approval.tenant_id ≡ tenant_id)
    × (approval.agent_id ≡ some agent_id)
    × (approval.action ≡ "AGENT_ACTIVATE")
    × (approval.decision ≡ some approved)

approves_sound :
    (tenant_id agent_id : String) (row : ApprovalRow)
    → approves tenant_id agent_id row ≡ true
    → Permits tenant_id agent_id row
approves_sound tenant_id agent_id row h = (
  (eq_iff row.tenant_id tenant_id).0 (ground (arith, h)),
  is_for_sound row.agent_id agent_id (ground (arith, h)),
  (eq_iff row.action "AGENT_ACTIVATE").0 (ground (arith, h)),
  is_approved_sound row.decision (ground (arith, h)),
)

-- If an activation returns, what it returns is the agent and the version asked for, ACTIVE; the tenant
-- has a request to activate this agent, of its own, that is answered APPROVED; and the version is one
-- of this agent's.
pub activate_approved :
    (tenant_id agent_id version_id : String) (db after : Db) (r : ActivateResponse)
    → activate tenant_id agent_id version_id db ≡ (ok r, after)
    → (r ≡ record {
      agent_id = agent_id;
      active_agent_version_id = version_id;
      lifecycle_state = active;
    })
      × ((approval : ApprovalRow) × (find_activation_approval tenant_id tenant_id agent_id db
            ≡ some approval)
          × Permits tenant_id agent_id approval)
      × ((version : AgentVersionRow) × (find_version tenant_id version_id agent_id db
            ≡ some version)
          × (version.agent_version_id ≡ version_id)
          × (version.agent_id ≡ agent_id))
unfolding activate actions
activate_approved tenant_id agent_id version_id db after r h =
    elim (Option-cases (find_version tenant_id version_id agent_id db)) [
      | inl missing ↦ absurd (ground (arith, h, missing))
      | inr (version, known) ↦
          elim (Option-cases (find_activation_approval tenant_id tenant_id agent_id db)) [
            | inl refused ↦ absurd (ground (arith, h, known, refused))
            | inr (approval, given) ↦
                let asked =
                  select_one_holds version_owner tenant_id (is_version version_id agent_id)
                    db.agent_versions version known in
                (
                  ground (arith, h, known, given),
                  (
                    approval,
                    given,
                    approves_sound tenant_id agent_id approval (
                        select_one_holds approval_owner tenant_id (approves tenant_id agent_id)
                          db.approvals approval given),
                  ),
                  (
                    version,
                    known,
                    (eq_iff version.agent_version_id version_id).0 (ground (arith, asked)),
                    (eq_iff version.agent_id agent_id).0 (ground (arith, asked)),
                  ),
                )
          ]
    ]

module _ (tenant_id agent_id version_id : String) (db : Db) (version : AgentVersionRow)
    (agent : AgentRow) (known : find_version tenant_id version_id agent_id db ≡ some version)
    (found : find_agent tenant_id agent_id db ≡ some agent)
    (own : All
      (λ r. has_agent_id agent_id r ≡ true → writable tenant_id r.tenant_id ≡ true)
      db.agents) where
  abbrev response : ActivateResponse
  response = record {
    agent_id = agent_id;
    active_agent_version_id = version_id;
    lifecycle_state = active;
  }

  activate_lem :
      (approval : ApprovalRow)
      → find_activation_approval tenant_id tenant_id agent_id db ≡ some approval
      → (versions : List AgentVersionRow) × (agents : List AgentRow) × (activate tenant_id agent_id
            version_id db
          ≡ (ok response, record db { agent_versions = versions; agents = agents }))
        × (update version_owner tenant_id
              (λ row. row.agent_version_id == version_id)
              (λ row. record row { lifecycle_state = active })
              db.agent_versions
            ≡ ok versions)
        × (update agent_owner tenant_id (has_agent_id agent_id) (activate_row version_id) db.agents
            ≡ ok agents)
  unfolding activate update_versions update_agents store actions
  activate_lem approval given =
      let (versions, first) =
        update_passes version_owner tenant_id (λ row. row.agent_version_id == version_id)
          (λ row. record row { lifecycle_state = active }) (λ r seen. seen) db.agent_versions in
      let (agents, second) =
        update_passes-All agent_owner tenant_id (has_agent_id agent_id) (activate_row version_id)
          db.agents own in
      (versions, agents, rw known (rw given (rw first (rw second refl))), first, second)

  -- An activation of an agent's version, where the agents with that identifier are the tenant's own,
  -- answers 403 and changes nothing if no request to activate the agent is APPROVED; otherwise it
  -- returns, and the agent is ACTIVE with that version, with its other columns as they were.
  pub activate_decides :
      let (r, after) = activate tenant_id agent_id version_id db in
      ((find_activation_approval tenant_id tenant_id agent_id db ≡ none)
        × (r ≡ err policy_denied)
        × (after ≡ db))
      ⊎ ((approval : ApprovalRow) × (find_activation_approval tenant_id tenant_id agent_id db
            ≡ some approval)
          × (r ≡ ok response)
          × (find_agent tenant_id agent_id after ≡ some (activate_row version_id agent)))
  unfolding activate actions
  activate_decides =
      elim (Option-cases (find_activation_approval tenant_id tenant_id agent_id db)) [
        | inl refused ↦ inl (refused, rw known (rw refused refl), rw known (rw refused refl))
        | inr (approval, given) ↦
            let (versions, agents, outcome, _, second) = activate_lem approval given in
            let changed =
              select_one-update agent_owner tenant_id (has_agent_id agent_id)
                (activate_row version_id) (λ r h. h) db.agents agents agent second found in
            inr (approval, given, rw outcome refl, rw outcome changed)
      ]

-- Once a request to activate an agent is answered APPROVED, and not as a replay, each version of the
-- agent can be activated, where the agents with that identifier are the tenant's own: the activation
-- returns, and the agent is ACTIVE with that version.
pub decide_approval-activate :
    (tenant_id agent_id version_id request_id key path by : String) (reason : Option String)
    (db after : Db) (version : AgentVersionRow) (agent : AgentRow) (request : ApprovalRow)
    (r : IdempotentResult)
    → find_version tenant_id version_id agent_id db ≡ some version
    → find_agent tenant_id agent_id db ≡ some agent
    → All (λ a. has_agent_id agent_id a ≡ true → writable tenant_id a.tenant_id ≡ true) db.agents
    → find_open tenant_id request_id db ≡ some request
    → request.tenant_id ≡ tenant_id
    → request.agent_id ≡ some agent_id
    → request.action ≡ "AGENT_ACTIVATE"
    → decide_approval tenant_id key path request_id by (some "APPROVED") reason db ≡ (ok r, after)
    → r.replayed ≡ false
    → let (answer, finally) = activate tenant_id agent_id version_id after in
      (answer
        ≡ ok (record {
          agent_id = agent_id;
          active_agent_version_id = version_id;
          lifecycle_state = active;
        }))
      × (find_agent tenant_id agent_id finally ≡ some (activate_row version_id agent))
decide_approval-activate tenant_id agent_id version_id request_id key path by reason db after
      version agent request r known found own asked mine for_agent action h fresh =
    let (written, agents, versions) =
      decide_approval-writes tenant_id request_id key path by (some "APPROVED") reason approved db
        after r refl h fresh in
    let meets : approves tenant_id agent_id (decide_row approved by reason db.clock request)
        ≡ true =
      rw (mine, for_agent, action, eq_refl tenant_id, eq_refl agent_id) refl in
    let (approval, given) =
      select_one-update-some approval_owner tenant_id (is_open request_id)
        (approves tenant_id agent_id) (decide_row approved by reason db.clock) db.approvals
        after.approvals request written asked meets in
    let known' : find_version tenant_id version_id agent_id after ≡ some version =
      rw versions known in
    let found' : find_agent tenant_id agent_id after ≡ some agent = rw agents found in
    elim (activate_decides tenant_id agent_id version_id after version agent known' found'
      (rw agents own)) [
        | inl (refused, _, _) ↦ absurd (ground (arith, refused, given))
        | inr (_, _, answer, changed) ↦ (answer, changed)
      ]
