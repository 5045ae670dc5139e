-- ===== src/ControlPlane/Agents/Tests.antt =====
-- An agent with one version, and the request to activate it.
use ai_digital_office_os.Prelude.{false, ◌≡◌, refl, none, some, [], ◌∷◌}
use ai_digital_office_os.Json.{Json}
use ai_digital_office_os.Failure.{ok}
use ai_digital_office_os.Schema.{
  Db, empty_db, AgentRow, AgentVersionRow, ApprovalRow, approved, draft, active,
}
use ai_digital_office_os.Db.{actions, select_one, insert, update, update_row, store}
use ai_digital_office_os.Db.Tables.{
  update_agents, update_versions, update_approvals, insert_idempotency,
}
use ai_digital_office_os.AgentFactory.Tests.{helper}
use ai_digital_office_os.ControlPlane.Body.{post_params}
use ai_digital_office_os.ControlPlane.Idempotency.{
  IdempotentResult, with_idempotent_write, write_once, response_row,
}
use ai_digital_office_os.ControlPlane.Approvals.{
  decide_approval, write_decision, decide_row, camelize_row,
}
use ai_digital_office_os.ControlPlane.Agents.{find_agent}
use ai_digital_office_os.ControlPlane.Agents.Versions.{
  ActivateResponse, find_version, find_activation_approval, activate_row, activate,
}
use ai_digital_office_os.ControlPlane.Agents.Activation.{
  Permits, activate_approved, decide_approval-activate,
}

abbrev clerk : AgentRow
clerk = helper draft none

abbrev first_version : AgentVersionRow
first_version = record {
  agent_version_id = "v-1";
  tenant_id = "t";
  agent_id = "agent-1";
  version = "1.0.0";
  specification_hash = "sha";
  prompt_version = none;
  model_policy = Json.null;
  permissions_snapshot = Json.null;
  lifecycle_state = draft;
  created_at = 1;
}

abbrev request : ApprovalRow
request = record {
  request_id = "appr-1";
  tenant_id = "t";
  requester = some "ann";
  agent_id = some "agent-1";
  action = "AGENT_ACTIVATE";
  risk_level = "RED";
  reason = none;
  approver = none;
  decision = none;
  expires_at = some 90;
  decided_at = none;
}

abbrev asked : Db
asked = record empty_db {
  agents = clerk ∷ [];
  agent_versions = first_version ∷ [];
  approvals = request ∷ [];
}

abbrev given : ApprovalRow
given = decide_row approved "bob" none 0 request

abbrev answer : IdempotentResult
answer = record { status = 200; body = camelize_row given; replayed = false }

abbrev allowed : Db
allowed = record asked {
  approvals = given ∷ [];
  idempotency_keys = response_row (post_params "t" "k" "/p") 200 (camelize_row given) ∷ [];
}

abbrev response : ActivateResponse
response = record {
  agent_id = "agent-1";
  active_agent_version_id = "v-1";
  lifecycle_state = active;
}

abbrev activated : Db
activated = record allowed {
  agents = activate_row "v-1" clerk ∷ [];
  agent_versions = record first_version { lifecycle_state = active } ∷ [];
}

decided :
    decide_approval "t" "k" "/p" "appr-1" "bob" (some "APPROVED") none asked ≡ (ok answer, allowed)
unfolding decide_approval write_decision update_approvals with_idempotent_write write_once
    insert_idempotency insert update update_row select_one store actions
decided = refl

ran : activate "t" "agent-1" "v-1" allowed ≡ (ok response, activated)
unfolding activate update_agents update_versions update update_row select_one store actions
ran = refl

known : find_version "t" "v-1" "agent-1" asked ≡ some first_version
unfolding select_one
known = refl

found : find_agent "t" "agent-1" asked ≡ some clerk
unfolding select_one
found = refl

activate_approved_example :
    (response
      ≡ record { agent_id = "agent-1"; active_agent_version_id = "v-1"; lifecycle_state = active })
    × ((approval : ApprovalRow) × (find_activation_approval "t" "t" "agent-1" allowed
          ≡ some approval)
        × Permits "t" "agent-1" approval)
    × ((version : AgentVersionRow) × (find_version "t" "v-1" "agent-1" allowed ≡ some version)
        × (version.agent_version_id ≡ "v-1")
        × (version.agent_id ≡ "agent-1"))
activate_approved_example = activate_approved "t" "agent-1" "v-1" allowed activated response ran

decide_approval-activate_example :
    let (r, finally) = activate "t" "agent-1" "v-1" allowed in
    (r ≡ ok response) × (find_agent "t" "agent-1" finally ≡ some (activate_row "v-1" clerk))
unfolding select_one
decide_approval-activate_example =
    decide_approval-activate "t" "agent-1" "v-1" "appr-1" "k" "/p" "bob" none asked allowed
      first_version clerk request answer known found ((λ h. refl), tt) refl refl refl refl decided
      refl
