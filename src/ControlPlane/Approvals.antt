-- ===== src/ControlPlane/Approvals.antt =====
-- services/control-plane-api/src/routes/approvals.ts, with the sweep expirePendingApprovals of
-- services/policy-engine-service/src/approvals.ts. Fields of a request that are absent are none;
-- seven days are 604800 units of time. A response's body holds the columns that are modelled.
pub mod Decided
use ai_digital_office_os.Prelude.{
  ℕ, ◌+◌, String, Bool, true, false, not, ◌&&◌, ◌||◌, Option, none, some, List, [], ◌∷◌, length,
  leb, ◌==◌, if◌then◌else◌,
}
use ai_digital_office_os.Json
use ai_digital_office_os.Json.{Json}
use ai_digital_office_os.Schema.{Db, ApprovalRow, ApprovalDecision, approved, denied, expired}
use ai_digital_office_os.Db.{
  Action, pure, throw, gets, require, guard, ◌>>=◌, ◌>>◌, with_tenant_transaction, select,
  select_one,
}
use ai_digital_office_os.Db.Tables.{approval_owner, insert_approval, update_approvals}
use ai_digital_office_os.ControlPlane.Body.{given, text_of, text_or_null, post_params}
use ai_digital_office_os.ControlPlane.Errors.{not_found, validation}
use ai_digital_office_os.ControlPlane.Idempotency.{
  IdempotentParams, IdempotentResult, with_idempotent_write,
}

abbrev pub is_undecided : ApprovalRow → Bool
is_undecided row = elim row.decision [ none ↦ true | some d ↦ false ]

abbrev pub is_past : ℕ → ApprovalRow → Bool
is_past now row = elim row.expires_at [ none ↦ false | some t ↦ leb t now ]

abbrev pub is_overdue : ℕ → ApprovalRow → Bool
is_overdue now row = is_undecided row && is_past now row

abbrev pub expire_row : ℕ → ApprovalRow → ApprovalRow
expire_row now row = record row { decision = some expired; decided_at = some now }

unfoldable pub expire_pending_approvals : String → Action ℕ
expire_pending_approvals tenant_id = with_tenant_transaction tenant_id (λ client. do
  now ← gets (λ db. db.clock)
  swept ← gets (λ db. length (select approval_owner client (is_overdue now) db.approvals))
  update_approvals client (is_overdue now) (expire_row now)
  pure swept)

abbrev time_or_null : Option ℕ → Json
time_or_null none = Json.null
time_or_null (some t) = Json.num t

abbrev decision_text : Option ApprovalDecision → Json
decision_text none = Json.null
decision_text (some approved) = Json.str "APPROVED"
decision_text (some denied) = Json.str "DENIED"
decision_text (some expired) = Json.str "EXPIRED"

-- camelizeRow
abbrev pub camelize_row : ApprovalRow → Json
camelize_row row = Json.obj (
    Json.field "requestId" (Json.str row.request_id) (
      Json.field "tenantId" (Json.str row.tenant_id) (
        Json.field "requester" (text_or_null row.requester) (
          Json.field "agentId" (text_or_null row.agent_id) (
            Json.field "action" (Json.str row.action) (
              Json.field "riskLevel" (Json.str row.risk_level) (
                Json.field "reason" (text_or_null row.reason) (
                  Json.field "approver" (text_or_null row.approver) (
                    Json.field "decision" (decision_text row.decision) (
                      Json.field "expiresAt" (time_or_null row.expires_at)
                        (Json.field "decidedAt" (time_or_null row.decided_at) Json.end)))))))))))

unfoldable pub write_approval :
    String
    → String
    → String
    → String
    → Option String
    → Option String
    → Option String
    → Option String
    → Action (ℕ × Json)
write_approval client tenant_id request_id principal agent_id action risk_level reason = do
  now ← gets (λ db. db.clock)
  let row : ApprovalRow = record {
    request_id = request_id;
    tenant_id = tenant_id;
    requester = some principal;
    agent_id = agent_id;
    action = text_of action;
    risk_level = text_of risk_level;
    reason = reason;
    approver = none;
    decision = none;
    expires_at = some (now + 604800);
    decided_at = none;
  }
  insert_approval client row
  pure (201, camelize_row row)

-- POST /approvals
unfoldable pub create_approval :
    String
    → String
    → String
    → String
    → Option String
    → Option String
    → Option String
    → Option String
    → Action IdempotentResult
unfolding with_idempotent_write
create_approval tenant_id key request_id principal agent_id action risk_level reason = do
  guard (given action && given risk_level) validation
  with_tenant_transaction tenant_id (λ client.
      with_idempotent_write client (post_params tenant_id key "/approvals")
        (write_approval client tenant_id request_id principal agent_id action risk_level reason))

-- `decision !== "APPROVED" && decision !== "DENIED"`
abbrev pub read_decision : Option String → Option ApprovalDecision
read_decision none = none
read_decision (some s) =
    if s == "APPROVED" then some approved else if s == "DENIED" then some denied else none

abbrev pub coalesce : Option String → Option String → Option String
coalesce none other = other
coalesce (some s) other = some s

abbrev pub is_open : String → ApprovalRow → Bool
is_open request_id row = row.request_id == request_id && is_undecided row

abbrev pub decide_row : ApprovalDecision → String → Option String → ℕ → ApprovalRow → ApprovalRow
decide_row decision principal reason now row = record row {
  decision = some decision;
  approver = some principal;
  reason = coalesce reason row.reason;
  decided_at = some now;
}

abbrev pub find_open : String → String → Db → Option ApprovalRow
find_open client request_id db = select_one approval_owner client (is_open request_id) db.approvals

-- the UPDATE … RETURNING and the test of its rows
unfoldable pub write_decision :
    String → String → ApprovalDecision → String → Option String → Action (ℕ × Json)
write_decision client request_id decision principal reason = do
  now ← gets (λ db. db.clock)
  found ← gets (find_open client request_id)
  update_approvals client (is_open request_id) (decide_row decision principal reason now)
  row ← require found not_found
  pure (200, camelize_row (decide_row decision principal reason now row))

-- POST /approvals/{requestId}/decision
unfoldable pub decide_approval :
    String
    → String
    → String
    → String
    → String
    → Option String
    → Option String
    → Action IdempotentResult
unfolding with_idempotent_write
decide_approval tenant_id key path request_id principal decision reason = do
  chosen ← require (read_decision decision) validation
  with_tenant_transaction tenant_id (λ client.
      with_idempotent_write client (post_params tenant_id key path)
        (write_decision client request_id chosen principal reason))
