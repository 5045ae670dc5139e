-- ===== src/ControlPlane/Approvals/Decided.antt =====
-- The approvals' decisions: a request is decided once, and the sweep leaves none overdue.
use ai_digital_office_os.Prelude.{
  ℕ, String, Bool, false, ◌&&◌, ◌≡◌, refl, Option, none, some, List, [], ◌∷◌, arith, length,
  Bool-cases, Option-cases, inl, inr,
}
use ai_digital_office_os.Json.{Json}
use ai_digital_office_os.Failure.{Result, ok, err, >>=-eq-ok}
use ai_digital_office_os.Schema.{Db, ApprovalRow, ApprovalDecision}
use ai_digital_office_os.Db.{actions, update, update_row, select, select_one, visible, store}
use ai_digital_office_os.Db.Rows.{update_row-hit, update_row-miss}
use ai_digital_office_os.Db.Tables.{approval_owner, update_approvals, insert_idempotency}
use ai_digital_office_os.ControlPlane.Errors.{not_found}
use ai_digital_office_os.ControlPlane.Body.{post_params}
use ai_digital_office_os.ControlPlane.Approvals.{
  is_overdue, expire_row, expire_pending_approvals, is_open, decide_row, find_open, write_decision,
  decide_approval, read_decision, camelize_row,
}
use ai_digital_office_os.ControlPlane.Idempotency.{
  IdempotentResult, find_response, with_idempotent_write, write_once,
}

-- an update that takes every row it finds out of its own condition, and cannot fail
module _ (tenant_id : String) (p : ApprovalRow → Bool) (f : ApprovalRow → ApprovalRow)
    (keeps : (r : ApprovalRow) → (f r).tenant_id ≡ r.tenant_id)
    (clears : (r : ApprovalRow) → p (f r) ≡ false) where
  update_row_clears :
      (row : ApprovalRow)
      → (new : ApprovalRow) × (update_row approval_owner tenant_id p f row ≡ ok new)
        × ((visible tenant_id (some new.tenant_id) && p new) ≡ false)
  unfolding update_row
  update_row_clears row = elim (Bool-cases (visible tenant_id (some row.tenant_id) && p row)) [
    | inl hit ↦ (f row, ground (arith, hit, keeps row), ground (arith, clears row))
    | inr miss ↦ (row, ground (arith, miss), miss)
  ]

  update_clears :
      (rows : List ApprovalRow)
      → (new : List ApprovalRow) × (update approval_owner tenant_id p f rows ≡ ok new)
        × (select_one approval_owner tenant_id p new ≡ none)
        × (select approval_owner tenant_id p new ≡ [])
  unfolding update select_one select
  update_clears [] = ([], refl, refl, refl)
  update_clears (row ∷ rows) =
      let (first, now, out) = update_row_clears row in
      let (rest, later, gone, none_left) = update_clears rows in
      (first ∷ rest, rw (now, later) refl, rw out gone, rw out none_left)

  -- nor does it give another tenant a row of that condition
  update_stays :
      (other : String) (rows new : List ApprovalRow)
      → update approval_owner tenant_id p f rows ≡ ok new
      → select approval_owner other p rows ≡ []
      → select approval_owner other p new ≡ []
  unfolding update select
  update_stays other [] new e h = let result : new ≡ [] = ground (arith, e) in rw result refl
  update_stays other (row ∷ rows) new e h =
      let (r, hr, h₁) = >>=-eq-ok (update_row approval_owner tenant_id p f row) _ e in
      let (rs, hrs, h₂) = >>=-eq-ok (update approval_owner tenant_id p f rows) _ h₁ in
      let result : new ≡ r ∷ rs = ground (arith, h₂) in
      let rest = update_stays other rows rs hrs (ground (arith, h)) in
      elim (Bool-cases (visible tenant_id (some row.tenant_id) && p row)) [
        | inl hit ↦
            let (changed, _) = update_row-hit approval_owner tenant_id p f row r hr hit in
            let cleared = clears row in rw (result, changed) (ground (arith, rest, cleared))
        | inr miss ↦
            let same = update_row-miss approval_owner tenant_id p f row r hr miss in
            rw (result, same) (ground (arith, rest, h))
      ]

module _ (tenant_id request_id : String) (decision : ApprovalDecision) (principal : String)
    (reason : Option String) (db : Db) where
  -- the table after a decision, in which the request is not open
  decided_rows :
      (new : List ApprovalRow) × (update approval_owner tenant_id
          (is_open request_id)
          (decide_row decision principal reason db.clock)
          db.approvals
        ≡ ok new)
      × (select_one approval_owner tenant_id (is_open request_id) new ≡ none)
  decided_rows =
      let (new, passed, gone, _) =
        update_clears tenant_id (is_open request_id) (decide_row decision principal reason db.clock)
          (λ r. refl) (λ r. ground arith) db.approvals in
      (new, passed, gone)

  write_decision_lem :
      write_decision tenant_id request_id decision principal reason db
      ≡ (elim (find_open tenant_id request_id db) as (λ x. Result (ℕ × Json) × Db) [
        | none ↦ (err not_found, record db { approvals = decided_rows.0 })
        | some row ↦ (
          ok (200, camelize_row (decide_row decision principal reason db.clock row)),
          record db { approvals = decided_rows.0 },
        )
      ])
  unfolding write_decision update_approvals store actions
  write_decision_lem = rw decided_rows.1 (ground arith)

  -- a decision on a request that is not open
  write_decision_closed :
      find_open tenant_id request_id db ≡ none
      → (write_decision tenant_id request_id decision principal reason db).0 ≡ err not_found
  write_decision_closed h = rw write_decision_lem (rw h refl)

-- a decision that is answered, and not as a replay, leaves the request closed
decide_approval-closes :
    (tenant_id request_id key path by : String) (first reason : Option String) (db after : Db)
    (r : IdempotentResult)
    → decide_approval tenant_id key path request_id by first reason db ≡ (ok r, after)
    → r.replayed ≡ false
    → find_open tenant_id request_id after ≡ none
unfolding decide_approval with_idempotent_write write_once insert_idempotency actions
decide_approval-closes tenant_id request_id key path by first reason db after r h fresh =
    elim (Option-cases (read_decision first)) [
      | inl unknown ↦ ground (arith, h, unknown)
      | inr (d, known) ↦ ground (
        arith,
        h,
        known,
        fresh,
        write_decision_lem tenant_id request_id d by reason db,
        (decided_rows tenant_id request_id d by reason db).2,
      )
    ]

-- what such a decision leaves: the table in which it is written, and the agents as they were
pub decide_approval-writes :
    (tenant_id request_id key path by : String) (first reason : Option String)
    (chosen : ApprovalDecision) (db after : Db) (r : IdempotentResult)
    → read_decision first ≡ some chosen
    → decide_approval tenant_id key path request_id by first reason db ≡ (ok r, after)
    → r.replayed ≡ false
    → (update approval_owner tenant_id
          (is_open request_id)
          (decide_row chosen by reason db.clock)
          db.approvals
        ≡ ok after.approvals)
      × (after.agents ≡ db.agents)
      × (after.agent_versions ≡ db.agent_versions)
unfolding decide_approval with_idempotent_write write_once insert_idempotency actions
decide_approval-writes tenant_id request_id key path by first reason chosen db after r known h
      fresh =
    let written = write_decision_lem tenant_id request_id chosen by reason db in
    let (_, passed, _) = decided_rows tenant_id request_id chosen by reason db in
    let approvals : after.approvals ≡ (decided_rows tenant_id request_id chosen by reason db).0 =
      ground (arith, h, known, fresh, written) in
    (
      rw approvals passed,
      ground (arith, h, known, fresh, written),
      ground (arith, h, known, fresh, written),
    )

-- A decision that is answered, and not as a replay, settles the request: a later decision on it under
-- a key that is not on record, whichever and by whomever, throws NOT_FOUND and changes nothing.
pub decide_approval_once :
    (tenant_id request_id key key' path path' by other : String)
    (first second reason reason' : Option String) (chosen : ApprovalDecision) (db after : Db)
    (r : IdempotentResult)
    → decide_approval tenant_id key path request_id by first reason db ≡ (ok r, after)
    → r.replayed ≡ false
    → find_response tenant_id (post_params tenant_id key' path') after ≡ none
    → read_decision second ≡ some chosen
    → decide_approval tenant_id key' path' request_id other second reason' after
      ≡ (err not_found, after)
unfolding decide_approval with_idempotent_write write_once insert_idempotency actions
decide_approval_once tenant_id request_id key key' path path' by other first second reason reason'
      chosen db after r h fresh new known =
    let gone : find_open tenant_id request_id after ≡ none =
      decide_approval-closes tenant_id request_id key path by first reason db after r h fresh in
    let closed = write_decision_closed tenant_id request_id chosen other reason' after gone in
    ground (arith, new, known, closed)

-- what the sweep of a tenant does: it clears its own requests, and puts back none of another's
pub expire_pending_approvals_lem :
    (tenant_id : String) (db : Db)
    → (new : List ApprovalRow) × (swept : ℕ) × (expire_pending_approvals tenant_id db
        ≡ (ok swept, record db { approvals = new }))
      × (select approval_owner tenant_id (is_overdue db.clock) new ≡ [])
      × ((other : String)
          → select approval_owner other (is_overdue db.clock) db.approvals ≡ []
          → select approval_owner other (is_overdue db.clock) new ≡ [])
unfolding expire_pending_approvals update_approvals store actions
expire_pending_approvals_lem tenant_id db =
    let (new, passed, _, none_left) =
      update_clears tenant_id (is_overdue db.clock) (expire_row db.clock) (λ r. refl) (λ r. refl)
        db.approvals in
    (
      new,
      length (select approval_owner tenant_id (is_overdue db.clock) db.approvals),
      rw passed refl,
      none_left,
      λ other.
          update_stays tenant_id (is_overdue db.clock) (expire_row db.clock) (λ r. refl) (λ r. refl)
            other db.approvals new passed,
    )

-- The sweep returns, and after it the tenant sees no request that is undecided at or past its expiry.
pub expire_pending_approvals_swept :
    (tenant_id : String) (db : Db)
    → let (r, after) = expire_pending_approvals tenant_id db in
      (r ≡ ok (length (select approval_owner tenant_id (is_overdue db.clock) db.approvals)))
      × (select approval_owner tenant_id (is_overdue db.clock) after.approvals ≡ [])
unfolding expire_pending_approvals update_approvals store actions
expire_pending_approvals_swept tenant_id db =
    let (new, passed, _, none_left) =
      update_clears tenant_id (is_overdue db.clock) (expire_row db.clock) (λ r. refl) (λ r. refl)
        db.approvals in
    rw passed (refl, none_left)
