-- ===== src/Deployment/Rollback.antt =====
-- rollbackDeployment: a new deployment of the recorded target, and the original's status.
use ai_digital_office_os.Prelude.{
  String, true, false, ◌≡◌, refl, sym, ◌∙◌, none, some, List, [], ◌∷◌, ◌++◌, arith, eq_refl, eq_iff,
  ◌==◌, if◌then◌else◌, Bool-cases, inl, inr,
}
use ai_digital_office_os.Failure.{ok}
use ai_digital_office_os.Schema.{Db, DeploymentRow, rolled_back}
use ai_digital_office_os.Db.{actions, pure, select_one, insert, store}
use ai_digital_office_os.Db.Rows.{select_one-insert, select_one-append, select_one-update_other}
use ai_digital_office_os.Db.Tables.{deployment_owner, update_deployments, insert_deployment}
use ai_digital_office_os.Deployment.{
  Check, HealthCheckResult, deployment_of, is_deployment, require_deployment, target_of, copy_of,
  status_after, complete_row, insert_copy, settle_rollback, rollback_deployment,
}
use ai_digital_office_os.Deployment.Advance.{update_deployments-found, audit_deployment_lem}

-- two ids that differ
is_deployment-other :
    (a b : String) (r : DeploymentRow)
    → (a == b) ≡ false
    → is_deployment a r ≡ true
    → is_deployment b r ≡ false
is_deployment-other a b r h e =
    let same : r.deployment_id ≡ a = (eq_iff r.deployment_id a).0 e in rw same h

pub is_deployment-other' :
    (a b : String) (r : DeploymentRow)
    → (a == b) ≡ false
    → is_deployment b r ≡ true
    → is_deployment a r ≡ false
is_deployment-other' a b r h e = elim (Bool-cases (is_deployment a r)) [
  | inr differs ↦ differs
  | inl same ↦
      let is_a : r.deployment_id ≡ a = (eq_iff r.deployment_id a).0 same in
      let is_b : r.deployment_id ≡ b = (eq_iff r.deployment_id b).0 e in
      let equal : (a == b) ≡ true = rw (sym is_a ∙ is_b) (eq_refl b) in
      absurd (ground (arith, h, equal))
]

-- an identifier in use, and one that is not
pub ids_differ :
    (tenant_id new_id deployment_id : String) (db : Db) (row : DeploymentRow)
    → deployment_of tenant_id deployment_id db ≡ some row
    → deployment_of tenant_id new_id db ≡ none
    → (new_id == deployment_id) ≡ false
ids_differ tenant_id new_id deployment_id db row found fresh =
    elim (Bool-cases (new_id == deployment_id)) [
      | inr differs ↦ differs
      | inl same ↦
          let equal : new_id ≡ deployment_id = (eq_iff new_id deployment_id).0 same in
          let missing : deployment_of tenant_id deployment_id db ≡ none = rw (sym equal) fresh in
          absurd (ground (arith, found, missing))
    ]

module _ (tenant_id new_id deployment_id : String) (result : HealthCheckResult) (db : Db)
    (row copy : DeploymentRow) (found : deployment_of tenant_id deployment_id db ≡ some row)
    (copied : deployment_of tenant_id new_id db ≡ some copy)
    (other : (new_id == deployment_id) ≡ false) where
  -- the last transaction: both rows after it
  settle_rollback_lem :
      (new : List DeploymentRow) × (settle_rollback new_id deployment_id result tenant_id db
        ≡ (ok tt, record db { deployments = new }))
      × (select_one deployment_owner tenant_id (is_deployment new_id) new
          ≡ some (complete_row (status_after result) db.clock copy))
      × (select_one deployment_owner tenant_id (is_deployment deployment_id) new
          ≡ some (if result.is_healthy then record row { status = rolled_back } else row))
  unfolding settle_rollback actions
  settle_rollback_lem =
      let complete = complete_row (status_after result) db.clock in
      let (mid, first, updated, settled) =
        update_deployments-found tenant_id new_id complete db copy (λ r. refl) (λ r. refl) copied in
      let untouched =
        select_one-update_other deployment_owner tenant_id (is_deployment deployment_id)
          (is_deployment new_id) complete (λ r. is_deployment-other new_id deployment_id r other)
          (λ r. is_deployment-other new_id deployment_id r other) db.deployments mid updated
        ∙ found in
      elim (Bool-cases result.is_healthy) [
        | inr sick ↦
            let back = λ (r : DeploymentRow). record r { status = rolled_back } in
            let shown : (if result.is_healthy then back row else row) ≡ row = rw sick refl in
            let branch : (if result.is_healthy
                  then update_deployments tenant_id (is_deployment deployment_id) back
                  else pure tt)
                ≡ pure tt =
              rw sick refl in
            (mid, rw first (rw branch refl), settled, rw shown untouched)
        | inl well ↦
            let back = λ (r : DeploymentRow). record r { status = rolled_back } in
            let (new, second, changed, rolled) =
              update_deployments-found tenant_id deployment_id back
                (record db { deployments = mid }) row (λ r. refl) (λ r. refl) untouched in
            let kept =
              select_one-update_other deployment_owner tenant_id (is_deployment new_id)
                (is_deployment deployment_id) back
                (λ r. is_deployment-other' new_id deployment_id r other)
                (λ r. is_deployment-other' new_id deployment_id r other) mid new changed
              ∙ settled in
            let branch : (if result.is_healthy
                  then update_deployments tenant_id (is_deployment deployment_id) back
                  else pure tt)
                ≡ update_deployments tenant_id (is_deployment deployment_id) back =
              rw well refl in
            let shown : (if result.is_healthy then back row else row) ≡ back row = rw well refl in
            (new, rw first (rw branch second), kept, rw shown rolled)
      ]

module _ (check : Check) (new_id tenant_id deployment_id url : String) (db : Db)
    (row target_row : DeploymentRow) (target : String)
    (found : deployment_of tenant_id deployment_id db ≡ some row)
    (targeted : target_of row ≡ some target)
    (known : deployment_of tenant_id target db ≡ some target_row)
    (own : target_row.tenant_id ≡ tenant_id)
    (fresh : deployment_of tenant_id new_id db ≡ none) where
  other : (new_id == deployment_id) ≡ false
  other = ids_differ tenant_id new_id deployment_id db row found fresh

  -- the database with the copy of the target
  abbrev copied : Db
  copied = record db { deployments = db.deployments ++ copy_of new_id target_row ∷ [] }

  insert_copy_lem : insert_copy new_id target tenant_id db ≡ (ok tt, copied)
  unfolding insert_copy insert_deployment insert store actions
  insert_copy_lem = rw known (rw own (rw (eq_refl tenant_id) refl))

  copy_found : deployment_of tenant_id new_id copied ≡ some (copy_of new_id target_row)
  unfolding insert
  copy_found =
      select_one-insert deployment_owner tenant_id (is_deployment new_id)
        (copy_of new_id target_row) db.deployments _ (rw own (rw (eq_refl tenant_id) refl)) fresh
        (eq_refl new_id)

  original_found : deployment_of tenant_id deployment_id copied ≡ some row
  original_found =
      select_one-append deployment_owner tenant_id (is_deployment deployment_id) db.deployments _
        row found

  -- A rollback of a deployment with a recorded target returns the status of its own health check, and
  -- leaves a new deployment of the target's release, environment and strategy with that status; the
  -- original is ROLLED_BACK if the check was healthy, and is otherwise as it was. The target is a
  -- deployment of the tenant, and the new identifier is not in use.
  pub rollback_deployment_checked :
      let result = check copied url in
      let (r, after) = rollback_deployment check new_id tenant_id deployment_id url db in
      (r
        ≡ ok (record {
          rollback_deployment_id = new_id;
          status = status_after result;
          detail = result.detail;
        }))
      × (deployment_of tenant_id new_id after
          ≡ some (complete_row (status_after result) db.clock (copy_of new_id target_row)))
      × (deployment_of tenant_id deployment_id after
          ≡ some (if result.is_healthy then record row { status = rolled_back } else row))
  unfolding rollback_deployment require_deployment actions
  rollback_deployment_checked =
      let result = check copied url in
      let (new, settled, copy, original) =
        settle_rollback_lem tenant_id new_id deployment_id result copied row _ original_found
          copy_found other in
      let event =
        if result.is_healthy then "DEPLOYMENT_ROLLED_BACK" else "DEPLOYMENT_ROLLBACK_FAILED" in
      let audited =
        audit_deployment_lem tenant_id event deployment_id (record copied { deployments = new }) in
      rw found (rw targeted (rw insert_copy_lem (rw settled (rw audited (refl, copy, original)))))
