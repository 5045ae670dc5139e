-- ===== src/Deployment/Advance.antt =====
-- advanceDeployment: the health check decides the new status, and one audit event says so.
use ai_digital_office_os.Prelude.{
  String, true, false, ◌≡◌, refl, some, List, [], ◌∷◌, ◌++◌, arith, eq_refl, if◌then◌else◌,
}
use ai_digital_office_os.Failure.{ok, err, deployment_error, invalid_state}
use ai_digital_office_os.Schema.{Db, DeploymentRow}
use ai_digital_office_os.Db.{actions, select_one, update, insert, store}
use ai_digital_office_os.Db.Rows.{select_one-update, update_passes}
use ai_digital_office_os.Db.Tables.{deployment_owner, update_deployments, insert_audit}
use ai_digital_office_os.Deployment.{
  Check, deployment_of, is_deployment, require_deployment, audit_deployment, deployment_event,
  is_in_progress, status_after, complete_row, advance_deployment,
}

-- an update of the deployment's row passes, and it is then that row
pub update_deployments-found :
    (tenant_id deployment_id : String) (f : DeploymentRow → DeploymentRow) (db : Db)
    (row : DeploymentRow)
    → ((r : DeploymentRow) → (f r).tenant_id ≡ r.tenant_id)
    → ((r : DeploymentRow) → (f r).deployment_id ≡ r.deployment_id)
    → deployment_of tenant_id deployment_id db ≡ some row
    → (new : List DeploymentRow) × (update_deployments tenant_id (is_deployment deployment_id) f db
        ≡ (ok tt, record db { deployments = new }))
      × (update deployment_owner tenant_id (is_deployment deployment_id) f db.deployments ≡ ok new)
      × (select_one deployment_owner tenant_id (is_deployment deployment_id) new ≡ some (f row))
unfolding update_deployments store
update_deployments-found tenant_id deployment_id f db row keeps same found =
    let (new, passed) =
      update_passes deployment_owner tenant_id (is_deployment deployment_id) f
        (λ r seen. rw (keeps r) seen) db.deployments in
    (
      new,
      rw passed refl,
      passed,
      select_one-update deployment_owner tenant_id (is_deployment deployment_id) f
          (λ r h. rw (same r) h) db.deployments new row passed found,
    )

pub audit_deployment_lem :
    (tenant_id event_type deployment_id : String) (db : Db)
    → audit_deployment tenant_id event_type deployment_id db ≡ (
      ok tt,
      record db {
        audit_events = db.audit_events ++ deployment_event tenant_id event_type deployment_id ∷ [];
      },
    )
unfolding audit_deployment insert_audit insert actions
audit_deployment_lem tenant_id event_type deployment_id db = ground (arith, eq_refl tenant_id)

module _ (check : Check) (tenant_id deployment_id url : String) (db : Db) (row : DeploymentRow)
    (found : deployment_of tenant_id deployment_id db ≡ some row) where
  -- A deployment that is not IN_PROGRESS is refused with INVALID_STATE, and nothing changes.
  pub advance_deployment_refused :
      is_in_progress row.status ≡ false
      → advance_deployment check tenant_id deployment_id url db
        ≡ (err (deployment_error invalid_state), db)
  unfolding advance_deployment require_deployment actions
  advance_deployment_refused h = rw found (rw h refl)

  -- A deployment that is IN_PROGRESS takes the status of its health check, HEALTHY or FAILED, which is
  -- returned with the check's detail, and one audit event is appended, of the kind of that status.
  pub advance_deployment_checked :
      is_in_progress row.status ≡ true
      → let result = check db url in
        let (r, after) = advance_deployment check tenant_id deployment_id url db in
        (r ≡ ok (status_after result, result.detail))
        × (deployment_of tenant_id deployment_id after
            ≡ some (complete_row (status_after result) db.clock row))
        × (after.audit_events
            ≡ db.audit_events
              ++ deployment_event tenant_id
                  (if result.is_healthy then "DEPLOYMENT_HEALTHY" else "DEPLOYMENT_FAILED")
                  deployment_id
                ∷ [])
  unfolding advance_deployment require_deployment actions
  advance_deployment_checked h =
      let (new, outcome, _, changed) =
        update_deployments-found tenant_id deployment_id
          (complete_row (status_after (check db url)) db.clock) db row (λ r. refl) (λ r. refl)
          found in
      let audited =
        audit_deployment_lem tenant_id
          (if (check db url).is_healthy then "DEPLOYMENT_HEALTHY" else "DEPLOYMENT_FAILED")
          deployment_id (record db { deployments = new }) in
      rw found (rw h (rw outcome (rw audited (refl, changed, refl))))
