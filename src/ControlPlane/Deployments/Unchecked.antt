-- ===== src/ControlPlane/Deployments/Unchecked.antt =====
-- POST /deployments/{deploymentId}/rollback, for a deployment without a health check.
use ai_digital_office_os.Prelude.{
  String, true, false, ◌≡◌, refl, ◌∙◌, ◌==◌, none, some, [], ◌∷◌, ◌++◌, eq_refl,
}
use ai_digital_office_os.Failure.{ok}
use ai_digital_office_os.Schema.{Db, DeploymentRow, rolled_back}
use ai_digital_office_os.Db.{actions, insert}
use ai_digital_office_os.Db.Rows.{select_one-insert, select_one-append, select_one-update_other}
use ai_digital_office_os.Db.Tables.{deployment_owner, insert_deployment, insert_idempotency}
use ai_digital_office_os.Deployment.{Check, deployment_of, is_deployment, target_of}
use ai_digital_office_os.Deployment.Advance.{update_deployments-found}
use ai_digital_office_os.Deployment.Rollback.{is_deployment-other', ids_differ}
use ai_digital_office_os.ControlPlane.Body.{given, post_params}
use ai_digital_office_os.ControlPlane.Idempotency.{find_response}
use ai_digital_office_os.ControlPlane.Deployments.{
  unchecked_row, camelize_deployment, require_deployment, rollback_unchecked, rollback_once,
  rollback,
}

module _ (check : Check) (new_id tenant_id key path target : String) (db : Db) (row : DeploymentRow)
    (found : deployment_of tenant_id row.deployment_id db ≡ some row)
    (own : row.tenant_id ≡ tenant_id) (targeted : target_of row ≡ some target)
    (blind : given row.health_check_url ≡ false)
    (new : find_response tenant_id (post_params tenant_id key path) db ≡ none)
    (fresh : deployment_of tenant_id new_id db ≡ none) where
  abbrev added : Db
  added = record db { deployments = db.deployments ++ unchecked_row new_id row ∷ [] }

  -- A rollback of a deployment that has a target and no URL to check answers 202 under a key that is
  -- not on record. It leaves a new deployment in progress of the release that is rolled back itself,
  -- whatever the target, and the old one ROLLED_BACK; the new identifier is not in use.
  pub rollback_repeats :
      let (r, after) = rollback check new_id tenant_id key path row.deployment_id db in
      (r
        ≡ ok (record {
          status = 202;
          body = camelize_deployment (unchecked_row new_id row);
          replayed = false;
        }))
      × (deployment_of tenant_id new_id after ≡ some (unchecked_row new_id row))
      × (deployment_of tenant_id row.deployment_id after
          ≡ some (record row { status = rolled_back }))
  unfolding rollback rollback_once rollback_unchecked require_deployment insert_deployment
      insert_idempotency insert actions
  rollback_repeats =
      let back = λ (r : DeploymentRow). record r { status = rolled_back } in
      let other = ids_differ tenant_id new_id row.deployment_id db row found fresh in
      let copied : deployment_of tenant_id new_id added ≡ some (unchecked_row new_id row) =
        select_one-insert deployment_owner tenant_id (is_deployment new_id)
          (unchecked_row new_id row) db.deployments _ (rw own (rw (eq_refl tenant_id) refl)) fresh
          (eq_refl new_id) in
      let original : deployment_of tenant_id row.deployment_id added ≡ some row =
        select_one-append deployment_owner tenant_id (is_deployment row.deployment_id)
          db.deployments _ row found in
      let (rows, outcome, changed, rolled) =
        update_deployments-found tenant_id row.deployment_id back added row (λ r. refl) (λ r. refl)
          original in
      let kept =
        select_one-update_other deployment_owner tenant_id (is_deployment new_id)
          (is_deployment row.deployment_id) back
          (λ r. is_deployment-other' new_id row.deployment_id r other)
          (λ r. is_deployment-other' new_id row.deployment_id r other) added.deployments rows
          changed in
      let mine : (row.tenant_id == tenant_id) ≡ true = rw own (eq_refl tenant_id) in
      rw new (
        rw found (
          rw targeted (
            rw blind
              (rw mine (rw outcome (rw (eq_refl tenant_id) (refl, kept ∙ copied, rolled)))))))
