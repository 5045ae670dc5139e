-- ===== src/Deployment/Tests.antt =====
-- The theorems on deployments, at a deployment with a rollback target.
use ai_digital_office_os.Prelude.{String, ◌≡◌, refl, Option, none, some, [], ◌∷◌, true}
use ai_digital_office_os.Failure.{ok}
use ai_digital_office_os.Schema.{
  Db, empty_db, DeploymentRow, DeploymentStatus, healthy, failed, rolled_back,
}
use ai_digital_office_os.Db.{select_one}
use ai_digital_office_os.Deployment.{
  Check, http, deployment_of, rollback_deployment, complete_row, copy_of,
}
use ai_digital_office_os.Deployment.Rollback.{rollback_deployment_checked}

abbrev up : Check
up db url = record { is_healthy = true; detail = http 200 }

abbrev release : String → DeploymentStatus → Option String → DeploymentRow
release id status target = record {
  deployment_id = id;
  tenant_id = "t";
  project_id = "project-1";
  release_id = id;
  environment = "PROD";
  strategy = "ROLLING";
  status = status;
  approval_request_id = none;
  rollback_target = target;
  health_check_url = none;
  completed_at = none;
}

abbrev live : DeploymentStatus → Db
live status = record empty_db {
  deployments = release "d0" healthy none ∷ release "d1" status (some "d0") ∷ [];
}

found_in :
    (status : DeploymentStatus)
    → deployment_of "t" "d1" (live status) ≡ some (release "d1" status (some "d0"))
unfolding select_one
found_in status = refl

target_found : deployment_of "t" "d0" (live failed) ≡ some (release "d0" healthy none)
unfolding select_one
target_found = refl

new_is_free : deployment_of "t" "d2" (live failed) ≡ none
unfolding select_one
new_is_free = refl

rollback_deployment_checked_example :
    let (r, after) = rollback_deployment up "d2" "t" "d1" "http://x" (live failed) in
    (r ≡ ok (record { rollback_deployment_id = "d2"; status = healthy; detail = http 200 }))
    × (deployment_of "t" "d2" after
        ≡ some (complete_row healthy 0 (copy_of "d2" (release "d0" healthy none))))
    × (deployment_of "t" "d1" after ≡ some (release "d1" rolled_back (some "d0")))
rollback_deployment_checked_example =
    rollback_deployment_checked up "d2" "t" "d1" "http://x" (live failed)
      (release "d1" failed (some "d0")) (release "d0" healthy none) "d0" (found_in failed) refl
      target_found refl new_is_free
