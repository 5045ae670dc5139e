-- ===== src/ControlPlane/Deployments/Tests.antt =====
-- A deployment to production that is approved, and the rollback of one that has no URL to check.
use ai_digital_office_os.Prelude.{true, false, ◌≡◌, ◌⊎◌, refl, none, some, [], ◌∷◌}
use ai_digital_office_os.Failure.{ok, err}
use ai_digital_office_os.Schema.{
  Db, empty_db, ApprovalRow, approved, DeploymentRow, healthy, rolled_back,
}
use ai_digital_office_os.Db.{actions, select_one, insert, store}
use ai_digital_office_os.Db.References.{deployment_refers, no_such_key}
use ai_digital_office_os.Db.Tables.{insert_deployment, insert_idempotency}
use ai_digital_office_os.Deployment.{Check, http, deployment_of, complete_row}
use ai_digital_office_os.ControlPlane.Body.{post_params}
use ai_digital_office_os.ControlPlane.Idempotency.{find_response, with_idempotent_write, write_once}
use ai_digital_office_os.ControlPlane.Deployments.{
  CreateDeploymentBody, find_release, find_production_request, check_production, check_environment,
  new_row, camelize_deployment, register_deployment, set_status, check_created, create_deployment,
  unchecked_row, rollback,
}
use ai_digital_office_os.ControlPlane.Deployments.Creation.{
  is_allowed, create_deployment_approved, create_deployment_checked,
}
use ai_digital_office_os.ControlPlane.Deployments.Unchecked.{rollback_repeats}

abbrev up : Check
up db url = record { is_healthy = true; detail = http 200 }

abbrev go_live : CreateDeploymentBody
go_live = record {
  project_id = some "p";
  release_id = some "r";
  environment = some "production";
  strategy = some "standard";
  health_check_url = some "http://x";
  approval_request_id = some "appr-1";
}

abbrev grant : ApprovalRow
grant = record {
  request_id = "appr-1";
  tenant_id = "t";
  requester = some "ann";
  agent_id = none;
  action = "DEPLOYMENT_PRODUCTION";
  risk_level = "RED";
  reason = none;
  approver = some "bob";
  decision = some approved;
  expires_at = none;
  decided_at = some 3;
}

abbrev shop : Db
shop = record empty_db {
  organizations = record { tenant_id = "t" } ∷ [];
  projects = record { project_id = "p"; tenant_id = "t" } ∷ [];
  releases = record { release_id = "r"; tenant_id = "t" } ∷ [];
  approvals = grant ∷ [];
}

allowed : is_allowed up "d-1" "t" "k" go_live shop ≡ true
unfolding select_one
allowed = refl

known : find_release "t" "r" shop ≡ some (record { release_id = "r"; tenant_id = "t" })
unfolding select_one
known = refl

new : find_response "t" (post_params "t" "k" "/deployments") shop ≡ none
unfolding select_one
new = refl

fresh : deployment_of "t" "d-1" shop ≡ none
unfolding select_one
fresh = refl

create_deployment_checked_example :
    let (r, after) = create_deployment up "d-1" "t" "k" go_live shop in
    ((deployment_refers (new_row "d-1" "t" go_live) shop ≡ true)
      × (r ≡ ok (201, set_status healthy (camelize_deployment (new_row "d-1" "t" go_live))))
      × (deployment_of "t" "d-1" after ≡ some (complete_row healthy 0 (new_row "d-1" "t" go_live))))
    ⊎ ((deployment_refers (new_row "d-1" "t" go_live) shop ≡ false)
        × (r ≡ err no_such_key)
        × (after ≡ shop))
create_deployment_checked_example =
    create_deployment_checked up "d-1" "t" "k" go_live shop refl refl new
      (record { release_id = "r"; tenant_id = "t" }) known allowed fresh

abbrev quiet : CreateDeploymentBody
quiet = record go_live { health_check_url = none }

abbrev quietly : Db
quietly = record shop {
  deployments = new_row "d-1" "t" quiet ∷ [];
  idempotency_keys =
      record {
        tenant_id = "t";
        idempotency_key = "k";
        method = "POST";
        path = "/deployments";
        response_status = 201;
        response_body = camelize_deployment (new_row "d-1" "t" quiet);
      }
      ∷ [];
}

ran :
    create_deployment up "d-1" "t" "k" quiet shop
    ≡ (ok (201, camelize_deployment (new_row "d-1" "t" quiet)), quietly)
unfolding create_deployment register_deployment check_environment check_production check_created
    with_idempotent_write write_once insert_deployment insert_idempotency insert select_one store
    actions
ran = refl

create_deployment_approved_example :
    (approval : ApprovalRow) × (find_production_request "t" "t" "appr-1" shop ≡ some approval)
    × (approval.decision ≡ some approved)
create_deployment_approved_example =
    create_deployment_approved up "d-1" "t" "k" quiet shop quietly _ ran new refl

abbrev broken : DeploymentRow
broken = record (new_row "d-2" "t" quiet) { release_id = "bad"; rollback_target = some "d-1" }

abbrev broken_shop : Db
broken_shop = record shop { deployments = new_row "d-1" "t" quiet ∷ broken ∷ [] }

broken_found : deployment_of "t" "d-2" broken_shop ≡ some broken
unfolding select_one
broken_found = refl

broken_new : find_response "t" (post_params "t" "k" "/p") broken_shop ≡ none
unfolding select_one
broken_new = refl

broken_fresh : deployment_of "t" "d-3" broken_shop ≡ none
unfolding select_one
broken_fresh = refl

rollback_repeats_example :
    let (r, after) = rollback up "d-3" "t" "k" "/p" "d-2" broken_shop in
    (r
      ≡ ok (record {
        status = 202;
        body = camelize_deployment (unchecked_row "d-3" broken);
        replayed = false;
      }))
    × (deployment_of "t" "d-3" after ≡ some (unchecked_row "d-3" broken))
    × (deployment_of "t" "d-2" after ≡ some (record broken { status = rolled_back }))
rollback_repeats_example =
    rollback_repeats up "d-3" "t" "k" "/p" "d-1" broken_shop broken broken_found refl refl refl
      broken_new broken_fresh
