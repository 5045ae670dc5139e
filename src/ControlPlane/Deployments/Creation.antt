-- ===== src/ControlPlane/Deployments/Creation.antt =====
-- POST /deployments: production needs an approval, and what is created is checked.
use ai_digital_office_os.Prelude.{
  ℕ, String, Bool, true, false, not, ◌&&◌, ◌||◌, ◌≡◌, refl, inl, inr, Option, none, some, [], ◌∷◌,
  ◌++◌, ap, ◌⊎◌, arith, Bool-cases, Option-cases, eq_refl,
}
use ai_digital_office_os.Json.{Json}
use ai_digital_office_os.Failure.{Failure, Result, ok, err}
use ai_digital_office_os.Schema.{
  Db, DeploymentRow, ReleaseRow, ApprovalRow, ApprovalDecision, approved, denied, expired,
}
use ai_digital_office_os.Db.{actions, insert, with_tenant_transaction}
use ai_digital_office_os.Db.Rows.{select_one-insert}
use ai_digital_office_os.Db.References.{deployment_refers, no_such_key}
use ai_digital_office_os.Db.Tables.{deployment_owner, insert_deployment, insert_idempotency}
use ai_digital_office_os.Deployment.{
  Check, deployment_of, is_deployment, status_after, complete_row,
}
use ai_digital_office_os.Deployment.Advance.{advance_deployment_checked}
use ai_digital_office_os.ControlPlane.Errors.{validation, policy_denied}
use ai_digital_office_os.ControlPlane.Body.{given, text_of, post_params}
use ai_digital_office_os.ControlPlane.Idempotency.{
  IdempotentParams, find_response, response_row, write_once, with_idempotent_write,
}
use ai_digital_office_os.ControlPlane.Agents.Versions.{is_approved}
use ai_digital_office_os.ControlPlane.Deployments.{
  CreateDeploymentBody, is_complete, find_release, find_production_request, is_granted,
  is_production, check_production, check_environment, new_row, camelize_deployment,
  register_deployment, set_status, check_created, create_deployment,
}

module _ (check : Check) (new_id tenant_id key : String) (body : CreateDeploymentBody)
    (db : Db) where
  abbrev params : IdempotentParams
  params = post_params tenant_id key "/deployments"

  -- the request that the body names
  abbrev request : Option ApprovalRow
  request = find_production_request tenant_id tenant_id (text_of body.approval_request_id) db

  -- a deployment to production names a request that is APPROVED
  abbrev pub is_allowed : Bool
  is_allowed =
      not (is_production body.environment) || (given body.approval_request_id && is_granted request)

  abbrev gate : Bool → Result (Unit {0}) × Db
  gate true = (ok tt, db)
  gate false = (err policy_denied, db)

  check_production_lem :
      check_production tenant_id tenant_id body db
      ≡ gate (given body.approval_request_id && is_granted request)
  unfolding check_production actions
  check_production_lem = elim (Bool-cases (given body.approval_request_id)) [
    | inr absent ↦ rw absent refl
    | inl present ↦ elim (Bool-cases (is_granted request)) [
      | inl approves ↦ rw (present, approves) refl
      | inr denies ↦ rw (present, denies) refl
    ]
  ]

  check_environment_lem : check_environment tenant_id tenant_id body db ≡ gate is_allowed
  unfolding check_environment actions
  check_environment_lem = elim (Bool-cases (is_production body.environment)) [
    | inl strict ↦ rw strict check_production_lem
    | inr free ↦ rw free refl
  ]

  register_refused :
      is_allowed ≡ false
      → (e : Failure) × (register_deployment tenant_id new_id tenant_id body db ≡ (err e, db))
  unfolding register_deployment actions
  register_refused h =
      let refused : check_environment tenant_id tenant_id body db ≡ (err policy_denied, db) =
        rw h at check_environment_lem in
      elim (Option-cases (find_release tenant_id (text_of body.release_id) db)) [
        | inl missing ↦ (validation, rw missing refl)
        | inr (release, known) ↦ (policy_denied, rw known (rw refused refl))
      ]

  abbrev row : DeploymentRow
  row = new_row new_id tenant_id body

  register_passed :
      (release : ReleaseRow)
      → find_release tenant_id (text_of body.release_id) db ≡ some release
      → is_allowed ≡ true
      → deployment_refers row db ≡ true
      → register_deployment tenant_id new_id tenant_id body db ≡ (
        ok (201, camelize_deployment row),
        record db { deployments = db.deployments ++ row ∷ [] },
      )
  unfolding register_deployment insert_deployment insert actions
  register_passed release known h refers =
      let passed : check_environment tenant_id tenant_id body db ≡ (ok tt, db) =
        rw h at check_environment_lem in
      rw known (rw passed (rw refers (rw (eq_refl tenant_id) refl)))

decision_sound : (d : Option ApprovalDecision) → is_approved d ≡ true → d ≡ some approved
decision_sound none h = cc
decision_sound (some approved) h = refl
decision_sound (some denied) h = cc
decision_sound (some expired) h = cc

granted_sound :
    (o : Option ApprovalRow)
    → is_granted o ≡ true
    → (approval : ApprovalRow) × (o ≡ some approval) × (approval.decision ≡ some approved)
granted_sound none h = cc
granted_sound (some row) h = (row, refl, decision_sound row.decision h)

-- A deployment to production that is answered under a key that is not on record names a request for
-- a production deployment of the tenant's that is APPROVED.
pub create_deployment_approved :
    (check : Check) (new_id tenant_id key : String) (body : CreateDeploymentBody) (db after : Db)
    (r : ℕ × Json)
    → create_deployment check new_id tenant_id key body db ≡ (ok r, after)
    → find_response tenant_id (post_params tenant_id key "/deployments") db ≡ none
    → is_production body.environment ≡ true
    → (approval : ApprovalRow) × (find_production_request tenant_id tenant_id
          (text_of body.approval_request_id)
          db
        ≡ some approval)
      × (approval.decision ≡ some approved)
unfolding create_deployment with_idempotent_write write_once actions
create_deployment_approved check new_id tenant_id key body db after r h new production =
    elim (Bool-cases (is_allowed check new_id tenant_id key body db)) [
      | inl allowed ↦ granted_sound _ (ground (arith, allowed, production))
      | inr refused ↦
          let (e, threw) = register_refused check new_id tenant_id key body db refused in
          absurd (ground (arith, h, new, threw))
    ]

-- the database after the request's own transaction
abbrev pub created : String → String → String → CreateDeploymentBody → Db → Db
created new_id tenant_id key body db = record db {
  deployments = db.deployments ++ new_row new_id tenant_id body ∷ [];
  idempotency_keys =
      db.idempotency_keys
      ++ response_row (post_params tenant_id key "/deployments") 201
          (camelize_deployment (new_row new_id tenant_id body))
        ∷ [];
}

module _ (check : Check) (new_id tenant_id key : String) (body : CreateDeploymentBody) (db : Db)
    (complete : is_complete body ≡ true) (url : given body.health_check_url ≡ true)
    (new : find_response tenant_id (post_params tenant_id key "/deployments") db ≡ none)
    (release : ReleaseRow)
    (known : find_release tenant_id (text_of body.release_id) db ≡ some release)
    (allowed : is_allowed check new_id tenant_id key body db ≡ true)
    (refers : deployment_refers (new_row new_id tenant_id body) db ≡ true)
    (fresh : deployment_of tenant_id new_id db ≡ none) where
  abbrev made : DeploymentRow
  made = new_row new_id tenant_id body

  abbrev after_write : Db
  after_write = created new_id tenant_id key body db

  made_found : deployment_of tenant_id new_id after_write ≡ some made
  unfolding insert
  made_found =
      select_one-insert deployment_owner tenant_id (is_deployment new_id) made db.deployments _
        (rw (eq_refl tenant_id) refl) fresh (eq_refl new_id)

  write_lem :
      with_tenant_transaction tenant_id
        (λ client.
          with_idempotent_write client
            (post_params tenant_id key "/deployments")
            (register_deployment client new_id tenant_id body))
        db
      ≡ (
        ok (record { status = 201; body = camelize_deployment made; replayed = false }),
        after_write,
      )
  unfolding with_idempotent_write write_once insert_idempotency insert actions
  write_lem =
      let passed =
        register_passed check new_id tenant_id key body db release known allowed refers in
      rw new (rw passed (rw (eq_refl tenant_id) refl))

  create_deployment_added :
      let result = check after_write (text_of body.health_check_url) in
      let (r, after) = create_deployment check new_id tenant_id key body db in
      (r ≡ ok (201, set_status (status_after result) (camelize_deployment made)))
      × (deployment_of tenant_id new_id after
          ≡ some (complete_row (status_after result) db.clock made))
  unfolding create_deployment check_created actions
  create_deployment_added =
      let (advanced, changed, _) =
        advance_deployment_checked check tenant_id new_id (text_of body.health_check_url)
          after_write made made_found refl in
      rw complete (rw write_lem (rw url (rw advanced (refl, changed))))

module _ (check : Check) (new_id tenant_id key : String) (body : CreateDeploymentBody) (db : Db)
    (complete : is_complete body ≡ true) (url : given body.health_check_url ≡ true)
    (new : find_response tenant_id (post_params tenant_id key "/deployments") db ≡ none)
    (release : ReleaseRow)
    (known : find_release tenant_id (text_of body.release_id) db ≡ some release)
    (allowed : is_allowed check new_id tenant_id key body db ≡ true)
    (fresh : deployment_of tenant_id new_id db ≡ none) where
  create_deployment_refused :
      deployment_refers (new_row new_id tenant_id body) db ≡ false
      → create_deployment check new_id tenant_id key body db ≡ (err no_such_key, db)
  unfolding create_deployment register_deployment with_idempotent_write write_once actions
  create_deployment_refused missing =
      let passed : check_environment tenant_id tenant_id body db ≡ (ok tt, db) =
        rw allowed at (check_environment_lem check new_id tenant_id key body db) in
      rw complete (rw new (rw known (rw passed (rw missing refl))))

  -- A deployment that is allowed, of a known release and with a URL to check, under a key that is not
  -- on record, does one of two things. If its project, its tenant and the approval request that it
  -- names, if any, are there, it answers 201; the status answered and that of the new deployment is
  -- the one of the health check after the creation, HEALTHY or FAILED, and its other columns are the
  -- request's. If one of them is not there, it throws and changes nothing.
  pub create_deployment_checked :
      let row = new_row new_id tenant_id body in
      let result = check (created new_id tenant_id key body db) (text_of body.health_check_url) in
      let (r, after) = create_deployment check new_id tenant_id key body db in
      ((deployment_refers row db ≡ true)
        × (r ≡ ok (201, set_status (status_after result) (camelize_deployment row)))
        × (deployment_of tenant_id new_id after
            ≡ some (complete_row (status_after result) db.clock row)))
      ⊎ ((deployment_refers row db ≡ false) × (r ≡ err no_such_key) × (after ≡ db))
  create_deployment_checked =
      elim (Bool-cases (deployment_refers (new_row new_id tenant_id body) db)) [
        | inl refers ↦
            let (answered, stored) =
              create_deployment_added check new_id tenant_id key body db complete url new release
                known allowed refers fresh in
            inl (refers, answered, stored)
        | inr missing ↦
            let threw = create_deployment_refused missing in
            inr (missing, ap (λ x. x.0) threw, ap (λ x. x.1) threw)
      ]
