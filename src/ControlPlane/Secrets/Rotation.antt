-- ===== src/ControlPlane/Secrets/Rotation.antt =====
-- secrets.ts: what a rotation writes, and that it leaves every pointer as it was.
use ai_digital_office_os.Prelude.{
  ℕ, String, Bool, false, ◌≡◌, refl, none, some, List, [], ◌∷◌, ◌++◌, map, Bool-cases, inl, inr,
  arith, eq_refl, ◌&&◌, ◌≢◌, ap, eq_iff,
}
use ai_digital_office_os.Failure.{ok, >>=-eq-ok}
use ai_digital_office_os.Schema.{Db, SecretRow}
use ai_digital_office_os.Db.{actions, insert, store, update, update_row, visible}
use ai_digital_office_os.Db.Rows.{update_row-hit, update_row-miss, update_passes, select_one-update}
use ai_digital_office_os.Db.Tables.{secret_owner, update_secrets, insert_audit, insert_idempotency}
use ai_digital_office_os.Auth.{AuthenticatedPrincipal}
use ai_digital_office_os.ControlPlane.Body.{post_params}
use ai_digital_office_os.ControlPlane.Idempotency.{
  find_response, response_row, with_idempotent_write, write_once,
}
use ai_digital_office_os.ControlPlane.Middleware.{with_request_tenant}
use ai_digital_office_os.ControlPlane.Secrets.{
  has_reference, find_reference, rotated_row, rotation_event, rotation_body, write_rotation,
  rotate_secret,
}

-- a reference without the bookkeeping of its rotation
abbrev pub unrotated : SecretRow → SecretRow
unrotated row = record row { last_rotated_at = none }

pointers_stay :
    (tenant : String) (p : SecretRow → Bool) (now : ℕ) (rows rows' : List SecretRow)
    → update secret_owner tenant p (rotated_row now) rows ≡ ok rows'
    → map unrotated rows' ≡ map unrotated rows
unfolding update
pointers_stay tenant p now [] rows' h =
    let result : rows' ≡ [] = ground (arith, h) in rw result refl
pointers_stay tenant p now (row ∷ rows) rows' h =
    let (r, hr, h₁) = >>=-eq-ok (update_row secret_owner tenant p (rotated_row now) row) _ h in
    let (rs, hrs, h₂) = >>=-eq-ok (update secret_owner tenant p (rotated_row now) rows) _ h₁ in
    let result : rows' ≡ r ∷ rs = ground (arith, h₂) in
    let later = pointers_stay tenant p now rows rs hrs in
    elim (Bool-cases (visible tenant (secret_owner row) && p row)) [
      | inl hit ↦
          let (changed, own) =
            update_row-hit secret_owner tenant p (rotated_row now) row r hr hit in
          rw (result, changed) (ap (λ xs. unrotated row ∷ xs) later)
      | inr miss ↦
          let same = update_row-miss secret_owner tenant p (rotated_row now) row r hr miss in
          rw (result, same) (ap (λ xs. unrotated row ∷ xs) later)
    ]

module _ (principal : AuthenticatedPrincipal) (key path reference_id triggered_at : String)
    (db : Db) (secret : SecretRow) where
  -- A rotation that a caller with a tenant identifier asks for under a new key, of a secret that the
  -- tenant has, is answered with 202. It writes the time into the secret's reference, one audit event
  -- that names the caller, and the response under its key; every reference keeps its vault path and
  -- its scope.
  pub rotate_secret_rotates :
      principal.tenant_id ≢ ""
      → find_response principal.tenant_id (post_params principal.tenant_id key path) db ≡ none
      → find_reference principal.tenant_id reference_id db ≡ some secret
      → (rows : List SecretRow) × (rotate_secret
            (some principal)
            key
            path
            reference_id
            triggered_at
            db
          ≡ (
            ok (record {
              status = 202;
              body = rotation_body reference_id triggered_at;
              replayed = false;
            }),
            record db {
              secrets = rows;
              audit_events = db.audit_events ++ rotation_event principal ∷ [];
              idempotency_keys =
                  db.idempotency_keys
                  ++ response_row
                      (post_params principal.tenant_id key path)
                      202
                      (rotation_body reference_id triggered_at)
                    ∷ [];
            },
          ))
        × (map unrotated rows ≡ map unrotated db.secrets)
        × (find_reference principal.tenant_id reference_id (record db { secrets = rows })
            ≡ some (rotated_row db.clock secret))
  unfolding rotate_secret write_rotation with_request_tenant with_idempotent_write write_once
      update_secrets insert_audit insert_idempotency insert store actions
  rotate_secret_rotates named fresh found =
      let tenant = principal.tenant_id in
      let (rows, passes) =
        update_passes secret_owner tenant (has_reference reference_id) (rotated_row db.clock)
          (λ r seen. seen) db.secrets in
      (
        rows,
        ground (arith, named, fresh, found, passes, eq_refl tenant, eq_iff tenant ""),
        pointers_stay tenant (has_reference reference_id) db.clock db.secrets rows passes,
        select_one-update secret_owner tenant (has_reference reference_id) (rotated_row db.clock)
            (λ r h. h) db.secrets rows secret passes found,
      )
