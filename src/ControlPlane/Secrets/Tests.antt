-- ===== src/ControlPlane/Secrets/Tests.antt =====
-- Two references of a tenant, one of which is rotated.
use ai_digital_office_os.Prelude.{
  ◌≡◌, ◌≢◌, String, refl, none, some, List, [], ◌∷◌, map, arith, eq_iff, false,
}
use ai_digital_office_os.Failure.{ok}
use ai_digital_office_os.Schema.{Db, SecretRow, empty_db}
use ai_digital_office_os.Db.{select_one}
use ai_digital_office_os.Auth.Tests.{ada}
use ai_digital_office_os.ControlPlane.Body.{post_params}
use ai_digital_office_os.ControlPlane.Idempotency.{find_response, response_row}
use ai_digital_office_os.ControlPlane.Secrets.{
  find_reference, rotated_row, rotation_event, rotation_body, rotate_secret,
}
use ai_digital_office_os.ControlPlane.Secrets.Rotation.{unrotated, rotate_secret_rotates}

abbrev reference_named : String → SecretRow
reference_named name = record {
  reference_id = name;
  tenant_id = "t";
  scope_provider_id = none;
  vault_path = "vault/keys";
  last_rotated_at = none;
  created_at = 0;
}

abbrev vault : Db
vault = record empty_db {
  secrets = reference_named "ref-1" ∷ reference_named "ref-2" ∷ [];
  clock = 5;
}

named : ◌≢◌ {A = String} "t" ""
named = ground (arith, eq_iff "t" "")

fresh : find_response "t" (post_params "t" "key-1" "/secrets/ref-2/rotate") vault ≡ none
unfolding select_one
fresh = refl

found : find_reference "t" "ref-2" vault ≡ some (reference_named "ref-2")
unfolding select_one
found = refl

rotate_secret_rotates_example :
    (rows : List SecretRow) × (rotate_secret
        (some ada)
        "key-1"
        "/secrets/ref-2/rotate"
        "ref-2"
        "noon"
        vault
      ≡ (
        ok (record { status = 202; body = rotation_body "ref-2" "noon"; replayed = false }),
        record vault {
          secrets = rows;
          audit_events = rotation_event ada ∷ [];
          idempotency_keys =
              response_row
                (post_params "t" "key-1" "/secrets/ref-2/rotate")
                202
                (rotation_body "ref-2" "noon")
              ∷ [];
        },
      ))
    × (map unrotated rows ≡ map unrotated vault.secrets)
    × (find_reference "t" "ref-2" (record vault { secrets = rows })
        ≡ some (rotated_row 5 (reference_named "ref-2")))
rotate_secret_rotates_example =
    rotate_secret_rotates ada "key-1" "/secrets/ref-2/rotate" "ref-2" "noon" vault
      (reference_named "ref-2") named fresh found
