-- ===== src/ControlPlane/Idempotency/Replay.antt =====
-- withIdempotentWrite: a request that is sent again.
use ai_digital_office_os.Prelude.{
  ℕ, true, false, ◌≡◌, refl, ◌∙◌, ap, none, some, [], ◌∷◌, ◌++◌, arith, eq_refl, Option-cases, inl,
  inr, sym,
}
use ai_digital_office_os.Json.{Json}
use ai_digital_office_os.Failure.{Result, ok, err, Result-cases}
use ai_digital_office_os.Schema.{Db, IdempotencyRow}
use ai_digital_office_os.Db.{Action, actions, insert}
use ai_digital_office_os.Db.Keeps.{Keeps}
use ai_digital_office_os.Db.Rows.{select_one-insert}
use ai_digital_office_os.Db.Tables.{idempotency_owner, insert_idempotency}
use ai_digital_office_os.ControlPlane.Idempotency.{
  IdempotentParams, IdempotentResult, has_key, response_row, find_response, write_once,
  with_idempotent_write,
}

abbrev pub replay_of : IdempotencyRow → IdempotentResult
replay_of row = record { status = row.response_status; body = row.response_body; replayed = true }

ok-inj :
    {A : Type 0} {a b : A} {x y : Db}
    → ◌≡◌ {A = Result A × Db} (ok a, x) (ok b, y)
    → (a ≡ b) × (x ≡ y)
ok-inj h = (ground (arith, h), ap (λ p. p.1) h)

module _ (params : IdempotentParams) where
  replay_lem :
      (fn : Action (ℕ × Json)) (db : Db) (row : IdempotencyRow)
      → find_response params.tenant_id params db ≡ some row
      → with_idempotent_write params.tenant_id params fn db ≡ (ok (replay_of row), db)
  unfolding with_idempotent_write write_once actions
  replay_lem fn db row h = rw h refl

  -- what a write that is not on record leaves
  abbrev answered : ℕ × Json → Db → Db
  answered written db = record db {
    idempotency_keys = db.idempotency_keys ++ response_row params written.0 written.1 ∷ [];
  }

  fresh_lem :
      (fn : Action (ℕ × Json)) (db : Db)
      → find_response params.tenant_id params db ≡ none
      → with_idempotent_write params.tenant_id params fn db
        ≡ (elim (fn db).0 as (λ x. Result IdempotentResult × Db) [
          | ok w ↦
              (ok (record { status = w.0; body = w.1; replayed = false }), answered w (fn db).1)
          | err e ↦ (err e, (fn db).1)
        ])
  unfolding with_idempotent_write write_once insert_idempotency insert actions
  fresh_lem fn db h = ground (arith, h, eq_refl params.tenant_id)

  find_response-answered :
      (written : ℕ × Json) (db : Db)
      → find_response params.tenant_id params db ≡ none
      → find_response params.tenant_id params (answered written db)
        ≡ some (response_row params written.0 written.1)
  unfolding insert
  find_response-answered written db h =
      select_one-insert idempotency_owner params.tenant_id (has_key params)
        (response_row params written.0 written.1) db.idempotency_keys _
        (rw (eq_refl params.tenant_id) refl) h
        (rw (eq_refl params.tenant_id, eq_refl params.idempotency_key) refl)

  -- A request that was answered, and is sent again under the same key, gets the same status and body
  -- as a replay and changes nothing, whatever write comes with it; the first request's write is one
  -- that leaves the table of keys alone.
  pub with_idempotent_write-replays :
      (fn again : Action (ℕ × Json)) (db after : Db) (r : IdempotentResult)
      → Keeps (λ d. d.idempotency_keys) fn
      → with_idempotent_write params.tenant_id params fn db ≡ (ok r, after)
      → with_idempotent_write params.tenant_id params again after
        ≡ (ok (record r { replayed = true }), after)
  with_idempotent_write-replays fn again db after r kept h =
      elim (Option-cases (find_response params.tenant_id params db)) [
        | inr (row, found) ↦
            let (same, stays) = ok-inj (sym (replay_lem fn db row found) ∙ h) in
            rw (sym same, sym stays) (replay_lem again db row found)
        | inl new ↦ elim (Result-cases (fn db).0) [
          | inl (written, passed) ↦
              let first : ◌≡◌ {A = Result IdempotentResult × Db} _ (ok r, after) =
                rw passed at (sym (fresh_lem fn db new) ∙ h) in
              let (same, stays) = ok-inj first in
              let found = find_response-answered written (fn db).1 (rw (kept.at db) new) in
              rw (sym same, sym stays) (replay_lem again _ _ found)
          | inr (e, threw) ↦
              let first : ◌≡◌ {A = Result IdempotentResult × Db} (err e, _) (ok r, after) =
                rw threw at (sym (fresh_lem fn db new) ∙ h) in
              absurd (ground (arith, ap (λ x. x.0) first))
        ]
      ]
