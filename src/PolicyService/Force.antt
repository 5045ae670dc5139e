-- ===== src/PolicyService/Force.antt =====
-- policies.ts: what is written is what is read, and what the policy checks of the other services use.
use ai_digital_office_os.Prelude.{
  String, Bool, true, false, not, ◌&&◌, ◌≡◌, refl, Option, none, some, List, [], ◌∷◌, arith, find,
  Bool-cases, inl, inr, ◌==◌, eq_iff, eq_refl,
}
use ai_digital_office_os.Failure.{ok, >>=-eq-ok, Result-cases}
use ai_digital_office_os.Schema.{Db, PolicyRow}
use ai_digital_office_os.PolicyEngine.{PolicyRule, parse_policy_rules}
use ai_digital_office_os.Governance.{
  policy_owner, get_tenant_policy_rules, active_policy, is_own, get_tenant_policy_rules_lem,
}
use ai_digital_office_os.Db.{actions, visible, writable, select_one, update, update_row, store}
use ai_digital_office_os.Db.Rows.{update_row-hit, update_row-miss, select_one-insert}
use ai_digital_office_os.PolicyService.{
  UpsertPolicyInput, PolicyRecord, record_of, or_else, policy_row, has_id, exclude, returned,
  upsert_rows, conflict_of, write_policy, upsert_policy, is_owned, get_policy,
}

writable-owner : (client : String) (o : Option String) → writable client o ≡ true → o ≡ some client
writable-owner client none h = cc
writable-owner client (some t) h = let same : t ≡ client = (eq_iff t client).0 h in rw same refl

-- A query of the tenant's rows finds the row written, if it finds no other row.
module _ (client : String) (row : PolicyRow) (p : PolicyRow → Bool) where
  abbrev others : PolicyRow → Bool
  others r = p r && not (has_id row.policy_id r)

  find-update :
      (rows rows' : List PolicyRow) (old : PolicyRow)
      → find (has_id row.policy_id) rows ≡ some old
      → select_one policy_owner client others rows ≡ none
      → (old.tenant_id ≡ some client → p (exclude row old) ≡ true)
      → visible client old.tenant_id ≡ true
      → update policy_owner client (has_id row.policy_id) (exclude row) rows ≡ ok rows'
      → (select_one policy_owner client p rows' ≡ some (exclude row old))
        × (old.tenant_id ≡ some client)
  unfolding update select_one
  find-update [] rows' old e h q v u = cc
  find-update (first ∷ rest) rows' old e h q v u =
      let (r, hr, h₁) =
        >>=-eq-ok (update_row policy_owner client (has_id row.policy_id) (exclude row) first) _ u in
      let (rs, hrs, h₂) =
        >>=-eq-ok (update policy_owner client (has_id row.policy_id) (exclude row) rest) _ h₁ in
      let result : rows' ≡ r ∷ rs = ground (arith, h₂) in
      elim (Bool-cases (has_id row.policy_id first)) [
        | inl hit ↦
            let same : first ≡ old = ground (arith, e, hit) in
            let met : (visible client first.tenant_id && has_id row.policy_id first) ≡ true =
              rw same (ground (arith, v, hit, same)) in
            let (changed, own) =
              update_row-hit policy_owner client (has_id row.policy_id) (exclude row) first r hr
                met in
            let mine = writable-owner client old.tenant_id (ground (arith, own, same)) in
            (rw (result, changed, same) (ground (arith, q mine, v)), mine)
        | inr miss ↦
            let unmet : (visible client first.tenant_id && has_id row.policy_id first) ≡ false =
              ground (arith, miss) in
            let same =
              update_row-miss policy_owner client (has_id row.policy_id) (exclude row) first r hr
                unmet in
            let later =
              find-update rest rs old (ground (arith, e, miss)) (ground (arith, h)) q v hrs in
            (rw (result, same) (ground (arith, later.0, h, miss)), later.1)
      ]

find-hit :
    (p : PolicyRow → Bool) (rows : List PolicyRow) (found : PolicyRow)
    → find p rows ≡ some found
    → p found ≡ true
find-hit p [] found e = cc
find-hit p (row ∷ rows) found e = elim (Bool-cases (p row)) [
  | inl hit ↦ let same : row ≡ found = ground (arith, e, hit) in ground (arith, hit, same)
  | inr miss ↦ find-hit p rows found (ground (arith, e, miss))
]

module _ (client : String) (row : PolicyRow) (p : PolicyRow → Bool) where
  select_one-others :
      (rows : List PolicyRow)
      → find (has_id row.policy_id) rows ≡ none
      → select_one policy_owner client (others client row p) rows ≡ none
      → select_one policy_owner client p rows ≡ none
  unfolding select_one
  select_one-others [] e h = refl
  select_one-others (first ∷ rest) e h = ground (arith, e, h, select_one-others rest)

  upsert_rows-select_one :
      (rows rows' : List PolicyRow)
      → select_one policy_owner client (others client row p) rows ≡ none
      → p row ≡ true
      → ((old : PolicyRow)
          → old.policy_id ≡ row.policy_id
          → old.tenant_id ≡ some client
          → p (exclude row old) ≡ true)
      → (conflict : Option PolicyRow) → find (has_id row.policy_id) rows ≡ conflict
      → upsert_rows client row conflict rows ≡ ok rows'
      → select_one policy_owner client p rows' ≡ some (returned row conflict)
  unfolding upsert_rows
  upsert_rows-select_one rows rows' h new changed none e u =
      select_one-insert policy_owner client p row rows rows' u (select_one-others rows e h) new
  upsert_rows-select_one rows rows' h new changed (some old) e u =
      let met = find-hit (has_id row.policy_id) rows old e in
      let same = (eq_iff old.policy_id row.policy_id).0 met in
      elim (Bool-cases (visible client old.tenant_id)) [
        | inl seen ↦
            (find-update client row p rows rows' old e h (changed old same) seen
              (ground (arith, u, seen))).0
        | inr hidden ↦ ground (arith, u, hidden)
      ]

-- an upsert that returns has stored the row, and gives back what the row holds
upsert_policy-eq-ok :
    (new_id tenant_id : String) (input : UpsertPolicyInput) (db after : Db) (written : PolicyRecord)
    → upsert_policy new_id tenant_id input db ≡ (ok written, after)
    → let row = policy_row tenant_id (or_else input.policy_id new_id) input db.clock in
      (rows : List PolicyRow) × (rules : List PolicyRule) × (upsert_rows tenant_id row
          (conflict_of row db)
          db.policies
        ≡ ok rows)
      × (parse_policy_rules (some input.rules) ≡ ok rules)
      × (written ≡ record_of (returned row (conflict_of row db)) rules)
      × (after ≡ record db { policies = rows })
unfolding upsert_policy write_policy store actions
upsert_policy-eq-ok new_id tenant_id input db after written h =
    let row = policy_row tenant_id (or_else input.policy_id new_id) input db.clock in
    elim (Result-cases (parse_policy_rules (some input.rules))) [
      | inl (rules, good) ↦
          elim (Result-cases (upsert_rows tenant_id row (conflict_of row db) db.policies)) [
            | inl (rows, stored) ↦ (
              rows,
              rules,
              stored,
              good,
              ground (arith, h, good, stored),
              ground (arith, h, good, stored),
            )
            | inr (e, failed) ↦ absurd (ground (arith, h, good, failed))
          ]
      | inr (e, bad) ↦ absurd (ground (arith, h, bad))
    ]

returned-rules :
    (row : PolicyRow) (conflict : Option PolicyRow) → (returned row conflict).rules ≡ row.rules
returned-rules row none = refl
returned-rules row (some old) = refl

returned-policy_id :
    (row : PolicyRow) (rows : List PolicyRow) (conflict : Option PolicyRow)
    → find (has_id row.policy_id) rows ≡ conflict
    → (returned row conflict).policy_id ≡ row.policy_id
returned-policy_id row rows none e = refl
returned-policy_id row rows (some old) e =
    (eq_iff old.policy_id row.policy_id).0 (find-hit (has_id row.policy_id) rows old e)

returned-status :
    (row : PolicyRow) (conflict : Option PolicyRow) → (returned row conflict).status ≡ row.status
returned-status row none = refl
returned-status row (some old) = refl

-- a query for the one identifier has no others
no_others :
    (client policy_id : String) (row : PolicyRow) (rows : List PolicyRow)
    → policy_id ≡ row.policy_id
    → select_one policy_owner client
        (others client row (λ r. is_owned client r && has_id policy_id r))
        rows
      ≡ none
unfolding select_one
no_others client policy_id row [] same = refl
no_others client policy_id row (first ∷ rest) same =
    rw same (ground (arith, no_others client policy_id row rest same, same))

-- A policy that an upsert returned is what the registry gives back under its identifier, whether the
-- upsert created it or replaced one.
pub get_policy-upsert_policy :
    (new_id tenant_id : String) (input : UpsertPolicyInput) (db after : Db) (written : PolicyRecord)
    → upsert_policy new_id tenant_id input db ≡ (ok written, after)
    → get_policy tenant_id written.policy_id after ≡ (ok written, after)
unfolding get_policy actions
get_policy-upsert_policy new_id tenant_id input db after written h =
    let row = policy_row tenant_id (or_else input.policy_id new_id) input db.clock in
    let (rows, rules, stored, good, what, left) =
      upsert_policy-eq-ok new_id tenant_id input db after written h in
    let named : written.policy_id ≡ row.policy_id =
      rw what (returned-policy_id row db.policies (conflict_of row db) refl) in
    let found =
      upsert_rows-select_one tenant_id row (λ r. is_owned tenant_id r && has_id written.policy_id r)
        db.policies rows (no_others tenant_id written.policy_id row db.policies named)
        (ground (arith, named, eq_refl tenant_id, eq_refl row.policy_id))
        (λ old same mine.
          ground (arith, named, same, mine, eq_refl tenant_id, eq_refl row.policy_id))
        (conflict_of row db) refl stored in
    let parsed : parse_policy_rules (some (returned row (conflict_of row db)).rules) ≡ ok rules =
      rw (returned-rules row (conflict_of row db)) good in
    ground (arith, left, found, parsed, what)

-- A policy that an upsert returned as ACTIVE is the one in force from then on, unless the tenant has
-- another ACTIVE policy of its own: every policy check of the tenant's uses its rules.
pub get_tenant_policy_rules-upsert_policy :
    (new_id tenant_id : String) (input : UpsertPolicyInput) (db after : Db) (written : PolicyRecord)
    → upsert_policy new_id tenant_id input db ≡ (ok written, after)
    → written.status ≡ "ACTIVE"
    → select_one policy_owner tenant_id
        (λ r. (is_own r && r.status == "ACTIVE") && not (has_id written.policy_id r))
        db.policies
      ≡ none
    → get_tenant_policy_rules tenant_id after ≡ (ok written.rules, after)
unfolding active_policy
get_tenant_policy_rules-upsert_policy new_id tenant_id input db after written h in_force alone =
    let row = policy_row tenant_id (or_else input.policy_id new_id) input db.clock in
    let (rows, rules, stored, good, what, left) =
      upsert_policy-eq-ok new_id tenant_id input db after written h in
    let named : written.policy_id ≡ row.policy_id =
      rw what (returned-policy_id row db.policies (conflict_of row db) refl) in
    let active : row.status ≡ "ACTIVE" =
      ground (arith, what, in_force, returned-status row (conflict_of row db)) in
    let is_active : (row.status == "ACTIVE") ≡ true = (eq_iff row.status "ACTIVE").1 active in
    let found =
      upsert_rows-select_one tenant_id row (λ r. is_own r && r.status == "ACTIVE") db.policies rows
        (rw named at alone) is_active (λ old same mine. ground (arith, mine, is_active))
        (conflict_of row db) refl stored in
    let parsed : parse_policy_rules (some (returned row (conflict_of row db)).rules) ≡ ok rules =
      rw (returned-rules row (conflict_of row db)) good in
    rw (get_tenant_policy_rules_lem tenant_id after) (ground (arith, left, found, parsed, what))
