-- ===== src/PolicyService/Registry.antt =====
-- policies.ts: only rules that the parser accepts reach the registry, so that its readers and the
-- policy checks of the other services never meet others.
use ai_digital_office_os.Prelude.{
  String, Bool, ◌&&◌, ◌≡◌, refl, Option, none, some, List, [], ◌∷◌, ◌++◌, arith, All, All-append,
  filter, find, ◌==◌, Bool-cases, Option-cases, inl, inr, ◌⊎◌,
}
use ai_digital_office_os.Failure.{ok, err, >>=-eq-ok, Result-cases}
use ai_digital_office_os.Schema.{Db, PolicyRow}
use ai_digital_office_os.PolicyEngine.{PolicyRule, parse_policy_rules}
use ai_digital_office_os.Governance.{
  policy_owner, get_tenant_policy_rules, active_policy, is_own, rules_in,
  get_tenant_policy_rules_lem,
}
use ai_digital_office_os.Db.Ordering.{All-newest_first}
use ai_digital_office_os.Db.{
  actions, visible, select, select_one, insert, update, update_row, store,
}
use ai_digital_office_os.PolicyService.{
  UpsertPolicyInput, PolicyRecord, record_of, to_records, not_found, or_else, policy_row, has_id,
  exclude, upsert_rows, conflict_of, write_policy, upsert_policy, is_owned, list_policies,
  find_policy, get_policy,
}

-- The parser accepts the row's rules.
abbrev pub Parses : PolicyRow → Type 0
Parses row = (rules : List PolicyRule) × (parse_policy_rules (some row.rules) ≡ ok rules)

-- It accepts those of every policy.
abbrev pub IsWellFormed : Db → Type 0
IsWellFormed db = All Parses db.policies

All-find :
    (p : PolicyRow → Bool) (rows : List PolicyRow)
    → All Parses rows
    → (found : PolicyRow) → find p rows ≡ some found
    → Parses found
All-find p [] h found e = cc
All-find p (row ∷ rows) (first, rest) found e = elim (Bool-cases (p row)) [
  | inl hit ↦ let same : row ≡ found = ground (arith, e, hit) in rw same at first
  | inr miss ↦ All-find p rows rest found (rw miss at e)
]

All-filter :
    (p : PolicyRow → Bool) (rows : List PolicyRow) → All Parses rows → All Parses (filter p rows)
All-filter p [] h = tt
All-filter p (row ∷ rows) (first, rest) = elim (Bool-cases (p row)) [
  | inl hit ↦ rw hit (first, All-filter p rows rest)
  | inr miss ↦ rw miss (All-filter p rows rest)
]

module _ (client : String) (row : PolicyRow) (good : Parses row) where
  update-Parses :
      (rows rows' : List PolicyRow)
      → All Parses rows
      → update policy_owner client (has_id row.policy_id) (exclude row) rows ≡ ok rows'
      → All Parses rows'
  unfolding update update_row
  update-Parses [] [] h e = tt
  update-Parses [] (r ∷ rs) h e = cc
  update-Parses (old ∷ rows) [] (first, rest) e = ground arith
  update-Parses (old ∷ rows) (r ∷ rs) (first, rest) e =
      let (r', hr, h₁) =
        >>=-eq-ok (update_row policy_owner client (has_id row.policy_id) (exclude row) old) _ e in
      let (rs', hrs, h₂) =
        >>=-eq-ok (update policy_owner client (has_id row.policy_id) (exclude row) rows) _ h₁ in
      let head : r' ≡ r = ground (arith, h₂) in
      let tail : rs' ≡ rs = ground (arith, h₂) in
      let changed : (r' ≡ exclude row old) ⊎ (r' ≡ old) = ground (arith, hr) in
      (
        elim changed [
          | inl new ↦ let is_new : r ≡ exclude row old = ground (arith, head, new) in rw is_new good
          | inr same ↦ let is_old : r ≡ old = ground (arith, head, same) in rw is_old first
        ],
        update-Parses rows rs rest (ground (arith, hrs, tail)),
      )

  upsert_rows-Parses :
      (old : Option PolicyRow) (rows rows' : List PolicyRow)
      → All Parses rows
      → upsert_rows client row old rows ≡ ok rows'
      → All Parses rows'
  unfolding upsert_rows insert
  upsert_rows-Parses none rows rows' h e =
      let result : rows' ≡ rows ++ row ∷ [] = ground (arith, e) in
      rw result (All-append Parses rows (row ∷ []) h (good, tt))
  upsert_rows-Parses (some old) rows rows' h e = update-Parses rows rows' h (ground (arith, e))

-- A registry whose every policy the parser accepts stays so, whatever is upserted by whom, and
-- whether the call returns or throws.
pub upsert_policy-IsWellFormed :
    (new_id tenant_id : String) (input : UpsertPolicyInput) (db : Db)
    → IsWellFormed db
    → IsWellFormed (upsert_policy new_id tenant_id input db).1
unfolding upsert_policy write_policy store actions
upsert_policy-IsWellFormed new_id tenant_id input db h =
    let row = policy_row tenant_id (or_else input.policy_id new_id) input db.clock in
    let left = (upsert_policy new_id tenant_id input db).1 in
    elim (Result-cases (parse_policy_rules (some input.rules))) [
      | inl (rules, good) ↦
          elim (Result-cases (upsert_rows tenant_id row (conflict_of row db) db.policies)) [
            | inl (rows, stored) ↦
                let outcome : left ≡ record db { policies = rows } = ground (arith, good, stored) in
                let kept =
                  upsert_rows-Parses tenant_id row (rules, good) (conflict_of row db) db.policies
                    rows h stored in
                rw outcome kept
            | inr (e, failed) ↦
                let outcome : left ≡ db = ground (arith, good, failed) in rw outcome h
          ]
      | inr (e, bad) ↦ let outcome : left ≡ db = ground (arith, bad) in rw outcome h
    ]

rules_in-Parses :
    (found : Option PolicyRow)
    → ((row : PolicyRow) → found ≡ some row → Parses row)
    → (rules : List PolicyRule) × (rules_in found ≡ ok rules)
rules_in-Parses none h = ([], refl)
rules_in-Parses (some row) h = h row refl

active_policy-Parses :
    (tenant_id : String) (db : Db)
    → IsWellFormed db
    → (row : PolicyRow) → active_policy tenant_id db ≡ some row
    → Parses row
unfolding active_policy select_one
active_policy-Parses tenant_id db h row e =
    elim (Option-cases (select_one policy_owner tenant_id own db.policies)) [
      | inl missing ↦
          All-find (λ r. visible tenant_id r.tenant_id && r.status == "ACTIVE") db.policies h row
            (ground (arith, e, missing))
      | inr (found, hit) ↦
          let same : row ≡ found = ground (arith, e, hit) in
          rw same (All-find _ db.policies h found hit)
    ]
  where
    own : PolicyRow → Bool
    own r = is_own r && r.status == "ACTIVE"

to_records-Parses :
    (rows : List PolicyRow)
    → All Parses rows
    → (records : List PolicyRecord) × (to_records rows ≡ ok records)
to_records-Parses [] h = ([], refl)
to_records-Parses (row ∷ rows) ((rules, good), rest) =
    let (records, later) = to_records-Parses rows rest in
    (record_of row rules ∷ records, rw (good, later) refl)

-- Where the parser accepts every policy, a policy check finds the tenant's rules, the list of the
-- tenant's policies is returned, and a policy is found or NOT_FOUND is thrown; no call writes.
pub get_tenant_policy_rules-IsWellFormed :
    (tenant_id policy_id : String) (db : Db)
    → IsWellFormed db
    → ((rules : List PolicyRule) × (get_tenant_policy_rules tenant_id db ≡ (ok rules, db)))
      × ((records : List PolicyRecord) × (list_policies tenant_id db ≡ (ok records, db)))
      × (((row : PolicyRecord) × (get_policy tenant_id policy_id db ≡ (ok row, db)))
          ⊎ (get_policy tenant_id policy_id db ≡ (err not_found, db)))
unfolding list_policies get_policy select select_one actions
get_tenant_policy_rules-IsWellFormed tenant_id policy_id db h =
    let (rules, found) = rules_in-Parses _ (active_policy-Parses tenant_id db h) in
    let (records, listed) = to_records-Parses _ (
      All-newest_first (λ row. row.created_at) Parses _
        (All-filter (λ r. visible tenant_id r.tenant_id && is_owned tenant_id r) db.policies h)) in
    (
      (rules, rw (get_tenant_policy_rules_lem tenant_id db, found) refl),
      (records, rw listed refl),
      elim (Option-cases (find_policy tenant_id policy_id db)) [
        | inl missing ↦ inr (rw missing refl)
        | inr (row, hit) ↦
            let (parsed, good) = All-find _ db.policies h row hit in
            inl (record_of row parsed, rw hit (rw good refl))
      ],
    )
