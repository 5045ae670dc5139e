-- ===== src/PolicyService.antt =====
-- services/policy-engine-service/src/policies.ts: the registry of the tenants' policies. The rules
-- of an input are the JSON value that the caller gave, which the parser checks; `pol-${randomUUID()}`
-- is the parameter `new_id`.
pub mod Registry
pub mod Force
mod Tests
use ai_digital_office_os.Prelude.{
  ℕ, String, Bool, true, false, ◌&&◌, Option, none, some, List, [], ◌∷◌, find, leb, ◌==◌,
  if◌then◌else◌,
}
use ai_digital_office_os.Json.{Json}
use ai_digital_office_os.Failure.{
  Failure, Result, ok, err, ◌>>=◌ as and_then, policy_service_error, PolicyServiceErrorCode,
  database_error, row_level_security,
}
use ai_digital_office_os.Schema.{Db, PolicyRow}
use ai_digital_office_os.PolicyEngine.{PolicyRule, parse_policy_rules}
use ai_digital_office_os.Governance.{policy_owner}
use ai_digital_office_os.Db.Ordering.{newest_first}
use ai_digital_office_os.Db.{
  Action, pure, throw, lift, gets, require, ◌>>=◌, ◌>>◌, with_tenant_transaction, visible, select,
  select_one, insert, update, store,
}

pub record UpsertPolicyInput : Type 0 where
  pub policy_id : Option String
  pub policy_name : String
  pub policy_version : String
  pub rules : Json
  pub status : Option String

pub record PolicyRecord : Type 0 where
  pub policy_id : String
  pub tenant_id : Option String
  pub policy_name : String
  pub policy_version : String
  pub rules : List PolicyRule
  pub status : String
  pub created_at : ℕ
  pub updated_at : ℕ

abbrev pub record_of : PolicyRow → List PolicyRule → PolicyRecord
record_of row rules = record {
  policy_id = row.policy_id;
  tenant_id = row.tenant_id;
  policy_name = row.policy_name;
  policy_version = row.policy_version;
  rules = rules;
  status = row.status;
  created_at = row.created_at;
  updated_at = row.updated_at;
}

abbrev pub to_record : PolicyRow → Result PolicyRecord
to_record row = and_then (parse_policy_rules (some row.rules)) (λ rules. ok (record_of row rules))

abbrev pub invalid_rules : Failure
invalid_rules = policy_service_error PolicyServiceErrorCode.invalid_rules

abbrev pub not_found : Failure
not_found = policy_service_error PolicyServiceErrorCode.not_found

-- `try { parsePolicyRules(input.rules); } catch …`
abbrev pub check_rules : Json → Result (Unit {0})
check_rules rules = elim (parse_policy_rules (some rules)) [
  | ok _ ↦ ok tt
  | err _ ↦ err invalid_rules
]

-- `value ?? other`
abbrev pub or_else : Option String → String → String
or_else none other = other
or_else (some s) other = s

abbrev pub policy_row : String → String → UpsertPolicyInput → ℕ → PolicyRow
policy_row tenant_id policy_id input now = record {
  policy_id = policy_id;
  tenant_id = some tenant_id;
  policy_name = input.policy_name;
  policy_version = input.policy_version;
  rules = input.rules;
  status = or_else input.status "ACTIVE";
  created_at = now;
  updated_at = now;
}

abbrev pub has_id : String → PolicyRow → Bool
has_id policy_id row = row.policy_id == policy_id

-- DO UPDATE SET … = EXCLUDED…
abbrev pub exclude : PolicyRow → PolicyRow → PolicyRow
exclude row old = record old {
  policy_name = row.policy_name;
  policy_version = row.policy_version;
  rules = row.rules;
  status = row.status;
  updated_at = row.updated_at;
}

-- what becomes of the table: the row in conflict is looked for in the whole index, and a tenant that
-- may not see it may not update it
unfoldable pub upsert_rows :
    String → PolicyRow → Option PolicyRow → List PolicyRow → Result (List PolicyRow)
upsert_rows client row none rows = insert policy_owner client row rows
upsert_rows client row (some old) rows =
    if visible client old.tenant_id
    then update policy_owner client (has_id row.policy_id) (exclude row) rows
    else err (database_error row_level_security)

-- RETURNING *
abbrev pub returned : PolicyRow → Option PolicyRow → PolicyRow
returned row none = row
returned row (some old) = exclude row old

abbrev pub conflict_of : PolicyRow → Db → Option PolicyRow
conflict_of row db = find (has_id row.policy_id) db.policies

unfoldable pub write_policy : PolicyRow → String → Action PolicyRow
write_policy row client = do
  old ← gets (conflict_of row)
  rows ← gets (λ db. upsert_rows client row old db.policies)
  store rows (λ new d. record d { policies = new })
  pure (returned row old)

unfoldable pub upsert_policy : String → String → UpsertPolicyInput → Action PolicyRecord
upsert_policy new_id tenant_id input = do
  _parsed ← lift (check_rules input.rules)
  now ← gets (λ db. db.clock)
  row ←
      with_tenant_transaction tenant_id
        (write_policy (policy_row tenant_id (or_else input.policy_id new_id) input now))
  lift (to_record row)

abbrev pub is_owned : String → PolicyRow → Bool
is_owned tenant_id row = elim row.tenant_id [ none ↦ false | some t ↦ t == tenant_id ]

-- `rows.map(toRecord)`
abbrev pub to_records : List PolicyRow → Result (List PolicyRecord)
to_records [] = ok []
to_records (row ∷ rows) =
    and_then (to_record row) (λ first. and_then (to_records rows) (λ rest. ok (first ∷ rest)))

unfoldable pub list_policies : String → Action (List PolicyRecord)
list_policies tenant_id = do
  rows ← with_tenant_transaction tenant_id (λ client. gets (λ db.
      newest_first (λ row. row.created_at)
        (select policy_owner client (is_owned tenant_id) db.policies)))
  lift (to_records rows)

abbrev pub find_policy : String → String → Db → Option PolicyRow
find_policy tenant_id policy_id db =
    select_one policy_owner tenant_id (λ row. is_owned tenant_id row && has_id policy_id row)
      db.policies

unfoldable pub get_policy : String → String → Action PolicyRecord
get_policy tenant_id policy_id = do
  found ← with_tenant_transaction tenant_id (λ client. gets (λ db.
      select_one policy_owner client (λ row. is_owned tenant_id row && has_id policy_id row)
        db.policies))
  row ← require found not_found
  lift (to_record row)
