-- ===== src/PolicyService/Tests.antt =====
-- The registry of a tenant whose inactive policy is replaced by an active one.
use ai_digital_office_os.Prelude.{◌≡◌, refl, ◌⊎◌, none, some, List, [], ◌∷◌}
use ai_digital_office_os.Json
use ai_digital_office_os.Json.{Json}
use ai_digital_office_os.Failure.{ok, err}
use ai_digital_office_os.Schema.{Db, empty_db, PolicyRow}
use ai_digital_office_os.PolicyEngine.{
  PolicyRule, any, deny, parse_policy_rules, parse_entries, parse_rule, parse_fields,
  risk_pattern_of, decision_of, text_of, note_of,
}
use ai_digital_office_os.PolicyEngine.Parsing.{rules_to_json}
use ai_digital_office_os.Governance.{get_tenant_policy_rules}
use ai_digital_office_os.Db.{actions, update, update_row, select_one, store}
use ai_digital_office_os.PolicyService.{
  UpsertPolicyInput, PolicyRecord, record_of, policy_row, exclude, upsert_rows, write_policy,
  upsert_policy, list_policies, get_policy, not_found,
}
use ai_digital_office_os.PolicyService.Registry.{
  IsWellFormed, upsert_policy-IsWellFormed, get_tenant_policy_rules-IsWellFormed,
}
use ai_digital_office_os.PolicyService.Force.{
  get_policy-upsert_policy, get_tenant_policy_rules-upsert_policy,
}

abbrev no_exports : List PolicyRule
no_exports = record { action_type = "EXPORT"; risk_level = any; decision = deny; note = none } ∷ []

abbrev first_draft : PolicyRow
first_draft = record {
  policy_id = "pol-1";
  tenant_id = some "t";
  policy_name = "draft";
  policy_version = "0";
  rules = Json.arr Json.nil;
  status = "INACTIVE";
  created_at = 1;
  updated_at = 1;
}

abbrev registry : Db
registry = record empty_db { policies = first_draft ∷ []; clock = 7 }

abbrev release : UpsertPolicyInput
release = record {
  policy_id = some "pol-1";
  policy_name = "exports";
  policy_version = "1";
  rules = rules_to_json no_exports;
  status = none;
}

abbrev released_row : PolicyRow
released_row = exclude (policy_row "t" "pol-1" release 7) first_draft

abbrev released : PolicyRecord
released = record_of released_row no_exports

abbrev registry' : Db
registry' = record empty_db { policies = released_row ∷ []; clock = 7 }

parsing : Unit {0}
unfolding parse_policy_rules parse_entries parse_rule parse_fields risk_pattern_of decision_of
    text_of note_of
parsing = tt

upserted : upsert_policy "pol-new" "t" release registry ≡ (ok released, registry')
unfolding upsert_policy write_policy upsert_rows update update_row parsing actions store
upserted = refl

registry-IsWellFormed : IsWellFormed registry
unfolding parsing
registry-IsWellFormed = (([], refl), tt)

upsert_policy-IsWellFormed_example : IsWellFormed (upsert_policy "pol-new" "t" release registry).1
upsert_policy-IsWellFormed_example =
    upsert_policy-IsWellFormed "pol-new" "t" release registry registry-IsWellFormed

get_tenant_policy_rules-IsWellFormed_example :
    ((rules : List PolicyRule) × (get_tenant_policy_rules "t" registry ≡ (ok rules, registry)))
    × ((records : List PolicyRecord) × (list_policies "t" registry ≡ (ok records, registry)))
    × (((row : PolicyRecord) × (get_policy "t" "pol-1" registry ≡ (ok row, registry)))
        ⊎ (get_policy "t" "pol-1" registry ≡ (err not_found, registry)))
get_tenant_policy_rules-IsWellFormed_example =
    get_tenant_policy_rules-IsWellFormed "t" "pol-1" registry registry-IsWellFormed

get_policy-upsert_policy_example : get_policy "t" "pol-1" registry' ≡ (ok released, registry')
get_policy-upsert_policy_example =
    get_policy-upsert_policy "pol-new" "t" release registry registry' released upserted

get_tenant_policy_rules-upsert_policy_example :
    get_tenant_policy_rules "t" registry' ≡ (ok no_exports, registry')
unfolding select_one
get_tenant_policy_rules-upsert_policy_example =
    get_tenant_policy_rules-upsert_policy "pol-new" "t" release registry registry' released upserted
      refl refl
