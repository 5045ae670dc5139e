-- ===== src/PolicyEngine/Parsing.antt =====
-- rules.ts: what parsePolicyRules accepts, and that it reads back what JSON.stringify stored.
use ai_digital_office_os.Prelude.{
  ℕ, suc, ◌≡◌, ◌≢◌, refl, Option, none, some, List, [], ◌∷◌, arith, All, String, eq_iff, ◌⊎◌, inl,
  inr,
}
use ai_digital_office_os.Json
use ai_digital_office_os.Json.{Json, Items, Fields, end, field}
use ai_digital_office_os.Failure.{ok, >>=-eq-ok, RuleError}
use ai_digital_office_os.PolicyEngine.{
  RiskLevel, green, yellow, red, PolicyDecisionResult, allow, deny, require_approval,
  require_escalation, RiskPattern, any, exactly, PolicyRule, risk_pattern_of, decision_of, text_of,
  note_of, require, parse_fields, parse_rule, parse_entries, parse_policy_rules,
}

abbrev pub risk_text : RiskLevel → String
risk_text green = "GREEN"
risk_text yellow = "YELLOW"
risk_text red = "RED"

abbrev pub pattern_text : RiskPattern → String
pattern_text any = "*"
pattern_text (exactly r) = risk_text r

abbrev pub decision_text : PolicyDecisionResult → String
decision_text allow = "ALLOW"
decision_text deny = "DENY"
decision_text require_approval = "REQUIRE_APPROVAL"
decision_text require_escalation = "REQUIRE_ESCALATION"

abbrev note_field : Option String → Fields
note_field none = end
note_field (some n) = field "note" (Json.str n) end

-- JSON.stringify of a rule: an undefined note is left out
abbrev pub rule_to_json : PolicyRule → Json
rule_to_json rule = Json.obj (
    field "actionType" (Json.str rule.action_type) (
      field "riskLevel" (Json.str (pattern_text rule.risk_level))
        (field "decision" (Json.str (decision_text rule.decision)) (note_field rule.note))))

abbrev pub entries_to_json : List PolicyRule → Items
entries_to_json [] = Json.nil
entries_to_json (rule ∷ rules) = Json.cons (rule_to_json rule) (entries_to_json rules)

-- `JSON.stringify(rules)`
abbrev pub rules_to_json : List PolicyRule → Json
rules_to_json rules = Json.arr (entries_to_json rules)

risk_pattern_of_text :
    (p : RiskPattern) → risk_pattern_of (some (Json.str (pattern_text p))) ≡ some p
unfolding risk_pattern_of
risk_pattern_of_text any = refl
risk_pattern_of_text (exactly green) = refl
risk_pattern_of_text (exactly yellow) = refl
risk_pattern_of_text (exactly red) = refl

decision_of_text :
    (d : PolicyDecisionResult) → decision_of (some (Json.str (decision_text d))) ≡ some d
unfolding decision_of
decision_of_text allow = refl
decision_of_text deny = refl
decision_of_text require_approval = refl
decision_of_text require_escalation = refl

note_of_field : (n : Option String) → note_of (Json.get "note" (note_field n)) ≡ n
unfolding note_of
note_of_field none = refl
note_of_field (some n) = refl

text_of_text : (s : String) → s ≢ "" → text_of (some (Json.str s)) ≡ some s
unfolding text_of
text_of_text s h = ground (arith, eq_iff s "")

parse_rule_text :
    (index : ℕ) (rule : PolicyRule)
    → rule.action_type ≢ ""
    → parse_rule index (rule_to_json rule) ≡ ok rule
unfolding parse_rule parse_fields
parse_rule_text index rule h = rw (
  text_of_text rule.action_type h,
  risk_pattern_of_text rule.risk_level,
  decision_of_text rule.decision,
  note_of_field rule.note,
)

parse_entries_text :
    (index : ℕ) (rules : List PolicyRule)
    → All (λ r. r.action_type ≢ "") rules
    → parse_entries index (Json.to_list (entries_to_json rules)) ≡ ok rules
unfolding parse_entries
parse_entries_text index [] h = refl
parse_entries_text index (rule ∷ rules) h =
    rw (parse_rule_text index rule h.0, parse_entries_text (suc index) rules h.1)

-- Rules with non-empty action types are read back from their JSON text exactly as they were.
pub parse_policy_rules-rules_to_json :
    (rules : List PolicyRule)
    → All (λ r. r.action_type ≢ "") rules
    → parse_policy_rules (some (rules_to_json rules)) ≡ ok rules
unfolding parse_policy_rules
parse_policy_rules-rules_to_json rules h = parse_entries_text 0 rules h

-- The entry is an object that states the rule.
abbrev pub States : Json → PolicyRule → Type 0
States entry rule =
    (fields : Fields) × (entry ≡ Json.obj fields)
    × (Json.get "actionType" fields ≡ some (Json.str rule.action_type))
    × (rule.action_type ≢ "")
    × (Json.get "riskLevel" fields ≡ some (Json.str (pattern_text rule.risk_level)))
    × (Json.get "decision" fields ≡ some (Json.str (decision_text rule.decision)))

abbrev pub StatesAll : List Json → List PolicyRule → Type 0
StatesAll [] [] = Unit
StatesAll (entry ∷ entries) (rule ∷ rules) = States entry rule × StatesAll entries rules
StatesAll _ _ = ⊥

text_of_sound :
    (o : Option Json) (s : String) → text_of o ≡ some s → (o ≡ some (Json.str s)) × (s ≢ "")
unfolding text_of
text_of_sound (some (Json.str t)) s h = (ground (arith, eq_iff t ""), ground (arith, eq_iff t ""))
text_of_sound none s h = cc
text_of_sound (some _) s h = cc

risk_pattern_of_sound :
    (o : Option Json) (p : RiskPattern)
    → risk_pattern_of o ≡ some p
    → o ≡ some (Json.str (pattern_text p))
unfolding risk_pattern_of
risk_pattern_of_sound (some (Json.str t)) p h =
    ground (arith, eq_iff t "*", eq_iff t "GREEN", eq_iff t "YELLOW", eq_iff t "RED")
risk_pattern_of_sound none p h = cc
risk_pattern_of_sound (some _) p h = cc

decision_of_sound :
    (o : Option Json) (d : PolicyDecisionResult)
    → decision_of o ≡ some d
    → o ≡ some (Json.str (decision_text d))
unfolding decision_of
decision_of_sound (some (Json.str t)) d h = ground (
  arith,
  eq_iff t "ALLOW",
  eq_iff t "DENY",
  eq_iff t "REQUIRE_APPROVAL",
  eq_iff t "REQUIRE_ESCALATION",
)
decision_of_sound none d h = cc
decision_of_sound (some _) d h = cc

require_sound {ℓ} :
    {A : Type ℓ} (o : Option A) (e : RuleError) {a : A} → require o e ≡ ok a → o ≡ some a
require_sound none e h = cc
require_sound (some a) e h = cc

parse_fields_sound :
    (index : ℕ) (fields : Fields) (rule : PolicyRule)
    → parse_fields index fields ≡ ok rule
    → States (Json.obj fields) rule
unfolding parse_fields
parse_fields_sound index fields rule h =
    let (a, ha, h₁) = >>=-eq-ok _ _ h in
    let (r, hr, h₂) = >>=-eq-ok _ _ h₁ in
    let (d, hd, h₃) = >>=-eq-ok _ _ h₂ in
    let (known, filled) = text_of_sound _ a (require_sound _ _ ha) in
    let risk = risk_pattern_of_sound _ r (require_sound _ _ hr) in
    let decided = decision_of_sound _ d (require_sound _ _ hd) in
    (
      fields,
      refl,
      ground (arith, h₃, known),
      ground (arith, h₃, filled),
      ground (arith, h₃, risk),
      ground (arith, h₃, decided),
    )

parse_rule_sound :
    (index : ℕ) (entry : Json) (rule : PolicyRule)
    → parse_rule index entry ≡ ok rule
    → States entry rule
unfolding parse_rule
parse_rule_sound index (Json.obj fields) rule h = parse_fields_sound index fields rule h
parse_rule_sound index Json.null rule h = cc
parse_rule_sound index _ rule h = cc

parse_entries_sound :
    (index : ℕ) (entries : List Json) (rules : List PolicyRule)
    → parse_entries index entries ≡ ok rules
    → StatesAll entries rules
unfolding parse_entries
parse_entries_sound index [] [] h = tt
parse_entries_sound index [] (rule ∷ rules) h = cc
parse_entries_sound index (entry ∷ entries) [] h = ground arith
parse_entries_sound index (entry ∷ entries) (rule ∷ rules) h =
    let (r, hr, h₁) = >>=-eq-ok (parse_rule index entry) _ h in
    let (rs, hrs, h₂) = >>=-eq-ok (parse_entries (suc index) entries) _ h₁ in
    let head : r ≡ rule = ground (arith, h₂) in
    let rest : rs ≡ rules = ground (arith, h₂) in
    (
      parse_rule_sound index entry rule (rw head at hr),
      parse_entries_sound (suc index) entries rules (rw rest at hrs),
    )

-- What parse_policy_rules accepts is nothing (null or undefined, and no rules), or an array whose
-- every entry is an object that states the rule at its place, with a non-empty action type, a
-- known risk level or "*", and a known decision. So no entry of the array is left out.
pub parse_policy_rules_sound :
    (raw : Option Json) (rules : List PolicyRule)
    → parse_policy_rules raw ≡ ok rules
    → (((raw ≡ none) ⊎ (raw ≡ some Json.null)) × (rules ≡ []))
      ⊎ ((items : Items) × (raw ≡ some (Json.arr items)) × StatesAll (Json.to_list items) rules)
unfolding parse_policy_rules
parse_policy_rules_sound none rules h = inl (inl refl, ground (arith, h))
parse_policy_rules_sound (some Json.null) rules h = inl (inr refl, ground (arith, h))
parse_policy_rules_sound (some (Json.arr items)) rules h =
    inr (items, refl, parse_entries_sound 0 (Json.to_list items) rules h)
parse_policy_rules_sound (some _) rules h = cc
