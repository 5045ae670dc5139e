-- ===== src/AgentFactory.antt =====
-- services/agent-factory/src: the completeness score (scoring.ts), the schema checks
-- (schema-validation.ts) and the lifecycle pipeline (pipeline.ts). Whether Ajv compiles a schema is
-- the parameter `compiles`. Spans and log lines are left out.
pub mod Scoring
pub mod Lifecycle
pub mod Sandbox
pub mod Pipeline
pub mod Isolation
pub mod Tests
use Prim.Native.Char.{code}
use ai_digital_office_os.Prelude.{
  ℕ, zero, suc, ◌+◌, ◌*◌, String, Bool, true, false, not, ◌&&◌, ◌||◌, Option, none, some, List, [],
  ◌∷◌, ◌++◌, length, all, any, filter, ltb, leb, eqb, min, ◌==◌, if◌then◌else◌, is_space,
}
use mathlib.Core.List.{reverse}
use ai_digital_office_os.Json
use ai_digital_office_os.Json.{Json, array_or_empty}
use ai_digital_office_os.Failure.{
  Failure, agent_factory_error, AgentFactoryErrorCode, policy_blocked, invalid_transition,
  sandbox_validation_failed, schema_validation_failed, quality_gate_failed,
}
use ai_digital_office_os.Schema.{
  Db, AgentRow, ToolRow, LifecycleState, draft, sandbox, tested, evaluated, approved, active,
  updated, deprecated, retired,
}
use ai_digital_office_os.PolicyEngine.{
  RiskLevel, PolicyInput, PolicyDecision, evaluate_policy, risk_level_of,
}
use ai_digital_office_os.Db.{
  Action, pure, throw, gets, require, guard, ◌>>=◌, ◌>>◌, try_catch, with_tenant_transaction,
  select_one,
}
use ai_digital_office_os.Db.Tables.{agent_owner, update_agents}
use ai_digital_office_os.Governance.{
  get_tenant_policy_rules, to_risk_level, is_allow, record_policy_decision,
}

abbrev codes : String → List ℕ
codes String.[] = []
codes (String.◌∷◌ c s) = code c ∷ codes s

drop_spaces : List ℕ → List ℕ
drop_spaces [] = []
drop_spaces (c ∷ s) = let rest = drop_spaces s in if is_space c then rest else c ∷ s

trim : List ℕ → List ℕ
unfolding drop_spaces
trim s = reverse (drop_spaces (reverse (drop_spaces s)))

-- a string's length, in UTF-16 units
utf16_length : List ℕ → ℕ
utf16_length [] = 0
utf16_length (c ∷ s) = (if ltb c 65536 then 1 else 2) + utf16_length s

abbrev is_null : Json → Bool
is_null Json.null = true
is_null _ = false

pub states_purpose : Option String → Bool
unfolding trim utf16_length
states_purpose none = false
states_purpose (some s) = leb 10 (utf16_length (trim (codes s)))

pub states_security : Option String → Bool
states_security none = false
states_security (some s) = s == "GREEN" || s == "YELLOW" || s == "RED"

-- scoring.ts
unfoldable pub compute_evaluation_score : AgentRow → ℕ
unfolding states_purpose states_security
compute_evaluation_score agent =
    min
      (min (length (array_or_empty agent.capabilities) * 10) 30
        + (if states_purpose agent.purpose then 20 else 0)
        + (if is_null agent.input_schema then 0 else 20)
        + (if is_null agent.output_schema then 0 else 20)
        + (if states_security agent.security_level then 10 else 0))
      100

pub data SchemaError : Type 0 where
  must_be_object does_not_compile : String → SchemaError

-- schema-validation.ts: the errors found
unfoldable pub validate_json_schema_shape : (Json → Bool) → Json → String → List SchemaError
validate_json_schema_shape compiles Json.null label = []
validate_json_schema_shape compiles (Json.obj schema) label =
    if compiles (Json.obj schema) then [] else does_not_compile label ∷ []
validate_json_schema_shape compiles _ label = must_be_object label ∷ []

abbrev pub state_number : LifecycleState → ℕ
state_number draft = 0
state_number sandbox = 1
state_number tested = 2
state_number evaluated = 3
state_number approved = 4
state_number active = 5
state_number updated = 6
state_number deprecated = 7
state_number retired = 8

abbrev pub same_state : LifecycleState → LifecycleState → Bool
same_state a b = eqb (state_number a) (state_number b)

abbrev pub has_id : String → AgentRow → Bool
has_id agent_id row = row.agent_id == agent_id

unfoldable pub require_agent : String → String → LifecycleState → Action AgentRow
require_agent client agent_id expected = do
  found ← gets (λ db. select_one agent_owner client (has_id agent_id) db.agents)
  agent ← require found (agent_factory_error AgentFactoryErrorCode.not_found)
  guard (same_state agent.lifecycle_state expected) (agent_factory_error invalid_transition)
  pure agent

-- UPDATE agent_registry SET lifecycle_state = … WHERE agent_id = $1
unfoldable pub set_state : String → String → LifecycleState → Action (Unit {0})
set_state client agent_id state =
    update_agents client (has_id agent_id) (λ row. record row { lifecycle_state = state })

-- the tools that tool_registry has, enabled; it has no row-level security
unfoldable pub is_enabled_tool : List ToolRow → Json → Bool
is_enabled_tool tools (Json.str s) = any (λ t. t.tool_id == s && t.enabled) tools
is_enabled_tool tools _ = false

unfoldable pub check_tools : AgentRow → Action (Unit {0})
check_tools agent = do
  tools ← gets (λ db. db.tools)
  guard (all (is_enabled_tool tools) (array_or_empty agent.allowed_tools))
      (agent_factory_error sandbox_validation_failed)

abbrev pub sandbox_input : AgentRow → String → PolicyInput
sandbox_input agent agent_id = record {
  action_type = "AGENT_SANDBOX";
  risk_level = to_risk_level agent.security_level;
  task_id = none;
  agent_id = some agent_id;
  tool_id = none;
  model_id = none;
  provider_id = none;
}

-- the first transaction of advanceToSandbox: it records the decision, whatever it is
unfoldable pub decide_sandbox : String → String → String → Action (AgentRow × PolicyDecision)
decide_sandbox tenant_id agent_id client = do
  agent ← require_agent client agent_id draft
  tenant_rules ← get_tenant_policy_rules client
  let decision = evaluate_policy (sandbox_input agent agent_id) tenant_rules
  record_policy_decision client tenant_id (sandbox_input agent agent_id) decision
  pure (agent, decision)

-- its second transaction
unfoldable pub enter_sandbox : AgentRow → String → String → Action (Unit {0})
enter_sandbox agent agent_id client = do check_tools agent; set_state client agent_id sandbox

unfoldable pub advance_to_sandbox : String → String → Action (Unit {0})
advance_to_sandbox tenant_id agent_id = do
  checked ← with_tenant_transaction tenant_id (decide_sandbox tenant_id agent_id)
  guard (is_allow checked.1.decision) (agent_factory_error policy_blocked)
  with_tenant_transaction tenant_id (enter_sandbox checked.0 agent_id)

abbrev pub is_empty {ℓ} : {A : Type ℓ} → List A → Bool
is_empty [] = true
is_empty (x ∷ xs) = false

unfoldable pub enter_tested : (Json → Bool) → String → String → Action (Unit {0})
enter_tested compiles agent_id client = do
  agent ← require_agent client agent_id sandbox
  let errors =
      validate_json_schema_shape compiles agent.input_schema "input_schema"
      ++ validate_json_schema_shape compiles agent.output_schema "output_schema"
  guard (is_empty errors) (agent_factory_error schema_validation_failed)
  set_state client agent_id tested

unfoldable pub advance_to_tested : (Json → Bool) → String → String → Action (Unit {0})
advance_to_tested compiles tenant_id agent_id =
    with_tenant_transaction tenant_id (enter_tested compiles agent_id)

unfoldable pub enter_evaluated : String → String → Action ℕ
enter_evaluated agent_id client = do
  agent ← require_agent client agent_id tested
  let score = compute_evaluation_score agent
  update_agents client (has_id agent_id)
      (λ row. record row { evaluation_score = some score; lifecycle_state = evaluated })
  pure score

unfoldable pub advance_to_evaluated : String → String → Action ℕ
advance_to_evaluated tenant_id agent_id =
    with_tenant_transaction tenant_id (enter_evaluated agent_id)

abbrev pub score_or_zero : Option ℕ → ℕ
score_or_zero none = 0
score_or_zero (some score) = score

unfoldable pub enter_approved : String → ℕ → String → Action (Unit {0})
enter_approved agent_id min_score client = do
  agent ← require_agent client agent_id evaluated
  guard (leb min_score (score_or_zero agent.evaluation_score))
      (agent_factory_error quality_gate_failed)
  set_state client agent_id approved

unfoldable pub advance_to_approved : String → String → ℕ → Action (Unit {0})
advance_to_approved tenant_id agent_id min_score =
    with_tenant_transaction tenant_id (enter_approved agent_id min_score)
