-- ===== src/Failure.antt =====
-- The errors that the services throw: packages/auth/src/errors.ts, packages/policy-engine/src and
-- the errors.ts of each service under services/. An error is its class and code; the text of its
-- message is not modelled. `retryable` flags are kept.
use ai_digital_office_os.Prelude.{ℕ, Bool, ◌≡◌, refl, ◌⊎◌, inl, inr}

pub data AuthErrorCode : Type 0 where
  token_missing token_invalid token_expired claims_invalid insufficient_scope : AuthErrorCode

-- PolicyEngineError, by the reason that parsePolicyRules gives; the number is the rule's index
pub data RuleError : Type 0 where
  not_an_array : RuleError
  not_an_object : ℕ → RuleError
  missing_action_type : ℕ → RuleError
  invalid_risk_level : ℕ → RuleError
  invalid_decision : ℕ → RuleError

pub data AgentFactoryErrorCode : Type 0 where
  not_found invalid_transition policy_blocked sandbox_validation_failed : AgentFactoryErrorCode
  schema_validation_failed quality_gate_failed : AgentFactoryErrorCode

pub data WorkflowEngineErrorCode : Type 0 where
  not_found unknown_step_type missing_step_input : WorkflowEngineErrorCode

pub data DeploymentOrchestratorErrorCode : Type 0 where
  not_found invalid_state no_rollback_target : DeploymentOrchestratorErrorCode

pub data ToolGatewayErrorCode : Type 0 where
  not_found binding_denied policy_blocked mcp_protocol_error : ToolGatewayErrorCode
  mcp_unreachable timeout : ToolGatewayErrorCode

pub data ModelRouterErrorCode : Type 0 where
  secret_not_found unsupported_adapter_type provider_unreachable : ModelRouterErrorCode
  rate_limited provider_error invalid_response timeout not_found : ModelRouterErrorCode

pub data CostUsageErrorCode : Type 0 where
  invalid_period : CostUsageErrorCode

pub data PolicyServiceErrorCode : Type 0 where
  invalid_rules not_found : PolicyServiceErrorCode

-- components.schemas.ErrorResponse.error_code of the control plane
pub data ErrorCode : Type 0 where
  validation_error authorization_error policy_error tool_error model_error : ErrorCode
  provider_error network_error timeout database_error artifact_error : ErrorCode
  deployment_error unknown_error : ErrorCode

pub record ApiError : Type 0 where
  pub http_status : ℕ
  pub error_code : ErrorCode
  pub retryable : Bool

-- What Postgres answers to a statement that it refuses.
pub data DatabaseError : Type 0 where
  row_level_security unique_violation foreign_key_violation : DatabaseError

pub data Failure : Type 0 where
  auth_error : AuthErrorCode → Failure
  policy_engine_error : RuleError → Failure
  agent_factory_error : AgentFactoryErrorCode → Failure
  workflow_engine_error : WorkflowEngineErrorCode → Failure
  deployment_error : DeploymentOrchestratorErrorCode → Failure
  tool_gateway_error : ToolGatewayErrorCode → Bool → Failure
  model_router_error : ModelRouterErrorCode → Bool → Failure
  cost_usage_error : CostUsageErrorCode → Failure
  policy_service_error : PolicyServiceErrorCode → Failure
  api_error : ApiError → Failure
  database_error : DatabaseError → Failure
  -- any other exception, such as a TypeError
  other_error : Failure

-- A call that may throw.
pub data Result {ℓ} (A : Type ℓ) : Type ℓ where
  ok : A → Result A
  err : Failure → Result A

module _ {ℓ κ} {A : Type ℓ} {B : Type κ} where
  infixl 5 ◌>>=◌
  abbrev pub ◌>>=◌ : Result A → (A → Result B) → Result B
  err e >>= next = err e
  ok a >>= next = next a

  -- a chain that ends in `ok` passed its first step
  pub >>=-eq-ok :
      (first : Result A) (next : A → Result B) {out : B}
      → (first >>= next) ≡ ok out
      → (a : A) × (first ≡ ok a) × (next a ≡ ok out)
  >>=-eq-ok (err e) next ends = cc
  >>=-eq-ok (ok a) next ends = (a, refl, ends)

pub Result-cases {ℓ} :
    {A : Type ℓ} (r : Result A) → ((a : A) × (r ≡ ok a)) ⊎ ((e : Failure) × (r ≡ err e))
Result-cases (ok a) = inl (a, refl)
Result-cases (err e) = inr (e, refl)
