-- ===== src/ModelRouter.antt =====
-- services/model-router-gateway/src: the retry loop (Retry), and in this file execute.ts with the
-- choice of an adapter (adapters/index.ts). The ProviderAdapter and SecretResolver interfaces are
-- the parameters `complete` (by adapter and attempt number) and `resolve`; generateId gives `id`.
-- A cost profile's rates are units of 0.00000001 USD, and costs are computed exactly, where the
-- source computes in floating point and rounds to 8 decimals.
pub mod Retry
pub mod Ledger
pub mod Benchmark
pub mod Tests
use Retry.{with_retry}
use ai_digital_office_os.Prelude.{
  ℕ, ◌+◌, ◌*◌, ◌/◌, String, Bool, true, false, ◌&&◌, Option, none, some, List, [], ◌∷◌, ltb, ◌==◌,
  if◌then◌else◌,
}
use ai_digital_office_os.Json
use ai_digital_office_os.Json.{Json, Fields}
use ai_digital_office_os.Failure.{
  Failure, model_router_error, ModelRouterErrorCode, unsupported_adapter_type, Result, ok, err,
}
use ai_digital_office_os.Schema.{
  Db, ProviderRow, ModelRow, SecretRow, ModelRunRow, ModelRunStatus, UsageRow,
}
use ai_digital_office_os.Db.{
  Action, pure, throw, lift, gets, require, ◌>>=◌, ◌>>◌, try_catch, with_tenant_transaction, select,
  select_one,
}
use ai_digital_office_os.Db.Tables.{secret_owner, insert_model_run, update_model_runs, insert_usage}

pub data AdapterType : Type 0 where
  openai_chat anthropic_messages google_gemini local_echo : AdapterType

unfoldable pub create_adapter : String → Result AdapterType
create_adapter adapter_type =
    if adapter_type == "openai-chat"
    then ok openai_chat
    else if adapter_type == "anthropic-messages"
    then ok anthropic_messages
    else if adapter_type == "google-gemini"
    then ok google_gemini
    else if adapter_type == "local-echo"
    then ok local_echo
    else err (model_router_error unsupported_adapter_type false)

pub record CompletionResult : Type 0 where
  pub content : String
  pub input_tokens : ℕ
  pub output_tokens : ℕ
  pub finish_reason : String

-- adapter, request, API key, and the number of the attempt
abbrev pub Complete : Type 0
Complete = AdapterType → Json → String → ℕ → Result CompletionResult

abbrev pub Resolve : Type 0
Resolve = String → Result String

pub record ExecuteModelRunInput : Type 0 where
  pub tenant_id : String
  pub task_id : Option String
  pub agent_id : Option String
  pub provider_id : String
  pub model_id : String
  pub request : Json

pub record ExecuteModelRunResult : Type 0 where
  pub model_run_id : String
  pub completion : CompletionResult
  pub estimated_cost : ℕ

abbrev pub is_retryable_error : Failure → Bool
is_retryable_error (model_router_error code retryable) = retryable
is_retryable_error _ = false

-- a rate that is a number, and 0 for anything else
abbrev pub rate : Option Json → ℕ
rate (some (Json.num n)) = n
rate _ = 0

unfoldable pub rates : Json → ℕ × ℕ
rates (Json.obj profile) =
    (rate (Json.get "input_per_1k" profile), rate (Json.get "output_per_1k" profile))
rates _ = (0, 0)

-- toFixed(8) rounds to the nearest unit
unfoldable pub estimate_cost : Json → ℕ → ℕ → ℕ
estimate_cost cost_profile input_tokens output_tokens =
    let (input_rate, output_rate) = rates cost_profile in
    (input_tokens * input_rate + output_tokens * output_rate + 500) / 1000

abbrev pub not_found : Failure
not_found = model_router_error ModelRouterErrorCode.not_found false

-- provider_registry and model_registry have no row-level security
abbrev pub find_provider : ExecuteModelRunInput → String → Db → Option ProviderRow
find_provider input client db =
    select_one (λ r. none) client (λ r. r.provider_id == input.provider_id) db.providers

abbrev pub find_model : ExecuteModelRunInput → String → Db → Option ModelRow
find_model input client db =
    select_one (λ r. none) client
      (λ r. r.model_id == input.model_id && r.provider_id == input.provider_id) db.models

abbrev pub running_row : ExecuteModelRunInput → String → ModelRunRow
running_row input id = record {
  model_run_id = id;
  tenant_id = input.tenant_id;
  provider_id = input.provider_id;
  model_id = input.model_id;
  status = ModelRunStatus.running;
  input_tokens = none;
  output_tokens = none;
  estimated_cost = none;
  completed_at = none;
}

-- the first transaction
unfoldable pub open_run : ExecuteModelRunInput → String → String → Action (ProviderRow × ModelRow)
open_run input id client = do
  found_provider ← gets (find_provider input client)
  provider ← require found_provider not_found
  found_model ← gets (find_model input client)
  model ← require found_model not_found
  insert_model_run client (running_row input id)
  pure (provider, model)

-- ORDER BY created_at DESC LIMIT 1
latest : Option SecretRow → List SecretRow → Option SecretRow
latest best [] = best
latest none (r ∷ rs) = latest (some r) rs
latest (some b) (r ∷ rs) = latest (some (if ltb b.created_at r.created_at then r else b)) rs

abbrev is_scope : ExecuteModelRunInput → SecretRow → Bool
is_scope input r =
    r.tenant_id == input.tenant_id
    && (elim r.scope_provider_id [ none ↦ false | some p ↦ p == input.provider_id ])

unfoldable pub find_secret : ExecuteModelRunInput → String → Db → Option SecretRow
unfolding latest
find_secret input client db = latest none (select secret_owner client (is_scope input) db.secrets)

-- an empty vault_path counts as none
unfoldable pub resolve_key : Resolve → Option SecretRow → Result String
resolve_key resolve none = ok ""
resolve_key resolve (some secret) =
    if secret.vault_path == "" then ok "" else resolve secret.vault_path

-- the body of the `try`
unfoldable pub complete_run :
    Resolve → Complete → ExecuteModelRunInput → ProviderRow → Action CompletionResult
complete_run resolve complete input provider = do
  secret ← with_tenant_transaction input.tenant_id (λ client. gets (find_secret input client))
  api_key ← lift (resolve_key resolve secret)
  adapter ← lift (create_adapter provider.adapter_type)
  lift (with_retry (complete adapter input.request api_key) is_retryable_error 3 200).0

abbrev pub has_run_id : String → ModelRunRow → Bool
has_run_id id row = row.model_run_id == id

-- the handler of the `catch`
unfoldable pub fail_run : ExecuteModelRunInput → String → Failure → Action ExecuteModelRunResult
fail_run input id e = do
  now ← gets (λ db. db.clock)
  with_tenant_transaction input.tenant_id (λ client.
      update_model_runs client (has_run_id id)
        (λ row. record row { status = ModelRunStatus.failed; completed_at = some now }))
  throw e

abbrev pub usage_row : ExecuteModelRunInput → CompletionResult → ℕ → ℕ → UsageRow
usage_row input completion cost now = record {
  tenant_id = input.tenant_id;
  task_id = input.task_id;
  agent_id = input.agent_id;
  provider_id = some input.provider_id;
  model_id = some input.model_id;
  input_tokens = completion.input_tokens;
  output_tokens = completion.output_tokens;
  actual_cost = cost;
  currency = "USD";
  event_time = now;
}

-- the last transaction
unfoldable pub close_run :
    ExecuteModelRunInput → String → CompletionResult → ℕ → String → Action (Unit {0})
close_run input id completion cost client = do
  now ← gets (λ db. db.clock)
  update_model_runs client (has_run_id id) (λ row. record row {
    status = ModelRunStatus.completed;
    completed_at = some now;
    input_tokens = some completion.input_tokens;
    output_tokens = some completion.output_tokens;
    estimated_cost = some cost;
  })
  insert_usage client (usage_row input completion cost now)

unfoldable pub settle_run :
    ExecuteModelRunInput → String → ModelRow → CompletionResult → Action ExecuteModelRunResult
settle_run input id model completion = do
  let cost = estimate_cost model.cost_profile completion.input_tokens completion.output_tokens
  with_tenant_transaction input.tenant_id (close_run input id completion cost)
  pure (record { model_run_id = id; completion = completion; estimated_cost = cost })

unfoldable pub execute_model_run :
    Resolve → Complete → String → ExecuteModelRunInput → Action ExecuteModelRunResult
execute_model_run resolve complete id input = do
  opened ← with_tenant_transaction input.tenant_id (open_run input id)
  try_catch (complete_run resolve complete input opened.0) (settle_run input id opened.1)
      (fail_run input id)
