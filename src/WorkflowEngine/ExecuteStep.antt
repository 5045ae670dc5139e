-- ===== src/WorkflowEngine/ExecuteStep.antt =====
-- services/workflow-engine/src/execute-step.ts: one step, handed to the service that owns it. A
-- stored step's type is one of the three of the WorkflowStep union, so that the UNKNOWN_STEP_TYPE
-- branch is not reached.
use ai_digital_office_os.Prelude.{String, List}
use ai_digital_office_os.Json
use ai_digital_office_os.Json.{Json, Fields}
use ai_digital_office_os.Failure.{workflow_engine_error, missing_step_input}
use ai_digital_office_os.Schema.{Db, WorkflowStep, model_call, tool_call, create_artifact}
use ai_digital_office_os.Db.{Action, pure, gets, require, ◌>>=◌, ◌>>◌, with_tenant_transaction}
use ai_digital_office_os.Db.Tables.{insert_artifact}
use ai_digital_office_os.ModelRouter.{Resolve, Complete, ExecuteModelRunResult, execute_model_run}
use ai_digital_office_os.ToolGateway.{Fetch, McpToolCallResult, call_tool}
use ai_digital_office_os.WorkflowEngine.History.{result_of}

-- What lies outside: the model providers, the secret store, the MCP servers, SHA-256 of a value's
-- text, and new identifiers. An answer may depend on the state, so it may differ from call to call.
pub record Deps : Type 0 where
  pub resolve : Db → Resolve
  pub complete : Db → Complete
  pub fetch : Db → Fetch
  pub content_hash : Json → String
  pub generate_id : Db → String

abbrev model_run_result : ExecuteModelRunResult → Json
model_run_result run = Json.obj (
    Json.field "modelRunId" (Json.str run.model_run_id) (
      Json.field "content" (Json.str run.completion.content)
        (Json.field "estimatedCost" (Json.num run.estimated_cost) Json.end)))

abbrev tool_result : McpToolCallResult → Json
tool_result result =
    Json.obj (Json.field "content" result.content (Json.field "isError" result.is_error Json.end))

abbrev artifact_result : String → String → Json
artifact_result artifact_id content_hash = Json.obj (
    Json.field "artifactId" (Json.str artifact_id)
      (Json.field "contentHash" (Json.str content_hash) Json.end))

unfoldable pub execute_step : Deps → String → WorkflowStep → List (String × Json) → Action Json
unfolding result_of
execute_step deps tenant_id (model_call step_id provider_id model_id request task_id agent_id)
      prior =
    do
      resolve ← gets deps.resolve
      complete ← gets deps.complete
      id ← gets deps.generate_id
      run ← execute_model_run resolve complete id (record {
        tenant_id = tenant_id;
        task_id = task_id;
        agent_id = agent_id;
        provider_id = provider_id;
        model_id = model_id;
        request = request;
      })
      pure (model_run_result run)
execute_step deps tenant_id (tool_call step_id agent_id tool_id action arguments) prior = do
  fetch ← gets deps.fetch
  result ← call_tool fetch (record {
    tenant_id = tenant_id;
    agent_id = agent_id;
    tool_id = tool_id;
    action = action;
    arguments = arguments;
  })
  pure (tool_result result)
execute_step deps tenant_id
      (create_artifact step_id project_id task_id artifact_type storage_uri from) prior =
    do
      source ← require (result_of from prior) (workflow_engine_error missing_step_input)
      artifact_id ← gets deps.generate_id
      with_tenant_transaction tenant_id (λ client. do
        insert_artifact client (record {
          artifact_id = artifact_id;
          tenant_id = tenant_id;
          project_id = project_id;
          task_id = task_id;
          artifact_type = artifact_type;
          storage_uri = storage_uri;
          content_hash = deps.content_hash source;
        })
        pure (artifact_result artifact_id (deps.content_hash source)))
