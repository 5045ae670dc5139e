-- ===== src/ControlPlane/Models.antt =====
-- services/control-plane-api/src/routes/models.ts: the choice of a model for a task. The reason of a
-- decision is a text and is left out. model_registry has no row-level security. The text that the
-- database's driver sends for a query parameter that is neither a string nor null is a parameter.
pub mod Routing
mod Tests
use ai_digital_office_os.Prelude.{
  String, Bool, true, false, ◌&&◌, Option, none, some, List, [], ◌∷◌, ◌++◌, ◌==◌, any,
  if◌then◌else◌,
}
use ai_digital_office_os.Json
use ai_digital_office_os.Json.{Json}
use ai_digital_office_os.Failure.{Result, ok, err}
use ai_digital_office_os.Schema.{Db, AgentRow, ModelRow, RoutingDecisionRow}
use ai_digital_office_os.Db.{
  Action, pure, lift, gets, require, guard, ◌>>=◌, ◌>>◌, with_tenant_transaction, select,
  select_one,
}
use ai_digital_office_os.Db.References.{routing_refers, check_references}
use ai_digital_office_os.Db.Tables.{insert_routing_decision}
use ai_digital_office_os.ControlPlane.Errors.{validation, not_found, policy_denied}
use ai_digital_office_os.ControlPlane.Body.{given, text_of}
use ai_digital_office_os.ControlPlane.Agents.{find_agent}

pub record RouteBody : Type 0 where
  pub task_id : Option String
  pub agent_id : Option String
  pub required_capability : Option String

pub record RouteResponse : Type 0 where
  pub task_id : String
  pub agent_id : String
  pub selected_provider : String
  pub selected_model : String

abbrev pub is_complete : RouteBody → Bool
is_complete body = given body.task_id && given body.agent_id && given body.required_capability

abbrev pub is_text : String → Json → Bool
is_text s (Json.str t) = t == s
is_text s _ = false

-- `capabilities @> '[capability]'`
abbrev pub has_capability : String → ModelRow → Bool
has_capability capability model = any (is_text capability) (Json.array_or_empty model.capabilities)

-- `agent.preferred_model ? [agent.preferred_model] : []`
abbrev pub preferred : Option String → List Json
preferred none = []
preferred (some model_id) = if model_id == "" then [] else Json.str model_id ∷ []

abbrev pub candidates_of : AgentRow → List Json
candidates_of agent = preferred agent.preferred_model ++ Json.array_or_empty agent.fallback_models

abbrev pub ToText : Type 0
ToText = Json → Option String

-- `model_id = $1`: null is NULL, which equals nothing
abbrev pub is_parameter : ToText → Json → String → Bool
is_parameter to_text Json.null s = false
is_parameter to_text (Json.str t) s = t == s
is_parameter to_text value s = elim (to_text value) [ none ↦ false | some t ↦ t == s ]

abbrev pub is_capable : ToText → String → Json → ModelRow → Bool
is_capable to_text capability model_id model =
    is_parameter to_text model_id model.model_id
    && model.availability == "ACTIVE"
    && has_capability capability model

abbrev no_owner : ModelRow → Option String
no_owner model = none

abbrev pub find_capable : ToText → String → String → Json → Db → Option ModelRow
find_capable to_text client capability model_id db =
    select_one no_owner client (is_capable to_text capability model_id) db.models

abbrev pub first_of : Option ModelRow → Option ModelRow → Option ModelRow
first_of (some model) rest = some model
first_of none rest = rest

-- the loop over the candidates, which ends at the first that is found
unfoldable pub select_model : ToText → String → String → List Json → Db → Option ModelRow
select_model to_text client capability [] db = none
select_model to_text client capability (model_id ∷ candidates) db =
    first_of (find_capable to_text client capability model_id db)
      (select_model to_text client capability candidates db)

abbrev pub provider_of : Option ModelRow → Option String
provider_of none = none
provider_of (some model) = some model.provider_id

abbrev pub model_of : Option ModelRow → Option String
model_of none = none
model_of (some model) = some model.model_id

-- `selected ? "ALLOW" : "DENY"`
abbrev pub policy_result_of : Option ModelRow → String
policy_result_of none = "DENY"
policy_result_of (some model) = "ALLOW"

abbrev pub decision_row : String → RouteBody → List Json → Option ModelRow → RoutingDecisionRow
decision_row tenant_id body candidates selected = record {
  tenant_id = tenant_id;
  task_id = text_of body.task_id;
  agent_id = text_of body.agent_id;
  selected_provider = provider_of selected;
  selected_model = model_of selected;
  candidate_models = Json.arr (Json.of_list candidates);
  policy_result = policy_result_of selected;
}

-- the transaction
unfoldable pub decide_route : ToText → String → RouteBody → String → Action (Option ModelRow)
decide_route to_text tenant_id body client = do
  found ← gets (find_agent client (text_of body.agent_id))
  agent ← require found not_found
  selected ←
      gets (select_model to_text client (text_of body.required_capability) (candidates_of agent))
  let row = decision_row tenant_id body (candidates_of agent) selected
  check_references (routing_refers row)
  insert_routing_decision client row
  pure selected

abbrev pub response : RouteBody → ModelRow → RouteResponse
response body model = record {
  task_id = text_of body.task_id;
  agent_id = text_of body.agent_id;
  selected_provider = model.provider_id;
  selected_model = model.model_id;
}

abbrev pub answer_of : RouteBody → Option ModelRow → Result RouteResponse
answer_of body none = err policy_denied
answer_of body (some model) = ok (response body model)

-- POST /models/route
unfoldable pub route_model : ToText → String → RouteBody → Action RouteResponse
route_model to_text tenant_id body = do
  guard (is_complete body) validation
  selected ← with_tenant_transaction tenant_id (decide_route to_text tenant_id body)
  lift (answer_of body selected)
