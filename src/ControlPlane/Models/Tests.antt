-- ===== src/ControlPlane/Models/Tests.antt =====
-- An agent that prefers a model that is not active, and has a fallback that is.
use ai_digital_office_os.Prelude.{true, false, String, ◌≡◌, refl, none, some, [], ◌∷◌, ◌⊎◌}
use ai_digital_office_os.Json
use ai_digital_office_os.Failure.{ok, err}
use ai_digital_office_os.Schema.{Db, AgentRow, ModelRow, TaskRow, empty_db, active}
use ai_digital_office_os.Db.{select_one}
use ai_digital_office_os.Db.References.{no_such_key}
use ai_digital_office_os.ControlPlane.Tasks.{task_row}
use ai_digital_office_os.ControlPlane.Tasks.Tests.{translation}
use ai_digital_office_os.AgentFactory.Tests.{helper}
use ai_digital_office_os.ControlPlane.Errors.{policy_denied}
use ai_digital_office_os.ControlPlane.Agents.{find_agent}
use ai_digital_office_os.ControlPlane.Models.{
  RouteBody, ToText, candidates_of, find_capable, response, route_model,
}
use ai_digital_office_os.ControlPlane.Models.Routing.{
  IsFirstChoice, recorded, is_known, route_model_chosen,
}
use ai_digital_office_os.Prelude.{All}

abbrev chooser : AgentRow
chooser = record (helper active none) {
  preferred_model = some "large";
  fallback_models = Json.arr (Json.cons (Json.str "small") Json.nil);
}

abbrev model_named : String → String → ModelRow
model_named name availability = record {
  model_id = name;
  provider_id = "p";
  cost_profile = Json.null;
  availability = availability;
  capabilities = Json.arr (Json.cons (Json.str "chat") Json.nil);
}

abbrev chat_task : TaskRow
chat_task = task_row "task-1" "t" translation

abbrev models_office : Db
models_office = record empty_db {
  organizations = record { tenant_id = "t" } ∷ [];
  agents = chooser ∷ [];
  tasks = chat_task ∷ [];
  models = model_named "large" "RETIRED" ∷ model_named "small" "ACTIVE" ∷ [];
}

abbrev chat : RouteBody
chat = record {
  task_id = some "task-1";
  agent_id = some "agent-1";
  required_capability = some "chat";
}

found_chooser : find_agent "t" "agent-1" models_office ≡ some chooser
unfolding select_one
found_chooser = refl

-- nothing in the candidates is other than text
abbrev as_text : ToText
as_text value = none

route_model_chosen_example :
    ((is_known as_text "t" chat chooser models_office ≡ false)
      × (route_model as_text "t" chat models_office ≡ (err no_such_key, models_office)))
    ⊎ ((model : ModelRow) × (is_known as_text "t" chat chooser models_office ≡ true)
        × IsFirstChoice as_text "t" "chat" (candidates_of chooser) models_office model
        × (route_model as_text "t" chat models_office ≡ (
          ok (response chat model),
          recorded as_text "t" chat chooser models_office (some model),
        )))
    ⊎ ((is_known as_text "t" chat chooser models_office ≡ true)
        × All (λ c. find_capable as_text "t" "chat" c models_office ≡ none) (candidates_of chooser)
        × (route_model as_text "t" chat models_office
            ≡ (err policy_denied, recorded as_text "t" chat chooser models_office none)))
route_model_chosen_example =
    route_model_chosen as_text "t" chat chooser models_office refl found_chooser
