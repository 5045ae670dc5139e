-- ===== src/ControlPlane/Models/Routing.antt =====
-- models.ts: which model is chosen, and what is recorded of the choice.
use ai_digital_office_os.Prelude.{
  String, Bool, true, false, Bool-cases, ◌∙◌, ◌≡◌, refl, none, some, Option, Option-cases, List, [],
  ◌∷◌, ◌++◌, eq_refl, arith, inl, inr, All, ap, ◌⊎◌,
}
use ai_digital_office_os.Json.{Json}
use ai_digital_office_os.Failure.{Result, ok, err}
use ai_digital_office_os.Schema.{Db, AgentRow, ModelRow}
use ai_digital_office_os.Db.{actions, insert, store}
use ai_digital_office_os.Db.Isolation.{IsIsolated, isolation_rules}
use ai_digital_office_os.Db.References.{routing_refers, no_such_key}
use ai_digital_office_os.Db.Tables.{insert_routing_decision}
use ai_digital_office_os.ControlPlane.Errors.{policy_denied}
use ai_digital_office_os.ControlPlane.Body.{text_of}
use ai_digital_office_os.ControlPlane.Agents.{find_agent}
use ai_digital_office_os.ControlPlane.Models.{
  RouteBody, is_complete, candidates_of, find_capable, select_model, decision_row, response,
  answer_of, ToText, RouteResponse, decide_route, route_model,
}

-- The model that the first usable candidate names: no earlier candidate names one.
pub record IsFirstChoice (to_text : ToText) (client capability : String) (candidates : List Json)
    (db : Db) (model : ModelRow) : Type 0 where
  pub earlier : List Json
  pub chosen : Json
  pub later : List Json
  pub splits : candidates ≡ earlier ++ chosen ∷ later
  pub names : find_capable to_text client capability chosen db ≡ some model
  pub none_earlier : All (λ c. find_capable to_text client capability c db ≡ none) earlier

module _ (to_text : ToText) (client capability : String) (db : Db) where
  select_model-IsFirstChoice :
      (candidates : List Json) (model : ModelRow)
      → select_model to_text client capability candidates db ≡ some model
      → IsFirstChoice to_text client capability candidates db model
  unfolding select_model
  select_model-IsFirstChoice [] model h = absurd (ground (arith, h))
  select_model-IsFirstChoice (c ∷ cs) model h =
      elim (Option-cases (find_capable to_text client capability c db)) [
        | inl unusable ↦
            let first = select_model-IsFirstChoice cs model (ground (arith, h, unusable)) in
            record {
              earlier = c ∷ first.earlier;
              chosen = first.chosen;
              later = first.later;
              splits = ap (λ xs. c ∷ xs) first.splits;
              names = first.names;
              none_earlier = (unusable, first.none_earlier);
            }
        | inr (found, usable) ↦ record {
          earlier = [];
          chosen = c;
          later = cs;
          splits = refl;
          names = ground (arith, h, usable);
          none_earlier = tt;
        }
      ]

  select_model-none :
      (candidates : List Json)
      → select_model to_text client capability candidates db ≡ none
      → All (λ c. find_capable to_text client capability c db ≡ none) candidates
  unfolding select_model
  select_model-none [] h = tt
  select_model-none (c ∷ cs) h = elim (Option-cases (find_capable to_text client capability c db)) [
    | inl unusable ↦ (unusable, select_model-none cs (ground (arith, h, unusable)))
    | inr (found, usable) ↦ absurd (ground (arith, h, usable))
  ]

module _ (to_text : ToText) (tenant_id : String) (body : RouteBody) (agent : AgentRow)
    (db : Db) where
  abbrev pub recorded : Option ModelRow → Db
  recorded selected = record db {
    routing_decisions =
        db.routing_decisions ++ decision_row tenant_id body (candidates_of agent) selected ∷ [];
  }

  -- the answer, where the row of the decision refers to a task and a tenant that are there or not
  abbrev pub outcome : Option ModelRow → Bool → Result RouteResponse × Db
  outcome selected true = (answer_of body selected, recorded selected)
  outcome selected false = (err no_such_key, db)

  -- the task and the tenant of the request are there
  abbrev pub is_known : Bool
  is_known = routing_refers (decision_row tenant_id body (candidates_of agent) none) db

  routed :
      (selected : Option ModelRow)
      → is_complete body ≡ true
      → find_agent tenant_id (text_of body.agent_id) db ≡ some agent
      → select_model to_text tenant_id (text_of body.required_capability) (candidates_of agent) db
        ≡ selected
      → route_model to_text tenant_id body db ≡ outcome selected is_known
  unfolding route_model decide_route insert_routing_decision insert store actions
  routed none valid found choice = ground (arith, valid, found, choice, eq_refl tenant_id)
  routed (some model) valid found choice = ground (arith, valid, found, choice, eq_refl tenant_id)

  -- A complete request for an agent that exists is answered in one of three ways. If its task or its
  -- tenant is not registered, it throws and changes nothing. Otherwise the answer is either the
  -- model of the agent's first candidate that names an active model with the capability, where no
  -- earlier candidate does; or, if no candidate does, that the request is denied. In both of these
  -- cases, a denial included, the tenant's decision is recorded once, and nothing else changes.
  pub route_model_chosen :
      is_complete body ≡ true
      → find_agent tenant_id (text_of body.agent_id) db ≡ some agent
      → ((is_known ≡ false) × (route_model to_text tenant_id body db ≡ (err no_such_key, db)))
        ⊎ ((model : ModelRow) × (is_known ≡ true)
            × IsFirstChoice to_text tenant_id
                (text_of body.required_capability)
                (candidates_of agent)
                db
                model
            × (route_model to_text tenant_id body db
                ≡ (ok (response body model), recorded (some model))))
        ⊎ ((is_known ≡ true)
            × All
                (λ c. find_capable to_text tenant_id (text_of body.required_capability) c db ≡ none)
                (candidates_of agent)
            × (route_model to_text tenant_id body db ≡ (err policy_denied, recorded none)))
  route_model_chosen valid found =
      let capability = text_of body.required_capability in
      let candidates = candidates_of agent in
      elim (Bool-cases is_known) [
        | inr unknown ↦ inl (unknown, routed _ valid found refl ∙ ap (outcome _) unknown)
        | inl known ↦
            inr (elim (Option-cases (select_model to_text tenant_id capability candidates db)) [
              | inl absent ↦ inr (
                known,
                select_model-none to_text tenant_id capability db candidates absent,
                routed none valid found absent ∙ ap (outcome none) known,
              )
              | inr (model, choice) ↦ inl (
                model,
                known,
                select_model-IsFirstChoice to_text tenant_id capability db candidates model choice,
                routed (some model) valid found choice ∙ ap (outcome (some model)) known,
              )
            ])
      ]

-- Routing changes only rows of the tenant.
pub route_model-IsIsolated :
    (to_text : ToText) (tenant_id : String) (body : RouteBody)
    → IsIsolated tenant_id (route_model to_text tenant_id body)
unfolding route_model decide_route
route_model-IsIsolated to_text tenant_id body = search isolation_rules depth 12
