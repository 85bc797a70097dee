-- ===== src/Automation/Engine.antt =====
-- What an event does to the engine, and which automations it holds: `handle_event` and `build_map` of
-- crates/application/src/automation/engine.rs.
use Prim.Native.Char.{Char}
use mathlib.Core.Option
use ifascada.Prelude.{
  ℕ, ◌≡◌, refl, ◌∙◌, String, Bool, true, false, ◌&&◌, not, Option, none, some, List, [], ◌∷◌, map,
  arith, same, same_iff, is_ok, unwrap_or, if◌then◌else◌, Option-cases, Result-cases, inl, inr,
}
use ifascada.Prelude.Map.{lookup, lookup-insert}
use ifascada.Float.{Float}
use ifascada.Json.{Value}
use ifascada.Domain.TagId.{TagId, new-ok_iff}
use ifascada.Domain.TagId
use ifascada.Domain.Config.{ActionConfig}
use ifascada.Domain.Event.{DomainEvent}
use ifascada.Domain.Quality.{TagQuality}
use ifascada.Settings.{TagConfig}
use ifascada.Automation.{
  AutomationEngine, ActiveAutomation, activate, add_tag, build_from, build_map, visit,
  evaluate_trigger, TriggerState, visit_all, handle_event,
}

module _ {F : Type 0} ⦃x : Float F⦄ where
  -- What the trigger of an automation makes of a value: its next state, and whether it fires.
  abbrev pub judged : Value F → ActiveAutomation F → TriggerState × Bool
  judged v a = evaluate_trigger a.state a.config.trigger v a.value_type a.value_schema

  abbrev pub stepped : Value F → ActiveAutomation F → ActiveAutomation F
  stepped v a = record {
    config = a.config;
    state = (judged v a).0;
    value_type = a.value_type;
    value_schema = a.value_schema;
  }

  -- The actions of the automations whose trigger fires.
  abbrev pub fires : Value F → List (ActiveAutomation F) → List ActionConfig
  fires v [] = []
  fires v (a ∷ rest) = if (judged v a).1 then a.config.action ∷ fires v rest else fires v rest

  visit_all_lem :
      (v : Value F) (list : List (ActiveAutomation F))
      → visit_all v list ≡ (map (stepped v) list, fires v list)
  unfolding visit_all visit
  visit_all_lem v [] = refl
  visit_all_lem v (a ∷ rest) = ground (arith, visit_all_lem v rest)

  -- The automations of a tag after an event: the trigger of each one of the event's tag has seen the value once.
  abbrev pub seen :
      String
      → Value F
      → String
      → Option (List (ActiveAutomation F))
      → Option (List (ActiveAutomation F))
  seen id v j none = none
  seen id v j (some list) = if same id j then some (map (stepped v) list) else some list

  -- A value is judged once by the trigger of every automation of its tag, from that automation's own state, which it replaces, and by no automation of another tag; the actions that fire are exactly those of the automations whose trigger fires, in their order.
  pub handle_event-value :
      (e : AutomationEngine F) (id : TagId) (v : Value F) (q : TagQuality) (t : ℕ)
      → let (e', fired) = handle_event e (DomainEvent.value_updated id v q t) in
        ((j : String) → lookup j e'.automations ≡ seen id.as_str v j (lookup j e.automations))
        × (fired ≡ fires v (unwrap_or (lookup id.as_str e.automations) []))
  unfolding handle_event
  handle_event-value e id v q t = elim (Option-cases (lookup id.as_str e.automations)) [
    | inl h ↦ (λ j. ground (arith, same_iff id.as_str j), ground arith)
    | inr (list, h) ↦ (
      λ j. ground (
        arith,
        same_iff id.as_str j,
        visit_all_lem v list,
        lookup-insert id.as_str j (visit_all v list).0 e.automations,
      ),
      ground (arith, visit_all_lem v list),
    )
  ]

abbrev pub is_empty : {A : Type 0} → List A → Bool
is_empty [] = true
is_empty (a ∷ rest) = false

if-map :
    {A B : Type 0} (f : A → B) (b : Bool) (a : A) (o : Option A) (m : Option B)
    → m ≡ Option.map f o
    → (if b then some (f a) else m) ≡ Option.map f (if b then some a else o)
if-map f true a o m h = refl
if-map f false a o m h = h

module _ {F : Type 0} (is_alphanumeric : Char → Bool) where
  -- The configuration of a key: the last one of that id that has automations, if the id is valid.
  abbrev pub last_config : String → Option (TagConfig F) → List (TagConfig F) → Option (TagConfig F)
  last_config k found [] = found
  last_config k found (tag ∷ tags) =
      last_config k
        (if same tag.id k
            && is_ok (TagId.new is_alphanumeric tag.id)
            && not (is_empty tag.automations)
          then some tag
          else found)
        tags

  lookup-add_tag :
      (k : String) (m : List (String × List (ActiveAutomation F))) (tag : TagConfig F)
      → lookup k (add_tag is_alphanumeric m tag) ≡ (
          if same tag.id k
            && is_ok (TagId.new is_alphanumeric tag.id)
            && not (is_empty tag.automations)
          then some (activate is_alphanumeric tag)
          else lookup k m)
  unfolding add_tag
  lookup-add_tag k m tag = elim (Result-cases (TagId.new is_alphanumeric tag.id)) [
    | inl (id, e) ↦ ground (
      arith,
      ((new-ok_iff is_alphanumeric tag.id id).0 e).3,
      lookup-insert id.as_str k (activate is_alphanumeric tag) m,
    )
    | inr (f, e) ↦ ground arith
  ]

  build_from-lookup :
      (k : String) (m : List (String × List (ActiveAutomation F))) (found : Option (TagConfig F))
      (tags : List (TagConfig F))
      → lookup k m ≡ Option.map (activate is_alphanumeric) found
      → lookup k (build_from is_alphanumeric m tags)
        ≡ Option.map (activate is_alphanumeric) (last_config k found tags)
  unfolding build_from
  build_from-lookup k m found [] h = h
  build_from-lookup k m found (tag ∷ tags) h =
      build_from-lookup k (add_tag is_alphanumeric m tag) _ tags
        (lookup-add_tag k m tag ∙ if-map (activate is_alphanumeric) _ tag found (lookup k m) h)

  -- A tag has the automations of the last configuration of its id that has any, all with their counters at 0, if the id is a valid tag id; no other key has any.
  pub lookup-build_map :
      (k : String) (tags : List (TagConfig F))
      → lookup k (build_map is_alphanumeric tags)
        ≡ Option.map (activate is_alphanumeric) (last_config k none tags)
  unfolding build_map lookup
  lookup-build_map k tags = build_from-lookup k [] none tags refl
