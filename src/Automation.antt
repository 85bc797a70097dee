-- ===== src/Automation.antt =====
-- crates/application/src/automation/engine.rs: triggers over the values of a tag. The actions that
-- fire are the output of the engine, in order; Printer/Printing runs them.
pub mod Trigger
pub mod Engine
use Prim.Native.Char.{Char}
use ifascada.Prelude.{
  ℕ, zero, suc, ◌+◌, String, Bool, true, false, not, Option, none, some, List, [], ◌∷◌, ◌++◌, map,
  Result, ok, err, leb, and_then, unwrap_or, if◌then◌else◌,
}
use ifascada.Prelude.Map.{lookup, insert}
use ifascada.Float.{Float}
use ifascada.Json.{Value, number, object, get, as_f64, number_as_f64}
use ifascada.Domain.TagId.{TagId}
use ifascada.Domain.TagId
use ifascada.Domain.Config.{
  AutomationConfig, ActionConfig, TriggerConfig, consecutive_values, Operator, equal, not_equal,
  less_or_equal, greater_or_equal, greater, less,
}
use ifascada.Domain.Event.{DomainEvent}
use ifascada.Domain.Tag.{primary_key}
use ifascada.Domain.UpdateMode.{TagValueType, simple, composite}
use ifascada.Settings.{TagConfig}

pub record TriggerState : Type 0 where
  pub consecutive_matches : ℕ
  pub last_match : Option ℕ

abbrev pub default : TriggerState
default = record { consecutive_matches = 0; last_match = none }

pub record ActiveAutomation (F : Type 0) : Type 0 where
  pub config : AutomationConfig F
  pub state : TriggerState
  pub value_type : TagValueType
  pub value_schema : Option (Value F)

-- The map is keyed by the text of the tag id.
pub record AutomationEngine (F : Type 0) : Type 0 where
  pub automations : List (String × List (ActiveAutomation F))

module _ {F : Type 0} (is_alphanumeric : Char → Bool) where
  abbrev pub activate : TagConfig F → List (ActiveAutomation F)
  activate tag =
      map
        (λ c. record {
          config = c;
          state = default;
          value_type = unwrap_or tag.value_type simple;
          value_schema = tag.value_schema;
        })
        tag.automations

  -- One tag of the loop: one without automations or with an invalid id is skipped.
  unfoldable pub add_tag :
      List (String × List (ActiveAutomation F))
      → TagConfig F
      → List (String × List (ActiveAutomation F))
  add_tag m tag = elim tag.automations [
    | [] ↦ m
    | a ∷ as' ↦ elim (TagId.new is_alphanumeric tag.id) [
      | ok id ↦ insert id.as_str (activate tag) m
      | err e ↦ m
    ]
  ]

  build_from :
      List (String × List (ActiveAutomation F))
      → List (TagConfig F)
      → List (String × List (ActiveAutomation F))
  build_from m [] = m
  build_from m (tag ∷ tags) = build_from (add_tag m tag) tags

  unfoldable pub build_map : List (TagConfig F) → List (String × List (ActiveAutomation F))
  unfolding build_from
  build_map tags = build_from [] tags

  unfoldable pub reload : AutomationEngine F → List (TagConfig F) → AutomationEngine F
  reload e tags = record e { automations = build_map tags }

module _ {F : Type 0} ⦃x : Float F⦄ where
  -- The number of a value: that of a simple number, or the primary one of a composite object.
  unfoldable pub number_of : TagValueType → Option (Value F) → Value F → F
  number_of simple schema (number n) = number_as_f64 n
  number_of composite schema (object m) =
      unwrap_or (and_then (get (primary_key schema) (object m)) as_f64) (x.of_u64 0)
  number_of _ schema v = x.of_u64 0

  unfoldable pub compares : Operator → F → F → Bool
  compares equal n target = x.less (x.abs (x.minus n target)) x.epsilon
  compares not_equal n target = x.less_eq x.epsilon (x.abs (x.minus n target))
  compares less_or_equal n target = x.less_eq n target
  compares greater_or_equal n target = x.less_eq target n
  compares greater n target = x.less target n
  compares less n target = x.less n target

  -- The match condition of a trigger.
  unfoldable pub matches : TriggerConfig F → Value F → TagValueType → Option (Value F) → Bool
  matches (consecutive_values target count operator within) v type schema =
      compares operator (number_of type schema v) target

-- The counter after a match or a mismatch, and whether the trigger fires.
unfoldable pub count_match : ℕ → Bool → TriggerState → TriggerState × Bool
count_match count matched s =
    let n = if matched then s.consecutive_matches + 1 else 0 in
    if leb count n
    then (record s { consecutive_matches = 0 }, true)
    else (record s { consecutive_matches = n }, false)

module _ {F : Type 0} ⦃x : Float F⦄ where
  unfoldable pub evaluate_trigger :
      TriggerState
      → TriggerConfig F
      → Value F
      → TagValueType
      → Option (Value F)
      → TriggerState × Bool
  evaluate_trigger s (consecutive_values target count operator within) v type schema =
      count_match count (matches (consecutive_values target count operator within) v type schema) s

  -- One automation of the loop, and the action that it fires.
  unfoldable pub visit : Value F → ActiveAutomation F → ActiveAutomation F × List ActionConfig
  visit v a =
      let (s, fired) = evaluate_trigger a.state a.config.trigger v a.value_type a.value_schema in
      (record a { state = s }, if fired then a.config.action ∷ [] else [])

  unfoldable pub visit_all :
      Value F → List (ActiveAutomation F) → List (ActiveAutomation F) × List ActionConfig
  visit_all v [] = ([], [])
  visit_all v (a ∷ rest) =
      let (b, fired) = visit v a in let (bs, more) = visit_all v rest in (b ∷ bs, fired ++ more)

  -- The actions that fire run with the event's tag and value as their arguments.
  unfoldable pub handle_event :
      AutomationEngine F → DomainEvent F → AutomationEngine F × List ActionConfig
  handle_event e (DomainEvent.value_updated id v q t) = elim (lookup id.as_str e.automations) [
    | none ↦ (e, [])
    | some list ↦ (
      record e { automations = insert id.as_str (visit_all v list).0 e.automations },
      (visit_all v list).1,
    )
  ]
  handle_event e _ = (e, [])
