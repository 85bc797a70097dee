-- ===== src/Examples/Automation.antt =====
-- Theorems about automations at concrete inputs.
use ifascada.Prelude.{
  ◌≡◌, refl, ◌<◌, ◌≤◌, String, true, none, some, List, [], ◌∷◌, unwrap_or, arith,
}
use ifascada.Prelude.Int.{ℤ, pos}
use ifascada.Prelude.Map.{lookup}
use ifascada.Float.{ℤ_float}
use ifascada.Json.{Value}
use ifascada.Json
use ifascada.Domain.Config.{AutomationConfig, consecutive_values, greater, print_batch}
use ifascada.Domain.Event.{value_updated}
use ifascada.Domain.Quality.{good}
use ifascada.Domain.UpdateMode.{simple}
use ifascada.Settings.{TagConfig}
use ifascada.Automation.{
  AutomationEngine, activate, evaluate_trigger, matches, number_of, compares, handle_event,
}
use ifascada.Automation.Trigger.{
  replay, streak, evaluate_all, evaluate_trigger-streak, evaluate_all-rate,
}
use ifascada.Automation.Engine.{fires, seen, handle_event-value}
use ifascada.Examples.Sample.{ascii, num, weight}

abbrev heavy : AutomationConfig ℤ
heavy = record {
  name = "heavy";
  trigger = consecutive_values (pos 50) 3 greater none;
  action = print_batch "s1" "HEADER" "";
}

abbrev scale : TagConfig ℤ
scale = record {
  id = "weight";
  device_id = none;
  driver = none;
  driver_config = none;
  update_mode = none;
  value_type = some simple;
  value_schema = none;
  enabled = none;
  pipeline = none;
  automations = heavy ∷ [];
}

abbrev engine : AutomationEngine ℤ
engine = record { automations = ("weight", activate ascii scale) ∷ [] }

evaluate_trigger-streak_example :
    ((replay (pos 50) 3 greater none simple none (num 60 ∷ num 70 ∷ [])).consecutive_matches < 3)
    × ((evaluate_trigger
            (replay (pos 50) 3 greater none simple none (num 60 ∷ num 70 ∷ []))
            (consecutive_values (pos 50) 3 greater none)
            (num 80)
            simple
            none).1
          ≡ true
        → 3 ≤ streak (pos 50) 3 greater none simple none (num 80 ∷ num 60 ∷ num 70 ∷ []))
evaluate_trigger-streak_example =
    evaluate_trigger-streak (pos 50) 3 greater none simple none (num 60 ∷ num 70 ∷ []) (num 80)
      (omega arith)

abbrev heavy_values : List (Value ℤ)
heavy_values = num 60 ∷ num 70 ∷ num 80 ∷ num 90 ∷ []

evaluate_all-rate_example :
    ((evaluate_all
        (pos 50)
        3
        greater
        none
        simple
        none
        (record { consecutive_matches = 2; last_match = none })
        heavy_values).1
      ≡ 2)
    × ((evaluate_all
          (pos 50)
          3
          greater
          none
          simple
          none
          (record { consecutive_matches = 2; last_match = none })
          heavy_values).0.consecutive_matches
        ≡ 0)
unfolding matches compares number_of Json.number_as_f64
evaluate_all-rate_example =
    evaluate_all-rate (pos 50) 3 greater none simple none
      (record { consecutive_matches = 2; last_match = none }) heavy_values (omega arith)
      (omega arith) (refl, (refl, (refl, (refl, tt))))

handle_event-value_example :
    let (e', fired) = handle_event engine (value_updated weight (num 60) good 5) in
    ((j : String)
      → lookup j e'.automations ≡ seen "weight" (num 60) j (lookup j engine.automations))
    × (fired ≡ fires (num 60) (unwrap_or (lookup "weight" engine.automations) []))
handle_event-value_example = handle_event-value engine weight (num 60) good 5
