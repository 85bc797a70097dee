-- ===== src/Examples/Devices.antt =====
-- Theorems about devices at concrete inputs.
use ifascada.Prelude.{◌≡◌, Bool, true, none, some, List, [], ◌∷◌, map, ok, err, All}
use ifascada.Prelude.Int.{ℤ, pos}
use ifascada.Prelude.Map.{lookup}
use ifascada.Float.{ℤ_float}
use ifascada.Json.{array, cons, nil, null}
use ifascada.Domain.Device.{Device, simulator}
use ifascada.Domain.Tag.{Tag}
use ifascada.Domain.UpdateMode.{polling, polling_on_change}
use ifascada.Devices.Actor.{World, DeviceActor, new, run}
use ifascada.Devices.Actor.Published.{IsSound, run-IsSound}
use ifascada.Devices.Manager
use ifascada.Devices.Manager.Running.{Op, starts, stops, IsRunning, run-IsRunning}
use ifascada.Devices.Manager.Running
use ifascada.Examples.Sample.{serde, num, weight, tag_in, sample_factory}

abbrev scale : Device ℤ
scale = record { id = "scale"; driver = simulator; connection_config = null; enabled = true }

abbrev tags : List (Tag ℤ)
tags = tag_in (polling 500) ∷ tag_in (polling_on_change 200 (pos 1)) ∷ []

-- A poll that gives a value in an array and an error.
abbrev world : World ℤ
world = record {
  now = 10;
  is_connected = true;
  connect = ok tt;
  poll = ok ((weight, ok (array (cons (num 7) nil))) ∷ (weight, err "no answer") ∷ []);
  published = λ e. true;
}

run-IsSound_example :
    let x = new scale tags sample_factory in
    All
      (IsSound x.pipelines (map (λ t. t.id) tags) (world ∷ world ∷ []))
      (run (world ∷ world ∷ []) x).trace
run-IsSound_example = run-IsSound scale tags sample_factory (world ∷ world ∷ [])

abbrev accepts : Device ℤ → List (Tag ℤ) → Bool
accepts d ts = true

abbrev ops : List (Op ℤ)
ops = starts (scale ∷ []) [] ∷ stops ∷ starts (scale ∷ scale ∷ []) tags ∷ []

run-IsRunning_example :
    let m = Running.run accepts sample_factory ops Manager.new in
    ((a : DeviceActor ℤ) → lookup "scale" m.actors ≡ some a → IsRunning m "scale" a)
    × (lookup "scale" m.actors ≡ none → lookup "scale" m.active_tags ≡ none)
run-IsRunning_example = run-IsRunning accepts sample_factory ops "scale"
