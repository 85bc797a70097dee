-- ===== src/Examples/Executor.antt =====
-- Theorems about the tag executor at concrete inputs.
use ifascada.Prelude.{◌≡◌, refl, arith, false, none, some, List, [], ◌∷◌}
use ifascada.Prelude.Int.{ℤ, pos}
use ifascada.Prelude.Map.{contains}
use ifascada.Float.{ℤ_float}
use ifascada.Domain.Status.{offline}
use ifascada.Domain.Tag
use ifascada.Domain.UpdateMode.{polling, polling_on_change}
use ifascada.Executor.{driver_disconnect, new, TagExecutor}
use ifascada.Executor.Loop.{
  Signal, tick, cancelled, returned, period, execute, run, polling_on_change_turn,
}
use ifascada.Executor.Timeouts.{Alternates, execute-Alternates}
use ifascada.Executor.Turns.{IsSettled, execute-IsSettled}
use ifascada.Executor.Shutdown.{head, execute_cancelled}
use ifascada.Executor.Deadband.{numbers, Spaced, run-Spaced}
use ifascada.Examples.Sample.{serde, reads, broken, executor_in}

-- The executor after a timeout.
abbrev settle : TagExecutor ℤ → TagExecutor ℤ
settle x = record x { tag = record x.tag { status = offline } }

abbrev signals : List (Signal ℤ)
signals = tick (reads 10 5) ∷ tick (broken 20) ∷ tick (reads 30 9) ∷ cancelled ∷ []

execute-IsSettled_example : IsSettled (execute (reads 0 1) 40 (executor_in (polling 10)) signals).0
execute-IsSettled_example = execute-IsSettled (reads 0 1) 40 (executor_in (polling 10)) signals

execute_cancelled_example :
    let (y, outcome) = execute (reads 0 1) 40 (executor_in (polling 10)) signals in
    (outcome ≡ returned)
    × (y.tag.status ≡ offline)
    × (head y.trace ≡ some driver_disconnect)
    × (contains "weight" y.connected_registry ≡ false)
unfolding new Tag.new period
execute_cancelled_example =
    execute_cancelled (reads 0 1) 40 (executor_in (polling 10)) signals (omega arith) refl

run-Spaced_example : Spaced (pos 3) (
    numbers
      (run
        (polling_on_change_turn (pos 3))
        (executor_in (polling_on_change 10 (pos 3)), none)
        signals).0.0.trace)
unfolding new
run-Spaced_example = run-Spaced (pos 3) (executor_in (polling_on_change 10 (pos 3))) signals refl

execute-Alternates_example :
    Alternates (execute (reads 0 1) 40 (executor_in (polling 10)) signals).0.trace
unfolding new
execute-Alternates_example =
    execute-Alternates (reads 0 1) 40 (executor_in (polling 10)) signals refl
