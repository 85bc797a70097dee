-- ===== src/Executor/Loop.antt =====
-- The loops of crates/application/src/tag/tag_executor.rs. A loop runs over the signals that its
-- `select!` takes, a turn for each tick, until it is cancelled or a turn fails.
-- A panic ends the task without a disconnection.
use ifascada.Prelude.{
  ℕ, String, Bool, true, Option, none, some, List, [], ◌∷◌, Result, ok, err, ◌==◌, if◌then◌else◌,
}
use ifascada.Float.{Float}
use ifascada.Json.{Value, Serde, as_f64}
use ifascada.Domain.Tag.{mark_error}
use ifascada.Domain.UpdateMode.{TagUpdateMode, on_change, polling, polling_on_change}
use ifascada.Pipeline.{process}
use ifascada.Executor.{
  TagExecutor, World, driver_read, did, connect, disconnect, handle_timeout, handle_read_error,
  publish_value, timeout_due,
}

pub data Signal (F : Type 0) : Type 0 where
  cancelled : Signal F
  tick : World F → Signal F

-- How a loop stands after a list of signals.
pub data Outcome : Type 0 where
  running returned panicked : Outcome
  failed : String → Outcome

abbrev pub first {ℓ κ ι} : {A : Type ℓ} {B : Type κ} {C : Type ι} → (A × B) × C → A × C
first ((a, b), c) = (a, c)

module _ {F : Type 0} {S : Type 0} where
  -- A turn that gives an error ends the loop.
  unfoldable pub run : (World F → S → S × Option String) → S → List (Signal F) → S × Outcome
  run turn s [] = (s, running)
  run turn s (cancelled ∷ rest) = (s, returned)
  run turn s (tick w ∷ rest) =
      let (s', e) = turn w s in
      let more = run turn s' rest in elim e [ none ↦ more | some m ↦ (s', failed m) ]

-- The period of the timer: the debounce time, or the interval.
unfoldable pub period : {F : Type 0} → TagUpdateMode F → ℕ
period (on_change d t) = d
period (polling i) = i
period (polling_on_change i threshold) = i

module _ {F : Type 0} ⦃f : Float F⦄ where
  -- Whether a value is far enough from the one published last.
  far : F → F → Option F → Bool
  far threshold n none = true
  far threshold n (some last) = f.less_eq threshold (f.abs (f.minus n last))

  unfoldable pub should_publish : F → Value F → Option F → Bool
  unfolding far
  should_publish threshold v last = elim (as_f64 v) [ none ↦ true | some n ↦ far threshold n last ]

  unfoldable pub last_published : Value F → Option F → Option F
  last_published v last = elim (as_f64 v) [ none ↦ last | some n ↦ some n ]

  -- A processed value, against the one published last.
  unfoldable pub consider :
      F → World F → Value F → TagExecutor F → Option F → TagExecutor F × Option F
  consider threshold w v x last =
      if should_publish threshold v last
      then (publish_value w v x, last_published v last)
      else (x, last)

module _ {F : Type 0} ⦃f : Float F⦄ ⦃s : Serde F⦄ where
  unfoldable pub read_and_publish :
      World F → TagExecutor F → TagExecutor F × Result (Unit {0}) String
  read_and_publish w x =
      let y = did driver_read x in
      elim w.read [
        | err e ↦ (y, err e)
        | ok none ↦ (y, ok tt)
        | ok (some raw) ↦ elim (process x.pipeline raw) [
          | err e ↦ (y, err e)
          | ok none ↦ (y, ok tt)
          | ok (some v) ↦ (publish_value w v y, ok tt)
        ]
      ]

  -- After a read: the attempts start anew, or the error is handled.
  unfoldable pub after_read : World F → TagExecutor F × Result (Unit {0}) String → TagExecutor F
  after_read w (x, ok _) = record x { reconnect_attempts = 0 }
  after_read w (x, err e) = handle_read_error w e x

  unfoldable pub on_change_turn : World F → TagExecutor F → TagExecutor F × Option String
  on_change_turn w x =
      if timeout_due w x
      then (handle_timeout w x, none)
      else (after_read w (read_and_publish w x), none)

  unfoldable pub polling_turn : World F → TagExecutor F → TagExecutor F × Option String
  polling_turn w x =
      if timeout_due w x
      then (handle_timeout w x, none)
      else (after_read w (read_and_publish w x), none)

  abbrev fresh : TagExecutor F × Option F → TagExecutor F × Option F
  fresh (x, last) = (record x { reconnect_attempts = 0 }, last)

  -- The state is the executor and the number published last.
  unfoldable pub polling_on_change_turn :
      F → World F → TagExecutor F × Option F → (TagExecutor F × Option F) × Option String
  polling_on_change_turn threshold w (x, last) =
      let y = did driver_read x in
      if timeout_due w x then ((handle_timeout w x, last), none) else (elim w.read [
        | err e ↦ ((handle_read_error w e y, last), none)
        | ok none ↦ ((y, last), none)
        | ok (some raw) ↦ elim (process x.pipeline raw) [
          | err e ↦ ((y, last), some e)
          | ok none ↦ (fresh (y, last), none)
          | ok (some v) ↦ (fresh (consider threshold w v y last), none)
        ]
      ])

  -- The loop of a mode, once its timer runs.
  unfoldable pub run_loop :
      TagUpdateMode F → TagExecutor F → List (Signal F) → TagExecutor F × Outcome
  run_loop (on_change d t) x signals = run on_change_turn x signals
  run_loop (polling i) x signals = run polling_turn x signals
  run_loop (polling_on_change i threshold) x signals =
      first (run (polling_on_change_turn threshold) (x, none) signals)

  -- `interval` panics for a period of 0, before the loop is entered.
  unfoldable pub run_mode :
      TagUpdateMode F → TagExecutor F → List (Signal F) → TagExecutor F × Outcome
  unfolding run_loop
  run_mode mode x signals = if period mode == 0 then (x, panicked) else run_loop mode x signals

  -- A failed first connection is recorded, and the loop is entered all the same.
  unfoldable pub start : World F → TagExecutor F → TagExecutor F
  start w x =
      let (y, r) = connect w w.now x in
      elim r [ ok _ ↦ y | err e ↦ disconnect w.now (record y { tag = mark_error y.tag e w.now }) ]

  unfoldable pub close : ℕ → TagExecutor F × Outcome → TagExecutor F × Outcome
  close now (x, running) = (x, running)
  close now (x, panicked) = (x, panicked)
  close now (x, returned) = (disconnect now x, returned)
  close now (x, failed e) = (disconnect now x, failed e)

  -- `first_turn` answers the first connection, and `closing` is the clock when the loop has ended.
  unfoldable pub execute : World F → ℕ → TagExecutor F → List (Signal F) → TagExecutor F × Outcome
  unfolding run_mode close start
  execute first_turn closing x signals =
      close closing (run_mode x.tag.update_mode (start first_turn x) signals)
