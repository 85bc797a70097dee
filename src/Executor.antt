-- ===== src/Executor.antt =====
-- crates/application/src/tag/tag_executor.rs: the loop that reads a tag. The driver, the publisher
-- and the clock answer through a `World`, one for each turn of the loop; what the executor does to
-- them is its trace, newest first.
pub mod Loop
pub mod Cases
pub mod Rules
pub mod Backoff
pub mod Registry
pub mod Deadband
pub mod Turns
pub mod Shutdown
pub mod Timeouts
use ifascada.Prelude.{
  ℕ, ◌+◌, ◌*◌, ◌/◌, ◌%◌, ◌^◌, min, max, String, Bool, true, false, ◌&&◌, not, Option, none, some,
  List, [], ◌∷◌, Result, ok, err, if◌then◌else◌,
}
use ifascada.Prelude.Map.{add, discard}
use ifascada.Float.{Float}
use ifascada.Json.{Value, Serde, as_f64}
use ifascada.Domain.TagId.{TagId}
use ifascada.Domain.Config.{PipelineConfig}
use ifascada.Domain.Event.{
  DomainEvent, tag_connected, tag_disconnected, tag_value_updated, tag_executor_error,
}
use ifascada.Domain.Quality.{good}
use ifascada.Domain.Status.{TagStatus, offline}
use ifascada.Domain.Tag.{Tag, is_timed_out, update_value, mark_offline, mark_error, reset_timeout}
use ifascada.Pipeline.{TagPipeline, PipelineFactory, process}
use ifascada.Pipeline

pub data Effect (F : Type 0) : Type 0 where
  driver_connect driver_disconnect driver_read : Effect F
  publish : DomainEvent F → Bool → Effect F  -- with the publisher's answer
  sleep : ℕ → Effect F  -- seconds

-- What the outside answers in one turn.
pub record World (F : Type 0) : Type 0 where
  pub now : ℕ
  pub later : ℕ  -- the clock after the backoff
  pub connect : Result (Unit {0}) String
  pub read : Result (Option (Value F)) String
  pub published : DomainEvent F → Bool

pub record TagExecutor (F : Type 0) : Type 0 where
  pub tag : Tag F
  pub pipeline : TagPipeline F
  pub reconnect_attempts : ℕ  -- u32
  pub connected_registry : List String  -- the ids in the shared set
  pub trace : List (Effect F)

module _ {F : Type 0} where
  unfoldable pub new : Tag F → PipelineFactory F → List String → TagExecutor F
  new tag factory registry = record {
    tag = tag;
    pipeline = Pipeline.new tag.id tag.pipeline_config factory;
    reconnect_attempts = 0;
    connected_registry = registry;
    trace = [];
  }

  abbrev pub did : Effect F → TagExecutor F → TagExecutor F
  did a x = record x { trace = a ∷ x.trace }

  -- A failure to publish is logged.
  abbrev pub publishes : World F → DomainEvent F → TagExecutor F → TagExecutor F
  publishes w e x = did (publish e (w.published e)) x

  unfoldable pub connect : World F → ℕ → TagExecutor F → TagExecutor F × Result (Unit {0}) String
  connect w now x =
      let y = did driver_connect x in
      let id = x.tag.id in
      let up = record y {
        tag = reset_timeout (mark_offline x.tag now) now;
        reconnect_attempts = 0;
        connected_registry = add id.as_str x.connected_registry;
      } in
      elim w.connect [
        | err e ↦ (y, err "Failed to connect driver")
        | ok _ ↦ (publishes w (tag_connected id now) up, ok tt)
      ]

  -- The driver's own answer to `disconnect` is only logged.
  unfoldable pub disconnect : ℕ → TagExecutor F → TagExecutor F
  disconnect now x =
      let id = x.tag.id in
      record x {
        tag = mark_offline x.tag now;
        connected_registry = discard id.as_str x.connected_registry;
        trace = driver_disconnect ∷ x.trace;
      }

  unfoldable pub handle_timeout : World F → TagExecutor F → TagExecutor F
  handle_timeout w x =
      let id = x.tag.id in
      publishes w (tag_disconnected id "Timeout - no data received (connection kept open)" w.now)
        (record x {
          tag = mark_offline x.tag w.now;
          connected_registry = discard id.as_str x.connected_registry;
        })

-- Seconds to wait before the given attempt.
unfoldable pub backoff_secs : ℕ → ℕ
backoff_secs attempts = min (max (2 ^ min attempts 8 / 2) 10) 300

abbrev is_offline : TagStatus → Bool
is_offline offline = true
is_offline _ = false

module _ {F : Type 0} where
  -- A failed attempt is left to the next turn.
  unfoldable pub reconnect : World F → TagExecutor F → TagExecutor F
  reconnect w x =
      let attempts = (x.reconnect_attempts + 1) % 2 ^ 32 in
      (connect w w.later
        (did (sleep (backoff_secs attempts)) (record x { reconnect_attempts = attempts }))).0

  unfoldable pub handle_read_error : World F → String → TagExecutor F → TagExecutor F
  handle_read_error w message x =
      let id = x.tag.id in
      reconnect w (
        disconnect w.now (
          publishes w (tag_executor_error id message w.now)
            (record x { tag = mark_error x.tag message w.now })))

  -- `update_value`, the event, and the registry if the event was published.
  unfoldable pub publish_value : World F → Value F → TagExecutor F → TagExecutor F
  publish_value w v x =
      let id = x.tag.id in
      let e = tag_value_updated id v good w.now in
      publishes w e (record x {
        tag = update_value x.tag v good w.now;
        connected_registry =
            if w.published e then add id.as_str x.connected_registry else x.connected_registry;
      })

  -- The check at the head of each turn.
  unfoldable pub timeout_due : World F → TagExecutor F → Bool
  timeout_due w x = not (is_offline x.tag.status) && is_timed_out x.tag w.now
