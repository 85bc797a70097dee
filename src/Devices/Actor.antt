-- ===== src/Devices/Actor.antt =====
-- crates/application/src/device/device_actor.rs. The driver, the publisher and the clock answer through
-- a `World`, one for each tick of the timer; what the actor does to them is its trace, newest first.
pub mod Interval
pub mod Published
use ifascada.Prelude.{
  ℕ, String, Bool, true, false, Option, none, some, List, [], ◌∷◌, map, min, same, ◌==◌, Result, ok,
  err, unwrap_or, if◌then◌else◌,
}
use ifascada.Float.{Float}
use ifascada.Json.{Value, Serde, null, array, Items, nil, cons}
use ifascada.Domain.TagId.{TagId}
use ifascada.Domain.Device.{Device}
use ifascada.Domain.Event.{DomainEvent, tag_value_updated}
use ifascada.Domain.Quality.{TagQuality, good, bad}
use ifascada.Domain.UpdateMode.{TagUpdateMode, on_change, polling, polling_on_change}
use ifascada.Domain.Tag.{Tag, update_value}
use ifascada.Pipeline.{TagPipeline, PipelineFactory, process}
use ifascada.Pipeline

pub data Effect (F : Type 0) : Type 0 where
  connects disconnects polls : Effect F
  publishes : DomainEvent F → Bool → Effect F  -- with the publisher's answer

pub record World (F : Type 0) : Type 0 where
  pub now : ℕ
  pub is_connected : Bool
  pub connect : Result (Unit {0}) String
  pub poll : Result (List (TagId × Result (Value F) String)) String
  pub published : DomainEvent F → Bool

pub record DeviceActor (F : Type 0) : Type 0 where
  pub device : Device F
  pub tags : List (Tag F)
  pub pipelines : List (TagPipeline F)
  pub trace : List (Effect F)

unfoldable pub least : Option ℕ → Option ℕ → Option ℕ
least none o = o
least (some i) none = some i
least (some i) (some j) = some (min i j)

module _ {F : Type 0} where
  unfoldable pub new : Device F → List (Tag F) → PipelineFactory F → DeviceActor F
  new device tags factory = record {
    device = device;
    tags = tags;
    pipelines = map (λ t. Pipeline.new t.id t.pipeline_config factory) tags;
    trace = [];
  }

  -- The interval of a tag that is polled.
  unfoldable pub interval_of : TagUpdateMode F → Option ℕ
  interval_of (polling i) = some i
  interval_of (polling_on_change i c) = some i
  interval_of (on_change d t) = none

  unfoldable pub least_interval : List (Tag F) → Option ℕ
  least_interval [] = none
  least_interval (t ∷ tags) = least (interval_of t.update_mode) (least_interval tags)

  -- The least interval of the polled tags, or a second.
  unfoldable pub poll_interval : List (Tag F) → ℕ
  poll_interval tags = unwrap_or (least_interval tags) 1000

  -- An array of one element stands for the element.
  unfoldable pub unbox : Value F → Value F
  unbox (array (cons v nil)) = v
  unbox v = v

  unfoldable pub find_tag : String → List (Tag F) → Option (Tag F)
  find_tag id [] = none
  find_tag id (t ∷ tags) = if same t.id.as_str id then some t else find_tag id tags

  -- `iter_mut().find`: the first tag of the id changes.
  unfoldable pub change_tag : String → (Tag F → Tag F) → List (Tag F) → List (Tag F)
  change_tag id f [] = []
  change_tag id f (t ∷ tags) = if same t.id.as_str id then f t ∷ tags else t ∷ change_tag id f tags

  unfoldable pub find_pipeline : String → List (TagPipeline F) → Option (TagPipeline F)
  find_pipeline id [] = none
  find_pipeline id (p ∷ ps) = if same p.tag_id.as_str id then some p else find_pipeline id ps

  abbrev did : Effect F → DeviceActor F → DeviceActor F
  did e x = record x { trace = e ∷ x.trace }

  -- The tag takes a value, and the event is published.
  unfoldable pub update : World F → TagId → Value F → TagQuality → DeviceActor F → DeviceActor F
  update w id v q x =
      let e = tag_value_updated id v q w.now in
      record x {
        tags = change_tag id.as_str (λ t. update_value t v q w.now) x.tags;
        trace = publishes e (w.published e) ∷ x.trace;
      }

module _ {F : Type 0} ⦃f : Float F⦄ ⦃s : Serde F⦄ where
  -- What the pipeline makes of a value; an error drops it.
  unfoldable pub accept : Option (TagPipeline F) → Value F → Option (Value F)
  accept none v = some v
  accept (some p) v = elim (process p v) [ ok o ↦ o | err e ↦ none ]

  unfoldable pub handle_value : World F → TagId → Value F → DeviceActor F → DeviceActor F
  handle_value w id v x = elim (accept (find_pipeline id.as_str x.pipelines) (unbox v)) [
    | none ↦ x
    | some final ↦ update w id final good x
  ]

  -- One result of a poll.
  unfoldable pub handle_result :
      World F → TagId → Result (Value F) String → DeviceActor F → DeviceActor F
  handle_result w id r x = elim (find_tag id.as_str x.tags) [
    | none ↦ x
    | some tag ↦ elim r [ ok v ↦ handle_value w tag.id v x | err e ↦ update w tag.id null bad x ]
  ]

  unfoldable pub handle_results :
      World F → List (TagId × Result (Value F) String) → DeviceActor F → DeviceActor F
  handle_results w [] x = x
  handle_results w ((id, r) ∷ rest) x = handle_results w rest (handle_result w id r x)

  unfoldable pub poll_once : World F → DeviceActor F → DeviceActor F
  poll_once w x = elim w.poll [
    | ok results ↦ handle_results w results (did polls x)
    | err e ↦ did disconnects (did polls x)
  ]

  -- The answer to the connection: if it failed the tick is over.
  unfoldable pub reconnected : Result (Unit {0}) String → World F → DeviceActor F → DeviceActor F
  reconnected (ok u) w x = poll_once w x
  reconnected (err e) w x = x

  -- A tick: a driver that is not connected is connected first.
  unfoldable pub tick : World F → DeviceActor F → DeviceActor F
  tick w x = if w.is_connected then poll_once w x else reconnected w.connect w (did connects x)

  unfoldable pub run_ticks : List (World F) → DeviceActor F → DeviceActor F
  run_ticks [] x = x
  run_ticks (w ∷ ws) x = run_ticks ws (tick w x)

  -- The initial connection, whose failure is only logged, and the ticks up to the cancellation. A timer
  -- with an interval of 0 panics.
  unfoldable pub run : List (World F) → DeviceActor F → DeviceActor F
  run ws x = let y = did connects x in if poll_interval x.tags == 0 then y else run_ticks ws y
