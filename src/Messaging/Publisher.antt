-- ===== src/Messaging/Publisher.antt =====
-- crates/infrastructure/src/messaging/buffered_publisher.rs and database/sqlite_buffer.rs. The flusher
-- and the callers of `publish` interleave, so the rows that the flusher still has to send are part
-- of the state, and a run is a list of operations. The client and SQLite answer in the operation.
pub mod Rows
pub mod Consistency
pub mod Delivery
use Prim.Native.String.{◌++◌ as add_text}
use ifascada.Prelude.{
  ℕ, ◌+◌, String, Bool, true, false, not, Option, none, some, List, [], ◌∷◌, ◌++◌, ltb, ◌==◌,
  Result, ok, err, if◌then◌else◌,
}
use ifascada.Json.{Value, Items, Serde, nil, cons, array, object, field, end, number, pos_int, null}
use ifascada.Json
use ifascada.Domain.TagId.{TagId}
use ifascada.Domain.Quality
use ifascada.Domain.Event.{DomainEvent, ReportItem, value_updated, completed, heartbeat}
use ifascada.Text.Utf8.{as_bytes}

abbrev pub Message : Type 0
Message = String × List ℕ

-- A row of `offline_buffer`.
pub record Row : Type 0 where
  pub id : ℕ
  pub topic : String
  pub payload : List ℕ
  pub created_at : ℕ

-- `enqueue`: SQLite answers with the id and the time of the row, or with an error.
pub data Stored : Type 0 where
  stored : (id created_at : ℕ) → Stored
  refused : String → Stored

unfoldable pub enqueue : Stored → Message → List Row → List Row × Result (Unit {0}) String
enqueue (stored id now) (topic, payload) rows =
    (rows ++ record { id = id; topic = topic; payload = payload; created_at = now } ∷ [], ok tt)
enqueue (refused e) m rows = (rows, err e)

unfoldable pub delete : ℕ → List Row → List Row
delete id [] = []
delete id (r ∷ rows) = let rest = delete id rows in if r.id == id then rest else r ∷ rest

pub record BufferedMqttPublisher : Type 0 where
  pub buffer : List Row
  pub agent_id : String
  pub flushing : List Row  -- the rows that the flusher still has to send
  pub delivered : List Message  -- what the client took, newest first

unfoldable pub new : List Row → String → BufferedMqttPublisher
new rows agent_id = record { buffer = rows; agent_id = agent_id; flushing = []; delivered = [] }

-- `to_rfc3339` is chrono's printing of a time.
module _ {F : Type 0} ⦃serde : Serde F⦄ (to_rfc3339 : ℕ → String) where
  abbrev or_null : Option (Value F) → Value F
  or_null none = null
  or_null (some v) = v

  abbrev item_json : ReportItem F → Value F
  item_json item = object (
      field "value" item.value (
        field "timestamp" (Json.string (to_rfc3339 item.timestamp))
          (field "metadata" (or_null item.metadata) end)))

  items_json : List (ReportItem F) → Items F
  items_json [] = nil
  items_json (item ∷ items) = cons (item_json item) (items_json items)

  abbrev print : Value F → List ℕ
  print v = as_bytes (serde.to_string v)

  -- Values and reports can be buffered, and no other event.
  unfoldable pub create_payload : String → DomainEvent F → Option Message
  unfolding items_json
  create_payload agent (value_updated id v q t) = some (
    add_text "scada/data/" agent,
    print (
        array (
          cons
            (object (
              field "tag_id" (Json.string id.as_str) (
                field "val" v (
                  field "ts" (number (pos_int t))
                    (field "q" (Json.string (Quality.as_str q)) end)))))
            nil)),
  )
  create_payload agent (completed report_id a items t) = some (
    add_text "scada/reports/" agent,
    print (
        object (
          field "report_id" (Json.string report_id) (
            field "timestamp" (Json.string (to_rfc3339 t))
              (field "items" (array (items_json items)) end)))),
  )
  create_payload agent _ = none

  strings : List String → Items F
  strings [] = nil
  strings (s ∷ ss) = cons (Json.string s) (strings ss)

  -- A heartbeat goes to the client and is not buffered.
  unfoldable pub heartbeat_message : DomainEvent F → Option Message
  unfolding strings
  heartbeat_message (heartbeat agent uptime version active ids t) = some (
    add_text "scada/health/" agent,
    print (
        object (
          field "uptime" (number (pos_int uptime)) (
            field "version" (Json.string version) (
              field "tags" (number (pos_int active))
                (field "tag_ids" (array (strings ids)) (field "ts" (number (pos_int t)) end)))))),
  )
  heartbeat_message _ = none

-- What the client and SQLite answer to one call of `publish`.
pub record World : Type 0 where
  pub is_connected : Bool
  pub published : Bool
  pub stored : Stored

abbrev deliver : Bool → Message → BufferedMqttPublisher → BufferedMqttPublisher
deliver taken m s = if taken then record s { delivered = m ∷ s.delivered } else s

-- The message is buffered, and an error of the buffer is the caller's.
unfoldable pub keep :
    Stored → Message → BufferedMqttPublisher → BufferedMqttPublisher × Result (Unit {0}) String
keep answer m s =
    let (rows, result) = enqueue answer m s.buffer in (record s { buffer = rows }, result)

unfoldable pub send :
    World → Message → BufferedMqttPublisher → BufferedMqttPublisher × Result (Unit {0}) String
send w m s =
    if not w.is_connected
    then keep w.stored m s
    else if w.published
    then (deliver true m s, ok tt)
    else keep w.stored m s

-- A payload is sent or buffered; a heartbeat is sent, and its failure ignored.
unfoldable pub dispatch :
    World
    → Option Message
    → Option Message
    → BufferedMqttPublisher
    → BufferedMqttPublisher × Result (Unit {0}) String
dispatch w (some m) beat s = send w m s
dispatch w none (some m) s = (deliver w.published m s, ok tt)
dispatch w none none s = (s, ok tt)

module _ {F : Type 0} ⦃serde : Serde F⦄ (to_rfc3339 : ℕ → String) where
  unfoldable pub publish :
      World
      → DomainEvent F
      → BufferedMqttPublisher
      → BufferedMqttPublisher × Result (Unit {0}) String
  publish w e s =
      dispatch w (create_payload to_rfc3339 s.agent_id e) (heartbeat_message to_rfc3339 e) s

-- The flusher wakes up: the answers are whether the client is connected, the number of rows, and the
-- rows of `dequeue_batch(50)`; `none` is an error.
unfoldable pub wake :
    Bool → Option ℕ → Option (List Row) → BufferedMqttPublisher → BufferedMqttPublisher
wake true (some count) (some rows) s = if ltb 0 count then record s { flushing = rows } else s
wake _ _ _ s = s

-- The flusher sends its next row. A row that was sent is deleted, if SQLite does; a failure ends the batch.
unfoldable pub forward_next : Bool → Bool → List Row → BufferedMqttPublisher → BufferedMqttPublisher
forward_next published deleted [] s = s
forward_next false deleted (r ∷ rest) s = record s { flushing = [] }
forward_next true deleted (r ∷ rest) s = record s {
  flushing = rest;
  delivered = (r.topic, r.payload) ∷ s.delivered;
  buffer = if deleted then delete r.id s.buffer else s.buffer;
}

abbrev pub forward : Bool → Bool → BufferedMqttPublisher → BufferedMqttPublisher
forward published deleted s = forward_next published deleted s.flushing s
