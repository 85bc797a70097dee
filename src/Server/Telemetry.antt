-- ===== src/Server/Telemetry.antt =====
-- The telemetry of an agent: the topic `scada/data` in process_mqtt_message of
-- crates/central-server/src/main.rs. The database answers through a `World`, for each reading by its
-- place in the packet.
pub mod Stored
pub mod Acks
use ifascada.Prelude.{
  ℕ, suc, String, Bool, true, false, ◌&&◌, not, Option, none, some, List, [], ◌∷◌, ◌++◌, Result, ok,
  err, if◌then◌else◌, and_then, unwrap_or,
}
use ifascada.Prelude.Int.{ℤ}
use ifascada.Text.Utf8.{from_utf8}
use ifascada.Json.{Value, Serde, get, as_str, as_i64, as_array}
use ifascada.Messaging.Client.{MqttMessage}
use ifascada.Server.{TagData, AppState, update_tag}
use ifascada.Server.Database.{EventRow, CentralServer, Transaction, begun, committed, ack}

-- The answer to an INSERT: the tag may not be registered.
pub data Inserted : Type 0 where
  inserted foreign_key refused : Inserted

-- The answers to the statements for one reading, if the transaction is not aborted.
pub record Answers : Type 0 where
  pub savepoint : Bool
  pub insert : Inserted
  pub release : Bool
  pub rollback : Bool
  pub fallback : Bool

pub record World : Type 0 where
  pub now : ℕ
  pub begins : Bool
  pub reading : ℕ → Answers
  pub commits : Bool
  pub fits : ℕ → Bool  -- whether the time crate can hold a time

pub record Reading (F : Type 0) : Type 0 where
  pub tag_id : String
  pub value : Value F
  pub quality : String
  pub timestamp : ℤ

module _ {F : Type 0} where
  -- An element of a packet, if it has all of its fields.
  unfoldable pub reading_of : Value F → Option (Reading F)
  reading_of v = and_then (and_then (get "tag_id" v) as_str) (λ id. and_then (get "val" v) (λ val.
      and_then (and_then (get "q" v) as_str) (λ q.
        and_then (and_then (get "ts" v) as_i64)
          (λ ts. some (record { tag_id = id; value = val; quality = q; timestamp = ts })))))

  abbrev pub row_of : Option String → ℕ → Reading F → EventRow F
  row_of id time r = record { tag_id = id; value = r.value; quality = r.quality; timestamp = time }

  abbrev add_row : EventRow F → Bool → Transaction (EventRow F) → Transaction (EventRow F)
  add_row row aborted tx = record { rows = tx.rows ++ row ∷ []; aborted = aborted }

  -- The INSERT for a tag that is not registered, after the rollback to the savepoint.
  unfoldable pub insert_unregistered :
      Answers → ℕ → Reading F → Transaction (EventRow F) → Option (Transaction (EventRow F))
  insert_unregistered a time r tx =
      if a.rollback && a.fallback then some (add_row (row_of none time r) false tx) else none

  unfoldable pub insert_registered :
      Inserted
      → Answers
      → ℕ
      → Reading F
      → Transaction (EventRow F)
      → Option (Transaction (EventRow F))
  insert_registered inserted a time r tx =
      some (add_row (row_of (some r.tag_id) time r) (not a.release) tx)
  insert_registered foreign_key a time r tx = insert_unregistered a time r tx
  insert_registered refused a time r tx = none

  -- The statements for a reading; `none` is an error, which gives the packet up.
  unfoldable pub insert_reading :
      Answers → ℕ → Reading F → Transaction (EventRow F) → Option (Transaction (EventRow F))
  insert_reading a time r tx =
      if a.savepoint && not tx.aborted then insert_registered a.insert a time r tx else none

  -- `to_offset` panics at a time that does not fit; a panic gives the packet up, too.
  unfoldable pub attempt_reading :
      World → ℕ → ℕ → Reading F → Transaction (EventRow F) → Option (Transaction (EventRow F))
  attempt_reading w i time r tx =
      if w.fits time then insert_reading (w.reading i) time r tx else none

  unfoldable pub tag_data : String → ℕ → Reading F → TagData F
  tag_data agent_id time r = record {
    id = r.tag_id;
    agent_id = agent_id;
    value = r.value;
    quality = r.quality;
    status = "online";
    timestamp = time;
    received_at = none;
  }

  -- The commit, after which the packet is acknowledged, or the rollback.
  unfoldable pub finish :
      World → ℕ → Option (Transaction (EventRow F)) → CentralServer F → CentralServer F
  finish w pkid none s = s
  finish w pkid (some tx) s =
      if w.commits then ack pkid (record s { tag_events = s.tag_events ++ committed tx }) else s

-- `from_timestamp_millis` is chrono's, which refuses times too far away; then it is now.
module _ {F : Type 0} (from_timestamp_millis : ℤ → Option ℕ) where
  abbrev pub time_of : ℕ → Reading F → ℕ
  time_of now r = unwrap_or (from_timestamp_millis r.timestamp) now

  -- The loop over a packet, from the place of its next element: memory changes even if the packet is given up.
  unfoldable pub insert_all :
      World
      → String
      → ℕ
      → List (Value F)
      → Transaction (EventRow F)
      → AppState F
      → AppState F × Option (Transaction (EventRow F))
  insert_all w agent i [] tx st = (st, some tx)
  insert_all w agent i (v ∷ vs) tx st = elim (reading_of v) [
    | none ↦ insert_all w agent (suc i) vs tx st
    | some r ↦
        let seen = update_tag w.now (tag_data agent (time_of w.now r) r) st in
        elim (attempt_reading w i (time_of w.now r) r tx) [
          | none ↦ (seen, none)
          | some more ↦ insert_all w agent (suc i) vs more seen
        ]
  ]

  unfoldable pub store_packet :
      World → String → ℕ → List (Value F) → CentralServer F → CentralServer F
  store_packet w agent pkid vs s =
      let (st, outcome) = insert_all w agent 0 vs begun s.app in
      if w.begins then finish w pkid outcome (record s { app = st }) else s

module _ {F : Type 0} ⦃serde : Serde F⦄ where
  -- The elements of a payload, if it is an array in JSON.
  unfoldable pub elements_of : List ℕ → Option (List (Value F))
  elements_of payload = and_then (and_then (from_utf8 payload) serde.from_str) as_array

  unfoldable pub process_data :
      (ℤ → Option ℕ) → World → String → MqttMessage → CentralServer F → CentralServer F
  process_data from_timestamp_millis w agent m s = elim (elements_of m.payload) [
    | none ↦ ack m.pkid s
    | some vs ↦ store_packet from_timestamp_millis w agent m.pkid vs s
  ]
