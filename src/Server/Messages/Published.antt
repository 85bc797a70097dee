-- ===== src/Server/Messages/Published.antt =====
-- What a value that an agent publishes becomes at the central server: create_payload of
-- crates/infrastructure/src/messaging/buffered_publisher.rs, read by process_mqtt_message of
-- crates/central-server/src/main.rs.
use Prim.Native.String.{◌++◌ as add_text}
use ifascada.Prelude.{
  ℕ, ◌<◌, ◌^◌, ◌≡◌, refl, sym, ap, ◌∙◌, String, true, false, Option, none, some, [], ◌∷◌, ◌++◌,
  arith, same, some-inj, unwrap_or,
}
use ifascada.Prelude.Int.{ℤ, pos}
use ifascada.Text.{strip_prefix}
use ifascada.Text.Utf8.{as_bytes, from_utf8-as_bytes}
use ifascada.Text.Prefix.{starts_with-append, starts_with-differ, trim_start_matches-append}
use ifascada.Float.{Float}
use ifascada.Json.{
  Value, Serde, array, object, cons, nil, field, end, number, pos_int, get, entry, as_str, as_i64,
  as_array, elements,
}
use ifascada.Json
use ifascada.Domain.TagId.{TagId}
use ifascada.Domain.Quality.{TagQuality}
use ifascada.Domain.Quality
use ifascada.Domain.Event.{value_updated}
use ifascada.Messaging.Client.{MqttMessage}
use ifascada.Messaging.Publisher.{Message, create_payload}
use ifascada.Server.{update_tag}
use ifascada.Server.Database.{CentralServer, begun, committed, ack}
use ifascada.Server.Telemetry.{
  Answers, inserted, Reading, reading_of, row_of, insert_registered, insert_reading,
  attempt_reading, tag_data, time_of, insert_all, finish, store_packet, elements_of, process_data,
}
use ifascada.Server.Telemetry
use ifascada.Server.Messages.{World, process_mqtt_message}

-- The message that arrives is what was sent.
abbrev pub arrived : ℕ → Message → MqttMessage
arrived pkid m = record { topic = m.0; payload = m.1; pkid = pkid }

module _ {F : Type 0} where
  -- The value that the agent prints.
  abbrev pub reading_json : TagId → Value F → TagQuality → ℕ → Value F
  reading_json id v q t = object (
      field "tag_id" (Json.string id.as_str) (
        field "val" v
          (field "ts" (number (pos_int t)) (field "q" (Json.string (Quality.as_str q)) end))))

  reading_of-json :
      (id : TagId) (v : Value F) (q : TagQuality) (t : ℕ)
      → t < 2 ^ 63
      → reading_of (reading_json id v q t)
        ≡ some (record {
          tag_id = id.as_str;
          value = v;
          quality = Quality.as_str q;
          timestamp = pos t;
        })
  unfolding reading_of get entry as_str as_i64 same
  reading_of-json id v q t h = ground (arith, h)

-- The database takes the first reading of a packet, and the packet.
pub record Takes (w : Telemetry.World) : Type 0 where
  pub begins : w.begins ≡ true
  pub savepoint : (w.reading 0).savepoint ≡ true
  pub insert : (w.reading 0).insert ≡ inserted
  pub release : (w.reading 0).release ≡ true
  pub commits : w.commits ≡ true

module _ {F : Type 0} where
  -- The server after it stored one reading of an agent.
  abbrev pub with_reading : ℕ → String → ℕ → Reading F → ℕ → CentralServer F → CentralServer F
  with_reading now agent time r pkid s = ack pkid (record s {
    app = update_tag now (tag_data agent time r) s.app;
    tag_events = s.tag_events ++ row_of (some r.tag_id) time r ∷ [];
  })

  attempt_reading-Takes :
      (w : Telemetry.World) (time : ℕ) (r : Reading F)
      → Takes w
      → w.fits time ≡ true
      → attempt_reading w 0 time r begun
        ≡ some (record { rows = row_of (some r.tag_id) time r ∷ []; aborted = false })
  unfolding attempt_reading insert_reading insert_registered
  attempt_reading-Takes w time r h fit = rw (fit, h.savepoint, h.insert, h.release) refl

  stored_at :
      (from_timestamp_millis : ℤ → Option ℕ) (w : Telemetry.World) (agent : String) (pkid : ℕ)
      (v : Value F) (r : Reading F) (s : CentralServer F)
      → Takes w
      → reading_of v ≡ some r
      → w.fits (time_of from_timestamp_millis w.now r) ≡ true
      → store_packet from_timestamp_millis w agent pkid (v ∷ []) s
        ≡ with_reading w.now agent (time_of from_timestamp_millis w.now r) r pkid s
  unfolding store_packet insert_all finish committed
  stored_at from_timestamp_millis w agent pkid v r s h e fit =
      let t = time_of from_timestamp_millis w.now r in
      rw (store_packet, insert_all, e, attempt_reading-Takes w t r h fit, h.commits, h.begins) refl

  store_packet-one :
      (from_timestamp_millis : ℤ → Option ℕ) (w : Telemetry.World) (agent : String) (pkid : ℕ)
      (v : Value F) (r : Reading F) (t : ℕ) (s : CentralServer F)
      → Takes w
      → reading_of v ≡ some r
      → from_timestamp_millis r.timestamp ≡ some t
      → w.fits t ≡ true
      → store_packet from_timestamp_millis w agent pkid (v ∷ []) s
        ≡ with_reading w.now agent t r pkid s
  store_packet-one from_timestamp_millis w agent pkid v r t s h e g fit =
      let at = ap (λ o. unwrap_or o w.now) g in
      stored_at from_timestamp_millis w agent pkid v r s h e (ap w.fits at ∙ fit)
      ∙ ap (λ x. with_reading w.now agent x r pkid s) at

module _ {F : Type 0} ⦃serde : Serde F⦄ where
  elements_of-json :
      (v : Value F)
      → serde.from_str (serde.to_string (array (cons v nil))) ≡ some (array (cons v nil))
      → elements_of (as_bytes (serde.to_string (array (cons v nil)))) ≡ some (v ∷ [])
  unfolding elements_of as_array elements
  elements_of-json v e = rw (from_utf8-as_bytes (serde.to_string (array (cons v nil))), e) refl

  process_data-one :
      (from_timestamp_millis : ℤ → Option ℕ) (w : Telemetry.World) (agent : String)
      (m : MqttMessage) (v : Value F) (r : Reading F) (t : ℕ) (s : CentralServer F)
      → Takes w
      → elements_of m.payload ≡ some (v ∷ [])
      → reading_of v ≡ some r
      → from_timestamp_millis r.timestamp ≡ some t
      → w.fits t ≡ true
      → process_data from_timestamp_millis w agent m s ≡ with_reading w.now agent t r m.pkid s
  unfolding process_data
  process_data-one from_timestamp_millis w agent m v r t s h p e g fit =
      rw (p, process_data) (store_packet-one from_timestamp_millis w agent m.pkid v r t s h e g fit)

module _ {F : Type 0} ⦃f : Float F⦄ ⦃serde : Serde F⦄ where
  process_mqtt_message-data :
      (w : World F) (agent : String) (m : MqttMessage) (s : CentralServer F)
      → m.topic ≡ add_text "scada/data/" agent
      → strip_prefix "scada/data/" agent ≡ none
      → process_mqtt_message w m s ≡ process_data w.from_timestamp_millis w.telemetry agent m s
  unfolding process_mqtt_message
  process_mqtt_message-data w agent m s e n =
      rw
        (
          e,
          starts_with-differ "scada/status/" "scada/data/" agent refl,
          starts_with-append "scada/data/" agent,
          trim_start_matches-append "scada/data/" agent n,
        )
        refl

  -- A value that an agent publishes becomes, when its message arrives at the central server and the database takes it, the last value of its tag in memory and a row of the table, with the same tag, value, quality and time, and the message is acknowledged. This holds if the JSON that was printed parses back, the time fits chrono and the time crate and the agent's name does not begin with the topic's prefix.
  pub process_mqtt_message-create_payload :
      (to_rfc3339 : ℕ → String) (w : World F) (agent : String) (id : TagId) (v : Value F)
      (q : TagQuality) (t pkid : ℕ) (sent : Message) (s : CentralServer F)
      → create_payload to_rfc3339 agent (value_updated id v q t) ≡ some sent
      → serde.from_str (serde.to_string (array (cons (reading_json id v q t) nil)))
        ≡ some (array (cons (reading_json id v q t) nil))
      → t < 2 ^ 63
      → w.from_timestamp_millis (pos t) ≡ some t
      → w.telemetry.fits t ≡ true
      → strip_prefix "scada/data/" agent ≡ none
      → Takes w.telemetry
      → process_mqtt_message w (arrived pkid sent) s
        ≡ with_reading w.telemetry.now agent t
            (record {
              tag_id = id.as_str;
              value = v;
              quality = Quality.as_str q;
              timestamp = pos t;
            })
            pkid
            s
  unfolding create_payload
  process_mqtt_message-create_payload to_rfc3339 w agent id v q t pkid sent s c e h g fit n k =
      let j = reading_json id v q t in
      let topic = ap (λ m. m.0) (sym (some-inj c)) in
      let payload = ap (λ m. elements_of {F = F} m.1) (sym (some-inj c)) in
      process_mqtt_message-data w agent (arrived pkid sent) s topic n
      ∙ process_data-one w.from_timestamp_millis w.telemetry agent (arrived pkid sent) j _ t s k
          (payload ∙ elements_of-json j e) (reading_of-json id v q t h) g fit
