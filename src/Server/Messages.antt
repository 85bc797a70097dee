-- ===== src/Server/Messages.antt =====
-- The messages that the central server receives: process_mqtt_message of
-- crates/central-server/src/main.rs.
pub mod Published
use ifascada.Prelude.{ℕ, String, Option, none, some, List, Bool, ◌≡◌, same, if◌then◌else◌, and_then}
use ifascada.Prelude.Int.{ℤ}
use ifascada.Text.{starts_with, trim_start_matches}
use ifascada.Text.Utf8.{from_utf8}
use ifascada.Float.{Float}
use ifascada.Json.{Value, Serde, get, as_str}
use ifascada.Messaging.Client.{MqttMessage}
use ifascada.Server.{
  AgentStatus, online, offline, unknown, ReportData, update_agent_status, update_agent_heartbeat,
}
use ifascada.Server.Database.{CentralServer, ack}
use ifascada.Server.Telemetry.{process_data}
use ifascada.Server.Telemetry
use ifascada.Server.Reports.{process_report}
use ifascada.Server.Reports

-- The status of a text.
unfoldable pub status_named : String → AgentStatus
status_named s = if same s "ONLINE" then online else if same s "OFFLINE" then offline else unknown

-- What is outside: the clock and the database, the decoding of bytes that are not UTF-8, the limits of
-- chrono, and the deserialization of a report.
pub record World (F : Type 0) : Type 0 where
  pub now : ℕ
  pub telemetry : Telemetry.World
  pub report : Reports.World
  pub from_utf8_lossy : List ℕ → String
  pub from_timestamp_millis : ℤ → Option ℕ
  pub read_report : List ℕ → Option (ReportData F)

-- The status of a payload: a text, or else the field of an object in JSON.
unfoldable pub status_in :
    {F : Type 0} (from_str : String → Option (Value F)) → String → AgentStatus
unfolding status_named
status_in from_str text = elim (status_named text) [
  | online ↦ online
  | offline ↦ offline
  | unknown ↦ elim (and_then (and_then (from_str text) (get "status")) as_str) [
    | none ↦ unknown
    | some s ↦ status_named s
  ]
]

module _ {F : Type 0} ⦃serde : Serde F⦄ where
  unfoldable pub process_status : World F → String → MqttMessage → CentralServer F → CentralServer F
  unfolding status_in
  process_status w agent m s = ack m.pkid (record s {
    app =
        update_agent_status w.now agent (status_in serde.from_str (w.from_utf8_lossy m.payload))
          s.app;
  })

  -- A heartbeat that is not JSON is not acknowledged.
  unfoldable pub process_health : World F → String → MqttMessage → CentralServer F → CentralServer F
  process_health w agent m s = elim (and_then (from_utf8 m.payload) serde.from_str) [
    | none ↦ s
    | some metrics ↦
        ack m.pkid (record s { app = update_agent_heartbeat w.now agent metrics s.app })
  ]

module _ {F : Type 0} ⦃f : Float F⦄ ⦃serde : Serde F⦄ where
  -- A message of any other topic is left.
  unfoldable pub process_mqtt_message : World F → MqttMessage → CentralServer F → CentralServer F
  unfolding process_status process_health
  process_mqtt_message w m s =
      if starts_with m.topic "scada/status/"
      then process_status w (trim_start_matches m.topic "scada/status/") m s
      else if starts_with m.topic "scada/data/"
      then process_data w.from_timestamp_millis w.telemetry
          (trim_start_matches m.topic "scada/data/") m s
      else if starts_with m.topic "scada/reports/"
      then process_report w.read_report w.report (trim_start_matches m.topic "scada/reports/") m s
      else if starts_with m.topic "scada/health/"
      then process_health w (trim_start_matches m.topic "scada/health/") m s
      else s
