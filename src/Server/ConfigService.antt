-- ===== src/Server/ConfigService.antt =====
-- The service that sends agents their configuration: crates/central-server/src/services/config_service.rs.
-- Readings of the clock are milliseconds.
pub mod Debounced
use Prim.Native.String.{◌++◌ as add_text}
use ifascada.Prelude.{
  ℕ, ◌-◌, ◌/◌, String, Bool, true, false, Option, none, some, List, [], ◌∷◌, ltb, same,
  if◌then◌else◌, and_then,
}
use ifascada.Prelude.Map.{lookup, insert}
use ifascada.Text.{starts_with, trim_start_matches}
use ifascada.Text.Utf8.{from_utf8}
use ifascada.Json.{Value, Serde, get, as_str}
use ifascada.Messaging.Client.{MqttMessage}

-- The time, the agent's configuration as the repository and the printing give it, and whether the broker
-- takes it.
pub record World : Type 0 where
  pub now : ℕ
  pub config : Option String
  pub publishes : Bool

pub record ConfigService : Type 0 where
  pub last_sync : List (String × ℕ)
  pub synced : List (String × ℕ)  -- the agents that were synchronized and when, newest first
  pub published : List (String × String)  -- topics and payloads that the broker took, newest first
  pub acks : List ℕ

abbrev pub new : ConfigService
new = record { last_sync = []; synced = []; published = []; acks = [] }

-- Less than ten seconds ago.
unfoldable pub is_recent : ℕ → Option ℕ → Bool
is_recent now none = false
is_recent now (some last) = ltb ((now - last) / 1000) 10

unfoldable pub publish_config : World → String → Option String → ConfigService → ConfigService
publish_config w agent none s = s
publish_config w agent (some config) s =
    if w.publishes
    then record s { published = (add_text "scada/config/" agent, config) ∷ s.published }
    else s

unfoldable pub sync_config : World → String → ConfigService → ConfigService
sync_config w agent s =
    publish_config w agent w.config (record s { synced = (agent, w.now) ∷ s.synced })

-- An agent that came online.
unfoldable pub debounce : World → String → ConfigService → ConfigService
debounce w agent s =
    if is_recent w.now (lookup agent s.last_sync)
    then s
    else sync_config w agent (record s { last_sync = insert agent w.now s.last_sync })

unfoldable pub handle_status : World → String → Option String → ConfigService → ConfigService
handle_status w agent none s = s
handle_status w agent (some status) s = if same status "ONLINE" then debounce w agent s else s

-- `from_str` is the parsing of JSON.
module _ {F : Type 0} (from_str : String → Option (Value F)) where
  unfoldable pub handle_payload : World → String → Option (Value F) → ConfigService → ConfigService
  handle_payload w agent none s = s
  handle_payload w agent (some payload) s =
      handle_status w agent (and_then (get "status" payload) as_str) s

  -- Every status message is acknowledged, also one that is not JSON.
  unfoldable pub handle_status_message : World → MqttMessage → ConfigService → ConfigService
  handle_status_message w m s =
      let agent = trim_start_matches m.topic "scada/status/" in
      let t = handle_payload w agent (and_then (from_utf8 m.payload) from_str) s in
      record t { acks = m.pkid ∷ t.acks }

  -- The loop over the messages that are received.
  unfoldable pub start : List (World × MqttMessage) → ConfigService → ConfigService
  start [] s = s
  start ((w, m) ∷ ms) s =
      start ms (if starts_with m.topic "scada/status/" then handle_status_message w m s else s)
