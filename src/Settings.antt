-- ===== src/Settings.antt =====
-- crates/infrastructure/src/config.rs: the configuration that an agent is sent. Its loading from
-- files belongs to the config and serde crates.
use ifascada.Prelude.{ℕ, String, Bool, Option, List}
use ifascada.Json.{Value}
use ifascada.Domain.Config.{AutomationConfig, PipelineConfig}
use ifascada.Domain.Device.{Device, DriverType}
use ifascada.Domain.UpdateMode.{TagUpdateMode, TagValueType}

pub record MqttConfig : Type 0 where
  pub host : String
  pub port : ℕ  -- u16
  pub status_topic : Option String

pub record PrinterConfig : Type 0 where
  pub enabled : Bool
  pub host : String
  pub port : ℕ  -- u16
  pub type : Option String
  pub path : Option String

pub record TagConfig (F : Type 0) : Type 0 where
  pub id : String
  pub device_id : Option String
  pub driver : Option DriverType
  pub driver_config : Option (Value F)
  pub update_mode : Option (TagUpdateMode F)
  pub value_type : Option TagValueType
  pub value_schema : Option (Value F)
  pub enabled : Option Bool
  pub pipeline : Option (PipelineConfig F)
  pub automations : List (AutomationConfig F)

pub record AgentConfig (F : Type 0) : Type 0 where
  pub version : String
  pub agent_id : String
  pub mqtt : MqttConfig
  pub printer : Option PrinterConfig
  pub devices : List (Device F)
  pub tags : List (TagConfig F)
  pub heartbeat_interval_secs : ℕ
