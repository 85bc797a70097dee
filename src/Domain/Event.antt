-- ===== src/Domain/Event.antt =====
-- crates/domain/src/event/mod.rs. The clock reading of a constructor is its last argument.
use ifascada.Prelude.{ℕ, String, Option, List, length}
use ifascada.Json.{Value}
use ifascada.Domain.TagId.{TagId}
use ifascada.Domain.Quality.{TagQuality}

pub record ReportItem (F : Type 0) : Type 0 where
  pub value : Value F
  pub timestamp : ℕ
  pub metadata : Option (Value F)

pub data DomainEvent (F : Type 0) : Type 0 where
  connected : TagId → ℕ → DomainEvent F
  disconnected : TagId → String → ℕ → DomainEvent F
  value_updated : TagId → Value F → TagQuality → ℕ → DomainEvent F
  heartbeat : String → ℕ → String → ℕ → List String → ℕ → DomainEvent F
  executor_error : TagId → String → ℕ → DomainEvent F
  completed : String → String → List (ReportItem F) → ℕ → DomainEvent F

module _ {F : Type 0} where
  abbrev pub report_completed : String → String → List (ReportItem F) → ℕ → DomainEvent F
  report_completed report agent items now = completed report agent items now

  abbrev pub tag_value_updated : TagId → Value F → TagQuality → ℕ → DomainEvent F
  tag_value_updated id v q now = value_updated id v q now

  unfoldable pub timestamp : DomainEvent F → ℕ
  timestamp (connected id t) = t
  timestamp (disconnected id r t) = t
  timestamp (value_updated id v q t) = t
  timestamp (heartbeat a u c n ids t) = t
  timestamp (executor_error id e t) = t
  timestamp (completed r a is t) = t

  pub event_type : DomainEvent F → String
  event_type (connected id t) = "TagConnected"
  event_type (disconnected id r t) = "TagDisconnected"
  event_type (value_updated id v q t) = "TagValueUpdated"
  event_type (heartbeat a u c n ids t) = "AgentHeartbeat"
  event_type (executor_error id e t) = "TagExecutorError"
  event_type (completed r a is t) = "ReportCompleted"

abbrev pub tag_connected : {F : Type 0} → TagId → ℕ → DomainEvent F
tag_connected id now = connected id now

abbrev pub tag_disconnected : {F : Type 0} → TagId → String → ℕ → DomainEvent F
tag_disconnected id reason now = disconnected id reason now

abbrev pub tag_executor_error : {F : Type 0} → TagId → String → ℕ → DomainEvent F
tag_executor_error id e now = executor_error id e now

-- The number of active tags is counted from the list.
abbrev pub agent_heartbeat : {F : Type 0} → String → String → ℕ → List String → ℕ → DomainEvent F
agent_heartbeat agent version uptime ids now = heartbeat agent uptime version (length ids) ids now
