-- ===== src/Domain/Status.antt =====
-- crates/domain/src/tag/status.rs.
use ifascada.Prelude.{String, Bool, true, false}

pub data TagStatus : Type 0 where
  online offline error unknown : TagStatus

unfoldable pub as_str : TagStatus → String
as_str online = "online"
as_str offline = "offline"
as_str error = "error"
as_str unknown = "unknown"

unfoldable pub is_healthy : TagStatus → Bool
is_healthy online = true
is_healthy _ = false

abbrev pub default : TagStatus
default = unknown
