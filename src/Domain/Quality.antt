-- ===== src/Domain/Quality.antt =====
-- crates/domain/src/tag/quality.rs.
use ifascada.Prelude.{String, Bool, true, false}

pub data TagQuality : Type 0 where
  good bad uncertain timeout : TagQuality

unfoldable pub as_str : TagQuality → String
as_str good = "good"
as_str bad = "bad"
as_str uncertain = "uncertain"
as_str timeout = "timeout"

unfoldable pub is_usable : TagQuality → Bool
is_usable good = true
is_usable _ = false

abbrev pub default : TagQuality
default = uncertain
