-- ===== src/Domain/Tag.antt =====
-- crates/domain/src/tag/aggregate.rs: the tag aggregate. A method that reads the clock takes the
-- reading, in milliseconds, as its last argument.
pub mod Health
pub mod Timeout
use ifascada.Prelude.{
  ℕ, ◌+◌, ◌-◌, ◌^◌, String, Bool, true, false, ◌&&◌, Option, none, some, ltb, if◌then◌else◌,
  and_then, unwrap_or,
}
use ifascada.Float.{Float}
use ifascada.Json.{Value, get, as_str, as_f64}
use ifascada.Domain.TagId.{TagId}
use ifascada.Domain.Config.{PipelineConfig}
use ifascada.Domain.UpdateMode.{
  TagUpdateMode, on_change, polling, polling_on_change, TagValueType, simple, composite, u64,
  timeout_ms,
}
use ifascada.Domain.Status.{TagStatus, online, offline, error, is_healthy as status_is_healthy}
use ifascada.Domain.Status
use ifascada.Domain.Quality.{TagQuality, bad, timeout, is_usable}
use ifascada.Domain.Quality

pub record Tag (F : Type 0) : Type 0 where
  pub id : TagId
  pub source_config : Value F
  pub device_id : String
  pub update_mode : TagUpdateMode F
  pub value_type : TagValueType
  pub value_schema : Option (Value F)
  pub pipeline_config : PipelineConfig F
  pub enabled : Bool
  pub metadata : Option (Value F)
  pub last_value : Option (Value F)
  pub last_update : Option ℕ
  pub status : TagStatus
  pub quality : TagQuality
  pub error_message : Option String
  pub created_at : ℕ
  pub updated_at : ℕ

-- `num_milliseconds() as u64`: a negative difference wraps.
unfoldable pub elapsed_ms : ℕ → ℕ → ℕ
elapsed_ms now last_update = u64 (now + 2 ^ 64 - last_update)

abbrev is_timeout : TagQuality → Bool
is_timeout timeout = true
is_timeout _ = false

-- The status that a value of the quality gives.
status_of : TagQuality → TagStatus
unfolding is_usable
status_of q = if is_usable q then online else if is_timeout q then offline else error

module _ {F : Type 0} where
  unfoldable pub new :
      TagId → String → Value F → TagUpdateMode F → TagValueType → PipelineConfig F → ℕ → Tag F
  new id device_id source_config update_mode value_type pipeline_config now = record {
    id = id;
    source_config = source_config;
    device_id = device_id;
    update_mode = update_mode;
    value_type = value_type;
    value_schema = none;
    pipeline_config = pipeline_config;
    enabled = true;
    metadata = none;
    last_value = none;
    last_update = none;
    status = Status.default;
    quality = Quality.default;
    error_message = none;
    created_at = now;
    updated_at = now;
  }

  unfoldable pub with_device_id : Tag F → String → Tag F
  with_device_id t d = record t { device_id = d }

  unfoldable pub is_healthy : Tag F → Bool
  unfolding status_is_healthy is_usable
  is_healthy t = t.enabled && status_is_healthy t.status && is_usable t.quality

  overdue : Tag F → ℕ → Option ℕ → Bool
  unfolding elapsed_ms timeout_ms
  overdue t now none = true
  overdue t now (some last_update) = ltb (timeout_ms t.update_mode) (elapsed_ms now last_update)

  timed_out_in : TagUpdateMode F → Tag F → ℕ → Bool
  unfolding overdue
  timed_out_in (on_change d ms) t now = false
  timed_out_in (polling i) t now = overdue t now t.last_update
  timed_out_in (polling_on_change i c) t now = overdue t now t.last_update

  unfoldable pub is_timed_out : Tag F → ℕ → Bool
  unfolding timed_out_in
  is_timed_out t now = timed_out_in t.update_mode t now

  unfoldable pub update_value : Tag F → Value F → TagQuality → ℕ → Tag F
  unfolding status_of
  update_value t v q now = record t {
    last_value = some v;
    last_update = some now;
    quality = q;
    status = status_of q;
    updated_at = now;
  }

  unfoldable pub mark_offline : Tag F → ℕ → Tag F
  mark_offline t now = record t { status = offline; quality = timeout; updated_at = now }

  unfoldable pub mark_error : Tag F → String → ℕ → Tag F
  mark_error t message now = record t {
    status = error;
    quality = bad;
    error_message = some message;
    updated_at = now;
  }

  unfoldable pub enable : Tag F → ℕ → Tag F
  enable t now = record t { enabled = true; updated_at = now }

  unfoldable pub disable : Tag F → ℕ → Tag F
  disable t now = record t { enabled = false; updated_at = now }

  unfoldable pub reset_timeout : Tag F → ℕ → Tag F
  reset_timeout t now = record t { last_update = some now; updated_at = now }

  unfoldable pub set_value_schema : Tag F → Value F → Tag F
  set_value_schema t schema = record t { value_schema = some schema }

  unfoldable pub set_pipeline_config : Tag F → PipelineConfig F → Tag F
  set_pipeline_config t c = record t { pipeline_config = c }

  unfoldable pub set_metadata : Tag F → Value F → Tag F
  set_metadata t m = record t { metadata = some m }

  unfoldable pub set_runtime_state :
      Tag F → Option (Value F) → Option ℕ → TagStatus → TagQuality → Option String → Tag F
  set_runtime_state t v u s q e = record t {
    last_value = v;
    last_update = u;
    status = s;
    quality = q;
    error_message = e;
  }

  unfoldable pub set_timestamps : Tag F → ℕ → ℕ → Tag F
  set_timestamps t c u = record t { created_at = c; updated_at = u }

-- The key under which a composite value holds its main number.
unfoldable pub primary_key : {F : Type 0} → Option (Value F) → String
primary_key schema = unwrap_or (and_then (and_then schema (get "primary")) as_str) "value"

module _ {F : Type 0} ⦃x : Float F⦄ where
  primary_of : Tag F → TagValueType → Value F → F
  unfolding primary_key
  primary_of t simple v = unwrap_or (as_f64 v) (x.of_u64 0)
  primary_of t composite v =
      unwrap_or (and_then (get (primary_key t.value_schema) v) as_f64) (x.of_u64 0)

  unfoldable pub get_primary_value : Tag F → F
  unfolding primary_of
  get_primary_value t = elim t.last_value [
    | none ↦ x.of_u64 0
    | some v ↦ primary_of t t.value_type v
  ]
