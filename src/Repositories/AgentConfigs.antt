-- ===== src/Repositories/AgentConfigs.antt =====
-- crates/infrastructure/src/repositories/db_config_repository.rs: the configuration that the server sends to
-- an agent, from its rows in the database.
use Prim.Native.Char.{Char}
use Prim.Native.String.{◌++◌ as add_text}
use ifascada.Prelude.{
  ℕ, ◌≡◌, refl, String, Bool, true, false, Option, none, some, List, [], map, Result, ok, err,
  ok_value, same, if◌then◌else◌, and_then, unwrap_or,
}
use ifascada.Float.{Float}
use ifascada.Json.{Value, number, pos_int, float, get, as_u64, as_f64}
use ifascada.Domain.TagId.{TagId}
use ifascada.Domain.TagId
use ifascada.Domain.Device.{DriverType, Device, simulator}
use ifascada.Domain.UpdateMode.{
  TagUpdateMode, on_change, polling, polling_on_change, TagValueType, simple, composite,
}
use ifascada.Domain.Tag.{Tag, disable}
use ifascada.Domain.Tag
use ifascada.Settings.{AgentConfig, TagConfig}
use ifascada.Reload.{convert_config_to_tag}
use ifascada.Repositories.Tags.{Model, Codec, row_of, update_mode_type, value_type_str}
use ifascada.Repositories.Devices

-- The answers to the three queries, and the new version (a UUID).
pub record Answers (F : Type 0) : Type 0 where
  pub agent : Result Bool String
  pub devices : Result (List (Devices.Model F)) String
  pub tags : Result (List (Model F)) String
  pub version : String

unfoldable pub value_type_of : String → TagValueType
value_type_of s =
    if same s "Simple" then simple else if same s "Composite" then composite else simple

module _ {F : Type 0} where
  abbrev number_of : String → ℕ → Value F → ℕ
  number_of key other v = unwrap_or (and_then (get key v) as_u64) other

module _ {F : Type 0} ⦃x : Float F⦄ where
  -- The update mode of a row, by its name in lower case.
  unfoldable pub update_mode_of : String → Value F → Option (TagUpdateMode F)
  update_mode_of s v =
      if same s "polling"
      then some (polling (number_of "interval_ms" 1000 v))
      else if same s "onchange"
      then some (on_change (number_of "debounce_ms" 0 v) (number_of "timeout_ms" 0 v))
      else if same s "pollingonchange"
      then some (
          polling_on_change (number_of "interval_ms" 1000 v)
            (unwrap_or (and_then (get "change_threshold" v) as_f64) (x.of_u64 0)))
      else none

-- `to_lowercase` is Unicode's, `c` and `driver_of` are serde's conversions.
module _ {F : Type 0} ⦃x : Float F⦄ (to_lowercase : String → String) (c : Codec F)
    (driver_of : String → Option DriverType) where
  unfoldable pub device_of : Devices.Model F → Device F
  device_of m = record {
    id = m.id;
    driver = unwrap_or (driver_of m.driver_type) simulator;
    connection_config = m.connection_config;
    enabled = m.enabled;
  }

  unfoldable pub tag_config_of : Model F → TagConfig F
  unfolding value_type_of update_mode_of
  tag_config_of m = record {
    id = m.id;
    device_id = some m.device_id;
    driver = none;
    driver_config = some m.source_config;
    update_mode = update_mode_of (to_lowercase m.update_mode) m.update_config;
    value_type = some (value_type_of m.value_type);
    value_schema = m.value_schema;
    enabled = some m.enabled;
    pipeline = and_then m.pipeline_config (λ v. ok_value (c.pipeline_from_value v));
    automations = [];
  }

  abbrev config_of : String → String → List (Devices.Model F) → List (Model F) → AgentConfig F
  config_of version agent_id devices tags = record {
    version = version;
    agent_id = agent_id;
    mqtt = record { host = "localhost"; port = 1883; status_topic = none };
    printer = none;
    devices = map device_of devices;
    tags = map tag_config_of tags;
    heartbeat_interval_secs = 30;
  }

  fetch_tags :
      Answers F
      → String
      → List (Devices.Model F)
      → Result (List (Model F)) String
      → Result (AgentConfig F) String
  fetch_tags a agent_id devices (err e) = err e
  fetch_tags a agent_id devices (ok tags) = ok (config_of a.version agent_id devices tags)

  fetch_devices :
      Answers F → String → Result (List (Devices.Model F)) String → Result (AgentConfig F) String
  fetch_devices a agent_id (err e) = err e
  fetch_devices a agent_id (ok devices) = fetch_tags a agent_id devices a.tags

  -- A query that fails is an error, and so is an agent that is not there.
  unfoldable pub get_agent_config : String → Answers F → Result (AgentConfig F) String
  unfolding fetch_tags fetch_devices
  get_agent_config agent_id a = elim a.agent [
    | err e ↦ err e
    | ok true ↦ fetch_devices a agent_id a.devices
    | ok false ↦ err (add_text "Agent " (add_text agent_id " not found"))
  ]

  -- What serde prints of a mode, field by field.
  abbrev pub Printed : TagUpdateMode F → Value F → Type 0
  Printed (polling i) v = get "interval_ms" v ≡ some (number (pos_int i))
  Printed (on_change d ms) v =
      (get "debounce_ms" v ≡ some (number (pos_int d)))
      × (get "timeout_ms" v ≡ some (number (pos_int ms)))
  Printed (polling_on_change i threshold) v =
      (get "interval_ms" v ≡ some (number (pos_int i)))
      × (get "change_threshold" v ≡ some (number (float threshold)))

  -- Unicode's lower case of the names of the modes; serde's printing of a mode; a pipeline that serde reads as it was printed.
  pub record IsServed (t : Tag F) (mode : Value F) : Type 0 where
    pub polling_name : to_lowercase "Polling" ≡ "polling"
    pub on_change_name : to_lowercase "OnChange" ≡ "onchange"
    pub polling_on_change_name : to_lowercase "PollingOnChange" ≡ "pollingonchange"
    pub printed : Printed t.update_mode mode
    pub pipeline :
        (v : Value F) × (c.pipeline_to_value t.pipeline_config ≡ some v)
        × (c.pipeline_from_value v ≡ ok t.pipeline_config)

  -- The server reads back the mode that a row names and holds.
  update_mode_of-printed :
      (m : TagUpdateMode F) (v : Value F)
      → to_lowercase "Polling" ≡ "polling"
      → to_lowercase "OnChange" ≡ "onchange"
      → to_lowercase "PollingOnChange" ≡ "pollingonchange"
      → Printed m v
      → update_mode_of (to_lowercase (update_mode_type m)) v ≡ some m
  unfolding update_mode_of update_mode_type same as_u64 as_f64
  update_mode_of-printed (polling i) v p o q h = rw (p, h) refl
  update_mode_of-printed (on_change d ms) v p o q (h, g) = rw (o, h, g) refl
  update_mode_of-printed (polling_on_change i threshold) v p o q (h, g) = rw (q, h, g) refl

  -- A tag as its configuration alone makes it.
  abbrev pub configured : ℕ → Tag F → Tag F
  configured now t =
      let u =
        Tag.new t.id t.device_id t.source_config t.update_mode t.value_type t.pipeline_config now in
      if t.enabled then u else disable u now

  value_type_of-str : (k : TagValueType) → value_type_of (value_type_str k) ≡ k
  unfolding value_type_of value_type_str same
  value_type_of-str simple = refl
  value_type_of-str composite = refl

  -- The tag that an agent makes of the configuration that the server reads from a stored row: the configuration and the enabling of the tag that was stored, without its schema, if serde printed the mode of the tag field by field into the row, reads back the pipeline that it printed, and the tag's id is valid.
  pub convert-tag_config_of :
      (is_alphanumeric : Char → Bool) (now : ℕ) (t : Tag F) (mode : Value F)
      → IsServed t mode
      → TagId.new is_alphanumeric t.id.as_str ≡ ok t.id
      → convert_config_to_tag is_alphanumeric now (tag_config_of (row_of c t mode))
        ≡ some (configured now t)
  unfolding convert_config_to_tag tag_config_of row_of
  convert-tag_config_of is_alphanumeric now t mode h valid =
      let (v, printed, read) = h.pipeline in
      let mode_read =
        update_mode_of-printed t.update_mode mode h.polling_name h.on_change_name
          h.polling_on_change_name h.printed in
      rw (convert_config_to_tag, valid, mode_read, printed, read, value_type_of-str t.value_type)
        refl
