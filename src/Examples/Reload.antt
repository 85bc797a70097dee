-- ===== src/Examples/Reload.antt =====
-- Theorems about received configurations at concrete inputs.
use ifascada.Prelude.{
  String, ok, ◌≡◌, refl, Bool, true, false, none, some, List, [], ◌∷◌, inl, same,
}
use ifascada.Prelude.Int.{ℤ}
use ifascada.Float.{ℤ_float}
use ifascada.Domain.Device.{Device, modbus, as_str}
use ifascada.Domain.Tag.{Tag}
use ifascada.Settings.{AgentConfig, TagConfig}
use ifascada.Messaging.Client.{MqttMessage}
use ifascada.Devices.Manager
use ifascada.Reload.{
  Repository, ConfigManager, World, Decoder, save_all, clean, apply, restart, settle, store,
  handle_reload, conclude, receive, save_tags,
}
use ifascada.Reload.Received.{receives, receive_again}
use ifascada.Reload.Database.{devices, last_device, listed, reloads, handle_reload-devices}
use ifascada.Repositories.Tags.{done}
use ifascada.Repositories.Devices.{
  Model, row_of, find_by_id, save, merge, find_by_agent, to_devices, select, model_to_device,
  driver_type_of,
}
use ifascada.Prelude.Map.{lookup, insert, contains}
use ifascada.Json.{null}
use ifascada.Reload.Panics.{receive-panics}
use ifascada.Examples.Sample.{ascii, sample_factory}

-- A repository in memory.
abbrev memory : {T : Type 0} → Repository (List T) T
memory = record {
  save = λ t r. (t ∷ r, true);
  find_by_agent = λ agent r. some r;
  delete = λ id r. (r, true);
}

abbrev homeless : TagConfig ℤ
homeless = record {
  id = "t1";
  device_id = none;
  driver = none;
  driver_config = none;
  update_mode = none;
  value_type = none;
  value_schema = none;
  enabled = none;
  pipeline = none;
  automations = [];
}

abbrev config : AgentConfig ℤ
config = record {
  version = "2";
  agent_id = "a1";
  mqtt = record { host = "broker"; port = 1883; status_topic = none };
  printer = none;
  devices = [];
  tags = homeless ∷ [];
  heartbeat_interval_secs = 30;
}

abbrev decoder : Decoder ℤ
decoder = record { config = λ bytes. some config; parse = λ bytes. none; print = λ v. none }

abbrev manager : ConfigManager ℤ (List (Device ℤ)) (List (Tag ℤ))
manager = record {
  agent_id = "a1";
  last_config_payload = [];
  config_version = "1";
  saved_file = [];
  automation_engine = record { automations = [] };
  device_repository = [];
  tag_repository = [];
  device_manager = Manager.new;
  acks = [];
}

abbrev message : MqttMessage
message = record { topic = "scada/config/a1"; payload = 123 ∷ []; pkid = 9 }

abbrev accepts : Device ℤ → List (Tag ℤ) → Bool
accepts d ts = true

abbrev world : World
world = record { now = 5; written = true }

-- A configuration without tags.
abbrev empty_config : AgentConfig ℤ
empty_config = record config { tags = [] }

abbrev decodes_empty : Decoder ℤ
decodes_empty = record decoder { config = λ bytes. some empty_config }

receive_again_example :
    let y =
      (receives ascii accepts sample_factory memory memory decodes_empty world message manager).0 in
    (y.acks ≡ 9 ∷ [])
    × (receives ascii accepts sample_factory memory memory decodes_empty world message y
        ≡ (record y { acks = 9 ∷ 9 ∷ [] }, true))
unfolding same receive apply conclude handle_reload store settle restart save_all clean save_tags
receive_again_example =
    receive_again ascii accepts sample_factory memory memory decodes_empty world world message
      manager refl refl

receive-panics_example :
    ((receives ascii accepts sample_factory memory memory decoder world message manager).1 ≡ false)
    × ((receives ascii accepts sample_factory memory memory decoder world message manager).0.acks
        ≡ [])
unfolding same
receive-panics_example =
    receive-panics ascii accepts sample_factory memory memory decoder world message manager config
      homeless refl refl refl (inl refl) refl

abbrev device_named : String → Device ℤ
device_named id = record { id = id; driver = modbus; connection_config = null; enabled = true }

abbrev device_row : Model ℤ
unfolding row_of as_str
device_row = row_of "a1" 0 (device_named "old")

abbrev served : ConfigManager ℤ (List (String × Model ℤ)) (List (Tag ℤ))
served = record {
  agent_id = "a1";
  last_config_payload = [];
  config_version = "1";
  saved_file = [];
  automation_engine = record { automations = [] };
  device_repository = ("old", device_row) ∷ [];
  tag_repository = [];
  device_manager = Manager.new;
  acks = [];
}

abbrev new_devices : AgentConfig ℤ
new_devices = record config { devices = device_named "scale" ∷ []; tags = [] }

-- The stored device that is no longer configured is gone.
handle_reload-devices_example :
    find_by_id done "old"
      (reloads ascii accepts sample_factory
        (λ rows. rows)
        memory
        5
        new_devices
        served).device_repository
    ≡ ok none
unfolding last_device contains listed save_all devices save insert merge find_by_agent to_devices
    select model_to_device driver_type_of same lookup row_of as_str
handle_reload-devices_example =
    handle_reload-devices ascii accepts sample_factory (λ rows. rows) memory 5 new_devices served
      "old"
