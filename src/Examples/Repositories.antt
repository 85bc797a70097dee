-- ===== src/Examples/Repositories.antt =====
-- The repositories and the configuration service at concrete inputs.
use ifascada.Prelude.{
  ℕ, ◌≡◌, refl, String, true, false, Option, none, some, [], ◌∷◌, ok, err, same, if◌then◌else◌,
}
use ifascada.Prelude.Int.{ℤ}
use ifascada.Float.{ℤ_float}
use ifascada.Json
use ifascada.Json.{Value, string, null, object, field, end, get, entry, as_str}
use ifascada.Domain.TagId.{all_allowed, allowed}
use ifascada.Domain.TagId
use ifascada.Domain.Config.{PipelineConfig}
use ifascada.Domain.Config
use ifascada.Domain.Device.{Device, DriverType, modbus}
use ifascada.Domain.UpdateMode.{polling}
use ifascada.Domain.Tag
use ifascada.Domain.Tag.{Tag, disable}
use ifascada.Messaging.Client.{MqttMessage}
use ifascada.Reload.{convert_config_to_tag}
use ifascada.Repositories.AgentConfigs.{IsServed, tag_config_of, configured, convert-tag_config_of}
use ifascada.Repositories.Tags
use ifascada.Repositories.Tags.{done, Codec, pipeline_of, save, find_by_id}
use ifascada.Repositories.Tags.Saved.{IsReadable, reread}
use ifascada.Repositories.Tags.Saved
use ifascada.Server.ConfigService.{World, start, new}
use ifascada.Server.ConfigService.Debounced.{IsSpaced, start-IsSpaced}
use ifascada.Examples.Sample.{num, ascii, tag_in}

-- A tag of one mode, without a pipeline.
abbrev stored_tag : Tag ℤ
unfolding disable
stored_tag = disable (record (tag_in (polling 500)) { pipeline_config = Config.default }) 40

-- One mode and one pipeline, printed as null.
abbrev codec : Codec ℤ
codec = record {
  mode_to_value = λ m. elim m [ polling i ↦ ok (num i) | _ ↦ err "?" ];
  mode_from_value = λ v. elim (Json.as_u64 v) [ some i ↦ ok (polling i) | none ↦ err "?" ];
  pipeline_to_value = λ p. none;
  pipeline_from_value = λ v. err "?";
}

stored_tag-IsReadable : IsReadable codec stored_tag (num 500)
unfolding stored_tag disable Tag.new Json.as_u64 pipeline_of
stored_tag-IsReadable = record { printed = refl; read = refl; pipeline = refl }

find_by_id-save_example :
    find_by_id ascii codec 90 done "weight" (save codec done stored_tag []).0
    ≡ ok (some (reread ascii codec 90 stored_tag))
unfolding stored_tag disable Tag.new TagId.new all_allowed allowed same
find_by_id-save_example =
    Saved.find_by_id-save ascii codec stored_tag [] (num 500) 90 stored_tag-IsReadable refl

abbrev scale : Device ℤ
scale = record { id = "scale"; driver = modbus; connection_config = null; enabled = false }

abbrev world : ℕ → World
world now = record { now = now; config = some "{}"; publishes = true }

abbrev online : MqttMessage
online = record { topic = "scada/status/a1"; payload = 123 ∷ 125 ∷ []; pkid = 1 }

abbrev parse : String → Option (Value ℤ)
parse t = some (object (field "status" (string "ONLINE") end))

start-IsSpaced_example :
    IsSpaced (start parse ((world 1000, online) ∷ (world 4000, online) ∷ []) new).synced
start-IsSpaced_example = start-IsSpaced parse ((world 1000, online) ∷ (world 4000, online) ∷ [])

abbrev served_mode : Value ℤ
served_mode = object (field "type" (string "Polling") (field "interval_ms" (num 500) end))

abbrev lower : String → String
lower s =
    if same s "Polling"
    then "polling"
    else if same s "OnChange"
    then "onchange"
    else if same s "PollingOnChange"
    then "pollingonchange"
    else s

abbrev no_driver : String → Option DriverType
no_driver s = none

-- One pipeline, printed as text.
abbrev prints : Codec ℤ
prints = record codec {
  pipeline_to_value = λ p. some (string "default");
  pipeline_from_value = λ v. ok Config.default;
}

served : IsServed lower prints no_driver stored_tag served_mode
unfolding stored_tag disable Tag.new get entry same
served = record {
  polling_name = refl;
  on_change_name = refl;
  polling_on_change_name = refl;
  printed = refl;
  pipeline = (string "default", refl, refl);
}

convert-tag_config_of_example :
    convert_config_to_tag ascii 90
      (tag_config_of lower prints no_driver (Tags.row_of prints stored_tag served_mode))
    ≡ some (configured lower prints no_driver 90 stored_tag)
unfolding stored_tag disable Tag.new TagId.new all_allowed allowed same
convert-tag_config_of_example =
    convert-tag_config_of lower prints no_driver ascii 90 stored_tag served_mode served refl
