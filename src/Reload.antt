-- ===== src/Reload.antt =====
-- crates/edge-agent/src/config_manager.rs: the configurations that an agent receives. The repositories
-- are those of the traits of crates/domain/src; what else is asked of the outside is in a `World`.
pub mod Received
pub mod Panics
pub mod Database
use Prim.Native.Char.{Char}
use Prim.Native.String.{◌++◌ as add_text}
use mathlib.Core.Option
use ifascada.Prelude.{
  ℕ, String, Bool, true, false, not, Option, none, some, List, [], ◌∷◌, map, same, Result, ok, err,
  ok_value, unwrap_or, ◌==◌, ◌&&◌, if◌then◌else◌,
}
use ifascada.Prelude.Map.{contains}
use ifascada.Json.{Value, object, null, get, without}
use ifascada.Domain.TagId.{TagId}
use ifascada.Domain.TagId
use ifascada.Domain.Config
use ifascada.Domain.Device.{Device}
use ifascada.Domain.UpdateMode.{polling, simple}
use ifascada.Domain.Tag.{Tag, disable}
use ifascada.Domain.Tag
use ifascada.Settings.{AgentConfig, TagConfig}
use ifascada.Pipeline.{PipelineFactory}
use ifascada.Automation.{AutomationEngine, reload}
use ifascada.Devices.Manager.{DeviceManager, start_devices, stop_all}
use ifascada.Messaging.Client.{MqttMessage}

-- `find_by_agent`, `save` and `delete` of a repository, whose state is `R`; the Boolean is success.
pub record Repository (R T : Type 0) : Type 0 where
  pub save : T → R → R × Bool
  pub find_by_agent : String → R → Option (List T)
  pub delete : String → R → R × Bool

pub record ConfigManager (F D R : Type 0) : Type 0 where
  pub agent_id : String
  pub last_config_payload : List ℕ
  pub config_version : String
  pub saved_file : List ℕ
  pub automation_engine : AutomationEngine F
  pub device_repository : D
  pub tag_repository : R
  pub device_manager : DeviceManager F
  pub acks : List ℕ  -- newest first

-- A reload ends, gives up, or panics, which ends the task.
pub data Outcome : Type 0 where
  finished abandoned panicked : Outcome

abbrev same_bytes : List ℕ → List ℕ → Bool
same_bytes [] [] = true
same_bytes (a ∷ as') (b ∷ bs) = a == b && same_bytes as' bs
same_bytes _ _ = false

-- The removal of a null printer for the reload, and of the broker's settings for the file. `parse` and
-- `print` are serde_json's.
module _ {F : Type 0} (parse : List ℕ → Option (Value F)) (print : Value F → Option (List ℕ)) where
  unfoldable pub clean : List ℕ → List ℕ
  clean payload = elim (parse payload) [
    | some (object m) ↦ elim (get "printer" (object m)) [
      | some null ↦ unwrap_or (print (object (without "printer" m))) payload
      | _ ↦ payload
    ]
    | _ ↦ payload
  ]

  unfoldable pub to_save : List ℕ → List ℕ
  to_save payload = elim (parse payload) [
    | some (object m) ↦ elim (get "mqtt" (object m)) [
      | some v ↦ unwrap_or (print (object (without "mqtt" m))) payload
      | none ↦ payload
    ]
    | _ ↦ payload
  ]

module _ {F : Type 0} (is_alphanumeric : Char → Bool) where
  -- `none` is a panic: a device, a source and a valid id are expected.
  unfoldable pub convert_config_to_tag : ℕ → TagConfig F → Option (Tag F)
  convert_config_to_tag now c = elim c.device_id [
    | none ↦ none
    | some device_id ↦ elim (ok_value (TagId.new is_alphanumeric c.id)) [
      | none ↦ none
      | some id ↦ elim c.driver_config [
        | none ↦ none
        | some source ↦
            let t =
              Tag.new id device_id source (unwrap_or c.update_mode (polling 1000))
                (unwrap_or c.value_type simple) (unwrap_or c.pipeline Config.default) now in
            some (if unwrap_or c.enabled true then t else disable t now)
      ]
    ]
  ]

abbrev tag_key : {F : Type 0} → Tag F → String
tag_key t = t.id.as_str

abbrev pub device_key : {F : Type 0} → Device F → String
device_key d = d.id

module _ {R T : Type 0} (repo : Repository R T) where
  -- The errors of `save` and `delete` are logged.
  unfoldable pub save_all : List T → R → R
  save_all [] r = r
  save_all (t ∷ ts) r = save_all ts (repo.save t r).0

  unfoldable pub delete_missing : (T → String) → List String → List T → R → R
  delete_missing key ids [] r = r
  delete_missing key ids (t ∷ ts) r =
      delete_missing key ids ts (if contains (key t) ids then r else (repo.delete (key t) r).0)

  -- What is stored for the agent and not among the ids is deleted.
  unfoldable pub prune : (T → String) → String → List String → R → R
  prune key agent ids r = elim (repo.find_by_agent agent r) [
    | none ↦ r
    | some existing ↦ delete_missing key ids existing r
  ]

-- What else an agent asks of the outside while it handles a message.
pub record World : Type 0 where
  pub now : ℕ
  pub written : Bool  -- whether the file was written

module _ {F D R : Type 0} (is_alphanumeric : Char → Bool) (accepts : Device F → List (Tag F) → Bool)
    (factory : PipelineFactory F) (device_repo : Repository D (Device F))
    (tag_repo : Repository R (Tag F)) where
  -- The tags are converted and saved one by one, up to one that panics; the ids, if none does.
  unfoldable pub save_tags : ℕ → List (TagConfig F) → R → R × Option (List String)
  save_tags now [] r = (r, some [])
  save_tags now (c ∷ cs) r = elim (convert_config_to_tag is_alphanumeric now c) [
    | none ↦ (r, none)
    | some t ↦
        let (r', ids) = save_tags now cs (tag_repo.save t r).0 in
        (r', Option.map (λ rest. t.id.as_str ∷ rest) ids)
  ]

  -- The actors stop, and start again from what is stored.
  unfoldable pub restart : ConfigManager F D R → ConfigManager F D R × Outcome
  restart x = elim (tag_repo.find_by_agent x.agent_id x.tag_repository) [
    | none ↦ (x, abandoned)
    | some tags ↦ elim (device_repo.find_by_agent x.agent_id x.device_repository) [
      | none ↦ (x, abandoned)
      | some devices ↦ (
        record x {
          device_manager = start_devices accepts factory devices tags (stop_all x.device_manager);
        },
        finished,
      )
    ]
  ]

  -- After the tags are saved: the stored ones that are not configured go, and the actors restart.
  unfoldable pub settle : Option (List String) → ConfigManager F D R → ConfigManager F D R × Outcome
  settle none x = (x, panicked)
  settle (some ids) x =
      restart (record x { tag_repository = prune tag_repo tag_key x.agent_id ids x.tag_repository })

  -- The parts of a reload before that, and the ids of the tags.
  unfoldable pub store :
      ℕ → AgentConfig F → ConfigManager F D R → ConfigManager F D R × Option (List String)
  store now config x =
      let ids = map device_key config.devices in
      let (tags, saved) = save_tags now config.tags x.tag_repository in
      (
        record x {
          config_version = config.version;
          automation_engine = reload is_alphanumeric x.automation_engine config.tags;
          device_repository =
              prune device_repo device_key x.agent_id ids
                (save_all device_repo config.devices x.device_repository);
          tag_repository = tags;
        },
        saved,
      )

  unfoldable pub handle_reload :
      ℕ → AgentConfig F → ConfigManager F D R → ConfigManager F D R × Outcome
  handle_reload now config x = let (y, saved) = store now config x in settle saved y

module _ {F D R : Type 0} where
  abbrev ack : MqttMessage → ConfigManager F D R → ConfigManager F D R
  ack m x = record x { acks = m.pkid ∷ x.acks }

  -- A message is acknowledged once it is handled; after a panic it is not, and the loop is over.
  unfoldable pub conclude : MqttMessage → ConfigManager F D R × Outcome → ConfigManager F D R × Bool
  conclude m (x, panicked) = (x, false)
  conclude m (x, finished) = (ack m x, true)
  conclude m (x, abandoned) = (ack m x, true)

-- `from_slice` of a configuration, and of any JSON; `to_vec_pretty`.
pub record Decoder (F : Type 0) : Type 0 where
  pub config : List ℕ → Option (AgentConfig F)
  pub parse : List ℕ → Option (Value F)
  pub print : Value F → Option (List ℕ)

module _ {F D R : Type 0} (is_alphanumeric : Char → Bool) (accepts : Device F → List (Tag F) → Bool)
    (factory : PipelineFactory F) (device_repo : Repository D (Device F))
    (tag_repo : Repository R (Tag F)) (decoder : Decoder F) where
  -- A new payload: it is remembered, saved and applied.
  unfoldable pub apply : World → MqttMessage → ConfigManager F D R → ConfigManager F D R × Outcome
  apply w m x =
      let payload = clean decoder.parse decoder.print m.payload in
      let y = record x {
        last_config_payload = m.payload;
        saved_file =
            if w.written then to_save decoder.parse decoder.print payload else x.saved_file;
      } in
      elim (decoder.config payload) [
        | none ↦ (y, abandoned)
        | some config ↦
            handle_reload is_alphanumeric accepts factory device_repo tag_repo w.now config y
      ]

  -- One message of the loop, and whether the loop goes on.
  unfoldable pub receive : World → MqttMessage → ConfigManager F D R → ConfigManager F D R × Bool
  receive w m x =
      if same m.topic (add_text "scada/config/" x.agent_id)
      then (if same_bytes x.last_config_payload m.payload
          then (ack m x, true)
          else conclude m (apply w m x))
      else (x, true)
