-- ===== src/Devices/Manager.antt =====
-- crates/application/src/device/manager.rs, and `create_device_driver` of
-- crates/infrastructure/src/drivers/mod.rs. An actor is held as it was started.
pub mod Groups
pub mod Running
use ifascada.Prelude.{
  ◌++◌, String, Bool, true, false, Option, none, some, List, [], ◌∷◌, map, same, is_some, not, ◌||◌,
  unwrap_or, if◌then◌else◌,
}
use ifascada.Prelude.Map.{lookup, insert, remove}
use ifascada.Domain.Device.{Device, rs232, modbus, opcua, http, simulator}
use ifascada.Domain.Tag.{Tag}
use ifascada.Pipeline.{PipelineFactory}
use ifascada.Devices.Actor.{DeviceActor}
use ifascada.Devices.Actor

unfoldable pub flatten : List (String × List String) → List String
flatten [] = []
flatten ((k, ids) ∷ rest) = ids ++ flatten rest

pub record DeviceManager (F : Type 0) : Type 0 where
  pub actors : List (String × DeviceActor F)
  pub active_tags : List (String × List String)

module _ {F : Type 0} where
  abbrev pub new : DeviceManager F
  new = record { actors = []; active_tags = [] }

  -- A tag without a device is skipped.
  unfoldable pub group_tag : Tag F → List (String × List (Tag F)) → List (String × List (Tag F))
  group_tag t groups =
      if same t.device_id ""
      then groups
      else insert t.device_id (unwrap_or (lookup t.device_id groups) [] ++ t ∷ []) groups

  unfoldable pub group_tags :
      List (Tag F) → List (String × List (Tag F)) → List (String × List (Tag F))
  group_tags [] groups = groups
  group_tags (t ∷ tags) groups = group_tags tags (group_tag t groups)

  -- Whether a driver can be made; `accepts` is the answer of the Modbus and serial drivers to the configuration.
  unfoldable pub creates : (Device F → List (Tag F) → Bool) → Device F → List (Tag F) → Bool
  creates accepts device tags = elim device.driver [
    | rs232 ↦ accepts device tags
    | modbus ↦ accepts device tags
    | opcua ↦ false
    | http ↦ false
    | simulator ↦ true
  ]

module _ {F : Type 0} (accepts : Device F → List (Tag F) → Bool) (factory : PipelineFactory F) where
  -- One device of the loop, with the groups of tags that are left.
  unfoldable pub start_device :
      Device F
      → DeviceManager F × List (String × List (Tag F))
      → DeviceManager F × List (String × List (Tag F))
  start_device d (m, groups) =
      let tags = unwrap_or (lookup d.id groups) [] in
      if not d.enabled || is_some (lookup d.id m.actors) then (m, groups) else (
        if creates accepts d tags
            then record m {
              actors = insert d.id (Actor.new d tags factory) m.actors;
              active_tags = insert d.id (map (λ t. t.id.as_str) tags) m.active_tags;
            }
            else m,
        remove d.id groups,
      )

  unfoldable pub start_all :
      List (Device F)
      → DeviceManager F × List (String × List (Tag F))
      → DeviceManager F × List (String × List (Tag F))
  start_all [] s = s
  start_all (d ∷ devices) s = start_all devices (start_device d s)

  unfoldable pub start_devices : List (Device F) → List (Tag F) → DeviceManager F → DeviceManager F
  start_devices devices tags m = (start_all devices (m, group_tags tags [])).0

module _ {F : Type 0} where
  unfoldable pub stop_all : DeviceManager F → DeviceManager F
  stop_all m = record m { actors = []; active_tags = [] }

  unfoldable pub get_active_tag_ids : DeviceManager F → List String
  get_active_tag_ids m = flatten m.active_tags
