-- ===== src/Repositories/Devices/Saved.antt =====
-- What crates/infrastructure/src/database/device_repository.rs reads back of a device.
use ifascada.Prelude.{
  ℕ, ◌≡◌, refl, ap, ◌∙◌, String, Bool, true, false, Option, none, some, List, ok, same,
  if◌then◌else◌,
}
use ifascada.Prelude.Map.{lookup, lookup-insert}
use ifascada.Domain.Device.{DriverType, rs232, modbus, opcua, http, simulator, Device, as_str}
use ifascada.Repositories.Tags.{done}
use ifascada.Repositories.Devices.{
  Model, driver_type_of, model_to_device, row_of, merge, save, found, find_by_id,
}

driver_type_of-as_str : (d : DriverType) → driver_type_of (as_str d) ≡ ok d
unfolding driver_type_of as_str same
driver_type_of-as_str rs232 = refl
driver_type_of-as_str modbus = refl
driver_type_of-as_str opcua = refl
driver_type_of-as_str http = refl
driver_type_of-as_str simulator = refl

module _ {F : Type 0} where
  model_to_device-merge :
      (agent : String) (now : ℕ) (d : Device F) (old : Option (Model F))
      → model_to_device (merge old (row_of agent now d)) ≡ ok d
  unfolding model_to_device merge row_of
  model_to_device-merge agent now d none = rw (driver_type_of-as_str d.driver) refl
  model_to_device-merge agent now d (some old) = rw (driver_type_of-as_str d.driver) refl

  found-if :
      (b : Bool) (row : Model F) (d : Device F) (o : Option (Model F))
      → model_to_device row ≡ ok d
      → found (if b then some row else o) ≡ (if b then ok (some d) else found o)
  unfolding found
  found-if true row d o e = rw e refl
  found-if false row d o e = refl

  -- A device that was saved is found by its id as it was, and every other device as before.
  pub find_by_id-save_if :
      (agent : String) (now : ℕ) (d : Device F) (table : List (String × Model F)) (j : String)
      → find_by_id done j (save agent now done d table).0
        ≡ (if same d.id j then ok (some d) else find_by_id done j table)
  unfolding find_by_id save
  find_by_id-save_if agent now d table j =
      let row = merge (lookup d.id table) (row_of agent now d) in
      ap found (lookup-insert d.id j row table)
      ∙ found-if (same d.id j) row d (lookup j table)
          (model_to_device-merge agent now d (lookup d.id table))
