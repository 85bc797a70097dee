-- ===== src/Repositories/Devices.antt =====
-- crates/infrastructure/src/database/device_repository.rs, over the table of devices as a map of rows by
-- their id; the answers to statements are arguments.
pub mod Saved
use ifascada.Prelude.{
  ℕ, String, Bool, true, false, Option, none, some, List, [], ◌∷◌, Result, ok, err, same,
  if◌then◌else◌,
}
use Prim.Native.String.{◌++◌ as add_text}
use ifascada.Prelude.Map.{lookup, insert, remove}
use ifascada.Json.{Value}
use ifascada.Domain.TagId.{DomainError, invalid_configuration}
use ifascada.Domain.Device.{DriverType, rs232, modbus, opcua, http, simulator, Device, as_str}
use ifascada.Repositories.Tags.{Answer, done, failed, try}

-- A row of `devices`.
pub record Model (F : Type 0) : Type 0 where
  pub id : String
  pub edge_agent_id : String
  pub name : String
  pub driver_type : String
  pub connection_config : Value F
  pub enabled : Bool
  pub created_at : ℕ
  pub updated_at : ℕ

unfoldable pub driver_type_of : String → Result DriverType DomainError
driver_type_of s =
    if same s "RS232"
    then ok rs232
    else if same s "Simulator"
    then ok simulator
    else if same s "Modbus"
    then ok modbus
    else if same s "OPC-UA"
    then ok opcua
    else if same s "HTTP"
    then ok http
    else err (invalid_configuration (add_text "Unknown driver type: " s))

module _ {F : Type 0} where
  unfoldable pub model_to_device : Model F → Result (Device F) DomainError
  model_to_device m = try (driver_type_of m.driver_type) (λ driver. ok (record {
    id = m.id;
    driver = driver;
    connection_config = m.connection_config;
    enabled = m.enabled;
  }))

  unfoldable pub row_of : String → ℕ → Device F → Model F
  row_of agent_id now d = record {
    id = d.id;
    edge_agent_id = agent_id;
    name = d.id;
    driver_type = as_str d.driver;
    connection_config = d.connection_config;
    enabled = d.enabled;
    created_at = now;
    updated_at = now;
  }

  -- A row that is there keeps its agent, its name and its time of creation.
  unfoldable pub merge : Option (Model F) → Model F → Model F
  merge none row = row
  merge (some old) row = record row {
    edge_agent_id = old.edge_agent_id;
    name = old.name;
    created_at = old.created_at;
  }

  -- The repository of an agent saves.
  unfoldable pub save :
      String
      → ℕ
      → Answer
      → Device F
      → List (String × Model F)
      → List (String × Model F) × Result (Unit {0}) DomainError
  save agent_id now done d table =
      (insert d.id (merge (lookup d.id table) (row_of agent_id now d)) table, ok tt)
  save agent_id now (failed e) d table =
      (table, err (invalid_configuration (add_text "Database error: " e)))

  unfoldable pub found : Option (Model F) → Result (Option (Device F)) DomainError
  found none = ok none
  found (some m) = try (model_to_device m) (λ d. ok (some d))

  unfoldable pub find_by_id :
      Answer → String → List (String × Model F) → Result (Option (Device F)) DomainError
  find_by_id done id table = found (lookup id table)
  find_by_id (failed e) id table = err (invalid_configuration (add_text "Database error: " e))

  unfoldable pub to_devices : List (Model F) → Result (List (Device F)) DomainError
  to_devices [] = ok []
  to_devices (m ∷ ms) = try (model_to_device m) (λ d. try (to_devices ms) (λ ds. ok (d ∷ ds)))

  unfoldable pub select : (Model F → Bool) → List (String × Model F) → List (Model F)
  select p [] = []
  select p ((k, m) ∷ table) = let rest = select p table in if p m then m ∷ rest else rest

  unfoldable pub delete :
      Answer
      → String
      → List (String × Model F)
      → List (String × Model F) × Result (Unit {0}) DomainError
  delete done id table = (remove id table, ok tt)
  delete (failed e) id table = (table, err (invalid_configuration (add_text "Database error: " e)))

-- The queries; `order` is the database's ordering by id.
module _ {F : Type 0} (order : List (Model F) → List (Model F)) where
  unfoldable pub find_all : Answer → List (String × Model F) → Result (List (Device F)) DomainError
  find_all done table = to_devices (order (select (λ m. true) table))
  find_all (failed e) table = err (invalid_configuration (add_text "Database error: " e))

  unfoldable pub find_by_agent :
      Answer → String → List (String × Model F) → Result (List (Device F)) DomainError
  find_by_agent done agent_id table =
      to_devices (order (select (λ m. same m.edge_agent_id agent_id) table))
  find_by_agent (failed e) agent_id table =
      err (invalid_configuration (add_text "Database error: " e))
