-- ===== src/Drivers/Modbus.antt =====
-- crates/infrastructure/src/drivers/modbus.rs: the configurations, the two kinds of driver, and the
-- registry by which the drivers of one serial port share its context. A context is an `Arc`, named by
-- a number; the registry holds weak references, which hold a context alive no longer than its drivers.
pub mod Lines
pub mod Writes
pub mod Polled
pub mod Holders
pub mod Shared
use Prim.Native.String.{◌++◌ as add_text, slice}
use ifascada.Prelude.{
  ℕ, String, len, Bool, true, false, ◌&&◌, ◌||◌, not, Option, none, some, List, [], ◌∷◌, Result, ok,
  err, same, ◌==◌, if◌then◌else◌, is_some,
}
use ifascada.Prelude.Map.{lookup, insert}
use ifascada.Text.{starts_with}
use ifascada.Json.{Value}
use ifascada.Domain.TagId.{TagId, DomainError, invalid_driver_config, driver_error}
use ifascada.Domain.Connection.{ConnectionState, disconnected, connecting, connected, failed}
use ifascada.Domain.Device.{Device}
use ifascada.Domain.Tag.{Tag}
use ifascada.Drivers.Serial.{
  Parity, no_parity, even, odd, StopBits, DataBits, Builder, parity, stop_bits, data_bits, builder,
}

pub record ModbusConfig : Type 0 where
  pub port : String
  pub baud_rate : ℕ
  pub data_bits : ℕ
  pub parity : String
  pub stop_bits : ℕ
  pub timeout_ms : ℕ
  pub slave_id : ℕ
  pub address : ℕ
  pub count : ℕ
  pub register_type : String

pub record ModbusDeviceConfig : Type 0 where
  pub port : String
  pub baud_rate : ℕ
  pub data_bits : ℕ
  pub parity : String
  pub stop_bits : ℕ
  pub timeout_ms : ℕ
  pub slave_id : ℕ

pub record ModbusConnection : Type 0 where
  pub config : ModbusConfig
  pub context : Option ℕ
  pub state : ConnectionState

pub record ModbusDeviceDriver (F : Type 0) : Type 0 where
  pub config : ModbusDeviceConfig
  pub tags : List (Tag F)
  pub context : Option ℕ
  pub state : ConnectionState

unfoldable pub new_connection : ModbusConfig → ModbusConnection
new_connection config = record { config = config; context = none; state = disconnected }

-- `parse` is the deserialization of the configuration, whose error is a text.
unfoldable pub new_driver :
    {F : Type 0} (parse : Value F → Result ModbusDeviceConfig String)
    → Device F
    → List (Tag F)
    → Result (ModbusDeviceDriver F) DomainError
new_driver parse device tags = elim (parse device.connection_config) [
  | ok config ↦ ok (record { config = config; tags = tags; context = none; state = disconnected })
  | err e ↦ err (invalid_driver_config (add_text "Invalid Modbus Config: " e))
]

-- A device cannot be written.
unfoldable pub write :
    {F : Type 0} → ModbusDeviceDriver F → TagId → Value F → Result (Unit {0}) DomainError
write x id v = err (driver_error "Write not implemented yet")

-- `to_lowercase` of Unicode, and whether the target is Windows.
pub record Platform : Type 0 where
  pub to_lowercase : String → String
  pub windows : Bool

unfoldable pub port_name : Platform → String → String
port_name p port =
    if p.windows && not (starts_with port "\\\\.\\") then add_text "\\\\.\\" port else port

-- The parity of a device's configuration, whatever its case, by its name or its letter.
unfoldable pub lenient_parity : String → String → Result Parity DomainError
lenient_parity name lower =
    if same lower "n" || same lower "none"
    then ok no_parity
    else if same lower "o" || same lower "odd"
    then ok odd
    else if same lower "e" || same lower "even"
    then ok even
    else err (invalid_driver_config (add_text "Invalid parity: " name))

unfoldable pub connection_builder : Platform → ModbusConfig → Result Builder DomainError
connection_builder p c =
    builder (port_name p c.port) c.baud_rate (data_bits c.data_bits) (parity c.parity)
      (stop_bits c.stop_bits) c.timeout_ms

unfoldable pub device_builder : Platform → ModbusDeviceConfig → Result Builder DomainError
device_builder p c =
    builder (port_name p c.port) c.baud_rate (data_bits c.data_bits)
      (lenient_parity c.parity (p.to_lowercase c.parity)) (stop_bits c.stop_bits) c.timeout_ms

-- A driver of either kind: they connect alike.
pub data Holder (F : Type 0) : Type 0 where
  connection : ModbusConnection → Holder F
  device : ModbusDeviceDriver F → Holder F

module _ {F : Type 0} where
  unfoldable pub port : Holder F → String
  port (connection x) = x.config.port
  port (device x) = x.config.port

  unfoldable pub slave_id : Holder F → ℕ
  slave_id (connection x) = x.config.slave_id
  slave_id (device x) = x.config.slave_id

  unfoldable pub context : Holder F → Option ℕ
  context (connection x) = x.context
  context (device x) = x.context

  unfoldable pub state : Holder F → ConnectionState
  state (connection x) = x.state
  state (device x) = x.state

  unfoldable pub settings : Platform → Holder F → Result Builder DomainError
  settings p (connection x) = connection_builder p x.config
  settings p (device x) = device_builder p x.config

  unfoldable pub is_connected : Holder F → Bool
  unfolding context
  is_connected h = is_some (context h)

  unfoldable pub set_state : ConnectionState → Holder F → Holder F
  set_state s (connection x) = connection (record x { state = s })
  set_state s (device x) = device (record x { state = s })

  -- The driver has the context, and is connected.
  unfoldable pub hold : ℕ → Holder F → Holder F
  hold c (connection x) = connection (record x { context = some c; state = connected })
  hold c (device x) = device (record x { context = some c; state = connected })

  unfoldable pub disconnect : Holder F → Holder F
  disconnect (connection x) = connection (record x { context = none; state = disconnected })
  disconnect (device x) = device (record x { context = none; state = disconnected })
