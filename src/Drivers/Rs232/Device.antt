-- ===== src/Drivers/Rs232/Device.antt =====
-- The batch driver for serial ports in crates/infrastructure/src/drivers/rs232.rs: what arrives is given
-- to every tag of the device.
use Prim.Native.Char.{Char}
use Prim.Native.String.{◌++◌ as add_text}
use ifascada.Prelude.{
  String, Bool, Option, none, some, List, [], map, Result, ok, err, if◌then◌else◌, is_some,
}
use ifascada.Json.{Value, Serde}
use ifascada.Domain.TagId.{TagId, DomainError, invalid_driver_config, driver_error}
use ifascada.Domain.Connection.{ConnectionState, disconnected, connecting, connected, failed}
use ifascada.Domain.Device.{Device}
use ifascada.Domain.Tag.{Tag}
use ifascada.Drivers.Serial.{Builder}
use ifascada.Drivers.Rs232.{
  Rs232Config, SerialStream, Reading, late, bytes, broken, Writing, config_builder, taken, data_of,
  transmit,
}

pub record Rs232DeviceDriver (F : Type 0) : Type 0 where
  pub config : Rs232Config
  pub tags : List (Tag F)
  pub port : Option SerialStream
  pub state : ConnectionState

module _ {F : Type 0} where
  -- `parse` is the deserialization of the configuration, whose error is a text.
  unfoldable pub new :
      (parse : Value F → Result Rs232Config String)
      → Device F
      → List (Tag F)
      → Result (Rs232DeviceDriver F) DomainError
  new parse device tags = elim (parse device.connection_config) [
    | ok config ↦ ok (record { config = config; tags = tags; port = none; state = disconnected })
    | err e ↦ err (invalid_driver_config (add_text "Invalid RS232 Config: " e))
  ]

  unfoldable pub opened :
      String
      → Rs232DeviceDriver F
      → Result (Unit {0}) String
      → Rs232DeviceDriver F × Result (Unit {0}) DomainError
  opened name x (ok u) =
      (record x { port = some (record { written = [] }); state = connected }, ok tt)
  opened name x (err e) = (
    record x { state = failed },
    err (driver_error (add_text "Failed to open serial port " (add_text name (add_text ": " e)))),
  )

  unfoldable pub connect :
      (name : String)
      → (Builder → Result (Unit {0}) String)
      → Rs232DeviceDriver F
      → Rs232DeviceDriver F × Result (Unit {0}) DomainError
  unfolding opened
  connect name opens x = elim (config_builder name x.config) [
    | ok b ↦ opened name x (opens b)
    | err e ↦ (x, err e)
  ]

  unfoldable pub disconnect : Rs232DeviceDriver F → Rs232DeviceDriver F
  disconnect x = record x { port = none; state = disconnected }

  unfoldable pub is_connected : Rs232DeviceDriver F → Bool
  is_connected x = is_some x.port

  unfoldable pub connection_state : (locked : Bool) → Rs232DeviceDriver F → ConnectionState
  connection_state locked x = if locked then connecting else x.state

  unfoldable pub to_all :
      List (Tag F) → Option (Value F) → List (TagId × Result (Value F) DomainError)
  to_all tags none = []
  to_all tags (some v) = map (λ t. (t.id, ok v)) tags

module _ {F : Type 0} ⦃serde : Serde F⦄ where
  -- A poll of an open port waits for bytes without a limit: `late` is a poll that does not return.
  unfoldable pub finish_poll :
      (is_whitespace : Char → Bool)
      → Reading
      → List (Tag F)
      → Option (Result (List (TagId × Result (Value F) DomainError)) DomainError)
  unfolding to_all
  finish_poll ws late tags = none
  finish_poll ws (bytes bs) tags = some (ok (to_all tags (taken ws bs)))
  finish_poll ws (broken e) tags = some (err (driver_error (add_text "Read error: " e)))

  unfoldable pub poll :
      (is_whitespace : Char → Bool)
      → Reading
      → Rs232DeviceDriver F
      → Option (Result (List (TagId × Result (Value F) DomainError)) DomainError)
  unfolding finish_poll
  poll ws r x = elim x.port [
    | none ↦ some (err (driver_error "Port not connected"))
    | some p ↦ finish_poll ws r x.tags
  ]

  -- The tag is not looked at.
  unfoldable pub write :
      Writing
      → TagId
      → Value F
      → Rs232DeviceDriver F
      → Rs232DeviceDriver F × Result (Unit {0}) DomainError
  write w id v x = elim x.port [
    | none ↦ (x, err (driver_error "Port not connected"))
    | some p ↦ (record x { port = some (transmit w (data_of v) p).0 }, (transmit w (data_of v) p).1)
  ]
