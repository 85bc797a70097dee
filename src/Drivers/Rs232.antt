-- ===== src/Drivers/Rs232.antt =====
-- crates/infrastructure/src/drivers/rs232.rs. The serial port answers through arguments; a port that is
-- open is a record of the bytes written to it.
pub mod Device
pub mod Decoded
use Prim.Native.Char.{Char}
use Prim.Native.String.{◌++◌ as add_text}
use ifascada.Prelude.{
  ℕ, String, Bool, true, false, ◌&&◌, not, Option, none, some, List, [], ◌∷◌, ◌++◌, take, Result,
  ok, err, same, if◌then◌else◌, is_some,
}
use ifascada.Text.{starts_with, trim, hex_string}
use ifascada.Text.Utf8.{as_bytes, from_utf8}
use ifascada.Json.{Value, Serde, string}
use ifascada.Domain.TagId.{TagId, DomainError, invalid_driver_config, driver_error}
use ifascada.Domain.Connection.{ConnectionState, disconnected, connecting, connected, failed}
use ifascada.Drivers.Serial.{Builder, parity, stop_bits, data_bits, builder}
use ifascada.Drivers.Modbus.{Platform}

pub record Rs232Config : Type 0 where
  pub port : String
  pub baud_rate : ℕ
  pub data_bits : ℕ
  pub parity : String
  pub stop_bits : ℕ
  pub timeout_ms : ℕ

unfoldable pub new_config : String → Rs232Config
new_config port = record {
  port = port;
  baud_rate = 9600;
  data_bits = 8;
  parity = "None";
  stop_bits = 1;
  timeout_ms = 1000;
}

pub record SerialStream : Type 0 where
  pub written : List ℕ

pub record Rs232Connection : Type 0 where
  pub config : Rs232Config
  pub port : Option SerialStream
  pub state : ConnectionState

unfoldable pub new_connection : Rs232Config → Rs232Connection
new_connection config = record { config = config; port = none; state = disconnected }

-- What a read of the port meets: nothing in time, bytes that have arrived, or an error.
pub data Reading : Type 0 where
  late : Reading
  bytes : List ℕ → Reading
  broken : String → Reading

-- The answers to a write: to the bytes, of which `taken` go out if it fails, and to the flush.
pub record Writing : Type 0 where
  pub taken : ℕ
  pub write_all : Result (Unit {0}) String
  pub flush : Result (Unit {0}) String

-- The name of the port for Windows; `to_uppercase` is Unicode's.
unfoldable pub port_name : (to_uppercase : String → String) (windows : Bool) → String → String
port_name to_uppercase windows port =
    if windows && not (starts_with (to_uppercase port) "\\\\.\\")
    then add_text "\\\\.\\" port
    else port

unfoldable pub config_builder : String → Rs232Config → Result Builder DomainError
config_builder name c =
    builder name c.baud_rate (data_bits c.data_bits) (parity c.parity) (stop_bits c.stop_bits)
      c.timeout_ms

unfoldable pub is_connected : Rs232Connection → Bool
is_connected x = is_some x.port

-- The state is not waited for: while it is locked it is said to be connecting.
unfoldable pub connection_state : (locked : Bool) → Rs232Connection → ConnectionState
connection_state locked x = if locked then connecting else x.state

-- The answer to the opening of the port.
unfoldable pub opened :
    String
    → Rs232Connection
    → Result (Unit {0}) String
    → Rs232Connection × Result (Unit {0}) DomainError
opened name x (ok u) =
    (record x { port = some (record { written = [] }); state = connected }, ok tt)
opened name x (err e) = (
  record x { state = failed },
  err (
      driver_error (
        add_text "Failed to open serial port " (
          add_text name (
            add_text ": " (
              add_text e
                ". Tip: Ensure the port is not used by another application and that you have sufficient permissions."))))),
)

unfoldable pub connect :
    (name : String)
    → (Builder → Result (Unit {0}) String)
    → Rs232Connection
    → Rs232Connection × Result (Unit {0}) DomainError
unfolding opened
connect name opens x = elim (config_builder name x.config) [
  | ok b ↦ opened name x (opens b)
  | err e ↦ (x, err e)
]

-- An error at the shutdown of the port is only logged.
unfoldable pub disconnect : Rs232Connection → Rs232Connection
disconnect x = record x { port = none; state = disconnected }

module _ {F : Type 0} ⦃serde : Serde F⦄ (is_whitespace : Char → Bool) where
  -- A text that is JSON is its value.
  unfoldable pub parsed : String → Value F
  parsed t = elim (serde.from_str t) [ some v ↦ v | none ↦ string t ]

  unfoldable pub decoded : List ℕ → Option String → Option (Value F)
  unfolding parsed
  decoded bs none = some (string (hex_string bs))
  decoded bs (some s) =
      let trimmed = trim is_whitespace s in if same trimmed "" then none else some (parsed trimmed)

  -- The value of the bytes received. No bytes are no value.
  unfoldable pub received : List ℕ → Option (Value F)
  unfolding decoded
  received [] = none
  received (b ∷ bs) = decoded (b ∷ bs) (from_utf8 (b ∷ bs))

  -- One read takes no more than its buffer of 1024 bytes holds.
  unfoldable pub taken : List ℕ → Option (Value F)
  unfolding received
  taken bs = received (take 1024 bs)

  unfoldable pub finish_read :
      Reading → Rs232Connection → Rs232Connection × Result (Option (Value F)) DomainError
  unfolding taken
  finish_read late x = (x, ok none)
  finish_read (bytes bs) x = (x, ok (taken bs))
  finish_read (broken e) x =
      (record x { state = failed }, err (driver_error (add_text "Read error: " e)))

  unfoldable pub read_value :
      Reading → Rs232Connection → Rs232Connection × Result (Option (Value F)) DomainError
  unfolding finish_read
  read_value r x = elim x.port [
    | none ↦ (x, err (driver_error "Port not connected"))
    | some p ↦ finish_read r x
  ]

unfoldable pub transmit :
    Writing → List ℕ → SerialStream → SerialStream × Result (Unit {0}) DomainError
transmit w bs p = elim w.write_all [
  | err e ↦ (
    record { written = p.written ++ take w.taken bs },
    err (driver_error (add_text "Write error: " e)),
  )
  | ok u ↦ (
    record { written = p.written ++ bs },
    elim w.flush [ err e ↦ err (driver_error (add_text "Flush error: " e)) | ok u ↦ ok tt ],
  )
]

module _ {F : Type 0} ⦃serde : Serde F⦄ where
  -- A text is sent as it is, any other value as JSON.
  unfoldable pub text_of : Value F → String
  text_of (string s) = s
  text_of v = serde.to_string v

  unfoldable pub data_of : Value F → List ℕ
  unfolding text_of
  data_of v = as_bytes (text_of v)

  unfoldable pub write_value :
      Writing → Value F → Rs232Connection → Rs232Connection × Result (Unit {0}) DomainError
  unfolding data_of transmit
  write_value w v x = elim x.port [
    | none ↦ (x, err (driver_error "Port not connected"))
    | some p ↦ (record x { port = some (transmit w (data_of v) p).0 }, (transmit w (data_of v) p).1)
  ]
