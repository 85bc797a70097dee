-- ===== src/Drivers/Modbus/Lines.antt =====
-- What the drivers of crates/infrastructure/src/drivers/modbus.rs send over a context: the polls of a
-- device, and the reads and writes of a single connection.
use mathlib.Core.Option
use Prim.Native.String.{◌++◌ as add_text}
use ifascada.Prelude.{
  ℕ, ◌%◌, ◌^◌, String, Bool, Option, none, some, List, [], ◌∷◌, Result, ok, err, same,
  if◌then◌else◌, and_then, unwrap_or,
}
use ifascada.Text.{decimal}
use ifascada.Json.{Value, Items, nil, cons, number, pos_int, bool, array, get, as_u64, as_str}
use ifascada.Domain.TagId.{TagId, DomainError, invalid_driver_config, driver_error}
use ifascada.Domain.Tag.{Tag}
use ifascada.Drivers.Modbus.{ModbusConfig, ModbusConnection, ModbusDeviceDriver}

pub data Register : Type 0 where
  holding input coil discrete : Register

-- A request, with the slave that the context was set to.
pub data Request : Type 0 where
  reads : Register → (slave address count : ℕ) → Request
  writes_registers : (slave address : ℕ) → List ℕ → Request
  writes_register : (slave address word : ℕ) → Request
  writes_coil : (slave address : ℕ) → Bool → Request

-- A context: its slave, and the requests sent, newest first.
pub record Context : Type 0 where
  pub slave : ℕ
  pub sent : List Request

-- The answers of tokio_modbus, which may depend on all that was sent before: a transport error, an
-- exception, or what was asked for.
pub record Line : Type 0 where
  pub read_holding_registers : Context → ℕ → ℕ → Result (Result (List ℕ) String) String
  pub read_input_registers : Context → ℕ → ℕ → Result (Result (List ℕ) String) String
  pub read_coils : Context → ℕ → ℕ → Result (Result (List Bool) String) String
  pub read_discrete_inputs : Context → ℕ → ℕ → Result (Result (List Bool) String) String
  pub write : Context → Request → Result (Result (Unit {0}) String) String
  pub times_out : Context → Bool
  pub illegal_function : String

abbrev pub set_slave : ℕ → Context → Context
set_slave n c = record c { slave = n }

abbrev pub send : Request → Context → Context
send r c = record c { sent = r ∷ c.sent }

-- `as u16`.
unfoldable pub as_u16 : ℕ → ℕ
as_u16 n = n % 2 ^ 16

unfoldable pub register : String → Option Register
register name =
    if same name "Holding"
    then some holding
    else if same name "Input"
    then some input
    else if same name "Coil"
    then some coil
    else if same name "Discrete"
    then some discrete
    else none

-- The error of a read that takes too long.
timed_out : ModbusConfig → DomainError
timed_out c =
    driver_error (add_text "Modbus request timed out after " (add_text (decimal c.timeout_ms) "ms"))

module _ {F : Type 0} where
  unfoldable pub words : List ℕ → Items F
  words [] = nil
  words (n ∷ ns) = cons (number (pos_int n)) (words ns)

  unfoldable pub bits : List Bool → Items F
  bits [] = nil
  bits (b ∷ bs) = cons (bool b) (bits bs)

  -- The outcome of a read, with the texts of the two kinds of error.
  unfoldable pub value_of :
      {A : Type 0} (exception transport : String)
      → (A → Items F)
      → Result (Result A String) String
      → Result (Value F) DomainError
  value_of exception transport items (ok (ok a)) = ok (array (items a))
  value_of exception transport items (ok (err e)) = err (driver_error (add_text exception e))
  value_of exception transport items (err e) = err (driver_error (add_text transport e))

  unfoldable pub answer :
      (exception transport : String)
      → Line
      → Register
      → (address count : ℕ) → Context
      → Result (Value F) DomainError
  unfolding value_of words bits
  answer exception transport l holding a n c =
      value_of exception transport words (l.read_holding_registers c a n)
  answer exception transport l input a n c =
      value_of exception transport words (l.read_input_registers c a n)
  answer exception transport l coil a n c = value_of exception transport bits (l.read_coils c a n)
  answer exception transport l discrete a n c =
      value_of exception transport bits (l.read_discrete_inputs c a n)

  -- The register, the count and the register type of a tag's source configuration.
  unfoldable pub register_addr : Tag F → Option ℕ
  register_addr t = Option.map as_u16 (and_then (get "register" t.source_config) as_u64)

  unfoldable pub count : Tag F → ℕ
  count t = unwrap_or (Option.map as_u16 (and_then (get "count" t.source_config) as_u64)) 1

  unfoldable pub register_type : Tag F → String
  register_type t = unwrap_or (and_then (get "register_type" t.source_config) as_str) "Holding"

  -- The reading of one tag: what the context becomes, and the result.
  unfoldable pub read_tag : Line → Tag F → Context → Context × Result (Value F) DomainError
  unfolding register_addr register_type register count answer
  read_tag l t c = elim (register_addr t) [
    | none ↦ (c, err (invalid_driver_config "Missing 'register' in source_config"))
    | some a ↦ elim (register (register_type t)) [
      | none ↦ (c, err (driver_error (add_text "Unknown register type: " (register_type t))))
      | some k ↦ (
        send (reads k c.slave a (count t)) c,
        answer "Modbus Exception: " "Modbus Transport Error: " l k a (count t) c,
      )
    ]
  ]

  unfoldable pub read_tags :
      Line → List (Tag F) → Context → Context × List (TagId × Result (Value F) DomainError)
  unfolding read_tag
  read_tags l [] c = (c, [])
  read_tags l (t ∷ tags) c =
      let (d, r) = read_tag l t c in let (e, rest) = read_tags l tags d in (e, (t.id, r) ∷ rest)

  -- `poll`, once the context is locked: it is set to the device's slave.
  unfoldable pub poll :
      Line → ModbusDeviceDriver F → Context → Context × List (TagId × Result (Value F) DomainError)
  unfolding read_tags
  poll l x c = read_tags l x.tags (set_slave x.config.slave_id c)

  some_value : Result (Value F) DomainError → Result (Option (Value F)) DomainError
  some_value (ok v) = ok (some v)
  some_value (err e) = err e

  unfoldable pub read_register :
      Line → ModbusConfig → Register → Context → Context × Result (Option (Value F)) DomainError
  unfolding answer some_value timed_out
  read_register l x k c = (
    send (reads k c.slave x.address x.count) c,
    (if l.times_out c
        then err (timed_out x)
        else some_value
            (answer "Modbus exception: " "Modbus transport error: " l k x.address x.count c)),
  )

  -- `read_value`, once the context is locked. A register type that is not known is an exception.
  unfoldable pub read_value :
      Line → ModbusConnection → Context → Context × Result (Option (Value F)) DomainError
  unfolding register read_register
  read_value l x c = elim (register x.config.register_type) [
    | none ↦ (
      set_slave x.config.slave_id c,
      err (driver_error (add_text "Modbus exception: " l.illegal_function)),
    )
    | some k ↦ read_register l x.config k (set_slave x.config.slave_id c)
  ]
