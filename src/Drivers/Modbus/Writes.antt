-- ===== src/Drivers/Modbus/Writes.antt =====
-- The writes of a single connection in crates/infrastructure/src/drivers/modbus.rs.
use Prim.Native.String.{◌++◌ as add_text}
use ifascada.Prelude.{
  ℕ, ◌^◌, String, Bool, false, Option, none, some, List, map, Result, ok, err, same, ltb,
  if◌then◌else◌, unwrap_or,
}
use ifascada.Json.{Value, number, pos_int, neg_int, as_u64, as_bool, as_array}
use ifascada.Domain.TagId.{DomainError, driver_error, invalid_value}
use ifascada.Drivers.Modbus.{ModbusConfig, ModbusConnection}
use ifascada.Drivers.Modbus.Lines.{
  Request, writes_registers, writes_register, writes_coil, Context, Line, set_slave, send, as_u16,
}

unfoldable pub written : Result (Result (Unit {0}) String) String → Result (Unit {0}) DomainError
written (ok (ok u)) = ok tt
written (ok (err e)) = err (driver_error (add_text "Modbus exception: " e))
written (err e) = err (driver_error (add_text "Modbus transport error: " e))

-- The request is sent, and answered.
unfoldable pub perform : Line → Request → Context → Context × Result (Unit {0}) DomainError
unfolding written
perform l r c = (send r c, written (l.write c r))

module _ {F : Type 0} where
  -- Whether `as_i64` is more than 0: a number above the greatest `i64` is none.
  unfoldable pub is_positive : Value F → Option Bool
  is_positive (number (pos_int n)) = if ltb n (2 ^ 63) then some (ltb 0 n) else none
  is_positive (number (neg_int n)) = some false
  is_positive _ = none

  -- The words of an array: what is not a number is 0, and a number is cut to sixteen bits.
  unfoldable pub as_words : List (Value F) → List ℕ
  as_words vs = map (λ v. as_u16 (unwrap_or (as_u64 v) 0)) vs

  unfoldable pub holding_request : ModbusConfig → Value F → Result Request DomainError
  unfolding as_words
  holding_request x v = elim (as_array v) [
    | some vs ↦ ok (writes_registers x.slave_id x.address (as_words vs))
    | none ↦ elim (as_u64 v) [
      | some n ↦ ok (writes_register x.slave_id x.address (as_u16 n))
      | none ↦
          err (invalid_value "Value must be a number or array of numbers for Holding registers")
    ]
  ]

  unfoldable pub coil_request : ModbusConfig → Value F → Result Request DomainError
  unfolding is_positive
  coil_request x v = elim (as_bool v) [
    | some b ↦ ok (writes_coil x.slave_id x.address b)
    | none ↦ elim (is_positive v) [
      | some b ↦ ok (writes_coil x.slave_id x.address b)
      | none ↦ err (invalid_value "Value must be boolean for Coil")
    ]
  ]

  -- What a value asks the line for.
  unfoldable pub request : ModbusConfig → Value F → Result Request DomainError
  unfolding holding_request coil_request
  request x v =
      if same x.register_type "Holding"
      then holding_request x v
      else if same x.register_type "Coil"
      then coil_request x v
      else err (driver_error "Write not supported for this register type")

  -- `write_value`, once the context is locked and set to the connection's slave.
  unfoldable pub write_value :
      Line → ModbusConnection → Value F → Context → Context × Result (Unit {0}) DomainError
  unfolding request perform
  write_value l x v c = elim (request x.config v) [
    | err e ↦ (set_slave x.config.slave_id c, err e)
    | ok r ↦ perform l r (set_slave x.config.slave_id c)
  ]
