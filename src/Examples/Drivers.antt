-- ===== src/Examples/Drivers.antt =====
-- The drivers at concrete inputs.
use Prim.Native.Char.{Char, code}
use ifascada.Prelude.{
  ℕ, ◌≡◌, refl, ap, arith, String, len, Bool, false, none, some, List, [], ◌∷◌, map, Result, ok,
  err, same, ◌==◌, if◌then◌else◌,
}
use ifascada.Prelude.Int.{ℤ}
use ifascada.Prelude.Map.{lookup, insert}
use ifascada.Text.{trim}
use ifascada.Text.Utf8.{as_bytes, utf8}
use ifascada.Json.{Value, string, object, field, end, get, entry, as_u64, as_str}
use ifascada.Domain.Tag.{Tag}
use ifascada.Domain.Connection.{ConnectionState, connected}
use ifascada.Domain.UpdateMode.{polling}
use ifascada.Domain.Tag
use ifascada.Drivers.Serial.{Builder, parity, stop_bits, data_bits, try, builder}
use ifascada.Drivers.Modbus.{
  Platform, ModbusDeviceDriver, Holder, connection, device, port, port_name, context, state,
  settings, connection_builder, set_state, hold, disconnect,
}
use ifascada.Drivers.Modbus.Lines.{
  Line, Context, Register, reads, as_u16, register, register_addr, register_type, count, poll,
}
use ifascada.Drivers.Modbus.Shared.{
  Step, looks, opens_port, looked, look_up, connect_new, is_waiting, others, may, holds, is_alive,
  upgrade, existing, opened, open_port, connected_at, act, step, run,
}
use ifascada.Drivers.Modbus.Shared.Runs.{run-same_port}
use ifascada.Drivers.Modbus.Polled.{asked, poll-asked}
use ifascada.Drivers.Rs232.{
  Rs232Connection, SerialStream, Writing, new_config, bytes, text_of, data_of, read_value,
  write_value,
}
use ifascada.Drivers.Rs232.Decoded.{IsPlain, read_value-write_value}
use ifascada.Examples.Sample.{num, serde, weight, tag_in}

abbrev platform : Platform
platform = record { to_lowercase = λ s. if same s "COM1" then "com1" else s; windows = false }

abbrev single : String → Holder ℤ
single port = connection (record {
  config = record {
    port = port;
    baud_rate = 9600;
    data_bits = 8;
    parity = "None";
    stop_bits = 1;
    timeout_ms = 1000;
    slave_id = 7;
    address = 40;
    count = 2;
    register_type = "Holding";
  };
  context = none;
  state = ConnectionState.disconnected;
})

-- A tag at a register, of a type.
abbrev at : ℕ → String → Tag ℤ
at n kind = record (tag_in (polling 1000)) {
  source_config = object (field "register" (num n) (field "register_type" (string kind) end));
}

abbrev meter : ModbusDeviceDriver ℤ
meter = record {
  config = record {
    port = "com1";
    baud_rate = 9600;
    data_bits = 8;
    parity = "e";
    stop_bits = 1;
    timeout_ms = 1000;
    slave_id = 3;
  };
  tags = at 70000 "Holding" ∷ at 5 "Coils" ∷ at 6 "Input" ∷ [];
  context = none;
  state = ConnectionState.disconnected;
}

abbrev opens_all : Builder → Result (Unit {0}) String
opens_all b = ok tt

abbrev holders : List (Holder ℤ)
holders = single "COM1" ∷ device meter ∷ single "COM2" ∷ []

-- The first driver opens its port, the second finds the context in the registry, the third opens another port.
abbrev steps : List (Step ℤ)
steps = looks 0 ∷ opens_port opens_all 0 ∷ looks 1 ∷ looks 2 ∷ opens_port opens_all 2 ∷ []

-- The drivers after the steps: one context for the two names of a port.
abbrev first : Holder ℤ
unfolding hold
first = hold 0 (single "COM1")

abbrev second : Holder ℤ
unfolding hold
second = hold 0 (device meter)

run-same_port_example : platform.to_lowercase "COM1" ≡ platform.to_lowercase "com1"
unfolding same run step act may is_waiting others looked look_up connect_new connected_at existing
    upgrade is_alive holds open_port opened settings connection_builder port port_name context state
    set_state hold disconnect parity stop_bits data_bits try builder lookup insert
run-same_port_example = run-same_port platform holders steps 0 1 first second 0 refl refl refl refl

abbrev line : Line
line = record {
  read_holding_registers = λ c a n. ok (ok (a ∷ []));
  read_input_registers = λ c a n. ok (err "busy");
  read_coils = λ c a n. err "closed";
  read_discrete_inputs = λ c a n. err "closed";
  write = λ c r. ok (ok tt);
  times_out = λ c. false;
  illegal_function = "Illegal function";
}

-- The context was set to another slave; a register of 70000 wraps around; a type is not known.
abbrev used : Context
used = record { slave = 9; sent = [] }

poll-asked_example :
    ((poll line meter used).0 ≡ record {
      slave = 3;
      sent = reads Register.input 3 6 1 ∷ reads Register.holding 3 4464 1 ∷ [];
    })
    × (map (λ r. r.0) (poll line meter used).1 ≡ weight ∷ weight ∷ weight ∷ [])
unfolding asked register register_addr register_type count as_u16 get entry as_u64 as_str same
    Tag.new
poll-asked_example = poll-asked line meter used

abbrev writing : Writing
writing = record { taken = 0; write_all = ok tt; flush = ok tt }

abbrev stream : SerialStream
stream = record { written = [] }

abbrev cable : Rs232Connection
unfolding new_config
cable = record { config = new_config "COM3"; port = some stream; state = connected }

abbrev blank : Char → Bool
blank c = code c == 32

abbrev command : Value ℤ
command = string "GET W"

command-IsPlain : IsPlain blank command
unfolding trim text_of data_of as_bytes utf8 same
command-IsPlain = record {
  printed = refl;
  trimmed = refl;
  not_empty = λ e. omega (arith, ap len e);
  fits = omega arith;
}

read_value-write_value_example :
    (write_value writing command cable
      ≡ (record cable { port = some (record { written = 71 ∷ 69 ∷ 84 ∷ 32 ∷ 87 ∷ [] }) }, ok tt))
    × ((read_value blank (bytes (71 ∷ 69 ∷ 84 ∷ 32 ∷ 87 ∷ [])) cable).1 ≡ ok (some command))
unfolding data_of text_of as_bytes utf8 cable
read_value-write_value_example =
    read_value-write_value blank writing command cable cable stream stream refl refl refl refl
      command-IsPlain
