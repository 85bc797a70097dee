-- ===== src/Drivers/Serial.antt =====
-- The settings of a serial port, which crates/infrastructure/src/drivers checks before it opens one, and
-- what tokio_serial takes.
use Prim.Native.String.{◌++◌ as add_text}
use ifascada.Prelude.{ℕ, String, Result, ok, err, ◌==◌, same, if◌then◌else◌}
use ifascada.Text.{decimal}
use ifascada.Domain.TagId.{DomainError, invalid_driver_config}

pub data Parity : Type 0 where
  no_parity even odd : Parity

pub data StopBits : Type 0 where
  one two : StopBits

pub data DataBits : Type 0 where
  five six seven eight : DataBits

-- The `None`, `Even` or `Odd` of a configuration.
unfoldable pub parity : String → Result Parity DomainError
parity name =
    if same name "None"
    then ok no_parity
    else if same name "Even"
    then ok even
    else if same name "Odd"
    then ok odd
    else err (invalid_driver_config (add_text "Invalid parity: " name))

unfoldable pub stop_bits : ℕ → Result StopBits DomainError
stop_bits n =
    if n == 1
    then ok one
    else if n == 2
    then ok two
    else err (invalid_driver_config (add_text "Invalid stop bits: " (decimal n)))

unfoldable pub data_bits : ℕ → Result DataBits DomainError
data_bits n =
    if n == 5
    then ok five
    else if n == 6
    then ok six
    else if n == 7
    then ok seven
    else if n == 8
    then ok eight
    else err (invalid_driver_config (add_text "Invalid data bits: " (decimal n)))

-- What the port is opened with.
pub record Builder : Type 0 where
  pub port_name : String
  pub baud_rate : ℕ
  pub data_bits : DataBits
  pub parity : Parity
  pub stop_bits : StopBits
  pub timeout_ms : ℕ

-- `and_then` of `Result`, the `?` of Rust.
unfoldable pub try {ℓ κ} :
    {A : Type ℓ} {B : Type κ}
    → Result A DomainError
    → (A → Result B DomainError)
    → Result B DomainError
try (ok a) f = f a
try (err e) f = err e

-- The checks in their order: data bits, parity, stop bits.
unfoldable pub builder :
    String
    → ℕ
    → Result DataBits DomainError
    → Result Parity DomainError
    → Result StopBits DomainError
    → ℕ
    → Result Builder DomainError
unfolding try
builder port_name baud_rate bits par stops timeout_ms = try bits (λ d. try par (λ p. try stops (λ s.
    ok (record {
      port_name = port_name;
      baud_rate = baud_rate;
      data_bits = d;
      parity = p;
      stop_bits = s;
      timeout_ms = timeout_ms;
    }))))
