-- ===== src/Printer/Receipt.antt =====
-- crates/application/src/printer/builder.rs: ESC/POS commands as bytes.
use Prim.Native.String.{count}
use Prim.Native.String
use ifascada.Prelude.{ℕ, zero, suc, ◌-◌, String, List, [], ◌∷◌, ◌++◌}
use ifascada.Text.Utf8.{as_bytes}

unfoldable pub spaces : ℕ → String
spaces zero = ""
spaces (suc n) = String.◌++◌ " " (spaces n)

-- `{:<n}` and `{:>n}`: padding to a number of characters.
unfoldable pub pad_right : ℕ → String → String
pad_right n s = String.◌++◌ s (spaces (n - count s))

unfoldable pub pad_left : ℕ → String → String
pad_left n s = String.◌++◌ (spaces (n - count s)) s

pub record ReceiptBuilder : Type 0 where
  pub buffer : List ℕ

abbrev extend : List ℕ → ReceiptBuilder → ReceiptBuilder
extend bytes b = record { buffer = b.buffer ++ bytes }

abbrev pub new : ReceiptBuilder
new = record { buffer = [] }

-- ESC @
unfoldable pub initialize : ReceiptBuilder → ReceiptBuilder
initialize = extend (27 ∷ 64 ∷ [])

-- ESC a
unfoldable pub align_center : ReceiptBuilder → ReceiptBuilder
align_center = extend (27 ∷ 97 ∷ 1 ∷ [])

unfoldable pub align_left : ReceiptBuilder → ReceiptBuilder
align_left = extend (27 ∷ 97 ∷ 0 ∷ [])

unfoldable pub text : String → ReceiptBuilder → ReceiptBuilder
text s = extend (as_bytes s)

unfoldable pub text_line : String → ReceiptBuilder → ReceiptBuilder
text_line s b = extend (10 ∷ []) (extend (as_bytes s) b)

unfoldable pub empty_line : ReceiptBuilder → ReceiptBuilder
empty_line = extend (10 ∷ [])

unfoldable pub separator : ReceiptBuilder → ReceiptBuilder
separator = text_line "----------------------------------------"

unfoldable pub kv : String → String → ReceiptBuilder → ReceiptBuilder
kv key value = text_line (String.◌++◌ (pad_right 12 key) (String.◌++◌ ": " value))

-- ESC d
unfoldable pub feed : ℕ → ReceiptBuilder → ReceiptBuilder
feed n = extend (27 ∷ 100 ∷ n ∷ [])

-- GS V B 0
unfoldable pub cut : ReceiptBuilder → ReceiptBuilder
cut = extend (29 ∷ 86 ∷ 66 ∷ 0 ∷ [])

abbrev pub build : ReceiptBuilder → List ℕ
build b = b.buffer
