-- ===== src/Printer/Batch.antt =====
-- crates/application/src/printer/batch_manager.rs. Clock readings are numbers of milliseconds.
use ifascada.Prelude.{
  ℕ, ◌+◌, ◌*◌, Bool, ◌&&◌, Option, none, some, List, [], ◌∷◌, ◌++◌, ltb, and_then, unwrap_or,
  if◌then◌else◌, get_last?,
}
use ifascada.Float.{Float}
use ifascada.Json.{Value, number, object, get, as_f64, number_as_f64}

pub record PrintItem (F : Type 0) : Type 0 where
  pub value : Value F
  pub timestamp : ℕ
  pub metadata : Option (Value F)

pub record BatchManager (F : Type 0) : Type 0 where
  pub current_batch : List (PrintItem F)
  pub last_update : ℕ
  pub session_timeout : ℕ

-- Thirty minutes.
abbrev pub timeout : ℕ
timeout = 30 * 60 * 1000

unfoldable pub new : {F : Type 0} → ℕ → BatchManager F
new now = record { current_batch = []; last_update = now; session_timeout = timeout }

module _ {F : Type 0} where
  unfoldable pub expire : ℕ → BatchManager F → List (PrintItem F)
  expire now m = if ltb (m.last_update + m.session_timeout) now then [] else m.current_batch

  unfoldable pub take_batch : BatchManager F → BatchManager F × List (PrintItem F)
  take_batch m = (record m { current_batch = [] }, m.current_batch)

module _ {F : Type 0} ⦃x : Float F⦄ where
  -- The number of a value, or the one under "value" of an object, or 0.
  unfoldable pub num_val : Value F → F
  num_val (number n) = number_as_f64 n
  num_val (object m) = unwrap_or (and_then (get "value" (object m)) as_f64) (x.of_u64 0)
  num_val _ = x.of_u64 0

  -- A weighing cycle ends where a negative number is followed by a positive one.
  unfoldable pub new_cycle : Value F → Value F → Bool
  new_cycle last v = x.less (num_val last) (x.of_u64 0) && x.less (x.of_u64 0) (num_val v)

  unfoldable pub cut_cycle : Value F → List (PrintItem F) → List (PrintItem F)
  cut_cycle v batch = elim (get_last? batch) [
    | none ↦ batch
    | some last ↦ if new_cycle last.value v then [] else batch
  ]

  unfoldable pub add_item : ℕ → Value F → Option (Value F) → BatchManager F → BatchManager F
  add_item now v metadata m = record m {
    current_batch =
        cut_cycle v (expire now m)
        ++ record { value = v; timestamp = now; metadata = metadata } ∷ [];
    last_update = now;
  }
