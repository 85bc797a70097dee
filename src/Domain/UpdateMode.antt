-- ===== src/Domain/UpdateMode.antt =====
-- crates/domain/src/tag: update_mode.rs and value_type.rs.
use ifascada.Prelude.{ℕ, ◌*◌, ◌%◌, ◌^◌, Bool, true, false}

pub data TagValueType : Type 0 where
  simple composite : TagValueType

-- Times and intervals are milliseconds in a `u64`.
abbrev pub u64 : ℕ → ℕ
u64 n = n % 2 ^ 64

pub data TagUpdateMode (F : Type 0) : Type 0 where
  on_change : (debounce_ms timeout_ms : ℕ) → TagUpdateMode F
  polling : (interval_ms : ℕ) → TagUpdateMode F
  polling_on_change : (interval_ms : ℕ) (change_threshold : F) → TagUpdateMode F

module _ {F : Type 0} where
  -- The product wraps as a release build's does.
  unfoldable pub timeout_ms : TagUpdateMode F → ℕ
  timeout_ms (on_change d t) = t
  timeout_ms (polling i) = u64 (i * 3)
  timeout_ms (polling_on_change i c) = u64 (i * 3)

  unfoldable pub is_continuous : TagUpdateMode F → Bool
  is_continuous (on_change d t) = true
  is_continuous _ = false

  unfoldable pub is_polling : TagUpdateMode F → Bool
  is_polling (polling i) = true
  is_polling (polling_on_change i c) = true
  is_polling _ = false
