-- ===== src/Float.antt =====
-- What the program takes from outside for numbers and text: `f64` arithmetic, and the printing and
-- parsing of serde_json. Both are interfaces, so every theorem holds for any arithmetic.
use ifascada.Prelude.{ℕ, Bool, true}
use ifascada.Prelude.Int.{ℤ, pos, negsuc, ◌+ℤ◌, ◌-ℤ◌, ◌*ℤ◌, ◌/ℤ◌, abs, ltb_ℤ, leb_ℤ}

-- The operations on `f64` that the sources use. `a > b` is `less b a`, `a >= b` is `less_eq b a`.
pub record Float (F : Type 0) : Type 0 where
  pub of_u64 : ℕ → F
  pub of_neg : ℕ → F  -- the value of -(n + 1)
  pub plus : F → F → F
  pub minus : F → F → F
  pub times : F → F → F
  pub over : F → F → F
  pub abs : F → F
  pub round : F → F
  pub is_finite : F → Bool
  pub epsilon : F
  pub less : F → F → Bool
  pub less_eq : F → F → Bool

-- Whole numbers as a sample arithmetic.
instance abbrev pub ℤ_float : Float ℤ
ℤ_float = record {
  of_u64 = pos;
  of_neg = negsuc;
  plus = ◌+ℤ◌;
  minus = ◌-ℤ◌;
  times = ◌*ℤ◌;
  over = ◌/ℤ◌;
  abs = abs;
  round = λ a. a;
  is_finite = λ _. true;
  epsilon = pos 1;
  less = ltb_ℤ;
  less_eq = leb_ℤ;
}
