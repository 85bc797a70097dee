-- ===== src/Pipeline/Validators.antt =====
-- crates/infrastructure/src/pipeline.rs: RangeValidator and ContainsValidator.
use text.Mathlib.Text.{starts_with}
use ifascada.Prelude.{
  ◌≡◌, ◌↔◌, String, Bool, true, false, ◌||◌, Option, none, some, Result, ok, err, arith, and_then,
  Option-cases, inl, inr, if◌then◌else◌,
}
use ifascada.Float.{Float}
use ifascada.Json.{Value, number, object, get, as_f64, as_str}
use ifascada.Pipeline.{
  ValidationError, not_a_number, not_a_string, below_minimum, above_maximum, lacks_substring,
  ValueValidator,
}

module _ {F : Type 0} ⦃x : Float F⦄ where
  -- A number, or the number under "value" of an object.
  unfoldable pub measure : Value F → Option F
  measure (number n) = as_f64 (number n)
  measure (object m) = and_then (get "value" (object m)) as_f64
  measure _ = none

  check_max : Option F → F → Result (Unit {0}) (ValidationError F)
  check_max none n = ok tt
  check_max (some hi) n = if x.less hi n then err (above_maximum n hi) else ok tt

  check_min : Option F → Option F → F → Result (Unit {0}) (ValidationError F)
  unfolding check_max
  check_min none hi n = check_max hi n
  check_min (some lo) hi n = if x.less n lo then err (below_minimum n lo) else check_max hi n

  unfoldable pub range_validate : Option F → Option F → ValueValidator F
  unfolding check_min
  range_validate lo hi v = elim (measure v) [ none ↦ err not_a_number | some n ↦ check_min lo hi n ]

  -- Neither below the minimum nor above the maximum; a bound that is absent excludes nothing.
  abbrev pub at_least : Option F → F → Bool
  at_least none n = true
  at_least (some lo) n = if x.less n lo then false else true

  abbrev pub at_most : Option F → F → Bool
  at_most none n = true
  at_most (some hi) n = if x.less hi n then false else true

  check_min-ok_iff :
      (lo hi : Option F) (n : F)
      → (check_min lo hi n ≡ ok tt) ↔ ((at_least lo n ≡ true) × (at_most hi n ≡ true))
  unfolding check_min
  check_min-ok_iff none none n = ground arith
  check_min-ok_iff none (some hi) n = ground arith
  check_min-ok_iff (some lo) none n = ground arith
  check_min-ok_iff (some lo) (some hi) n = ground arith

  -- The range validator accepts a value exactly when it holds a number, directly or under "value", that is neither below the minimum nor above the maximum.
  pub range_validate-ok_iff :
      (lo hi : Option F) (v : Value F)
      → (range_validate lo hi v ≡ ok tt)
        ↔ ((n : F) × (measure v ≡ some n) × (at_least lo n ≡ true) × (at_most hi n ≡ true))
  unfolding range_validate
  range_validate-ok_iff lo hi v = elim (Option-cases (measure v)) [
    | inl e ↦ (λ h. absurd (ground arith), λ h. ground (arith, h.1))
    | inr (n, e) ↦ (
      λ h. let r = (check_min-ok_iff lo hi n).0 (ground arith) in (n, e, r.0, r.1),
      λ h. ground (arith, h.1, (check_min-ok_iff lo hi h.0).1 (h.2, h.3)),
    )
  ]

-- `str::contains`: the needle starts at some character.
unfoldable pub text_contains : String → String → Bool
text_contains needle String.[] = starts_with String.[] needle
text_contains needle (String.◌∷◌ c s) =
    starts_with (String.◌∷◌ c s) needle || text_contains needle s

unfoldable pub contains_validate : {F : Type 0} → String → ValueValidator F
contains_validate needle v = elim (as_str v) [
  | none ↦ err not_a_string
  | some s ↦ if text_contains needle s then ok tt else err (lacks_substring needle)
]
