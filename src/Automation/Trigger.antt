-- ===== src/Automation/Trigger.antt =====
-- One trigger over time: `evaluate_trigger` of crates/application/src/automation/engine.rs.
use native.Mathlib.Nat.{div-eq_of_lt, mod-eq_of_lt, add-div_left, add-mod_left}
use ifascada.Prelude.{
  ℕ, suc, ◌+◌, ◌≡◌, sym, ◌⊎◌, ◌≤◌, ◌<◌, ◌/◌, ◌%◌, Bool, true, false, Option, List, [], ◌∷◌, length,
  All, arith, if◌then◌else◌, inl, inr,
}
use ifascada.Float.{Float}
use ifascada.Json.{Value}
use ifascada.Domain.Config.{TriggerConfig, consecutive_values, Operator}
use ifascada.Domain.UpdateMode.{TagValueType}
use ifascada.Automation.{TriggerState, default, matches, count_match, evaluate_trigger}

module _ {F : Type 0} ⦃x : Float F⦄ (target : F) (count : ℕ) (operator : Operator)
    (within : Option ℕ) (type : TagValueType) (schema : Option (Value F)) where
  abbrev trigger : TriggerConfig F
  trigger = consecutive_values target count operator within

  abbrev hit : Value F → Bool
  hit v = matches trigger v type schema

  -- The state after the values of a history, newest first.
  pub replay : List (Value F) → TriggerState
  replay [] = default
  replay (v ∷ past) = (evaluate_trigger (replay past) trigger v type schema).0

  -- How many of the newest values match without a break.
  abbrev pub streak : List (Value F) → ℕ
  streak [] = 0
  streak (v ∷ past) = let n = streak past in if hit v then suc n else 0

  record IsCounting (s : TriggerState) (past : List (Value F)) : Type 0 where
    below : s.consecutive_matches < count
    within_streak : s.consecutive_matches ≤ streak past

  step-IsCounting :
      (s : TriggerState) (v : Value F) (past : List (Value F))
      → 0 < count
      → IsCounting s past
      → IsCounting (evaluate_trigger s trigger v type schema).0 (v ∷ past)
  unfolding evaluate_trigger count_match
  step-IsCounting s v past pos h = ground arith

  replay-IsCounting : (past : List (Value F)) → 0 < count → IsCounting (replay past) past
  unfolding replay
  replay-IsCounting [] pos = record { below = pos; within_streak = omega arith }
  replay-IsCounting (v ∷ past) pos =
      step-IsCounting (replay past) v past pos (replay-IsCounting past pos)

  -- A trigger with a positive count fires only if that many of the newest values match without a break, and its counter always stays below the count.
  pub evaluate_trigger-streak :
      (past : List (Value F)) (v : Value F)
      → 0 < count
      → ((replay past).consecutive_matches < count)
        × ((evaluate_trigger (replay past) trigger v type schema).1 ≡ true
            → count ≤ streak (v ∷ past))
  unfolding evaluate_trigger count_match
  evaluate_trigger-streak past v pos =
      ((replay-IsCounting past pos).below, λ h. ground (arith, replay-IsCounting past pos))

  -- The firings over a list of values, oldest first, and the state in the end.
  pub evaluate_all : TriggerState → List (Value F) → TriggerState × ℕ
  evaluate_all s [] = (s, 0)
  evaluate_all s (v ∷ vs) =
      let (s', fired) = evaluate_trigger s trigger v type schema in
      let (end, n) = evaluate_all s' vs in (end, if fired then suc n else n)

  evaluate_hit :
      (s : TriggerState) (v : Value F)
      → s.consecutive_matches < count
      → hit v ≡ true
      → let (s', fired) = evaluate_trigger s trigger v type schema in
        ((s.consecutive_matches + 1 ≡ count) × (s'.consecutive_matches ≡ 0) × (fired ≡ true))
        ⊎ ((s.consecutive_matches + 1 < count)
            × (s'.consecutive_matches ≡ s.consecutive_matches + 1)
            × (fired ≡ false))
  unfolding evaluate_trigger count_match
  evaluate_hit s v h e = ground arith

  -- While every value matches, a trigger with a positive count fires at every count-th value: n values fire it as often as the count goes into the counter plus n, and leave the remainder on the counter. This holds with any time window `within_ms`, and however far apart the values are: the code never looks at the window, in which its documents have the count start again.
  pub evaluate_all-rate :
      (s : TriggerState) (vs : List (Value F))
      → 0 < count
      → s.consecutive_matches < count
      → All (λ v. hit v ≡ true) vs
      → ((evaluate_all s vs).1 ≡ (s.consecutive_matches + length vs) / count)
        × ((evaluate_all s vs).0.consecutive_matches ≡ (s.consecutive_matches + length vs) % count)
  unfolding evaluate_all
  evaluate_all-rate s [] pos h a =
      let e : s.consecutive_matches + 0 ≡ s.consecutive_matches = omega arith in
      rw e (sym (div-eq_of_lt h), sym (mod-eq_of_lt h))
  evaluate_all-rate s (v ∷ vs) pos h (hit_v, a) = elim (evaluate_hit s v h hit_v) [
    | inl (full, zeroed, fired) ↦
        let ih =
          evaluate_all-rate (evaluate_trigger s trigger v type schema).0 vs pos (rw zeroed pos) a in
        let e : s.consecutive_matches + suc (length vs) ≡ count + length vs = omega arith in
        (
          ground (arith, ih.0, e, add-div_left (length vs) pos),
          ground (arith, ih.1, e, add-mod_left count (length vs)),
        )
    | inr (room, counted, silent) ↦
        let ih =
          evaluate_all-rate (evaluate_trigger s trigger v type schema).0 vs pos (rw counted room)
            a in
        let e : s.consecutive_matches + suc (length vs) ≡ s.consecutive_matches + 1 + length vs =
          omega arith in
        (ground (arith, ih.0, e), ground (arith, ih.1, e))
  ]
