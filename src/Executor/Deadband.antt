-- ===== src/Executor/Deadband.antt =====
-- What a tag that is polled on change publishes: `execute_polling_on_change` of
-- crates/application/src/tag/tag_executor.rs.
use ifascada.Prelude.{
  ℕ, ◌≡◌, refl, ap, inl, inr, String, true, Option, none, some, List, [], ◌∷◌, arith, Option-cases,
}
use ifascada.Float.{Float}
use ifascada.Json.{Value, Serde, as_f64}
use ifascada.Domain.Event.{DomainEvent}
use ifascada.Executor.{
  TagExecutor, World, Effect, publish, driver_read, did, connect, disconnect, handle_timeout,
  reconnect, handle_read_error, publish_value,
}
use ifascada.Executor.Loop.{Signal, run, polling_on_change_turn, should_publish, last_published}
use ifascada.Executor.Cases.{polling_on_change_turn_cases}
use ifascada.Executor.Rules.{run_inv}

module _ {F : Type 0} ⦃f : Float F⦄ where
  abbrev prepend : Option F → List F → List F
  prepend none ns = ns
  prepend (some n) ns = n ∷ ns

  -- The numbers among the values that were published, newest first.
  abbrev pub numbers : List (Effect F) → List F
  numbers [] = []
  numbers (publish (DomainEvent.value_updated id v q t) b ∷ es) = prepend (as_f64 v) (numbers es)
  numbers (_ ∷ es) = numbers es

  abbrev pub newest : List F → Option F
  newest [] = none
  newest (n ∷ ns) = some n

  -- Each number lies at least the threshold away from the one before it.
  abbrev pub Spaced : F → List F → Type 0
  Spaced threshold [] = Unit
  Spaced threshold (n ∷ []) = Unit
  Spaced threshold (n ∷ m ∷ ns) =
      (f.less_eq threshold (f.abs (f.minus n m)) ≡ true) × Spaced threshold (m ∷ ns)

  -- The loop's variable is the newest published number.
  record IsTracked (threshold : F) (x : TagExecutor F) (last : Option F) : Type 0 where
    tracked : newest (numbers x.trace) ≡ last
    spaced : Spaced threshold (numbers x.trace)

  connect-numbers :
      (w : World F) (now : ℕ) (x : TagExecutor F)
      → numbers (connect w now x).0.trace ≡ numbers x.trace
  unfolding connect
  connect-numbers w now x = ground arith

  handle_read_error-numbers :
      (w : World F) (m : String) (x : TagExecutor F)
      → numbers (handle_read_error w m x).trace ≡ numbers x.trace
  unfolding handle_read_error reconnect disconnect
  handle_read_error-numbers w m x = connect-numbers w w.later _

  publish_value-numbers :
      (w : World F) (v : Value F) (x : TagExecutor F)
      → numbers (publish_value w v x).trace ≡ prepend (as_f64 v) (numbers x.trace)
  unfolding publish_value
  publish_value-numbers w v x = refl

  Spaced-prepend :
      (threshold : F) (v : Value F) (last : Option F) (ns : List F)
      → newest ns ≡ last
      → Spaced threshold ns
      → should_publish threshold v last ≡ true
      → (newest (prepend (as_f64 v) ns) ≡ last_published v last)
        × Spaced threshold (prepend (as_f64 v) ns)
  unfolding should_publish last_published
  Spaced-prepend threshold v last [] e h far = elim (Option-cases (as_f64 v)) [
    | inl p ↦ (ground arith, rw p tt)
    | inr (n, p) ↦ (ground arith, rw p tt)
  ]
  Spaced-prepend threshold v last (m ∷ ns) e h far = elim (Option-cases (as_f64 v)) [
    | inl p ↦ (ground arith, rw p h)
    | inr (n, p) ↦ (ground arith, rw p (ground arith, h))
  ]

module _ {F : Type 0} ⦃f : Float F⦄ ⦃s : Serde F⦄ (threshold : F) where
  turn-IsTracked :
      (w : World F) (r : TagExecutor F × Option F)
      → IsTracked threshold r.0 r.1
      → IsTracked threshold
          (polling_on_change_turn threshold w r).0.0
          (polling_on_change_turn threshold w r).0.1
  turn-IsTracked w (x, last) h =
      polling_on_change_turn_cases w x threshold last (λ r. IsTracked threshold r.0 r.1)
        (λ t. record {
          tracked = unfold handle_timeout in h.tracked;
          spaced = unfold handle_timeout in h.spaced;
        })
        (record { tracked = h.tracked; spaced = h.spaced })
        (record { tracked = h.tracked; spaced = h.spaced })
        (λ v far.
          let (t, g) = Spaced-prepend threshold v last (numbers x.trace) h.tracked h.spaced far in
          record { tracked = unfold publish_value in t; spaced = unfold publish_value in g })
        (λ m.
          let e = handle_read_error-numbers w m (did driver_read x) in
          record { tracked = rw e h.tracked; spaced = rw e h.spaced })

  -- Whatever happens in between (silence, errors, reconnections), each number that the loop publishes lies at least the change threshold away from the number it published before.
  pub run-Spaced :
      (x : TagExecutor F) (signals : List (Signal F))
      → numbers x.trace ≡ []
      → Spaced threshold
          (numbers (run (polling_on_change_turn threshold) (x, none) signals).0.0.trace)
  run-Spaced x signals fresh =
      (run_inv (polling_on_change_turn threshold) (λ r. IsTracked threshold r.0 r.1) turn-IsTracked
        (x, none) signals (record { tracked = ap newest fresh; spaced = rw fresh tt })).spaced
