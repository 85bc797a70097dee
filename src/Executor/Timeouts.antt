-- ===== src/Executor/Timeouts.antt =====
-- When crates/application/src/tag/tag_executor.rs reports timeouts.
use ifascada.Prelude.{
  ℕ, ◌≡◌, refl, inl, inr, String, Bool, true, false, List, [], ◌∷◌, arith, Result-cases,
}
use ifascada.Float.{Float}
use ifascada.Json.{Value, Serde}
use ifascada.Domain.Event.{DomainEvent}
use ifascada.Domain.Tag.{mark_offline, mark_error, reset_timeout}
use ifascada.Executor.{
  TagExecutor, World, Effect, publish, is_offline, connect, disconnect, handle_timeout, reconnect,
  handle_read_error, publish_value, timeout_due,
}
use ifascada.Executor.Loop.{Signal, start, execute}
use ifascada.Executor.Cases.{
  settled, polling_turn_cases, on_change_turn_cases, polling_on_change_turn_cases,
}
use ifascada.Executor.Rules.{IsKept, execute_inv}

module _ {F : Type 0} where
  -- Whether a value was published, or tried to be, since the last timeout; a trace begins with its newest effect.
  abbrev pub has_value : List (Effect F) → Bool
  has_value [] = false
  has_value (publish (DomainEvent.value_updated id v q t) b ∷ rest) = true
  has_value (publish (DomainEvent.disconnected id reason t) b ∷ rest) = false
  has_value (a ∷ rest) = has_value rest

  -- Before every timeout there is a value, since the timeout before it.
  abbrev pub Alternates : List (Effect F) → Type 0
  Alternates [] = Unit
  Alternates (publish (DomainEvent.disconnected id reason t) b ∷ rest) =
      (has_value rest ≡ true) × Alternates rest
  Alternates (a ∷ rest) = Alternates rest

  record IsArmed (x : TagExecutor F) : Type 0 where
    armed : is_offline x.tag.status ≡ false → has_value x.trace ≡ true
    alternates : Alternates x.trace

  connect-IsArmed :
      (w : World F) (now : ℕ) (x : TagExecutor F) → IsArmed x → IsArmed (connect w now x).0
  unfolding connect mark_offline reset_timeout
  connect-IsArmed w now x h = elim (Result-cases w.connect) [
    | inl (u, e) ↦
        rw (e, connect)
          (record { armed = λ k. absurd (ground (arith, k)); alternates = h.alternates })
    | inr (m, e) ↦ rw (e, connect) (record { armed = h.armed; alternates = h.alternates })
  ]

  connect-Alternates :
      (w : World F) (now : ℕ) (x : TagExecutor F)
      → Alternates x.trace
      → Alternates (connect w now x).0.trace
  unfolding connect
  connect-Alternates w now x h = elim (Result-cases w.connect) [
    | inl (u, e) ↦ rw (e, connect) h
    | inr (m, e) ↦ rw (e, connect) h
  ]

  disconnect-IsArmed :
      (now : ℕ) (x : TagExecutor F) → Alternates x.trace → IsArmed (disconnect now x)
  unfolding disconnect mark_offline
  disconnect-IsArmed now x h = record { armed = λ k. absurd (ground (arith, k)); alternates = h }

  handle_read_error-IsArmed :
      (w : World F) (m : String) (x : TagExecutor F)
      → Alternates x.trace
      → IsArmed (handle_read_error w m x)
  unfolding handle_read_error reconnect
  handle_read_error-IsArmed w m x h =
      let d =
        disconnect-IsArmed w.now
          (record x {
            trace =
                publish (DomainEvent.executor_error x.tag.id m w.now)
                  (w.published (DomainEvent.executor_error x.tag.id m w.now))
                ∷ x.trace;
            tag = mark_error x.tag m w.now;
          })
          h in
      connect-IsArmed w w.later _ (record { armed = d.armed; alternates = d.alternates })

  handle_timeout-IsArmed :
      (w : World F) (x : TagExecutor F)
      → timeout_due w x ≡ true
      → IsArmed x
      → IsArmed (handle_timeout w x)
  unfolding handle_timeout mark_offline timeout_due
  handle_timeout-IsArmed w x due h = record {
    armed = λ k. absurd (ground (arith, k));
    alternates = (h.armed (ground (arith, due)), h.alternates);
  }

  publish_value-IsArmed :
      (w : World F) (v : Value F) (x : TagExecutor F)
      → Alternates x.trace
      → IsArmed (settled (publish_value w v x))
  unfolding publish_value
  publish_value-IsArmed w v x h = record { armed = λ k. refl; alternates = h }

module _ {F : Type 0} ⦃f : Float F⦄ ⦃s : Serde F⦄ where
  IsArmed-IsKept : IsKept {F = F} IsArmed
  IsArmed-IsKept = record {
    on_changes = λ w x h.
        on_change_turn_cases w x IsArmed (λ t. handle_timeout-IsArmed w x t h)
          (record { armed = h.armed; alternates = h.alternates })
          (λ v. publish_value-IsArmed w v _ h.alternates)
          (λ m. handle_read_error-IsArmed w m _ h.alternates);
    polls = λ w x h.
        polling_turn_cases w x IsArmed (λ t. handle_timeout-IsArmed w x t h)
          (record { armed = h.armed; alternates = h.alternates })
          (λ v. publish_value-IsArmed w v _ h.alternates)
          (λ m. handle_read_error-IsArmed w m _ h.alternates);
    polls_on_change = λ t w x last h.
        polling_on_change_turn_cases w x t last (λ r. IsArmed r.0)
          (λ t. handle_timeout-IsArmed w x t h)
          (record { armed = h.armed; alternates = h.alternates })
          (record { armed = h.armed; alternates = h.alternates })
          (λ v far. publish_value-IsArmed w v _ h.alternates)
          (λ m. handle_read_error-IsArmed w m _ h.alternates);
  }

  start-IsArmed : (w : World F) (x : TagExecutor F) → Alternates x.trace → IsArmed (start w x)
  unfolding start connect disconnect mark_offline reset_timeout
  start-IsArmed w x h = elim (Result-cases w.connect) [
    | inl (u, e) ↦
        rw (e, connect, start)
          (record {
            armed = λ k. absurd (ground (arith, e, k));
            alternates = connect-Alternates w w.now x h;
          })
    | inr (m, e) ↦
        rw (e, connect, start)
          (record {
            armed = λ k. absurd (ground (arith, k));
            alternates = connect-Alternates w w.now x h;
          })
  ]

  -- Whatever the driver, the publisher and the clock do, in each of the three modes, an execution reports no timeout before the first value, and no second timeout without a value in between; a value that could not be published counts.
  pub execute-Alternates :
      (w : World F) (now : ℕ) (x : TagExecutor F) (signals : List (Signal F))
      → x.trace ≡ []
      → Alternates (execute w now x signals).0.trace
  execute-Alternates w now x signals fresh =
      (execute_inv IsArmed IsArmed-IsKept (λ t y h. disconnect-IsArmed t y h.alternates) w now x
        signals (start-IsArmed w x (rw fresh tt))).alternates
