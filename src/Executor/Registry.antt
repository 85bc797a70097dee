-- ===== src/Executor/Registry.antt =====
-- Which tags count as connected: the shared registry of crates/application/src/tag/tag_executor.rs.
use ifascada.Prelude.{
  ℕ, ◌≡◌, refl, inl, inr, ◌∙◌, String, false, Option, List, arith, same, Result-cases,
}
use ifascada.Prelude.Map.{contains, contains-add, contains-discard}
use ifascada.Float.{Float}
use ifascada.Json.{Value, Serde}
use ifascada.Domain.Tag.{mark_offline, mark_error, reset_timeout, update_value}
use ifascada.Executor.{
  TagExecutor, World, connect, disconnect, handle_timeout, reconnect, handle_read_error,
  publish_value, driver_read, did,
}
use ifascada.Executor.Rules.{IsKept, execute_inv}
use ifascada.Executor.Cases.{settled, polling_turn_cases, polling_on_change_turn_cases}
use ifascada.Executor.Loop.{
  Signal, on_change_turn, polling_turn, polling_on_change_turn, start, execute,
}

-- Nothing about any other tag changes, nor does the identity of the executor's own.
pub record Keeps {F : Type 0} (x y : TagExecutor F) : Type 0 where
  pub same_id : y.tag.id ≡ x.tag.id
  pub others :
      (j : String)
      → same x.tag.id.as_str j ≡ false
      → contains j y.connected_registry ≡ contains j x.connected_registry

module _ {F : Type 0} where
  Keeps-trans : {x y z : TagExecutor F} → Keeps x y → Keeps y z → Keeps x z
  Keeps-trans {x} {y} {z} p q = record {
    same_id = q.same_id ∙ p.same_id;
    others = λ j h. q.others j (rw p.same_id h) ∙ p.others j h;
  }

  connect-Keeps : (w : World F) (now : ℕ) (x : TagExecutor F) → Keeps x (connect w now x).0
  unfolding connect mark_offline reset_timeout
  connect-Keeps w now x = record {
    same_id = ground arith;
    others = λ j h. ground (arith, contains-add x.tag.id.as_str j x.connected_registry);
  }

  disconnect-Keeps : (now : ℕ) (x : TagExecutor F) → Keeps x (disconnect now x)
  unfolding disconnect mark_offline
  disconnect-Keeps now x = record {
    same_id = refl;
    others = λ j h. ground (arith, contains-discard x.tag.id.as_str j x.connected_registry);
  }

  handle_timeout-Keeps : (w : World F) (x : TagExecutor F) → Keeps x (handle_timeout w x)
  unfolding handle_timeout mark_offline
  handle_timeout-Keeps w x = record {
    same_id = refl;
    others = λ j h. ground (arith, contains-discard x.tag.id.as_str j x.connected_registry);
  }

  reconnect-Keeps : (w : World F) (x : TagExecutor F) → Keeps x (reconnect w x)
  unfolding reconnect
  reconnect-Keeps w x =
      Keeps-trans (record { same_id = refl; others = λ j h. refl }) (connect-Keeps w w.later _)

  handle_read_error-Keeps :
      (w : World F) (m : String) (x : TagExecutor F) → Keeps x (handle_read_error w m x)
  unfolding handle_read_error mark_error
  handle_read_error-Keeps w m x =
      Keeps-trans
        (Keeps-trans (record { same_id = refl; others = λ j h. refl }) (disconnect-Keeps w.now _))
        (reconnect-Keeps w _)

  publish_value-Keeps :
      (w : World F) (v : Value F) (x : TagExecutor F) → Keeps x (publish_value w v x)
  unfolding publish_value update_value
  publish_value-Keeps w v x = record {
    same_id = refl;
    others = λ j h. ground (arith, contains-add x.tag.id.as_str j x.connected_registry);
  }

module _ {F : Type 0} ⦃f : Float F⦄ ⦃s : Serde F⦄ where
  unchanged : (x : TagExecutor F) → Keeps x (settled (did driver_read x))
  unchanged x = record { same_id = refl; others = λ j h. refl }

  polling_turn-Keeps : (w : World F) (x : TagExecutor F) → Keeps x (polling_turn w x).0
  polling_turn-Keeps w x =
      polling_turn_cases w x (Keeps x) (λ t. handle_timeout-Keeps w x) (unchanged x)
        (λ v.
          let p = publish_value-Keeps w v (did driver_read x) in
          record { same_id = p.same_id; others = p.others })
        (λ m.
          let p = handle_read_error-Keeps w m (did driver_read x) in
          record { same_id = p.same_id; others = p.others })

  on_change_turn-Keeps : (w : World F) (x : TagExecutor F) → Keeps x (on_change_turn w x).0
  unfolding on_change_turn polling_turn
  on_change_turn-Keeps w x = polling_turn-Keeps w x

  polling_on_change_turn-Keeps :
      (threshold : F) (w : World F) (x : TagExecutor F) (last : Option F)
      → Keeps x (polling_on_change_turn threshold w (x, last)).0.0
  polling_on_change_turn-Keeps threshold w x last =
      polling_on_change_turn_cases w x threshold last (λ r. Keeps x r.0)
        (λ t. handle_timeout-Keeps w x) (record { same_id = refl; others = λ j h. refl })
        (unchanged x)
        (λ v far.
          let p = publish_value-Keeps w v (did driver_read x) in
          record { same_id = p.same_id; others = p.others })
        (λ m.
          let p = handle_read_error-Keeps w m (did driver_read x) in
          record { same_id = p.same_id; others = p.others })

  start-Keeps : (w : World F) (x : TagExecutor F) → Keeps x (start w x)
  unfolding start mark_error
  start-Keeps w x = elim (Result-cases (connect w w.now x).1) [
    | inl (u, e) ↦ rw (e, start) (connect-Keeps w w.now x)
    | inr (m, e) ↦
        rw (e, start)
          (Keeps-trans (connect-Keeps w w.now x) (
            Keeps-trans (record { same_id = refl; others = λ j h. refl })
              (disconnect-Keeps w.now _)))
  ]

  Keeps-IsKept : (x : TagExecutor F) → IsKept (Keeps x)
  Keeps-IsKept x = record {
    on_changes = λ w y h. Keeps-trans h (on_change_turn-Keeps w y);
    polls = λ w y h. Keeps-trans h (polling_turn-Keeps w y);
    polls_on_change = λ t w y last h. Keeps-trans h (polling_on_change_turn-Keeps t w y last);
  }

  -- Whatever the driver, the publisher and the clock do, an execution leaves the connected state of every other tag alone, and the identity of its own.
  pub execute-Keeps :
      (w : World F) (now : ℕ) (x : TagExecutor F) (signals : List (Signal F))
      → Keeps x (execute w now x signals).0
  execute-Keeps w now x signals =
      execute_inv (Keeps x) (Keeps-IsKept x) (λ t y h. Keeps-trans h (disconnect-Keeps t y)) w now x
        signals (start-Keeps w x)
