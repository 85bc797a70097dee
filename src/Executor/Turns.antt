-- ===== src/Executor/Turns.antt =====
-- Status and events over the turns of crates/application/src/tag/tag_executor.rs.
use ifascada.Prelude.{
  ℕ, ◌≡◌, refl, ◌⊎◌, ◌%◌, ◌^◌, ◌+◌, inl, inr, String, true, false, some, List, ◌∷◌, ok, err, arith,
  Result-cases,
}
use ifascada.Prelude.Map.{contains}
use ifascada.Float.{Float}
use ifascada.Json.{Value, Serde}
use ifascada.Domain.Event.{tag_executor_error, tag_connected}
use ifascada.Domain.Status.{online, offline}
use ifascada.Domain.Quality.{good, timeout}
use ifascada.Domain.Tag.{mark_offline, reset_timeout, update_value}
use ifascada.Executor.{
  TagExecutor, World, driver_connect, driver_disconnect, driver_read, publish, sleep, connect,
  disconnect, handle_timeout, reconnect, handle_read_error, publish_value, backoff_secs,
}
use ifascada.Executor.Loop.{Signal, start, execute}
use ifascada.Executor.Cases.{
  settled, polling_turn_cases, on_change_turn_cases, polling_on_change_turn_cases,
}
use ifascada.Executor.Rules.{IsKept, execute_inv}

-- Online with a good value, or offline.
abbrev pub IsSettled : {F : Type 0} → TagExecutor F → Type 0
IsSettled x =
    ((x.tag.status ≡ online) × (x.tag.quality ≡ good))
    ⊎ ((x.tag.status ≡ offline) × (x.tag.quality ≡ timeout))

module _ {F : Type 0} where
  connect-IsSettled :
      (w : World F) (now : ℕ) (x : TagExecutor F) → IsSettled x → IsSettled (connect w now x).0
  unfolding connect mark_offline reset_timeout
  connect-IsSettled w now x h = ground arith

  connect-ok-IsSettled :
      (w : World F) (now : ℕ) (x : TagExecutor F) {u : Unit {0}}
      → (connect w now x).1 ≡ ok u
      → IsSettled (connect w now x).0
  unfolding connect mark_offline reset_timeout
  connect-ok-IsSettled w now x h = ground arith

  disconnect-IsSettled : (now : ℕ) (x : TagExecutor F) → IsSettled (disconnect now x)
  unfolding disconnect mark_offline
  disconnect-IsSettled now x = inr (refl, refl)

  handle_read_error-IsSettled :
      (w : World F) (m : String) (x : TagExecutor F) → IsSettled (handle_read_error w m x)
  unfolding handle_read_error reconnect
  handle_read_error-IsSettled w m x = connect-IsSettled w w.later _ (disconnect-IsSettled w.now _)

  handle_timeout-IsSettled : (w : World F) (x : TagExecutor F) → IsSettled (handle_timeout w x)
  unfolding handle_timeout mark_offline
  handle_timeout-IsSettled w x = inr (refl, refl)

  publish_value-IsSettled :
      (w : World F) (v : Value F) (x : TagExecutor F) → IsSettled (settled (publish_value w v x))
  unfolding publish_value update_value
  publish_value-IsSettled w v x = inl (refl, refl)

module _ {F : Type 0} ⦃f : Float F⦄ ⦃s : Serde F⦄ where
  IsSettled-IsKept : IsKept {F = F} IsSettled
  IsSettled-IsKept = record {
    on_changes = λ w x h.
        on_change_turn_cases w x IsSettled (λ t. handle_timeout-IsSettled w x) h
          (λ v. publish_value-IsSettled w v _) (λ m. handle_read_error-IsSettled w m _);
    polls = λ w x h.
        polling_turn_cases w x IsSettled (λ t. handle_timeout-IsSettled w x) h
          (λ v. publish_value-IsSettled w v _) (λ m. handle_read_error-IsSettled w m _);
    polls_on_change = λ t w x last h.
        polling_on_change_turn_cases w x t last (λ r. IsSettled r.0)
          (λ d. handle_timeout-IsSettled w x) h h (λ v far. publish_value-IsSettled w v _)
          (λ m. handle_read_error-IsSettled w m _);
  }

  start-IsSettled : (w : World F) (x : TagExecutor F) → IsSettled (start w x)
  unfolding start
  start-IsSettled w x = elim (Result-cases (connect w w.now x).1) [
    | inl (u, e) ↦ rw (e, start) (connect-ok-IsSettled w w.now x e)
    | inr (m, e) ↦ rw (e, start) (disconnect-IsSettled w.now _)
  ]

  -- Between two turns the tag is online with a good value or offline with quality timeout: the status `Error`, which a read error sets, never lasts, since the disconnection after it sets the tag offline.
  pub execute-IsSettled :
      (w : World F) (now : ℕ) (x : TagExecutor F) (signals : List (Signal F))
      → IsSettled (execute w now x signals).0
  execute-IsSettled w now x signals =
      execute_inv IsSettled IsSettled-IsKept (λ t y h. disconnect-IsSettled t y) w now x signals
        (start-IsSettled w x)

module _ {F : Type 0} where
  -- The executor `y` after the read error `m` of `x`, with what it did for it, newest first.
  pub record IsReported (w : World F) (m : String) (x y : TagExecutor F) : Type 0 where
    pub status : y.tag.status ≡ offline
    pub message : y.tag.error_message ≡ some m
    pub reconnected :
        let id = x.tag.id in
        let n = (x.reconnect_attempts + 1) % 2 ^ 32 in
        let error = tag_executor_error id m w.now in
        let before =
          driver_connect
          ∷ sleep (backoff_secs n)
          ∷ driver_disconnect
          ∷ publish error (w.published error)
          ∷ driver_read
          ∷ x.trace in
        ((e : String) × (w.connect ≡ err e)
          × (y.trace ≡ before)
          × (y.reconnect_attempts ≡ n)
          × (contains id.as_str y.connected_registry ≡ false))
        ⊎ ((w.connect ≡ ok tt)
            × (y.trace
                ≡ publish (tag_connected id w.later) (w.published (tag_connected id w.later))
                  ∷ before)
            × (y.reconnect_attempts ≡ 0)
            × (y.tag.last_update ≡ some w.later)
            × (contains id.as_str y.connected_registry ≡ true))
