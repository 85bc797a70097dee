-- ===== src/Executor/Rules.antt =====
-- Rules for the loops of crates/application/src/tag/tag_executor.rs: what every turn keeps holds of
-- the whole execution.
use ifascada.Prelude.{
  ◌≡◌, refl, ◌∙◌, String, Bool, true, false, Option, none, List, [], ◌∷◌, arith, ℕ, Option-cases,
  ◌==◌, if◌then◌else◌, if-elim, inl, inr,
}
use ifascada.Float.{Float}
use ifascada.Json.{Serde}
use ifascada.Domain.UpdateMode.{TagUpdateMode, on_change, polling, polling_on_change}
use ifascada.Executor.{TagExecutor, World, disconnect}
use ifascada.Executor.Loop.{
  Signal, cancelled, tick, Outcome, running, returned, panicked, failed, period, run_loop, run,
  on_change_turn, polling_turn, polling_on_change_turn, run_mode, start, close, execute,
}
use ifascada.Executor.Cases.{on_change_turn-none, polling_turn-none, polling_on_change_turn-none}

-- Whether the loop is told to stop.
abbrev pub is_cancelled : {F : Type 0} → List (Signal F) → Bool
is_cancelled [] = false
is_cancelled (cancelled ∷ rest) = true
is_cancelled (tick w ∷ rest) = is_cancelled rest

abbrev pub stops : Bool → Outcome
stops true = returned
stops false = running

module _ {F S : Type 0} (turn : World F → S → S × Option String) where
  pub run_inv {ℓ} :
      (P : S → Type ℓ)
      → ((w : World F) (s : S) → P s → P (turn w s).0)
      → (s : S) (signals : List (Signal F)) → P s
      → P (run turn s signals).0
  unfolding run
  run_inv P keep s [] h = h
  run_inv P keep s (cancelled ∷ rest) h = h
  run_inv P keep s (tick w ∷ rest) h = elim (Option-cases (turn w s).1) [
    | inl e ↦ rw (e, run) (run_inv P keep (turn w s).0 rest (keep w s h))
    | inr (m, e) ↦ rw (e, run) (keep w s h)
  ]

  pub run-outcome :
      ((w : World F) (s : S) → (turn w s).1 ≡ none)
      → (s : S) (signals : List (Signal F)) → (run turn s signals).1 ≡ stops (is_cancelled signals)
  unfolding run
  run-outcome silent s [] = refl
  run-outcome silent s (cancelled ∷ rest) = refl
  run-outcome silent s (tick w ∷ rest) = rw (silent w s, run) (run-outcome silent (turn w s).0 rest)

module _ {F : Type 0} ⦃f : Float F⦄ ⦃s : Serde F⦄ where
  -- A predicate that every turn keeps, in each of the three modes.
  pub record IsKept {ℓ} (P : TagExecutor F → Type ℓ) : Type ℓ where
    pub on_changes : (w : World F) (x : TagExecutor F) → P x → P (on_change_turn w x).0
    pub polls : (w : World F) (x : TagExecutor F) → P x → P (polling_turn w x).0
    pub polls_on_change :
        (threshold : F) (w : World F) (x : TagExecutor F) (last : Option F)
        → P x
        → P (polling_on_change_turn threshold w (x, last)).0.0

  run_loop_inv {ℓ} :
      (P : TagExecutor F → Type ℓ)
      → IsKept P
      → (mode : TagUpdateMode F) (x : TagExecutor F) (signals : List (Signal F)) → P x
      → P (run_loop mode x signals).0
  unfolding run_loop
  run_loop_inv P k (on_change d t) x signals h = run_inv on_change_turn P k.on_changes x signals h
  run_loop_inv P k (polling i) x signals h = run_inv polling_turn P k.polls x signals h
  run_loop_inv P k (polling_on_change i threshold) x signals h =
      run_inv (polling_on_change_turn threshold) (λ r. P r.0)
        (λ w r p. k.polls_on_change threshold w r.0 r.1 p) (x, none) signals h

  run_mode_inv {ℓ} :
      (P : TagExecutor F → Type ℓ)
      → IsKept P
      → (mode : TagUpdateMode F) (x : TagExecutor F) (signals : List (Signal F)) → P x
      → P (run_mode mode x signals).0
  unfolding run_mode
  run_mode_inv P k mode x signals h =
      if-elim (λ r. P r.0) (period mode == 0) (x, panicked) (run_loop mode x signals) h
        (run_loop_inv P k mode x signals h)

  run_loop-outcome :
      (mode : TagUpdateMode F) (x : TagExecutor F) (signals : List (Signal F))
      → (run_loop mode x signals).1 ≡ stops (is_cancelled signals)
  unfolding run_loop
  run_loop-outcome (on_change d t) x signals =
      run-outcome on_change_turn on_change_turn-none x signals
  run_loop-outcome (polling i) x signals = run-outcome polling_turn polling_turn-none x signals
  run_loop-outcome (polling_on_change i threshold) x signals =
      run-outcome (polling_on_change_turn threshold)
        (λ w r. polling_on_change_turn-none threshold w r.0 r.1) (x, none) signals

  -- How an execution stands: it panics if its timer has no period.
  abbrev pub ends : TagUpdateMode F → List (Signal F) → Outcome
  ends mode signals = if period mode == 0 then panicked else stops (is_cancelled signals)

  run_mode-outcome :
      (mode : TagUpdateMode F) (x : TagExecutor F) (signals : List (Signal F))
      → (run_mode mode x signals).1 ≡ ends mode signals
  unfolding run_mode
  run_mode-outcome mode x signals = ground (arith, run_loop-outcome mode x signals)

  close_inv {ℓ} :
      (P : TagExecutor F → Type ℓ)
      → ((now : ℕ) (x : TagExecutor F) → P x → P (disconnect now x))
      → (now : ℕ) (r : TagExecutor F × Outcome) → P r.0
      → P (close now r).0
  unfolding close
  close_inv P d now (x, running) h = h
  close_inv P d now (x, returned) h = d now x h
  close_inv P d now (x, panicked) h = h
  close_inv P d now (x, failed e) h = d now x h

  -- What holds after the first connection, and is kept by the turns and by `disconnect`.
  pub execute_inv {ℓ} :
      (P : TagExecutor F → Type ℓ)
      → IsKept P
      → ((now : ℕ) (x : TagExecutor F) → P x → P (disconnect now x))
      → (w : World F) (now : ℕ) (x : TagExecutor F) (signals : List (Signal F)) → P (start w x)
      → P (execute w now x signals).0
  unfolding execute
  execute_inv P k d w now x signals h =
      close_inv P d now (run_mode x.tag.update_mode (start w x) signals)
        (run_mode_inv P k x.tag.update_mode (start w x) signals h)

  close-stops : (now : ℕ) (r : TagExecutor F × Outcome) → (close now r).1 ≡ r.1
  unfolding close
  close-stops now (x, running) = refl
  close-stops now (x, returned) = refl
  close-stops now (x, panicked) = refl
  close-stops now (x, failed e) = refl

  -- Neither a read error nor a failed connection ends the execution: it ends by `Ok` if it is cancelled, and otherwise goes on, but for the panic of a timer whose period is 0.
  pub execute-outcome :
      (w : World F) (now : ℕ) (x : TagExecutor F) (signals : List (Signal F))
      → (execute w now x signals).1 ≡ ends x.tag.update_mode signals
  unfolding execute
  execute-outcome w now x signals =
      close-stops now (run_mode x.tag.update_mode (start w x) signals)
      ∙ run_mode-outcome x.tag.update_mode (start w x) signals

  -- An execution that has ended ended in `disconnect`.
  pub execute-disconnect :
      (w : World F) (now : ℕ) (x : TagExecutor F) (signals : List (Signal F))
      → (period x.tag.update_mode == 0) ≡ false
      → is_cancelled signals ≡ true
      → (y : TagExecutor F) × ((execute w now x signals).0 ≡ disconnect now y)
  unfolding execute close
  execute-disconnect w now x signals timed h =
      let r = run_mode x.tag.update_mode (start w x) signals in
      (r.0, ground (arith, timed, run_mode-outcome x.tag.update_mode (start w x) signals))
