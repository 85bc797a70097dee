-- ===== src/Executor/Backoff.antt =====
-- The wait before a reconnection, and what a failed read does: `reconnect` and `handle_read_error`
-- of crates/application/src/tag/tag_executor.rs.
use ifascada.Prelude.{ℕ, zero, suc, ◌≡◌, ◌≤◌, arith, min}
use ifascada.Executor.{backoff_secs}

-- The wait is at least 10 seconds and at most 128, never falls from one attempt to the next, is 10 up to the fourth attempt and 128 from the eighth: the cap of 300 seconds is never reached.
pub backoff_secs_lem :
    (n : ℕ)
    → (10 ≤ backoff_secs n)
      × (backoff_secs n ≤ 128)
      × (backoff_secs n ≤ backoff_secs (suc n))
      × (n ≤ 4 → backoff_secs n ≡ 10)
      × (8 ≤ n → backoff_secs n ≡ 128)
unfolding backoff_secs
backoff_secs_lem zero = (omega arith, omega arith, omega arith, λ h. omega arith, λ h. omega arith)
backoff_secs_lem (suc zero) =
    (omega arith, omega arith, omega arith, λ h. omega arith, λ h. omega arith)
backoff_secs_lem (suc (suc zero)) =
    (omega arith, omega arith, omega arith, λ h. omega arith, λ h. omega arith)
backoff_secs_lem (suc (suc (suc zero))) =
    (omega arith, omega arith, omega arith, λ h. omega arith, λ h. omega arith)
backoff_secs_lem (suc (suc (suc (suc zero)))) =
    (omega arith, omega arith, omega arith, λ h. omega arith, λ h. omega arith)
backoff_secs_lem (suc (suc (suc (suc (suc zero))))) =
    (omega arith, omega arith, omega arith, λ h. omega arith, λ h. omega arith)
backoff_secs_lem (suc (suc (suc (suc (suc (suc zero)))))) =
    (omega arith, omega arith, omega arith, λ h. omega arith, λ h. omega arith)
backoff_secs_lem (suc (suc (suc (suc (suc (suc (suc zero))))))) =
    (omega arith, omega arith, omega arith, λ h. omega arith, λ h. omega arith)
backoff_secs_lem (suc (suc (suc (suc (suc (suc (suc (suc n)))))))) =
    let e : min (suc (suc (suc (suc (suc (suc (suc (suc n)))))))) 8 ≡ 8 = omega arith in
    let e' : min (suc (suc (suc (suc (suc (suc (suc (suc (suc n))))))))) 8 ≡ 8 = omega arith in
    rw (e, e') (omega arith, omega arith, omega arith, λ h. omega arith, λ h. omega arith)
