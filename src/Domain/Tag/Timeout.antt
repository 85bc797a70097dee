-- ===== src/Domain/Tag/Timeout.antt =====
-- When a tag counts as silent: `is_timed_out` of crates/domain/src/tag/aggregate.rs.
use ifascada.Prelude.{ℕ, ◌≡◌, ◌↔◌, ◌+◌, ◌*◌, ◌<◌, ◌≤◌, ◌^◌, true, false, none, some, arith}
use ifascada.Domain.UpdateMode.{polling, is_polling, is_continuous}
use ifascada.Domain.Tag.{Tag, is_timed_out}

module _ {F : Type 0} (t : Tag F) (now : ℕ) where
  -- A tag in an on-change mode never counts as silent, whatever its configured timeout.
  pub is_timed_out_continuous : is_continuous t.update_mode ≡ true → is_timed_out t now ≡ false
  unfolding is_continuous is_timed_out
  is_timed_out_continuous h = ground arith

  -- A polled tag that never had a value counts as silent.
  pub is_timed_out_fresh :
      is_polling t.update_mode ≡ true → t.last_update ≡ none → is_timed_out t now ≡ true
  unfolding is_polling is_timed_out
  is_timed_out_fresh h e = ground arith

-- A polled tag counts as silent exactly when more than three poll intervals have passed since its last update, if the clock did not go back and the interval is below 2^62 ms.
pub is_timed_out_iff :
    {F : Type 0} (t : Tag F) (interval last now : ℕ)
    → t.update_mode ≡ polling interval
    → t.last_update ≡ some last
    → interval < 2 ^ 62
    → last ≤ now
    → now < 2 ^ 63
    → (is_timed_out t now ≡ true) ↔ (last + 3 * interval < now)
unfolding is_timed_out
is_timed_out_iff t interval last now m u small order bound = (λ h. ground arith, λ h. ground arith)

-- After the clock went back, a polled tag counts as silent at once: the negative difference wraps to a huge one.
pub is_timed_out_backwards :
    {F : Type 0} (t : Tag F) (interval last now : ℕ)
    → t.update_mode ≡ polling interval
    → t.last_update ≡ some last
    → interval < 2 ^ 61
    → now < last
    → last < 2 ^ 63
    → is_timed_out t now ≡ true
unfolding is_timed_out
is_timed_out_backwards t interval last now m u small back bound = ground arith
