-- ===== src/Executor/Shutdown.antt =====
-- How an execution of crates/application/src/tag/tag_executor.rs ends.
use ifascada.Prelude.{
  ℕ, ◌<◌, ◌==◌, ◌≡◌, ◌∙◌, true, false, List, [], ◌∷◌, arith, same_refl, Option, some, none, subst,
}
use ifascada.Prelude.Map.{contains, contains-discard}
use ifascada.Float.{Float}
use ifascada.Json.{Serde}
use ifascada.Domain.Status.{offline}
use ifascada.Domain.Tag.{mark_offline}
use ifascada.Executor.{TagExecutor, World, driver_disconnect, disconnect}
use ifascada.Executor.Loop.{Signal, returned, period, execute}
use ifascada.Executor.Rules.{is_cancelled, execute-outcome, execute-disconnect}
use ifascada.Executor.Registry.{execute-Keeps}

abbrev pub head : {A : Type 0} → List A → Option A
head [] = none
head (a ∷ rest) = some a

module _ {F : Type 0} ⦃f : Float F⦄ ⦃s : Serde F⦄ (w : World F) (now : ℕ) (x : TagExecutor F)
    (signals : List (Signal F)) where
  ended :
      (y z : TagExecutor F)
      → z ≡ disconnect now y
      → (z.tag.status ≡ offline)
        × (head z.trace ≡ some driver_disconnect)
        × (contains z.tag.id.as_str z.connected_registry ≡ false)
  unfolding disconnect mark_offline
  ended y z e = ground (
    arith,
    e,
    contains-discard y.tag.id.as_str y.tag.id.as_str y.connected_registry,
    same_refl y.tag.id.as_str,
  )

  -- A cancelled execution whose timer has a period, so that it does not panic, returns `Ok` whatever the driver did, its last act is to disconnect the driver, and it leaves the tag offline and not registered as connected.
  pub execute_cancelled :
      0 < period x.tag.update_mode
      → is_cancelled signals ≡ true
      → let (y, outcome) = execute w now x signals in
        (outcome ≡ returned)
        × (y.tag.status ≡ offline)
        × (head y.trace ≡ some driver_disconnect)
        × (contains x.tag.id.as_str y.connected_registry ≡ false)
  execute_cancelled timed h =
      let positive : (period x.tag.update_mode == 0) ≡ false = ground (arith, timed) in
      let (y, e) = execute-disconnect w now x signals positive h in
      let (status, last, gone) = ended y (execute w now x signals).0 e in
      (
        execute-outcome w now x signals ∙ ground (arith, positive, h),
        status,
        last,
        subst (λ id. contains id.as_str (execute w now x signals).0.connected_registry ≡ false)
            (execute-Keeps w now x signals).same_id gone,
      )
