-- ===== src/Examples/Domain.antt =====
-- Theorems about crates/domain at concrete inputs.
use ifascada.Prelude.{◌≡◌, List, none, arith, All, ◌&&◌, [], ◌∷◌}
use ifascada.Prelude.Int.{ℤ}
use ifascada.Json.{null}
use ifascada.Domain.UpdateMode.{polling, simple}
use ifascada.Domain.Quality.{good, bad}
use ifascada.Domain.Status.{error, is_healthy as status_is_healthy}
use ifascada.Domain.Tag.{Tag, is_timed_out, is_healthy, reset_timeout, update_value}
use ifascada.Domain.Tag
use ifascada.Domain.Tag.Health.{
  Op, updates, fails, disables, restores, Restores, live, IsCoherent, live-IsCoherent,
  is_healthy-live,
}
use ifascada.Examples.Sample.{weight, num, ranged}

abbrev ops : List (Op ℤ)
ops = fails "gone" 1 ∷ updates (num 3) good 2 ∷ restores none none error bad none ∷ disables 3 ∷ []

ops-Restores : All Restores ops
ops-Restores = (tt, (tt, (ground arith, (tt, tt))))

live-IsCoherent_example :
    IsCoherent (live (Tag.new weight "scale" null (polling 1000) simple ranged 0) ops)
live-IsCoherent_example =
    live-IsCoherent weight "scale" null (polling 1000) simple ranged 0 ops ops-Restores

is_healthy-live_example :
    let t = live (Tag.new weight "scale" null (polling 1000) simple ranged 0) ops in
    is_healthy t ≡ (t.enabled && status_is_healthy t.status)
is_healthy-live_example =
    is_healthy-live weight "scale" null (polling 1000) simple ranged 0 ops ops-Restores
