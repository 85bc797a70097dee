-- ===== src/Devices/Actor/Interval.antt =====
-- The poll interval of crates/application/src/device/device_actor.rs.
use ifascada.Prelude.{
  ℕ, ◌≤◌, ◌≡◌, refl, sym, ap, ◌∙◌, inl, inr, Option, none, some, List, [], ◌∷◌, min, In, arith,
}
use ifascada.Domain.Tag.{Tag}
use ifascada.Devices.Actor.{interval_of, least, least_interval, poll_interval}

least-left : (i : ℕ) (o : Option ℕ) → (n : ℕ) × (least (some i) o ≡ some n) × (n ≤ i)
unfolding least
least-left i none = (i, refl, omega arith)
least-left i (some j) = (min i j, refl, omega arith)

least-right : (i : ℕ) (o : Option ℕ) → (n : ℕ) × (least o (some i) ≡ some n) × (n ≤ i)
unfolding least
least-right i none = (i, refl, omega arith)
least-right i (some j) = (min j i, refl, omega arith)

module _ {F : Type 0} where
  least_interval-le :
      (t : Tag F) (i : ℕ) (tags : List (Tag F))
      → In t tags
      → interval_of t.update_mode ≡ some i
      → (n : ℕ) × (least_interval tags ≡ some n) × (n ≤ i)
  unfolding least_interval
  least_interval-le t i [] h e = absurd h
  least_interval-le t i (u ∷ tags) (inl g) e =
      let (n, l, le) = least-left i (least_interval tags) in
      (
        n,
        ap (λ o. least o (least_interval tags)) (ap (λ v. interval_of v.update_mode) (sym g) ∙ e)
            ∙ l,
        le,
      )
  least_interval-le t i (u ∷ tags) (inr h) e =
      let (m, l, le) = least_interval-le t i tags h e in
      let (n, k, less) = least-right m (interval_of u.update_mode) in
      (n, ap (least (interval_of u.update_mode)) l ∙ k, omega (arith, le, less))

  -- The actor polls at least as often as every polled tag of the device asks for.
  pub poll_interval-le :
      (t : Tag F) (i : ℕ) (tags : List (Tag F))
      → In t tags
      → interval_of t.update_mode ≡ some i
      → poll_interval tags ≤ i
  unfolding poll_interval
  poll_interval-le t i tags h e = let (n, l, le) = least_interval-le t i tags h e in rw l le
