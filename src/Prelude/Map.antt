-- ===== src/Prelude/Map.antt =====
-- Maps keyed by text, as association lists. A key of `HashMap` occurs once: `insert` replaces, and
-- `remove` takes every entry of the key away.
use mathlib.Core.Path.{◌≡◌, refl}
use mathlib.Core.Bool.{Bool, false, ◌||◌}
use mathlib.Core.List.{List, [], ◌∷◌}
use mathlib.Core.Option.{Option, none, some}
use native.Mathlib.Omega.{arith}
use Prim.Native.String.{String}
use ifascada.Prelude.Tests.{same, same_iff, if◌then◌else◌}

module _ {ℓ} {V : Type ℓ} where
  unfoldable pub lookup : String → List (String × V) → Option V
  lookup k [] = none
  lookup k ((j, v) ∷ m) = if same j k then some v else lookup k m

  unfoldable pub insert : String → V → List (String × V) → List (String × V)
  insert k v [] = (k, v) ∷ []
  insert k v ((j, w) ∷ m) = if same j k then (k, v) ∷ m else (j, w) ∷ insert k v m

  unfoldable pub remove : String → List (String × V) → List (String × V)
  remove k [] = []
  remove k ((j, w) ∷ m) = let rest = remove k m in if same j k then rest else (j, w) ∷ rest

  pub lookup-insert :
      (k j : String) (v : V) (m : List (String × V))
      → lookup j (insert k v m) ≡ (if same k j then some v else lookup j m)
  unfolding lookup insert
  lookup-insert k j v [] = refl
  lookup-insert k j v ((i, w) ∷ m) =
      ground (arith, same_iff k j, same_iff i k, same_iff i j, lookup-insert k j v m)

  pub lookup-remove :
      (k j : String) (m : List (String × V))
      → lookup j (remove k m) ≡ (if same k j then none else lookup j m)
  unfolding lookup remove
  lookup-remove k j [] = ground arith
  lookup-remove k j ((i, w) ∷ m) =
      ground (arith, same_iff k j, same_iff i k, same_iff i j, lookup-remove k j m)

-- Sets of texts.
unfoldable pub contains : String → List String → Bool
contains k [] = false
contains k (j ∷ s) = same j k || contains k s

-- Adding what is there changes nothing.
unfoldable pub add : String → List String → List String
add k s = if contains k s then s else k ∷ s

unfoldable pub discard : String → List String → List String
discard k [] = []
discard k (j ∷ s) = let rest = discard k s in if same j k then rest else j ∷ rest

pub contains-add :
    (k j : String) (s : List String) → contains j (add k s) ≡ (same k j || contains j s)
unfolding contains add
contains-add k j s = ground (arith, same_iff k j)

pub contains-discard :
    (k j : String) (s : List String)
    → contains j (discard k s) ≡ (if same k j then false else contains j s)
unfolding contains discard
contains-discard k j [] = ground arith
contains-discard k j (i ∷ s) =
    ground (arith, same_iff k j, same_iff i k, same_iff i j, contains-discard k j s)
