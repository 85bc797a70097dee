-- ===== src/Pipeline/IndexMap.antt =====
-- What the array-to-object parser produces: IndexMapParser of crates/infrastructure/src/pipeline.rs.
use ifascada.Prelude.{
  ℕ, suc, ◌≡◌, refl, String, Option, none, some, List, [], ◌∷◌, ok, arith, get_elem?, same,
  same_iff, if◌then◌else◌,
}
use ifascada.Float.{Float}
use ifascada.Json.{Value, Fields, end, object, get, entry, put, as_array}
use ifascada.Pipeline.Parsers.{cell, map_keys, index_map}

entry-put :
    {F : Type 0} (k j : String) (v : Value F) (m : Fields F)
    → entry j (put k v m) ≡ (if same k j then some v else entry j m)
unfolding entry put
entry-put k j v end = refl
entry-put k j v (Fields.field i w m) =
    ground (arith, same_iff k j, same_iff i k, same_iff i j, entry-put k j v m)

-- The last index, from `i` on, at which a key stands.
abbrev pub last_index : ℕ → String → List String → Option ℕ
last_index i k [] = none
last_index i k (j ∷ ks) = elim (last_index (suc i) k ks) [
  | some n ↦ some n
  | none ↦ if same j k then some i else none
]

module _ {F : Type 0} ⦃x : Float F⦄ (scale : Option F) (arr : List (Value F)) where
  -- The cell at an index, if there is one, else what was there.
  abbrev expected : Option ℕ → Option (Value F) → Option (Value F)
  expected none old = old
  expected (some n) old = some (cell scale (get_elem? arr n))

  entry-map_keys :
      (i : ℕ) (k : String) (ks : List String) (m : Fields F)
      → entry k (map_keys scale arr i ks m) ≡ expected (last_index i k ks) (entry k m)
  unfolding map_keys
  entry-map_keys i k [] m = refl
  entry-map_keys i k (j ∷ ks) m = ground (
    arith,
    entry-map_keys (suc i) k ks (put j (cell scale (get_elem? arr i)) m),
    entry-put j k (cell scale (get_elem? arr i)) m,
  )

-- The parser turns an array into an object in which every key holds the cell at the last index where the key is configured (scaled, or null past the end of the array), and which has no other keys.
pub get-index_map :
    {F : Type 0} ⦃x : Float F⦄ (keys : List String) (scale : Option F) (v : Value F)
    (arr : List (Value F)) (k : String)
    → as_array v ≡ some arr
    → (o : Value F) × (index_map keys scale v ≡ ok o)
      × (get k o ≡ (elim (last_index 0 k keys) [
        | none ↦ none
        | some n ↦ some (cell scale (get_elem? arr n))
      ]))
unfolding index_map get entry
get-index_map keys scale v arr k h = (
  object (map_keys scale arr 0 keys end),
  ground arith,
  ground (arith, entry-map_keys scale arr 0 k keys end),
)
