-- ===== src/Json.antt =====
-- `serde_json::Value`, with the accessors that the sources call on it.
use ifascada.Prelude.{
  ℕ, String, Bool, Option, none, some, List, [], ◌∷◌, same, ltb, ◌^◌, if◌then◌else◌,
}
use ifascada.Prelude.Int.{ℤ, pos, negsuc}
use ifascada.Float.{Float}

-- `Number`: a non-negative integer, a negative one (of `n` it is -(n + 1)), or a float.
pub data Number (F : Type 0) : Type 0 where
  pos_int : ℕ → Number F
  neg_int : ℕ → Number F
  float : F → Number F

-- An array's elements and an object's entries, in the order of iteration, are types of the block.
mutual
  pub data Value (F : Type 0) : Type 0 where
    null : Value F
    bool : Bool → Value F
    number : Number F → Value F
    string : String → Value F
    array : Items F → Value F
    object : Fields F → Value F

  pub data Items (F : Type 0) : Type 0 where
    nil : Items F
    cons : Value F → Items F → Items F

  pub data Fields (F : Type 0) : Type 0 where
    end : Fields F
    field : String → Value F → Fields F → Fields F

module _ {F : Type 0} where
  unfoldable pub entry : String → Fields F → Option (Value F)
  entry k end = none
  entry k (field j v m) = if same j k then some v else entry k m

  -- `Map::insert`: the value of a key that is there is replaced.
  unfoldable pub put : String → Value F → Fields F → Fields F
  put k v end = field k v end
  put k v (field j w m) = if same j k then field k v m else field j w (put k v m)

  -- `Value::get` with a text: the entry of an object, and nothing of any other value.
  unfoldable pub get : String → Value F → Option (Value F)
  unfolding entry
  get k (object m) = entry k m
  get k _ = none

  -- `Map::remove`.
  unfoldable pub without : String → Fields F → Fields F
  without k end = end
  without k (field j v m) = let rest = without k m in if same j k then rest else field j v rest

  unfoldable pub as_str : Value F → Option String
  as_str (string s) = some s
  as_str _ = none

  unfoldable pub as_bool : Value F → Option Bool
  as_bool (bool b) = some b
  as_bool _ = none

  unfoldable pub as_u64 : Value F → Option ℕ
  as_u64 (number (pos_int n)) = some n
  as_u64 _ = none

  -- `as_i64`: a number above the greatest `i64` is none.
  unfoldable pub as_i64 : Value F → Option ℤ
  as_i64 (number (pos_int n)) = if ltb n (2 ^ 63) then some (pos n) else none
  as_i64 (number (neg_int n)) = some (negsuc n)
  as_i64 _ = none

  unfoldable pub elements : Items F → List (Value F)
  elements nil = []
  elements (cons v vs) = v ∷ elements vs

  unfoldable pub as_array : Value F → Option (List (Value F))
  unfolding elements
  as_array (array vs) = some (elements vs)
  as_array _ = none

module _ {F : Type 0} ⦃x : Float F⦄ where
  unfoldable pub number_as_f64 : Number F → F
  number_as_f64 (pos_int n) = x.of_u64 n
  number_as_f64 (neg_int n) = x.of_neg n
  number_as_f64 (float a) = a

  unfoldable pub as_f64 : Value F → Option F
  unfolding number_as_f64
  as_f64 (number n) = some (number_as_f64 n)
  as_f64 _ = none

  -- `json!` of a float: one that is not finite becomes null.
  unfoldable pub of_f64 : F → Value F
  of_f64 a = if x.is_finite a then number (float a) else null

-- Printing and parsing, which serde_json does.
pub record Serde (F : Type 0) : Type 0 where
  pub to_string : Value F → String
  pub from_str : String → Option (Value F)
