-- ===== src/Pipeline/Parsers.antt =====
-- crates/infrastructure/src/pipeline.rs: RegexParser, JsonParser and IndexMapParser. The regex
-- engine and the parsing of a float are parameters.
use Prim.Native.Char.{Char, code}
use ifascada.Prelude.{
  ℕ, suc, String, Bool, Option, none, some, List, [], ◌∷◌, Result, ok, err, ◌==◌, if◌then◌else◌,
  same, get_elem?,
}
use ifascada.Float.{Float}
use ifascada.Json.{
  Value, Fields, end, Serde, null, number, float, string, object, get, put, as_f64, as_array,
  of_f64,
}
use ifascada.Pipeline.{
  ParseError, no_match, invalid_json, not_an_array, path_not_found, ValueParser,
}

-- `compile` of the regex crate refuses a bad pattern, and a compiled pattern gives its first group.
pub record TextTools (F : Type 0) : Type 0 where
  pub compile : String → Option (String → Option String)
  pub parse_f64 : String → Option F
  pub number_in : String → Option (String × String)  -- the first number of a text, and what is behind it
  pub is_whitespace : Char → Bool

module _ {F : Type 0} ⦃x : Float F⦄ (tools : TextTools F) where
  unfoldable pub regex_parse : (String → Option String) → ValueParser F
  regex_parse captures raw = elim (captures raw) [
    | none ↦ err no_match
    | some text ↦ elim (tools.parse_f64 text) [ none ↦ ok (string text) | some n ↦ ok (of_f64 n) ]
  ]

push_char : Char → List String → List String
push_char c [] = (String.◌∷◌ c String.[]) ∷ []
push_char c (p ∷ ps) = (String.◌∷◌ c p) ∷ ps

-- `split('.')`.
unfoldable pub split_dots : String → List String
unfolding push_char
split_dots String.[] = "" ∷ []
split_dots (String.◌∷◌ c s) =
    let rest = split_dots s in if code c == b'.' then "" ∷ rest else push_char c rest

module _ {F : Type 0} where
  -- The loop over the parts of the path.
  unfoldable pub navigate : List String → Value F → Result (Value F) ParseError
  navigate [] v = ok v
  navigate (p ∷ ps) v = elim (get p v) [ none ↦ err (path_not_found p) | some w ↦ navigate ps w ]

module _ {F : Type 0} ⦃s : Serde F⦄ where
  unfoldable pub json_parse : String → ValueParser F
  unfolding split_dots
  json_parse path raw = elim (s.from_str raw) [
    | none ↦ err invalid_json
    | some json ↦ if same path "" then ok json else navigate (split_dots path) json
  ]

module _ {F : Type 0} ⦃x : Float F⦄ where
  -- One cell: a number times the scale if that is finite, and null past the end of the array.
  scale_cell : Option F → Value F → Value F
  scale_cell none v = v
  scale_cell (some k) v = elim (as_f64 v) [
    | none ↦ v
    | some n ↦ if x.is_finite (x.times n k) then number (float (x.times n k)) else v
  ]

  unfoldable pub cell : Option F → Option (Value F) → Value F
  unfolding scale_cell
  cell scale none = null
  cell scale (some v) = scale_cell scale v

  -- The loop over the keys, from index `i`.
  unfoldable pub map_keys : Option F → List (Value F) → ℕ → List String → Fields F → Fields F
  map_keys scale arr i [] m = m
  map_keys scale arr i (k ∷ ks) m =
      map_keys scale arr (suc i) ks (put k (cell scale (get_elem? arr i)) m)

  unfoldable pub index_map : List String → Option F → Value F → Result (Value F) ParseError
  index_map keys scale v = elim (as_array v) [
    | none ↦ err not_an_array
    | some arr ↦ ok (object (map_keys scale arr 0 keys end))
  ]

module _ {F : Type 0} ⦃x : Float F⦄ ⦃s : Serde F⦄ where
  unfoldable pub index_map_parse : List String → Option F → ValueParser F
  unfolding index_map
  index_map_parse keys scale raw = elim (s.from_str raw) [
    | none ↦ err invalid_json
    | some json ↦ index_map keys scale json
  ]
