-- ===== src/Pipeline/Scale.antt =====
-- crates/infrastructure/src/pipeline.rs: ScaleParser, which reads a weight and its unit from a text
-- like "ST,GS,+ 12.50 kg". The regex crate finds the number.
pub mod Labels
use Prim.Native.Char.{Char, code}
use Prim.Native.String.{◌++◌ as add_text}
use Prim.Native.String
use ifascada.Prelude.{
  ℕ, String, Bool, Option, none, some, Result, ok, err, leb, ◌==◌, ◌&&◌, ◌||◌, same, if◌then◌else◌,
}
use ifascada.Float.{Float}
use ifascada.Json.{Value, end, string, object, put, of_f64}
use ifascada.Text.{trim}
use ifascada.Pipeline.{ParseError, empty_input, no_number, no_unit, invalid_number, ValueParser}
use ifascada.Pipeline.Parsers.{TextTools}

-- A character that can begin a number.
unfoldable pub is_start : Char → Bool
is_start c =
    (leb b'0' (code c) && leb (code c) b'9')
    || (code c == b'+')
    || (code c == b'-')
    || (code c == b'.')

-- `find_number_start`, with the text from there on.
unfoldable pub from_start : String → Option String
from_start String.[] = none
from_start (String.◌∷◌ c s) =
    let rest = from_start s in if is_start c then some (String.◌∷◌ c s) else rest

-- `replace` of a character by nothing, and of commas by points.
unfoldable pub remove_char : ℕ → String → String
remove_char n String.[] = ""
remove_char n (String.◌∷◌ c s) =
    let rest = remove_char n s in if code c == n then rest else String.◌∷◌ c rest

points : String → String
points String.[] = ""
points (String.◌∷◌ c s) =
    let rest = points s in if code c == b',' then add_text "." rest else String.◌∷◌ c rest

module _ {F : Type 0} ⦃x : Float F⦄ (tools : TextTools F) where
  unfoldable pub with_unit : F → String → Result (Value F) ParseError
  with_unit n unit =
      if same unit ""
      then err no_unit
      else ok (object (put "unit" (string unit) (put "value" (of_f64 n) end)))

  -- The number at the front of a text that has no spaces, and the unit behind it.
  unfoldable pub weight_in : String → Result (Value F) ParseError
  unfolding with_unit
  weight_in rest = elim (tools.number_in rest) [
    | none ↦ err no_number
    | some (text, after) ↦ elim (tools.parse_f64 text) [
      | none ↦ err (invalid_number text)
      | some n ↦ with_unit n (trim tools.is_whitespace after)
    ]
  ]

  -- The text is trimmed and loses its no-break spaces (U+00A0).
  unfoldable pub cleaned : String → String
  cleaned raw = remove_char 160 (trim tools.is_whitespace raw)

  unfoldable pub normalized : String → String
  unfolding remove_char points
  normalized s = remove_char b' ' (points (trim tools.is_whitespace s))

  unfoldable pub scale_parse : ValueParser F
  unfolding cleaned normalized
  scale_parse raw =
      let s = cleaned raw in
      if same s ""
      then err empty_input
      else elim (from_start s) [ none ↦ err no_number | some t ↦ weight_in (normalized t) ]
