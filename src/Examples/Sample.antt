-- ===== src/Examples/Sample.antt =====
-- Sample inputs: whole numbers for floats, a few texts that parse, a tag and its executor.
use Prim.Native.Char.{Char, code}
use ifascada.Prelude.{
  ℕ, String, Bool, true, ◌&&◌, ◌||◌, ◌==◌, Option, none, some, [], ◌∷◌, ok, err, same, leb,
  if◌then◌else◌,
}
use ifascada.Prelude.Int.{ℤ, pos}
use ifascada.Float.{ℤ_float}
use ifascada.Json.{Value, Serde, null, number, pos_int, array, cons, nil}
use ifascada.Domain.TagId.{TagId}
use ifascada.Domain.Config.{PipelineConfig, range, ValidatorConfig, index_map, linear}
use ifascada.Domain.Config
use ifascada.Domain.UpdateMode.{TagUpdateMode, simple}
use ifascada.Domain.Tag.{Tag}
use ifascada.Domain.Tag
use ifascada.Pipeline.{PipelineFactory}
use ifascada.Pipeline.Parsers.{TextTools}
use ifascada.Pipeline.Factory.{factory}
use ifascada.Executor.{World, TagExecutor}
use ifascada.Executor

-- The ASCII letters and digits.
abbrev pub ascii : Char → Bool
ascii c =
    (leb b'0' (code c) && leb (code c) b'9')
    || (leb b'A' (code c) && leb (code c) b'Z')
    || (leb b'a' (code c) && leb (code c) b'z')

abbrev pub num : ℕ → Value ℤ
num n = number (pos_int n)

abbrev from_str : String → Option (Value ℤ)
from_str t = if same t "[7]" then some (array (cons (num 7) nil)) else none

instance abbrev pub serde : Serde ℤ
serde = record { to_string = λ v. "?"; from_str = from_str }

abbrev pub tools : TextTools ℤ
tools = record {
  compile = λ p. none;
  parse_f64 = λ t. if same t "+12.50" then some (pos 12) else none;
  number_in = λ t. if same t "+12.50kg" then some ("+12.50", "kg") else none;
  is_whitespace = λ c. code c == b' ';
}

abbrev pub sample_factory : PipelineFactory ℤ
unfolding factory
sample_factory = factory tools

abbrev pub weight : TagId
weight = record { as_str = "weight" }

-- 0 to 100, doubled.
abbrev pub ranged : PipelineConfig ℤ
ranged = record Config.default {
  validators = ValidatorConfig.custom "spike" none ∷ range (some (pos 0)) (some (pos 100)) ∷ [];
  scaling = some (linear (pos 2) (pos 0));
}

abbrev pub lenient : PipelineConfig ℤ
lenient = record Config.default { validators = ValidatorConfig.custom "spike" none ∷ [] }

abbrev pub tag_in : TagUpdateMode ℤ → Tag ℤ
tag_in mode = Tag.new weight "scale" null mode simple ranged 0

abbrev pub executor_in : TagUpdateMode ℤ → TagExecutor ℤ
executor_in mode = Executor.new (tag_in mode) sample_factory ("other" ∷ [])

-- A world in which everything succeeds and the driver reads the number.
abbrev pub reads : ℕ → ℕ → World ℤ
reads now n = record {
  now = now;
  later = now;
  connect = ok tt;
  read = ok (some (num n));
  published = λ e. true;
}

-- A world in which the driver is gone.
abbrev pub broken : ℕ → World ℤ
broken now = record {
  now = now;
  later = now;
  connect = err "no port";
  read = err "unplugged";
  published = λ e. true;
}
