-- ===== src/Pipeline.antt =====
-- crates/application/src/tag/tag_pipeline.rs: a raw value is parsed, validated and scaled. A parser
-- and a validator (the trait objects of crates/domain/src/tag/pipeline.rs) are functions; the
-- printing of a value that is no text is serde_json's.
pub mod Parsers
pub mod Validators
pub mod Factory
pub mod Process
pub mod Admission
pub mod IndexMap
pub mod Scale
use ifascada.Prelude.{
  ℕ, String, Bool, true, false, Option, none, some, List, [], ◌∷◌, Result, ok, err, ok_value, ◌==◌,
  length, if◌then◌else◌,
}
use ifascada.Float.{Float}
use ifascada.Json.{Value, Serde, string, as_f64, as_array, of_f64}
use ifascada.Domain.TagId.{TagId}
use ifascada.Domain.Config.{ParserConfig, ValidatorConfig, ScalingConfig, linear, PipelineConfig}

pub data ParseError : Type 0 where
  no_match invalid_json not_an_array empty_input no_number no_unit : ParseError
  path_not_found invalid_number : String → ParseError

pub data ValidationError (F : Type 0) : Type 0 where
  not_a_number not_a_string : ValidationError F
  below_minimum above_maximum : F → F → ValidationError F
  lacks_substring : String → ValidationError F

pub data FactoryError : Type 0 where
  no_parser_configured : FactoryError
  invalid_regex unknown_parser unknown_validator : String → FactoryError

abbrev pub ValueParser : Type 0 → Type 0
ValueParser F = String → Result (Value F) ParseError

abbrev pub ValueValidator : Type 0 → Type 0
ValueValidator F = Value F → Result (Unit {0}) (ValidationError F)

pub record PipelineFactory (F : Type 0) : Type 0 where
  pub create_parser : ParserConfig F → Result (ValueParser F) FactoryError
  pub create_validator : ValidatorConfig F → Result (ValueValidator F) FactoryError

pub record TagPipeline (F : Type 0) : Type 0 where
  pub tag_id : TagId
  pub parser : Option (ValueParser F)
  pub validators : List (ValueValidator F)
  pub scaling : Option (ScalingConfig F)

module _ {F : Type 0} where
  -- A parser or validator that cannot be created is logged and left out.
  abbrev create : PipelineFactory F → Option (ParserConfig F) → Option (ValueParser F)
  create f none = none
  create f (some c) = ok_value (f.create_parser c)

  unfoldable pub create_all : PipelineFactory F → List (ValidatorConfig F) → List (ValueValidator F)
  create_all f [] = []
  create_all f (c ∷ cs) =
      let rest = create_all f cs in elim (f.create_validator c) [ ok v ↦ v ∷ rest | err e ↦ rest ]

  unfoldable pub new : TagId → PipelineConfig F → PipelineFactory F → TagPipeline F
  unfolding create_all
  new id config f = record {
    tag_id = id;
    parser = create f config.parser;
    validators = create_all f config.validators;
    scaling = config.scaling;
  }

  -- The validation loop: it stops at the first validator that refuses.
  unfoldable pub passes : List (ValueValidator F) → Value F → Bool
  passes [] v = true
  passes (c ∷ cs) v = let rest = passes cs v in elim (c v) [ ok _ ↦ rest | err _ ↦ false ]

module _ {F : Type 0} ⦃s : Serde F⦄ where
  unfoldable pub raw_text : Value F → String
  raw_text (string t) = t
  raw_text v = s.to_string v

  -- The first stage: `none` if the parser refuses.
  unfoldable pub parsed : TagPipeline F → Value F → Option (Value F)
  unfolding raw_text
  parsed p raw = elim p.parser [ none ↦ some raw | some parse ↦ ok_value (parse (raw_text raw)) ]

module _ {F : Type 0} ⦃x : Float F⦄ where
  single : List (Value F) → Option F
  single (v ∷ []) = as_f64 v
  single _ = none

  in_array : Option (List (Value F)) → Option F
  unfolding single
  in_array none = none
  in_array (some vs) = single vs

  -- The number to scale: a number, or that of an array with one element.
  unfoldable pub to_scale : Value F → Option F
  unfolding in_array
  to_scale v = elim (as_f64 v) [ some n ↦ some n | none ↦ in_array (as_array v) ]

  -- y = mx + b, rounded to four decimals.
  unfoldable pub rescale : F → F → F → F
  rescale m b n =
      x.over (x.round (x.times (x.plus (x.times n m) b) (x.of_u64 10000))) (x.of_u64 10000)

  unfoldable pub scaled : Option (ScalingConfig F) → Value F → Value F
  unfolding to_scale rescale
  scaled none v = v
  scaled (some (linear m b)) v = elim (to_scale v) [ none ↦ v | some n ↦ of_f64 (rescale m b n) ]

module _ {F : Type 0} ⦃x : Float F⦄ ⦃s : Serde F⦄ where
  -- The result type of `process` has an error, which no branch produces.
  unfoldable pub process : TagPipeline F → Value F → Result (Option (Value F)) String
  unfolding passes
  process p raw = elim (parsed p raw) [
    | none ↦ ok none
    | some v ↦ if passes p.validators v then ok (some (scaled p.scaling v)) else ok none
  ]
