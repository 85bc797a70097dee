-- ===== src/Pipeline/Factory.antt =====
-- crates/infrastructure/src/pipeline.rs: ConcretePipelineFactory.
use ifascada.Prelude.{Result, ok, err, none, some, same, if◌then◌else◌}
use ifascada.Float.{Float}
use ifascada.Json.{Serde}
use ifascada.Domain.Config.{
  ParserConfig, no_parser, regex, json, index_map, ValidatorConfig, range, contains,
}
use ifascada.Pipeline.{
  PipelineFactory, FactoryError, no_parser_configured, invalid_regex, unknown_parser,
  unknown_validator, ValueParser, ValueValidator,
}
use ifascada.Pipeline.Parsers.{TextTools, regex_parse, json_parse, index_map_parse}
use ifascada.Pipeline.Scale.{scale_parse}
use ifascada.Pipeline.Validators.{range_validate, contains_validate}

module _ {F : Type 0} ⦃x : Float F⦄ ⦃s : Serde F⦄ (tools : TextTools F) where
  unfoldable pub create_parser : ParserConfig F → Result (ValueParser F) FactoryError
  create_parser (regex pattern) = elim (tools.compile pattern) [
    | none ↦ err (invalid_regex pattern)
    | some captures ↦ ok (regex_parse tools captures)
  ]
  create_parser (json path) = ok (json_parse path)
  create_parser (index_map keys scale) = ok (index_map_parse keys scale)
  create_parser no_parser = err no_parser_configured
  create_parser (ParserConfig.custom name config) =
      if same name "ScaleParser" then ok (scale_parse tools) else err (unknown_parser name)

unfoldable pub create_validator :
    {F : Type 0} ⦃x : Float F⦄ → ValidatorConfig F → Result (ValueValidator F) FactoryError
create_validator (range lo hi) = ok (range_validate lo hi)
create_validator (contains needle) = ok (contains_validate needle)
create_validator (ValidatorConfig.custom name config) = err (unknown_validator name)

unfoldable pub factory : {F : Type 0} ⦃x : Float F⦄ ⦃s : Serde F⦄ → TextTools F → PipelineFactory F
unfolding create_parser create_validator
factory tools = record { create_parser = create_parser tools; create_validator = create_validator }
