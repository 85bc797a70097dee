-- ===== src/Domain/Config.antt =====
-- crates/domain/src: automation.rs, and the configuration types of tag/pipeline.rs.
use ifascada.Prelude.{ℕ, String, Option, List, none, []}
use ifascada.Json.{Value}

pub data Operator : Type 0 where
  equal less_or_equal greater_or_equal not_equal less greater : Operator

pub data TriggerConfig (F : Type 0) : Type 0 where
  consecutive_values :
      (target_value : F) (count : ℕ) (operator : Operator) (within_ms : Option ℕ) → TriggerConfig F

pub data ActionConfig : Type 0 where
  print_ticket : (template : String) (service_url : Option String) → ActionConfig
  publish_mqtt : (topic payload_template : String) → ActionConfig
  accumulate_data : (session_id template : String) → ActionConfig
  print_batch : (session_id header_template footer_template : String) → ActionConfig

pub record AutomationConfig (F : Type 0) : Type 0 where
  pub name : String
  pub trigger : TriggerConfig F
  pub action : ActionConfig

pub data ParserConfig (F : Type 0) : Type 0 where
  no_parser : ParserConfig F
  regex : (pattern : String) → ParserConfig F
  json : (path : String) → ParserConfig F
  custom : (name : String) (config : Option (Value F)) → ParserConfig F
  index_map : (keys : List String) (scale : Option F) → ParserConfig F

pub data ValidatorConfig (F : Type 0) : Type 0 where
  range : (lowest highest : Option F) → ValidatorConfig F
  contains : (substring : String) → ValidatorConfig F
  custom : (name : String) (config : Option (Value F)) → ValidatorConfig F

pub data ScalingConfig (F : Type 0) : Type 0 where
  linear : (slope intercept : F) → ScalingConfig F

pub record PipelineConfig (F : Type 0) : Type 0 where
  pub parser : Option (ParserConfig F)
  pub scaling : Option (ScalingConfig F)
  pub validators : List (ValidatorConfig F)
  pub automations : List (AutomationConfig F)

abbrev pub default : {F : Type 0} → PipelineConfig F
default = record { parser = none; scaling = none; validators = []; automations = [] }
