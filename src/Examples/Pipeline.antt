-- ===== src/Examples/Pipeline.antt =====
-- Theorems about the pipeline at concrete inputs.
use Prim.Native.String.{char_at}
use ifascada.Prelude.{String, arith, same, ◌≡◌, refl, ◌≢◌, true, none, some, [], ◌∷◌, ok, err}
use ifascada.Prelude.Int.{ℤ, pos}
use ifascada.Float.{ℤ_float}
use ifascada.Json.{Value, put, object, field, end, string, number, float, as_f64, of_f64}
use ifascada.Domain.Config.{ValidatorConfig}
use ifascada.Pipeline.{
  TagPipeline, ValueValidator, process, parsed, scaled, passes, create_all, to_scale, rescale,
}
use ifascada.Pipeline
use ifascada.Pipeline.Validators.{measure, at_least, at_most, range_validate}
use ifascada.Pipeline.Process.{process-ne-err}
use ifascada.Pipeline.Admission.{process_in_range, process_unvalidated}
use ifascada.Pipeline.Scale.{
  scale_parse, weight_in, with_unit, cleaned, normalized, remove_char, from_start, is_start,
}
use ifascada.Text.{trim}
use ifascada.Pipeline.Scale.Labels.{NoStart, scale_parse-label}
use ifascada.Pipeline.Factory.{factory}
use ifascada.Examples.Sample.{num, serde, tools, weight, ranged, lenient}

abbrev pipe : TagPipeline ℤ
pipe = Pipeline.new weight ranged (factory tools)

doubled : process pipe (num 21) ≡ ok (some (number (float (pos 42))))
unfolding process Pipeline.new parsed scaled factory range_validate measure of_f64 as_f64
doubled = refl

process-ne-err_example : process pipe (num 21) ≢ err "broken"
process-ne-err_example = process-ne-err pipe (num 21) "broken"

process_in_range_example :
    (w : Value ℤ) × (n : ℤ) × (scaled ranged.scaling w ≡ number (float (pos 42)))
    × (measure w ≡ some n)
    × (at_least (some (pos 0)) n ≡ true)
    × (at_most (some (pos 100)) n ≡ true)
process_in_range_example =
    process_in_range tools weight ranged (ValidatorConfig.custom "spike" none ∷ []) []
      (some (pos 0)) (some (pos 100)) (num 21) (number (float (pos 42))) refl doubled

process_unvalidated_example :
    process (Pipeline.new weight lenient (factory tools)) (num 900)
    ≡ ok (some (scaled lenient.scaling (num 900)))
unfolding parsed Pipeline.new
process_unvalidated_example =
    process_unvalidated tools weight lenient (num 900) (num 900) (("spike", none, refl), tt) refl

abbrev lower : ValueValidator ℤ
lower = range_validate (some (pos 5)) none

abbrev upper : ValueValidator ℤ
upper = range_validate none (some (pos 20))

abbrev twice : TagPipeline ℤ
twice = record pipe { validators = lower ∷ upper ∷ [] }

abbrev scale_text : String
scale_text = "ST,GS,+ 12.50 kg"

weighed :
    scale_parse tools scale_text
    ≡ ok (object (field "value" (of_f64 (pos 12)) (field "unit" (string "kg") end)))
unfolding scale_parse weight_in with_unit cleaned normalized remove_char from_start is_start put
    trim same
weighed = refl

NoStart-tools : NoStart tools
unfolding is_start
NoStart-tools c h = ground (arith, h)

scale_parse-label_example : scale_parse tools scale_text ≡ scale_parse tools "+ 12.50 kg"
unfolding from_start is_start
scale_parse-label_example =
    scale_parse-label tools "ST,GS," (char_at "+" 0) " 12.50 kg" NoStart-tools refl refl
