-- ===== src/Pipeline/Admission.antt =====
-- Which values a configured pipeline admits: TagPipeline of crates/application over the
-- ConcretePipelineFactory of crates/infrastructure/src/pipeline.rs.
use ifascada.Prelude.{
  ◌≡◌, refl, subst, String, true, Option, some, List, [], ◌∷◌, ◌++◌, ok, arith, All,
}
use ifascada.Float.{Float}
use ifascada.Json.{Value, Serde}
use ifascada.Domain.TagId.{TagId}
use ifascada.Domain.Config.{PipelineConfig, ValidatorConfig, range}
use ifascada.Pipeline.{create_all, new, passes, parsed, scaled, process}
use ifascada.Pipeline.Parsers.{TextTools}
use ifascada.Pipeline.Validators.{measure, at_least, at_most, range_validate, range_validate-ok_iff}
use ifascada.Pipeline.Factory.{factory}
use ifascada.Pipeline.Process.{Accepts, process-some_iff}

module _ {F : Type 0} ⦃x : Float F⦄ ⦃s : Serde F⦄ (tools : TextTools F) where
  Accepts-range :
      (before after : List (ValidatorConfig F)) (lo hi : Option F) (w : Value F)
      → All (Accepts w) (create_all (factory tools) (before ++ range lo hi ∷ after))
      → range_validate lo hi w ≡ ok tt
  unfolding create_all factory
  Accepts-range [] after lo hi w a = a.0
  Accepts-range (ValidatorConfig.custom n c ∷ before) after lo hi w a =
      Accepts-range before after lo hi w a
  Accepts-range (range l h ∷ before) after lo hi w a = Accepts-range before after lo hi w a.1
  Accepts-range (ValidatorConfig.contains n ∷ before) after lo hi w a =
      Accepts-range before after lo hi w a.1

  -- Whatever else is configured, a pipeline with a range validator only yields values that were in range before scaling.
  pub process_in_range :
      (id : TagId) (config : PipelineConfig F) (before after : List (ValidatorConfig F))
      (lo hi : Option F) (raw v : Value F)
      → config.validators ≡ before ++ range lo hi ∷ after
      → process (new id config (factory tools)) raw ≡ ok (some v)
      → (w : Value F) × (n : F) × (scaled config.scaling w ≡ v)
        × (measure w ≡ some n)
        × (at_least lo n ≡ true)
        × (at_most hi n ≡ true)
  unfolding new
  process_in_range id config before after lo hi raw v e h =
      let (w, _, a, r) = (process-some_iff (new id config (factory tools)) raw v).0 h in
      let ok_range =
        Accepts-range before after lo hi w
          (subst (λ cs. All (Accepts w) (create_all (factory tools) cs)) e a) in
      let (n, m, l, u) = (range_validate-ok_iff lo hi w).0 ok_range in (w, n, r, m, l, u)

  abbrev pub IsCustom : ValidatorConfig F → Type 0
  IsCustom c = (name : String) × (o : Option (Value F)) × (c ≡ ValidatorConfig.custom name o)

  create_all-IsCustom :
      (cs : List (ValidatorConfig F)) → All IsCustom cs → create_all (factory tools) cs ≡ []
  unfolding create_all factory
  create_all-IsCustom [] a = refl
  create_all-IsCustom (c ∷ cs) (custom_c, a) = rw (custom_c.2) (create_all-IsCustom cs a)

  -- A validator that is not implemented is left out: with none but such ones, every value that parses is let through.
  pub process_unvalidated :
      (id : TagId) (config : PipelineConfig F) (raw w : Value F)
      → All IsCustom config.validators
      → parsed (new id config (factory tools)) raw ≡ some w
      → process (new id config (factory tools)) raw ≡ ok (some (scaled config.scaling w))
  unfolding new process passes
  process_unvalidated id config raw w a h =
      ground (arith, h, create_all-IsCustom config.validators a)
