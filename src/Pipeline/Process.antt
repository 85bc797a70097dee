-- ===== src/Pipeline/Process.antt =====
-- What a pipeline lets through: `process` of crates/application/src/tag/tag_pipeline.rs.
use ifascada.Prelude.{
  ◌≡◌, refl, ◌↔◌, ◌≢◌, String, true, some, List, [], ◌∷◌, ok, err, arith, All, Option-cases, inl,
  inr,
}
use ifascada.Float.{Float}
use ifascada.Json.{Value, Serde}
use ifascada.Pipeline.{TagPipeline, ValueValidator, passes, parsed, scaled, process}

abbrev pub Accepts : {F : Type 0} → Value F → ValueValidator F → Type 0
Accepts v c = c v ≡ ok tt

module _ {F : Type 0} where
  pub passes-All :
      (cs : List (ValueValidator F)) (v : Value F) → (passes cs v ≡ true) ↔ All (Accepts v) cs
  unfolding passes
  passes-All [] v = (λ _. tt, λ _. refl)
  passes-All (c ∷ cs) v =
      let (f, g) = passes-All cs v in
      (λ h. (ground arith, f (ground arith)), λ h. ground (arith, g h.1))

module _ {F : Type 0} ⦃x : Float F⦄ ⦃s : Serde F⦄ where
  -- A pipeline yields a value exactly when its parser accepts the raw value, every validator accepts what was parsed, and the value is that, scaled: validation comes before scaling.
  pub process-some_iff :
      (p : TagPipeline F) (raw v : Value F)
      → (process p raw ≡ ok (some v)) ↔ (
          (w : Value F) × (parsed p raw ≡ some w)
          × All (Accepts w) p.validators
          × (scaled p.scaling w ≡ v))
  unfolding process
  process-some_iff p raw v = (to, from)
    where
      to :
          process p raw ≡ ok (some v)
          → (w : Value F) × (parsed p raw ≡ some w)
            × All (Accepts w) p.validators
            × (scaled p.scaling w ≡ v)
      to h = elim (Option-cases (parsed p raw)) [
        | inl e ↦ absurd (ground arith)
        | inr (w, e) ↦ (w, e, (passes-All p.validators w).0 (ground arith), ground arith)
      ]

      from :
          ((w : Value F) × (parsed p raw ≡ some w)
            × All (Accepts w) p.validators
            × (scaled p.scaling w ≡ v))
          → process p raw ≡ ok (some v)
      from (w, e, a, r) = ground (arith, (passes-All p.validators w).1 a)

  -- No input is a critical error.
  pub process-ne-err : (p : TagPipeline F) (raw : Value F) (e : String) → process p raw ≢ err e
  unfolding process
  process-ne-err p raw e h = ground arith
