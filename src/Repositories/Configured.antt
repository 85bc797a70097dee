-- ===== src/Repositories/Configured.antt =====
-- crates/infrastructure/src/repositories/config_repository.rs: the tags of an agent's first configuration,
-- which cannot be changed.
use Prim.Native.Char.{Char}
use mathlib.Core.Option
use ifascada.Prelude.{
  ℕ, ◌≡◌, refl, ap, inl, inr, String, Bool, true, false, Option, none, some, List, [], ◌∷◌,
  ok_value, same, if◌then◌else◌, unwrap_or, Option-cases,
}
use ifascada.Domain.TagId.{TagId}
use ifascada.Domain.TagId
use ifascada.Domain.Config.{AutomationConfig, PipelineConfig}
use ifascada.Domain.Config
use ifascada.Domain.UpdateMode.{polling, simple}
use ifascada.Domain.Tag.{Tag, disable}
use ifascada.Domain.Tag
use ifascada.Settings.{TagConfig}
use ifascada.Reload.{convert_config_to_tag}

pub record ConfigTagRepository (F : Type 0) : Type 0 where
  pub agent_id : String
  pub tags : List (Tag F)

module _ {F : Type 0} where
  -- The automations of a tag take the place of its pipeline's, if there are any.
  unfoldable pub with_automations : List (AutomationConfig F) → PipelineConfig F → PipelineConfig F
  with_automations [] p = p
  with_automations (a ∷ as') p = record p { automations = a ∷ as' }

  -- A tag is enabled unless its configuration says no.
  unfoldable pub enabled_as : Option Bool → ℕ → Tag F → Tag F
  enabled_as none now t = t
  enabled_as (some true) now t = t
  enabled_as (some false) now t = disable t now

  abbrev pub automated : List (AutomationConfig F) → Tag F → Tag F
  automated as' t = record t { pipeline_config = with_automations as' t.pipeline_config }

  enabled_as-automated :
      (e : Option Bool) (now : ℕ) (as' : List (AutomationConfig F)) (t : Tag F)
      → enabled_as e now (automated as' t)
        ≡ automated as' (if unwrap_or e true then t else disable t now)
  unfolding enabled_as disable
  enabled_as-automated none now as' t = refl
  enabled_as-automated (some true) now as' t = refl
  enabled_as-automated (some false) now as' t = refl

module _ {F : Type 0} (is_alphanumeric : Char → Bool) where
  -- The closure of `filter_map`.
  unfoldable pub tag_of : ℕ → TagConfig F → Option (Tag F)
  unfolding with_automations enabled_as
  tag_of now c = elim (ok_value (TagId.new is_alphanumeric c.id)) [
    | none ↦ none
    | some id ↦ elim c.device_id [
      | none ↦ none
      | some device_id ↦ elim c.driver_config [
        | none ↦ none
        | some source ↦ some (
            enabled_as c.enabled now (
              Tag.new id device_id source (unwrap_or c.update_mode (polling 1000))
                (unwrap_or c.value_type simple)
                (with_automations c.automations (unwrap_or c.pipeline Config.default)) now))
      ]
    ]
  ]

  unfoldable pub tags_of : ℕ → List (TagConfig F) → List (Tag F)
  tags_of now [] = []
  tags_of now (c ∷ cs) =
      let rest = tags_of now cs in elim (tag_of now c) [ none ↦ rest | some t ↦ t ∷ rest ]

  unfoldable pub new : ℕ → String → List (TagConfig F) → ConfigTagRepository F
  unfolding tags_of
  new now agent_id configs = record { agent_id = agent_id; tags = tags_of now configs }

  -- The tag of a configuration is the one that the configuration manager makes of it, but for the automations, which take the place of the pipeline's; where the configuration manager panics, the tag is left out.
  pub tag_of-convert :
      (now : ℕ) (c : TagConfig F)
      → tag_of now c
        ≡ Option.map (automated c.automations) (convert_config_to_tag is_alphanumeric now c)
  unfolding tag_of convert_config_to_tag Tag.new
  tag_of-convert now c = elim (Option-cases c.device_id) [
    | inl g ↦ elim (Option-cases (ok_value (TagId.new is_alphanumeric c.id))) [
      | inl e ↦ rw (tag_of, convert_config_to_tag, g, e) refl
      | inr (id, e) ↦ rw (tag_of, convert_config_to_tag, g, e, g) refl
    ]
    | inr (device_id, g) ↦ elim (Option-cases (ok_value (TagId.new is_alphanumeric c.id))) [
      | inl e ↦ rw (tag_of, convert_config_to_tag, g, e) refl
      | inr (id, e) ↦ elim (Option-cases c.driver_config) [
        | inl h ↦ rw (tag_of, convert_config_to_tag, g, e, g, h) refl
        | inr (source, h) ↦
            let t =
              Tag.new id device_id source (unwrap_or c.update_mode (polling 1000))
                (unwrap_or c.value_type simple) (unwrap_or c.pipeline Config.default) now in
            rw (tag_of, convert_config_to_tag, g, e, g, h)
              (ap some (enabled_as-automated c.enabled now c.automations t))
      ]
    ]
  ]

module _ {F : Type 0} where
  find : String → List (Tag F) → Option (Tag F)
  find id [] = none
  find id (t ∷ ts) = if same t.id.as_str id then some t else find id ts

  unfoldable pub find_by_id : String → ConfigTagRepository F → Option (Tag F)
  unfolding find
  find_by_id id r = find id r.tags

  unfoldable pub find_by_agent : String → ConfigTagRepository F → List (Tag F)
  find_by_agent agent r = if same r.agent_id agent then r.tags else []

  enabled : List (Tag F) → List (Tag F)
  enabled [] = []
  enabled (t ∷ ts) = let rest = enabled ts in if t.enabled then t ∷ rest else rest

  unfoldable pub find_enabled : ConfigTagRepository F → List (Tag F)
  unfolding enabled
  find_enabled r = enabled r.tags
