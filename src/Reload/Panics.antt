-- ===== src/Reload/Panics.antt =====
-- Configurations that end the loop of crates/edge-agent/src/config_manager.rs.
use Prim.Native.Char.{Char}
use Prim.Native.String.{◌++◌ as add_text}
use mathlib.Core.Option
use ifascada.Prelude.{
  ℕ, ◌≡◌, refl, ap, ◌∙◌, inl, inr, Bool, true, false, none, some, List, [], ◌∷◌, same, arith, In,
  Option-cases,
}
use ifascada.Domain.Device.{Device}
use ifascada.Domain.Tag.{Tag}
use ifascada.Pipeline.{PipelineFactory}
use ifascada.Settings.{AgentConfig, TagConfig}
use ifascada.Messaging.Client.{MqttMessage}
use ifascada.Reload.{
  Repository, ConfigManager, Outcome, finished, abandoned, panicked, World, Decoder, same_bytes,
  clean, convert_config_to_tag, save_tags, handle_reload, conclude, apply, receive, settle, store,
}
use ifascada.Reload.Received.{receives, reloads, applies, apply-IsApplied}

module _ {F D R : Type 0} (is_alphanumeric : Char → Bool) (accepts : Device F → List (Tag F) → Bool)
    (factory : PipelineFactory F) (device_repo : Repository D (Device F))
    (tag_repo : Repository R (Tag F)) (decoder : Decoder F) where
  convert-panics :
      (now : ℕ) (c : TagConfig F)
      → c.device_id ≡ none
      → convert_config_to_tag is_alphanumeric now c ≡ none
  unfolding convert_config_to_tag
  convert-panics now c e = rw e refl

  save_tags-panics :
      (now : ℕ) (c : TagConfig F) (cs : List (TagConfig F)) (r : R)
      → In c cs
      → convert_config_to_tag is_alphanumeric now c ≡ none
      → (save_tags is_alphanumeric accepts factory device_repo tag_repo now cs r).1 ≡ none
  unfolding save_tags
  save_tags-panics now c [] r h e = absurd h
  save_tags-panics now c (d ∷ cs) r h e =
      elim (Option-cases (convert_config_to_tag is_alphanumeric now d)) [
        | inl g ↦ rw (g, save_tags) refl
        | inr (t, g) ↦ elim h [
          | inl same_tag ↦
              absurd (ground (arith, g, e, ap (convert_config_to_tag is_alphanumeric now) same_tag))
          | inr later ↦
              rw (g, save_tags)
                (ap (Option.map (λ rest. t.id.as_str ∷ rest))
                  (save_tags-panics now c cs (tag_repo.save t r).0 later e))
        ]
      ]

  handle_reload-panicked :
      (now : ℕ) (config : AgentConfig F) (x : ConfigManager F D R)
      → (save_tags is_alphanumeric accepts factory device_repo tag_repo now config.tags
          x.tag_repository).1
        ≡ none
      → (reloads is_alphanumeric accepts factory device_repo tag_repo decoder now config x).1
        ≡ panicked
  unfolding handle_reload store settle
  handle_reload-panicked now config x e =
      ap
        (λ saved.
          (settle is_alphanumeric accepts factory device_repo tag_repo saved
            (store is_alphanumeric accepts factory device_repo tag_repo now config x).0).1)
        e

  apply-panicked :
      (w : World) (m : MqttMessage) (x : ConfigManager F D R) (config : AgentConfig F)
      → decoder.config (clean decoder.parse decoder.print m.payload) ≡ some config
      → (save_tags is_alphanumeric accepts factory device_repo tag_repo w.now config.tags
          x.tag_repository).1
        ≡ none
      → (applies is_alphanumeric accepts factory device_repo tag_repo decoder w m x).1 ≡ panicked
  unfolding apply
  apply-panicked w m x config e p = rw (e, apply) (handle_reload-panicked w.now config _ p)

  conclude-panicked :
      (m : MqttMessage) (r : ConfigManager F D R × Outcome)
      → r.1 ≡ panicked
      → ((conclude m r).1 ≡ false) × ((conclude m r).0.acks ≡ r.0.acks)
  unfolding conclude
  conclude-panicked m (x, panicked) e = (refl, refl)
  conclude-panicked m (x, finished) e = absurd (ground (arith, e))
  conclude-panicked m (x, abandoned) e = absurd (ground (arith, e))

  -- A new configuration with a tag that has no device ends the loop and is not acknowledged.
  pub receive-panics :
      (w : World) (m : MqttMessage) (x : ConfigManager F D R) (config : AgentConfig F)
      (c : TagConfig F)
      → same m.topic (add_text "scada/config/" x.agent_id) ≡ true
      → same_bytes x.last_config_payload m.payload ≡ false
      → decoder.config (clean decoder.parse decoder.print m.payload) ≡ some config
      → In c config.tags
      → c.device_id ≡ none
      → ((receives is_alphanumeric accepts factory device_repo tag_repo decoder w m x).1 ≡ false)
        × ((receives is_alphanumeric accepts factory device_repo tag_repo decoder w m x).0.acks
            ≡ x.acks)
  unfolding receive
  receive-panics w m x config c topic fresh decoded here no_device =
      let p =
        save_tags-panics w.now c config.tags x.tag_repository here
          (convert-panics w.now c no_device) in
      let a = apply-panicked w m x config decoded p in
      let c' =
        conclude-panicked m
          (applies is_alphanumeric accepts factory device_repo tag_repo decoder w m x) a in
      rw (topic, fresh, receive)
        (
          c'.0,
          c'.1
              ∙ (apply-IsApplied is_alphanumeric accepts factory device_repo tag_repo decoder w m
                  x).acks,
        )
