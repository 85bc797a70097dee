-- ===== src/Reload/Received.antt =====
-- What a received configuration does: crates/edge-agent/src/config_manager.rs.
use Prim.Native.Char.{Char}
use Prim.Native.String.{◌++◌ as add_text}
use ifascada.Prelude.{
  ℕ, ◌≡◌, refl, ap, ◌∙◌, inl, inr, String, Bool, true, Option, none, some, List, [], ◌∷◌, same,
  arith, if◌then◌else◌, Bool-cases, Option-cases,
}
use ifascada.Domain.Device.{Device}
use ifascada.Domain.Tag.{Tag}
use ifascada.Pipeline.{PipelineFactory}
use ifascada.Settings.{AgentConfig}
use ifascada.Messaging.Client.{MqttMessage}
use ifascada.Reload.{
  Repository, ConfigManager, Outcome, finished, abandoned, panicked, World, Decoder, same_bytes,
  clean, restart, handle_reload, conclude, apply, receive, settle, store, prune, tag_key, to_save,
}

same_bytes_refl : (bs : List ℕ) → same_bytes bs bs ≡ true
same_bytes_refl [] = refl
same_bytes_refl (b ∷ bs) = ground (arith, same_bytes_refl bs)

module _ {F D R : Type 0} (is_alphanumeric : Char → Bool) (accepts : Device F → List (Tag F) → Bool)
    (factory : PipelineFactory F) (device_repo : Repository D (Device F))
    (tag_repo : Repository R (Tag F)) (decoder : Decoder F) where
  abbrev pub receives : World → MqttMessage → ConfigManager F D R → ConfigManager F D R × Bool
  receives = receive is_alphanumeric accepts factory device_repo tag_repo decoder

  -- What a reload leaves alone.
  record IsFrame (y x : ConfigManager F D R) : Type 0 where
    agent_id : y.agent_id ≡ x.agent_id
    last_payload : y.last_config_payload ≡ x.last_config_payload
    acks : y.acks ≡ x.acks

  abbrev restarts : ConfigManager F D R → ConfigManager F D R × Outcome
  restarts = restart is_alphanumeric accepts factory device_repo tag_repo

  restart-IsFrame : (x : ConfigManager F D R) → IsFrame (restarts x).0 x
  unfolding restart
  restart-IsFrame x = elim (Option-cases (tag_repo.find_by_agent x.agent_id x.tag_repository)) [
    | inl e ↦ rw (e, restart) (record { agent_id = refl; last_payload = refl; acks = refl })
    | inr (tags, e) ↦
        elim (Option-cases (device_repo.find_by_agent x.agent_id x.device_repository)) [
          | inl g ↦
              rw (e, g, restart) (record { agent_id = refl; last_payload = refl; acks = refl })
          | inr (devices, g) ↦
              rw (e, g, restart) (record { agent_id = refl; last_payload = refl; acks = refl })
        ]
  ]

  abbrev pub reloads : ℕ → AgentConfig F → ConfigManager F D R → ConfigManager F D R × Outcome
  reloads = handle_reload is_alphanumeric accepts factory device_repo tag_repo

  settle-IsFrame :
      (saved : Option (List String)) (x : ConfigManager F D R)
      → IsFrame (settle is_alphanumeric accepts factory device_repo tag_repo saved x).0 x
  unfolding settle
  settle-IsFrame none x = record { agent_id = refl; last_payload = refl; acks = refl }
  settle-IsFrame (some ids) x =
      let h =
        restart-IsFrame
          (record x { tag_repository = prune tag_repo tag_key x.agent_id ids x.tag_repository }) in
      record { agent_id = h.agent_id; last_payload = h.last_payload; acks = h.acks }

  handle_reload-IsFrame :
      (now : ℕ) (config : AgentConfig F) (x : ConfigManager F D R)
      → IsFrame (reloads now config x).0 x
  unfolding handle_reload store
  handle_reload-IsFrame now config x =
      let (y, saved) = store is_alphanumeric accepts factory device_repo tag_repo now config x in
      let h = settle-IsFrame saved y in
      record { agent_id = h.agent_id; last_payload = h.last_payload; acks = h.acks }

  abbrev pub applies : World → MqttMessage → ConfigManager F D R → ConfigManager F D R × Outcome
  applies = apply is_alphanumeric accepts factory device_repo tag_repo decoder

  -- What applying a message does to the topic, the remembered payload and the acknowledgements.
  pub record IsApplied (y x : ConfigManager F D R) (m : MqttMessage) : Type 0 where
    pub agent_id : y.agent_id ≡ x.agent_id
    pub last_payload : y.last_config_payload ≡ m.payload
    pub acks : y.acks ≡ x.acks

  pub apply-IsApplied :
      (w : World) (m : MqttMessage) (x : ConfigManager F D R) → IsApplied (applies w m x).0 x m
  unfolding apply
  apply-IsApplied w m x =
      elim (Option-cases (decoder.config (clean decoder.parse decoder.print m.payload))) [
        | inl e ↦ rw (e, apply) (record { agent_id = refl; last_payload = refl; acks = refl })
        | inr (config, e) ↦
            let h = handle_reload-IsFrame w.now config (record x {
              last_config_payload = m.payload;
              saved_file =
                  if w.written
                  then to_save decoder.parse decoder.print
                      (clean decoder.parse decoder.print m.payload)
                  else x.saved_file;
            }) in
            rw (e, apply)
              (record { agent_id = h.agent_id; last_payload = h.last_payload; acks = h.acks })
      ]

  conclude-frame :
      (m : MqttMessage) (r : ConfigManager F D R × Outcome)
      → let y = (conclude m r).0 in
        (y.agent_id ≡ r.0.agent_id) × (y.last_config_payload ≡ r.0.last_config_payload)
  unfolding conclude
  conclude-frame m (x, panicked) = (refl, refl)
  conclude-frame m (x, finished) = (refl, refl)
  conclude-frame m (x, abandoned) = (refl, refl)

  conclude-acks :
      (m : MqttMessage) (r : ConfigManager F D R × Outcome)
      → (conclude m r).1 ≡ true
      → (conclude m r).0.acks ≡ m.pkid ∷ r.0.acks
  unfolding conclude
  conclude-acks m (x, panicked) e = ground (arith, e)
  conclude-acks m (x, finished) e = refl
  conclude-acks m (x, abandoned) e = refl

  receive-known :
      (w : World) (m : MqttMessage) (x : ConfigManager F D R)
      → same m.topic (add_text "scada/config/" x.agent_id) ≡ true
      → same_bytes x.last_config_payload m.payload ≡ true
      → receives w m x ≡ (record x { acks = m.pkid ∷ x.acks }, true)
  unfolding receive
  receive-known w m x h e = rw (h, e, receive) refl

  -- What a receipt that goes on leaves.
  record IsReceived (y x : ConfigManager F D R) (m : MqttMessage) : Type 0 where
    agent_id : y.agent_id ≡ x.agent_id
    known : same_bytes y.last_config_payload m.payload ≡ true
    acks : y.acks ≡ m.pkid ∷ x.acks

  receive-IsReceived :
      (w : World) (m : MqttMessage) (x : ConfigManager F D R)
      → same m.topic (add_text "scada/config/" x.agent_id) ≡ true
      → (receives w m x).1 ≡ true
      → IsReceived (receives w m x).0 x m
  unfolding receive
  receive-IsReceived w m x h on = elim (Bool-cases (same_bytes x.last_config_payload m.payload)) [
    | inl e ↦ rw (h, e, receive) (record { agent_id = refl; known = e; acks = refl })
    | inr e ↦
        let a = apply-IsApplied w m x in
        let r = applies w m x in
        let c = conclude-frame m r in
        let go_on : (conclude m r).1 ≡ true = ground (arith, h, e, on) in
        rw (h, e, receive)
          (record {
            agent_id = c.0 ∙ a.agent_id;
            known =
                ap (λ p. same_bytes p m.payload) (c.1 ∙ a.last_payload) ∙ same_bytes_refl m.payload;
            acks = conclude-acks m r go_on ∙ ap (λ l. m.pkid ∷ l) a.acks;
          })
  ]

  -- A configuration that arrives twice, where its first receipt did not end the loop, is acknowledged both times, and the second receipt changes nothing else.
  pub receive_again :
      (w w' : World) (m : MqttMessage) (x : ConfigManager F D R)
      → same m.topic (add_text "scada/config/" x.agent_id) ≡ true
      → (receives w m x).1 ≡ true
      → let y = (receives w m x).0 in
        (y.acks ≡ m.pkid ∷ x.acks)
        × (receives w' m y ≡ (record y { acks = m.pkid ∷ m.pkid ∷ x.acks }, true))
  receive_again w w' m x h on =
      let y = (receives w m x).0 in
      let r = receive-IsReceived w m x h on in
      let g = ap (λ a. same m.topic (add_text "scada/config/" a)) r.agent_id ∙ h in
      (
        r.acks,
        receive-known w' m y g r.known ∙ ap (λ l. (record y { acks = m.pkid ∷ l }, true)) r.acks,
      )
