-- ===== src/Server/ConfigService/Debounced.antt =====
-- How often crates/central-server/src/services/config_service.rs synchronizes an agent.
use ifascada.Prelude.{
  ℕ, ◌+◌, ◌≤◌, ◌≡◌, refl, sym, ap, ◌∙◌, inl, inr, String, false, Option, none, some, List, [], ◌∷◌,
  same, same_iff, if-elim, and_then, arith, Bool-cases,
}
use ifascada.Prelude.Map.{lookup, lookup-insert}
use ifascada.Text.{starts_with, trim_start_matches}
use ifascada.Text.Utf8.{from_utf8}
use ifascada.Json.{Value, get, as_str}
use ifascada.Messaging.Client.{MqttMessage}
use ifascada.Server.ConfigService.{
  World, ConfigService, new, is_recent, publish_config, sync_config, debounce, handle_status,
  handle_payload, handle_status_message, start,
}

-- The times of the agents that were synchronized: any two that follow each other are ten seconds apart.
abbrev pub IsSpaced : List (String × ℕ) → Type 0
IsSpaced [] = Unit
IsSpaced ((agent, t) ∷ rest) =
    ((u : ℕ) → lookup agent rest ≡ some u → u + 10000 ≤ t) × IsSpaced rest

-- The service remembers the last time of every agent.
record IsDebounced (s : ConfigService) : Type 0 where
  remembered : (agent : String) → lookup agent s.last_sync ≡ lookup agent s.synced
  spaced : IsSpaced s.synced

recent-le : (now last : ℕ) → is_recent now (some last) ≡ false → last + 10000 ≤ now
unfolding is_recent
recent-le now last h = ground (arith, h)

publish_config-IsDebounced :
    (w : World) (agent : String) (o : Option String) (s : ConfigService)
    → IsDebounced s
    → IsDebounced (publish_config w agent o s)
unfolding publish_config
publish_config-IsDebounced w agent none s h = h
publish_config-IsDebounced w agent (some c) s h =
    if-elim IsDebounced w.publishes _ s (record { remembered = h.remembered; spaced = h.spaced }) h

debounce-IsDebounced :
    (w : World) (agent : String) (s : ConfigService)
    → IsDebounced s
    → IsDebounced (debounce w agent s)
unfolding debounce sync_config lookup
debounce-IsDebounced w agent s h = elim (Bool-cases (is_recent w.now (lookup agent s.last_sync))) [
  | inl e ↦ rw e h
  | inr e ↦ rw e (
      publish_config-IsDebounced w agent w.config _ (record {
        remembered = λ a.
            ground
              (arith, lookup-insert agent a w.now s.last_sync, h.remembered a, same_iff agent a);
        spaced = (
          λ u g. recent-le w.now u (ap (is_recent w.now) (sym (h.remembered agent ∙ g)) ∙ e),
          h.spaced,
        );
      }))
]

handle_status-IsDebounced :
    (w : World) (agent : String) (o : Option String) (s : ConfigService)
    → IsDebounced s
    → IsDebounced (handle_status w agent o s)
unfolding handle_status
handle_status-IsDebounced w agent none s h = h
handle_status-IsDebounced w agent (some status) s h =
    if-elim IsDebounced (same status "ONLINE") (debounce w agent s) s
      (debounce-IsDebounced w agent s h) h

module _ {F : Type 0} (from_str : String → Option (Value F)) where
  handle_payload-IsDebounced :
      (w : World) (agent : String) (o : Option (Value F)) (s : ConfigService)
      → IsDebounced s
      → IsDebounced (handle_payload from_str w agent o s)
  unfolding handle_payload
  handle_payload-IsDebounced w agent none s h = h
  handle_payload-IsDebounced w agent (some v) s h =
      handle_status-IsDebounced w agent (and_then (get "status" v) as_str) s h

  handle_status_message-IsDebounced :
      (w : World) (m : MqttMessage) (s : ConfigService)
      → IsDebounced s
      → IsDebounced (handle_status_message from_str w m s)
  unfolding handle_status_message
  handle_status_message-IsDebounced w m s h =
      let payload = and_then (from_utf8 m.payload) from_str in
      let k =
        handle_payload-IsDebounced w (trim_start_matches m.topic "scada/status/") payload s h in
      record { remembered = k.remembered; spaced = k.spaced }

  start-IsDebounced :
      (ms : List (World × MqttMessage)) (s : ConfigService)
      → IsDebounced s
      → IsDebounced (start from_str ms s)
  unfolding start
  start-IsDebounced [] s h = h
  start-IsDebounced ((w, m) ∷ ms) s h = start-IsDebounced ms _ (
      if-elim IsDebounced (starts_with m.topic "scada/status/")
        (handle_status_message from_str w m s) s (handle_status_message-IsDebounced w m s h) h)

  -- Whatever status messages arrive, and however often an agent comes online, the service synchronizes it at most once in ten seconds.
  pub start-IsSpaced : (ms : List (World × MqttMessage)) → IsSpaced (start from_str ms new).synced
  unfolding lookup
  start-IsSpaced ms =
      (start-IsDebounced ms new (record { remembered = λ a. refl; spaced = tt })).spaced
