-- ===== src/Server/Liveness.antt =====
-- When an agent counts as online: the heartbeats and the check of crates/central-server/src/state.rs.
use mathlib.Core.Option
use ifascada.Prelude.{
  ℕ, ◌-◌, ◌/◌, ◌<◌, ◌≡◌, refl, ap, ◌∙◌, String, some, List, arith, same_refl, All, if◌then◌else◌,
}
use ifascada.Prelude.Map.{lookup, lookup-insert}
use ifascada.Json.{Value}
use ifascada.Server.{
  AgentData, AppState, online, offline, new, update_agent_heartbeat, is_expired, expire,
  check_agent_liveness,
}
use ifascada.Server.Lemmas.{check_agent_liveness-agents}
use ifascada.Server.Policy.{known-policy, run-policy}
use ifascada.Server.Heartbeat.{
  Op, run, Quiet, IsOnline, seen, run-lookup, update_agent_heartbeat-agents,
}

module _ {F : Type 0} (past : List (Op F)) (t : ℕ) (id : String) (metrics : Value F)
    (later : List (Op F)) where
  -- A history, a heartbeat, and what follows it.
  abbrev pub story : AppState F
  story = run later (update_agent_heartbeat t id metrics (run past new))

  seen-IsOnline : IsOnline t (seen t id metrics (run past new))
  unfolding lookup
  seen-IsOnline =
      let h =
        known-policy id online t (run past new).agents
          (run-policy past new (λ k a e. ground (arith, e))) in
      record { alive = refl; seen_at = refl; interval = h.interval; threshold = h.threshold }

  story-lookup :
      All (Quiet t id) later → lookup id story.agents ≡ some (seen t id metrics (run past new))
  story-lookup quiet =
      run-lookup t id (seen t id metrics (run past new)) later _ quiet seen-IsOnline (
        ap (lookup id) (update_agent_heartbeat-agents t id metrics (run past new))
        ∙ lookup-insert id id (seen t id metrics (run past new)) (run past new).agents
        ∙ ap
            (λ b.
              if b
              then some (seen t id metrics (run past new))
              else lookup id (run past new).agents)
            (same_refl id))

  -- After a heartbeat an agent stays online, last seen at that heartbeat, as long as it sends nothing more, no status of it is reported, and no check comes later than ninety whole seconds after it; whatever other agents and tags do.
  pub heartbeat-online :
      All (Quiet t id) later
      → (a : AgentData F) × (lookup id story.agents ≡ some a)
        × (a.status ≡ online)
        × (a.last_seen ≡ t)
  heartbeat-online quiet = (seen t id metrics (run past new), story-lookup quiet, refl, refl)

  -- The first check that comes more than ninety whole seconds after a heartbeat puts the agent offline, if the agent sent nothing more and no status of it was reported meanwhile.
  pub heartbeat-expires :
      (now : ℕ)
      → All (Quiet t id) later
      → 90 < (now - t) / 1000
      → (a : AgentData F) × (lookup id (check_agent_liveness now story).agents ≡ some a)
        × (a.status ≡ offline)
  unfolding expire is_expired
  heartbeat-expires now quiet late =
      let a = seen t id metrics (run past new) in
      let h = seen-IsOnline in
      (
        expire now a,
        check_agent_liveness-agents now id story
            ∙ ap (Option.map (expire now)) (story-lookup quiet),
        ground (arith, h.alive, h.seen_at, h.interval, h.threshold, late),
      )
