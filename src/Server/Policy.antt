-- ===== src/Server/Policy.antt =====
-- The monitoring policy of the agents of crates/central-server/src/state.rs: thirty seconds, two misses.
use ifascada.Prelude.{
  ℕ, ◌≡◌, refl, sym, ◌∙◌, String, true, false, some, List, [], ◌∷◌, arith, same, unwrap_or,
  Bool-cases, Option-cases, inl, inr,
}
use ifascada.Prelude.Map.{lookup, insert, lookup-insert}
use mathlib.Core.Option
use ifascada.Server.{
  AgentStatus, AgentData, AppState, online, unknown, unregistered, update_tag,
  reset_all_tag_statuses, expire, check_agent_liveness,
}
use ifascada.Server.Lemmas.{check_agent_liveness-agents}
use ifascada.Server.Heartbeat.{
  Op, reports, beats, tags, resets, checks, step, run, update_agent_status-agents,
  update_agent_heartbeat-agents,
}

module _ {F : Type 0} where
  -- The policy of an agent, which no operation changes.
  pub record HasPolicy (a : AgentData F) : Type 0 where
    pub interval : a.heartbeat_interval_secs ≡ 30
    pub threshold : a.missed_threshold ≡ 2

  abbrev pub AllHavePolicy : List (String × AgentData F) → Type 0
  AllHavePolicy agents = (k : String) (a : AgentData F) → lookup k agents ≡ some a → HasPolicy a

  insert-policy :
      (j : String) (b : AgentData F) (agents : List (String × AgentData F))
      → HasPolicy b
      → AllHavePolicy agents
      → AllHavePolicy (insert j b agents)
  insert-policy j b agents h all k a e = elim (Bool-cases (same j k)) [
    | inl t ↦
        let g : some b ≡ some a = sym (lookup-insert j k b agents ∙ rw t refl) ∙ e in
        record { interval = ground (arith, g, h); threshold = ground (arith, g, h) }
    | inr f ↦ all k a (sym (lookup-insert j k b agents ∙ rw f refl) ∙ e)
  ]

  pub known-policy :
      (id : String) (s : AgentStatus) (now : ℕ) (agents : List (String × AgentData F))
      → AllHavePolicy agents
      → HasPolicy (unwrap_or (lookup id agents) (unregistered id s now))
  known-policy id s now agents all = elim (Option-cases (lookup id agents)) [
    | inl e ↦ rw e (record { interval = refl; threshold = refl })
    | inr (a, e) ↦ rw e (all id a e)
  ]

  expire-policy : (now : ℕ) (a : AgentData F) → HasPolicy a → HasPolicy (expire now a)
  unfolding expire
  expire-policy now a h = record {
    interval = ground (arith, h.interval);
    threshold = ground (arith, h.threshold);
  }

  check-policy :
      (now : ℕ) (st : AppState F)
      → AllHavePolicy st.agents
      → AllHavePolicy (check_agent_liveness now st).agents
  check-policy now st all k b e =
      let g : Option.map (expire now) (lookup k st.agents) ≡ some b =
        sym (check_agent_liveness-agents now k st) ∙ e in
      elim (Option-cases (lookup k st.agents)) [
        | inl n ↦ ground (arith, g, n)
        | inr (a, h) ↦
            let p = expire-policy now a (all k a h) in
            record { interval = ground (arith, g, h, p); threshold = ground (arith, g, h, p) }
      ]

  step-policy :
      (op : Op F) (st : AppState F) → AllHavePolicy st.agents → AllHavePolicy (step op st).agents
  step-policy (reports now id status) st all =
      let h = known-policy id unknown now st.agents all in
      rw (update_agent_status-agents now id status st) (
        insert-policy id _ st.agents (record { interval = h.interval; threshold = h.threshold })
          all)
  step-policy (beats now id metrics) st all =
      let h = known-policy id online now st.agents all in
      rw (update_agent_heartbeat-agents now id metrics st) (
        insert-policy id _ st.agents (record { interval = h.interval; threshold = h.threshold })
          all)
  step-policy (tags now t) st all = unfold update_tag in all
  step-policy (resets true) st all = unfold reset_all_tag_statuses in all
  step-policy (resets false) st all = unfold reset_all_tag_statuses in all
  step-policy (checks now) st all = check-policy now st all

  pub run-policy :
      (ops : List (Op F)) (st : AppState F)
      → AllHavePolicy st.agents
      → AllHavePolicy (run ops st).agents
  run-policy [] st all = all
  run-policy (op ∷ ops) st all = run-policy ops (step op st) (step-policy op st all)
