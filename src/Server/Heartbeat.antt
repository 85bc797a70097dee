-- ===== src/Server/Heartbeat.antt =====
-- How long an agent counts as online, and what its heartbeat says of its tags:
-- crates/central-server/src/state.rs.
use ifascada.Prelude.{
  ℕ, ◌-◌, ◌/◌, ◌≤◌, ◌≡◌, refl, ap, ◌∙◌, String, Bool, true, false, some, List, [], ◌∷◌, arith, same,
  and_then, unwrap_or, Bool-cases, Option-cases, inl, inr, All,
}
use ifascada.Prelude.Map.{lookup, insert, lookup-insert}
use mathlib.Core.Option
use ifascada.Json.{Value, get, as_array}
use ifascada.Server.{
  AgentStatus, AgentData, TagData, AppState, to_string, online, unknown, unregistered,
  update_agent_status, texts, tags_of, refresh_one, refresh_all, see_agent, see_tags, notify,
  update_agent_heartbeat, update_tag, reset_all_tag_statuses, is_expired, expire,
  check_agent_liveness,
}
use ifascada.Server.Lemmas.{check_agent_liveness-agents}

pub data Op (F : Type 0) : Type 0 where
  reports : (now : ℕ) (agent : String) → AgentStatus → Op F
  beats : (now : ℕ) (agent : String) → Value F → Op F
  tags : (now : ℕ) → TagData F → Op F
  resets : Bool → Op F
  checks : (now : ℕ) → Op F

module _ {F : Type 0} where
  abbrev pub step : Op F → AppState F → AppState F
  step (reports now id status) st = update_agent_status now id status st
  step (beats now id metrics) st = update_agent_heartbeat now id metrics st
  step (tags now t) st = update_tag now t st
  step (resets ok) st = (reset_all_tag_statuses ok st).0
  step (checks now) st = check_agent_liveness now st

  abbrev pub run : List (Op F) → AppState F → AppState F
  run [] st = st
  run (op ∷ ops) st = run ops (step op st)

  refresh_one-agents :
      (active : List String) (id : String) (st : AppState F)
      → (refresh_one active id st).agents ≡ st.agents
  unfolding refresh_one
  refresh_one-agents active id st = ground arith

  refresh_all-agents :
      (active ids : List String) (st : AppState F) → (refresh_all active ids st).agents ≡ st.agents
  unfolding refresh_all refresh_one
  refresh_all-agents active [] st = refl
  refresh_all-agents active (id ∷ ids) st =
      refresh_all-agents active ids (refresh_one active id st) ∙ refresh_one-agents active id st

  see_tags-agents :
      (id : String) (metrics : Value F) (st : AppState F)
      → (see_tags id metrics st).agents ≡ st.agents
  unfolding see_tags
  see_tags-agents id metrics st = elim (Option-cases (and_then (get "tag_ids" metrics) as_array)) [
    | inl e ↦ ground arith
    | inr (ids, e) ↦ ground (arith, refresh_all-agents (texts ids) (tags_of id st.tags) st)
  ]

  notify-agents : (id : String) (st : AppState F) → (notify id st).agents ≡ st.agents
  unfolding notify
  notify-agents id st = ground arith

  -- The agent that a heartbeat leaves.
  abbrev pub seen : ℕ → String → Value F → AppState F → AgentData F
  seen now id metrics st = record (unwrap_or (lookup id st.agents) (unregistered id online now)) {
    status = online;
    last_seen = now;
    metrics = some metrics;
  }

  pub update_agent_heartbeat-agents :
      (now : ℕ) (id : String) (metrics : Value F) (st : AppState F)
      → (update_agent_heartbeat now id metrics st).agents
        ≡ insert id (seen now id metrics st) st.agents
  unfolding update_agent_heartbeat see_agent
  update_agent_heartbeat-agents now id metrics st =
      notify-agents id (see_tags id metrics (see_agent now id metrics st))
      ∙ see_tags-agents id metrics (see_agent now id metrics st)

  pub update_agent_status-agents :
      (now : ℕ) (id : String) (status : AgentStatus) (st : AppState F)
      → (update_agent_status now id status st).agents
        ≡ insert id
            (record (unwrap_or (lookup id st.agents) (unregistered id unknown now)) {
              status = status;
              last_seen = now;
            })
            st.agents
  unfolding update_agent_status
  update_agent_status-agents now id status st =
      elim (Bool-cases (
        same (to_string (unwrap_or (lookup id st.agents) (unregistered id unknown now)).status)
          (to_string status))) [ inl e ↦ rw e refl | inr e ↦ rw e refl ]

  -- The operation is not the agent's own, and a check comes within ninety seconds of the given time.
  abbrev pub Quiet : ℕ → String → Op F → Type 0
  Quiet t id (reports now j status) = same j id ≡ false
  Quiet t id (beats now j metrics) = same j id ≡ false
  Quiet t id (tags now tag) = Unit
  Quiet t id (resets ok) = Unit
  Quiet t id (checks now) = (now - t) / 1000 ≤ 90

  pub record IsOnline (t : ℕ) (a : AgentData F) : Type 0 where
    pub alive : a.status ≡ online
    pub seen_at : a.last_seen ≡ t
    pub interval : a.heartbeat_interval_secs ≡ 30
    pub threshold : a.missed_threshold ≡ 2

  kept-other :
      (id j : String) (a b : AgentData F) (agents : List (String × AgentData F))
      → same j id ≡ false
      → lookup id agents ≡ some a
      → lookup id (insert j b agents) ≡ some a
  kept-other id j a b agents ne h = lookup-insert j id b agents ∙ rw ne h

  expire-IsOnline :
      (t now : ℕ) (a : AgentData F) → (now - t) / 1000 ≤ 90 → IsOnline t a → expire now a ≡ a
  unfolding expire is_expired
  expire-IsOnline t now a near h = ground arith

  step-lookup :
      (t : ℕ) (id : String) (a : AgentData F) (op : Op F) (st : AppState F)
      → Quiet t id op
      → IsOnline t a
      → lookup id st.agents ≡ some a
      → lookup id (step op st).agents ≡ some a
  step-lookup t id a (reports now j status) st q o h =
      ap (lookup id) (update_agent_status-agents now j status st)
      ∙ kept-other id j a _ st.agents q h
  step-lookup t id a (beats now j metrics) st q o h =
      ap (lookup id) (update_agent_heartbeat-agents now j metrics st)
      ∙ kept-other id j a _ st.agents q h
  step-lookup t id a (tags now tag) st q o h = unfold update_tag in h
  step-lookup t id a (resets true) st q o h = unfold reset_all_tag_statuses in h
  step-lookup t id a (resets false) st q o h = unfold reset_all_tag_statuses in h
  step-lookup t id a (checks now) st q o h =
      check_agent_liveness-agents now id st
      ∙ ap (Option.map (expire now)) h
      ∙ ap some (expire-IsOnline t now a q o)

  pub run-lookup :
      (t : ℕ) (id : String) (a : AgentData F) (ops : List (Op F)) (st : AppState F)
      → All (Quiet t id) ops
      → IsOnline t a
      → lookup id st.agents ≡ some a
      → lookup id (run ops st).agents ≡ some a
  run-lookup t id a [] st q o h = h
  run-lookup t id a (op ∷ ops) st (q, later) o h =
      run-lookup t id a ops (step op st) later o (step-lookup t id a op st q o h)
