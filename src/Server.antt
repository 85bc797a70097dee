-- ===== src/Server.antt =====
-- crates/central-server/src/state.rs: what the central server knows of agents and tags. Clock readings
-- are milliseconds; SQL statements that run in tasks of their own are listed, newest first.
pub mod Load
pub mod Lemmas
pub mod Heartbeat
pub mod Policy
pub mod Liveness
pub mod Tags
pub mod Database
pub mod Telemetry
pub mod Reports
pub mod Messages
pub mod Flusher
pub mod ConfigService
pub mod Api
use ifascada.Prelude.{
  ℕ, ◌+◌, ◌-◌, ◌*◌, ◌/◌, String, Bool, true, false, Option, none, some, List, [], ◌∷◌, ◌++◌, same,
  ltb, and_then, unwrap_or, if◌then◌else◌,
}
use ifascada.Prelude.Map.{lookup, insert, contains}
use ifascada.Json.{Value, get, as_array, as_str, null}
use ifascada.Domain.Event.{ReportItem}

pub data AgentStatus : Type 0 where
  online offline unknown : AgentStatus

unfoldable pub to_string : AgentStatus → String
to_string online = "Online"
to_string offline = "Offline"
to_string unknown = "Unknown"

pub record AgentData (F : Type 0) : Type 0 where
  pub id : String
  pub status : AgentStatus
  pub last_seen : ℕ
  pub metrics : Option (Value F)
  pub is_registered : Bool
  pub heartbeat_interval_secs : ℕ  -- i32
  pub missed_threshold : ℕ  -- i32

pub record TagData (F : Type 0) : Type 0 where
  pub id : String
  pub agent_id : String
  pub value : Value F
  pub quality : String
  pub status : String
  pub timestamp : ℕ
  pub received_at : Option ℕ

pub record ReportData (F : Type 0) : Type 0 where
  pub report_id : String
  pub agent_id : String
  pub items : List (ReportItem F)
  pub timestamp : ℕ

pub data SystemEvent (F : Type 0) : Type 0 where
  tag_changed : TagData F → SystemEvent F
  agent_status_changed : AgentData F → SystemEvent F
  report_completed : ReportData F → SystemEvent F

-- The statements: a row of `agent_status_history` with its reason, and updates of agents and tags.
pub data Statement : Type 0 where
  history : (agent old new : String) → Option String → Statement
  set_agent : (status agent : String) → Statement
  set_tag : (status quality tag : String) → Statement
  set_tags_of : (status quality agent : String) → Statement
  set_all_tags : (status quality : String) → Statement

-- The maps are keyed by the id of the agent and of the tag.
pub record AppState (F : Type 0) : Type 0 where
  pub agents : List (String × AgentData F)
  pub tags : List (String × TagData F)
  pub sent : List (SystemEvent F)  -- newest first
  pub statements : List Statement

-- The statements of an expiry.
abbrev pub expiry : String → List Statement
expiry id =
    set_tags_of "offline" "uncertain" id
    ∷ set_agent "offline" id
    ∷ history id "Online" "Offline" (some "Heartbeat timeout")
    ∷ []

abbrev lower : AgentStatus → String
lower online = "online"
lower offline = "offline"
lower unknown = "unknown"

module _ {F : Type 0} where
  abbrev pub new : AppState F
  new = record { agents = []; tags = []; sent = []; statements = [] }

  -- An agent that is heard of for the first time.
  abbrev pub unregistered : String → AgentStatus → ℕ → AgentData F
  unregistered id status now = record {
    id = id;
    status = status;
    last_seen = now;
    metrics = none;
    is_registered = false;
    heartbeat_interval_secs = 30;
    missed_threshold = 2;
  }

  unfoldable pub update_agent_status : ℕ → String → AgentStatus → AppState F → AppState F
  update_agent_status now id status st =
      let old = unwrap_or (lookup id st.agents) (unregistered id unknown now) in
      let agent = record old { status = status; last_seen = now } in
      let kept = record st { agents = insert id agent st.agents } in
      if same (to_string old.status) (to_string status) then kept else record kept {
        sent = agent_status_changed agent ∷ st.sent;
        statements =
            set_agent (lower status) id
            ∷ history id (to_string old.status) (to_string status) none
            ∷ st.statements;
      }

  -- The ids in the heartbeat's list; other values are skipped.
  unfoldable pub texts : List (Value F) → List String
  texts [] = []
  texts (v ∷ vs) = let rest = texts vs in elim (as_str v) [ none ↦ rest | some s ↦ s ∷ rest ]

  unfoldable pub tags_of : String → List (String × TagData F) → List String
  tags_of agent [] = []
  tags_of agent ((k, t) ∷ tags) =
      let rest = tags_of agent tags in if same t.agent_id agent then t.id ∷ rest else rest

  -- A tag of the agent, by whether the heartbeat lists it.
  unfoldable pub refresh : List String → String → TagData F → TagData F
  refresh active id t =
      let status = if contains id active then "online" else "offline" in
      if same t.status status then t else record t {
        status = status;
        quality = if contains id active then "Good" else "Uncertain";
      }

  unfoldable pub refresh_statement : List String → String → TagData F → List Statement
  refresh_statement active id t =
      let status = if contains id active then "online" else "offline" in
      if same t.status status
      then []
      else set_tag status (if contains id active then "good" else "uncertain") id ∷ []

  unfoldable pub refresh_one : List String → String → AppState F → AppState F
  refresh_one active id st = elim (lookup id st.tags) [
    | none ↦ st
    | some t ↦ record st {
      tags = insert id (refresh active id t) st.tags;
      statements = refresh_statement active id t ++ st.statements;
    }
  ]

  unfoldable pub refresh_all : List String → List String → AppState F → AppState F
  refresh_all active [] st = st
  refresh_all active (id ∷ ids) st = refresh_all active ids (refresh_one active id st)

  -- The agent's own part of a heartbeat.
  unfoldable pub see_agent : ℕ → String → Value F → AppState F → AppState F
  see_agent now id metrics st =
      let old = unwrap_or (lookup id st.agents) (unregistered id online now) in
      let agent = record old { status = online; last_seen = now; metrics = some metrics } in
      record st {
        agents = insert id agent st.agents;
        statements =
            if same (to_string old.status) "Online"
            then st.statements
            else set_agent "online" id
              ∷ history id (to_string old.status) "Online" (some "Heartbeat recovered")
              ∷ st.statements;
      }

  unfoldable pub see_tags : String → Value F → AppState F → AppState F
  see_tags id metrics st = elim (and_then (get "tag_ids" metrics) as_array) [
    | none ↦ st
    | some ids ↦ refresh_all (texts ids) (tags_of id st.tags) st
  ]

  -- The change is always notified, last.
  unfoldable pub notify : String → AppState F → AppState F
  notify id st = elim (lookup id st.agents) [
    | none ↦ st
    | some agent ↦ record st { sent = agent_status_changed agent ∷ st.sent }
  ]

  unfoldable pub update_agent_heartbeat : ℕ → String → Value F → AppState F → AppState F
  update_agent_heartbeat now id metrics st =
      notify id (see_tags id metrics (see_agent now id metrics st))

  unfoldable pub update_tag : ℕ → TagData F → AppState F → AppState F
  update_tag now t st =
      let received = record t { received_at = some now } in
      record st { tags = insert t.id received st.tags; sent = tag_changed received ∷ st.sent }

  abbrev pub set_offline : TagData F → TagData F
  set_offline t = record t { status = "offline"; quality = "uncertain" }

  unfoldable pub over_tags :
      (TagData F → TagData F) → List (String × TagData F) → List (String × TagData F)
  over_tags f [] = []
  over_tags f ((k, t) ∷ tags) = (k, f t) ∷ over_tags f tags

  -- Whether the statement succeeds is the database's answer.
  unfoldable pub reset_all_tag_statuses : Bool → AppState F → AppState F × Bool
  reset_all_tag_statuses false st = (st, false)
  reset_all_tag_statuses true st = (
    record st {
      tags = over_tags set_offline st.tags;
      statements = set_all_tags "offline" "uncertain" ∷ st.statements;
    },
    true,
  )

  unfoldable pub is_expired : ℕ → AgentData F → Bool
  is_expired now a = elim a.status [
    | online ↦
        ltb (a.heartbeat_interval_secs * (a.missed_threshold + 1)) ((now - a.last_seen) / 1000)
    | offline ↦ false
    | unknown ↦ false
  ]

  unfoldable pub expire : ℕ → AgentData F → AgentData F
  expire now a = if is_expired now a then record a { status = offline } else a

  -- The tags of an agent that expired.
  unfoldable pub drop_tags : String → List (String × TagData F) → List (String × TagData F)
  drop_tags agent = over_tags (λ t. if same t.agent_id agent then set_offline t else t)

  -- The loop over the agents: the agents after it, the tags, the statements, and the agents to notify.
  unfoldable pub check_agents :
      ℕ → List (String × AgentData F) → AppState F → AppState F × List (SystemEvent F)
  check_agents now [] st = (record st { agents = [] }, [])
  check_agents now ((k, a) ∷ rest) st =
      let b = expire now a in
      let expired = record st {
        tags = drop_tags a.id st.tags;
        statements = expiry a.id ++ st.statements;
      } in
      let (st', events) = check_agents now rest (if is_expired now a then expired else st) in
      (
        record st' { agents = (k, b) ∷ st'.agents },
        if is_expired now a then agent_status_changed b ∷ events else events,
      )

  abbrev notify_all : List (SystemEvent F) → AppState F → AppState F
  notify_all [] st = st
  notify_all (e ∷ events) st = notify_all events (record st { sent = e ∷ st.sent })

  unfoldable pub check_agent_liveness : ℕ → AppState F → AppState F
  check_agent_liveness now st =
      let (st', events) = check_agents now st.agents st in notify_all events st'
