-- ===== src/Server/Load.antt =====
-- The loading of agents and tags from the database: crates/central-server/src/state.rs. The rows are
-- what the database answers.
use ifascada.Prelude.{
  ℕ, String, Bool, true, false, Option, none, some, List, [], ◌∷◌, same, unwrap_or, if◌then◌else◌,
}
use ifascada.Prelude.Map.{insert}
use ifascada.Json.{Value, null}
use ifascada.Server.{
  AgentStatus, online, offline, unknown, AgentData, TagData, AppState, unregistered,
}

-- The status of a row, where the column may be null.
unfoldable pub status_of : Option String → AgentStatus
status_of none = unknown
status_of (some s) =
    if same s "online" then online else if same s "offline" then offline else unknown

pub record TagRow (F : Type 0) : Type 0 where
  pub id : String
  pub agent_id : String
  pub last_value : Option (Value F)
  pub quality : Option String
  pub status : Option String
  pub last_update : Option ℕ

module _ {F : Type 0} where
  -- `none` is an error of the database.
  unfoldable pub load_agents :
      ℕ → List (String × Option String) → List (String × AgentData F) → List (String × AgentData F)
  load_agents now [] agents = agents
  load_agents now ((id, status) ∷ rows) agents =
      load_agents now rows (
        insert id (record (unregistered id (status_of status) now) { is_registered = true }) agents)

  unfoldable pub load_agents_from_db :
      ℕ → Option (List (String × Option String)) → AppState F → AppState F × Bool
  load_agents_from_db now none st = (st, false)
  load_agents_from_db now (some rows) st =
      (record st { agents = load_agents now rows st.agents }, true)

  unfoldable pub tag_of : ℕ → TagRow F → TagData F
  tag_of now row = record {
    id = row.id;
    agent_id = row.agent_id;
    value = unwrap_or row.last_value null;
    quality = unwrap_or row.quality "uncertain";
    status = unwrap_or row.status "unknown";
    timestamp = unwrap_or row.last_update now;
    received_at = none;
  }

  unfoldable pub load_tags :
      ℕ → List (TagRow F) → List (String × TagData F) → List (String × TagData F)
  load_tags now [] tags = tags
  load_tags now (row ∷ rows) tags = load_tags now rows (insert row.id (tag_of now row) tags)

  unfoldable pub load_tags_from_db : ℕ → Option (List (TagRow F)) → AppState F → AppState F × Bool
  load_tags_from_db now none st = (st, false)
  load_tags_from_db now (some rows) st = (record st { tags = load_tags now rows st.tags }, true)
