-- ===== src/Examples/Server.antt =====
-- Theorems about the central server at concrete inputs.
use ifascada.Prelude.{◌≡◌, some, none, List, [], ◌∷◌, arith}
use ifascada.Prelude.Int.{ℤ}
use ifascada.Prelude.Map.{lookup}
use ifascada.Json.{Value, object, array, field, end, cons, nil, get, entry, as_array, elements}
use ifascada.Json
use ifascada.Server.{
  AgentData, TagData, AppState, online, offline, texts, tags_of, update_tag, update_agent_heartbeat,
  check_agent_liveness,
}
use ifascada.Server
use ifascada.Server.Heartbeat.{Op, beats, checks, tags, run}
use ifascada.Server.Liveness.{story, heartbeat-online, heartbeat-expires}
use ifascada.Examples.Sample.{num}

abbrev metrics : Value ℤ
metrics = object (field "tag_ids" (array (cons (Json.string "t1") nil)) end)

abbrev tag : TagData ℤ
tag = record {
  id = "t1";
  agent_id = "a1";
  value = num 1;
  quality = "good";
  status = "unknown";
  timestamp = 0;
  received_at = none;
}

abbrev past : List (Op ℤ)
past = tags 10 tag ∷ beats 20 "a2" metrics ∷ []

abbrev later : List (Op ℤ)
later = checks 90000 ∷ []

heartbeat-online_example :
    (a : AgentData ℤ) × (lookup "a1" (story past 1000 "a1" metrics later).agents ≡ some a)
    × (a.status ≡ online)
    × (a.last_seen ≡ 1000)
heartbeat-online_example = heartbeat-online past 1000 "a1" metrics later (omega arith, tt)

heartbeat-expires_example :
    (a : AgentData ℤ) × (lookup "a1"
        (check_agent_liveness 92000 (story past 1000 "a1" metrics later)).agents
      ≡ some a)
    × (a.status ≡ offline)
heartbeat-expires_example =
    heartbeat-expires past 1000 "a1" metrics later 92000 (omega arith, tt) (omega arith)

abbrev state : AppState ℤ
state = run (past) Server.new
