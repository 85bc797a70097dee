-- ===== src/Examples/Commands.antt =====
-- The commands of the central server at a concrete input.
use ifascada.Prelude.{
  ℕ, ◌≡◌, refl, String, Option, none, some, List, [], ◌∷◌, map, same, if◌then◌else◌,
}
use ifascada.Prelude.Int.{ℤ}
use ifascada.Float.{ℤ_float}
use ifascada.Json.{Value, Serde, object, string, field, end}
use ifascada.Domain.TagId.{TagId, all_allowed, allowed}
use ifascada.Domain.TagId
use ifascada.Domain.Event.{ReportItem}
use ifascada.Messaging.Client.{MqttMessage}
use ifascada.Messaging.Commands.{CommandListener, decode_items, handle_message}
use ifascada.Server.Api.{
  Api, BatchRow, batch_json, item_json, batch_print_events, reprint_report, publish, print_rows,
}
use ifascada.Server.Api.Commands.{handle_message-sent}
use ifascada.Examples.Sample.{ascii, num, weight}

abbrev row : ℕ → BatchRow ℤ
row n = record { value = num n; timestamp = "noon"; edge_agent_id = "a1"; tag_id = "weight" }

abbrev rows : List (BatchRow ℤ)
rows = row 2 ∷ []

abbrev sent : String → Option (Value ℤ)
sent s =
    if same s "batch"
    then some (batch_json "weight" (row 1 ∷ rows))
    else some (object (field "type" (string "ReprintReport") (field "report_id" (string "r7") end)))

instance abbrev serde : Serde ℤ
serde = record { to_string = λ v. "?"; from_str = sent }

-- The payloads are named by their first byte.
abbrev text_of : List ℕ → String
text_of [] = "reprint"
text_of (b ∷ bs) = "batch"

abbrev report_item : Value ℤ → Option (ReportItem ℤ)
report_item v = some (record { value = v; timestamp = 0; metadata = none })

abbrev count_items :
    Unit {0} → TagId → List (ReportItem ℤ) → List (ReportItem ℤ) → List (ReportItem ℤ)
count_items w id items printed = items

abbrev batch : MqttMessage
batch = record { topic = "scada/cmd/a1"; payload = 1 ∷ []; pkid = 4 }

abbrev reprint : MqttMessage
reprint = record { topic = "scada/cmd/a1"; payload = []; pkid = 5 }

abbrev listener : CommandListener (List (ReportItem ℤ))
listener = record { agent_id = "a1"; executor = []; acks = [] }

abbrev api : Api ℤ
api = record { app = record { agents = []; tags = []; sent = []; statements = [] }; published = [] }

handle_message-sent_example :
    ((handle_message ascii text_of report_item count_items tt batch listener).executor
      ≡ decode_items ascii text_of report_item count_items (map item_json (row 1 ∷ rows)))
    × ((handle_message ascii text_of report_item count_items tt reprint listener).executor ≡ [])
unfolding batch_print_events print_rows reprint_report publish same TagId.new all_allowed allowed
handle_message-sent_example =
    handle_message-sent ascii text_of report_item count_items tt 1 (2 ∷ []) (row 1) rows "r7" api
      weight batch reprint listener refl refl (batch_json "weight" (row 1 ∷ rows), [], refl, refl)
      (
        object (field "type" (string "ReprintReport") (field "report_id" (string "r7") end)),
        [],
        refl,
        refl,
      )
