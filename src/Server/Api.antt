-- ===== src/Server/Api.antt =====
-- The HTTP interface of the central server: crates/central-server/src/api.rs. A handler gives the JSON of
-- its answer; the rows of its queries are what the database answers.
pub mod History
pub mod Commands
use Prim.Native.String.{◌++◌ as add_text}
use ifascada.Prelude.{
  ℕ, String, Bool, true, false, Option, none, some, List, [], ◌∷◌, map, length, same, if◌then◌else◌,
  and_then, unwrap_or, Result, ok, err,
}
use ifascada.Prelude.Map.{lookup}
use mathlib.Core.Option
use ifascada.Float.{Float}
use ifascada.Json.{
  Value, Items, Fields, Serde, null, bool, number, pos_int, string, array, object, nil, cons, field,
  end, get, as_f64, as_str, of_f64, number_as_f64,
}
use ifascada.Server.{TagData, AppState}

-- A message to an agent: its topic and its payload.
pub record Api (F : Type 0) : Type 0 where
  pub app : AppState F
  pub published : List (String × Value F)  -- what the broker took, newest first

module _ {F : Type 0} where
  abbrev pub message : String → String → Value F
  message key text = object (field key (string text) end)

  unfoldable pub items_of : List (Value F) → Items F
  items_of [] = nil
  items_of (v ∷ vs) = cons v (items_of vs)

  -- The answer to a publication: `none`, or the text of an error.
  unfoldable pub publish : Option String → String → Value F → Value F → Api F → Api F × Value F
  publish none topic payload reply x =
      (record x { published = (topic, payload) ∷ x.published }, reply)
  publish (some e) topic payload reply x = (x, message "error" e)

  -- `to_json` is the derived printing of a tag.
  unfoldable pub get_tag : (TagData F → Value F) → String → Api F → Value F
  get_tag to_json id x = elim (lookup id x.app.tags) [
    | some tag ↦ to_json tag
    | none ↦ message "error" "Tag not found"
  ]

  unfoldable pub send_command : Option String → String → Value F → Api F → Api F × Value F
  send_command answer agent_id payload x =
      publish answer (add_text "scada/cmd/" agent_id) payload (message "status" "Command sent") x

  -- The row of a report, as the database answers: its id and its agent, none, or an error.
  unfoldable pub reprint_report :
      Option String → Option (Option (String × String)) → Api F → Api F × Value F
  reprint_report answer (some (some (report_id, agent_id))) x =
      publish answer (add_text "scada/cmd/" agent_id)
        (object (field "type" (string "ReprintReport") (field "report_id" (string report_id) end)))
        (message "status" "Reprint command sent") x
  reprint_report answer _ x = (x, message "error" "Report not found")

-- A row of the query for a batch: an event with its tag and the agent of its device.
pub record BatchRow (F : Type 0) : Type 0 where
  pub value : Value F
  pub timestamp : String  -- as it is printed
  pub edge_agent_id : String
  pub tag_id : String

module _ {F : Type 0} ⦃f : Float F⦄ where
  unfoldable pub weight_of : Value F → F
  weight_of (number n) = number_as_f64 n
  weight_of (object m) = unwrap_or (and_then (get "value" (object m)) as_f64) (f.of_u64 0)
  weight_of _ = f.of_u64 0

  unfoldable pub unit_of : Value F → String
  unit_of (object m) = unwrap_or (and_then (get "unit" (object m)) as_str) "kg"
  unit_of _ = "kg"

  unfoldable pub item_json : BatchRow F → Value F
  unfolding weight_of unit_of
  item_json r = object (
      field "value" (of_f64 (weight_of r.value))
        (field "unit" (string (unit_of r.value)) (field "timestamp" (string r.timestamp) end)))

  unfoldable pub batch_json : String → List (BatchRow F) → Value F
  unfolding item_json items_of
  batch_json tag_id rows = object (
      field "type" (string "PrintBatchManual") (
        field "tag_id" (string tag_id) (field "items" (array (items_of (map item_json rows))) end)))

  -- The batch goes to the agent of the first row.
  unfoldable pub print_rows : Option String → List (BatchRow F) → Api F → Api F × Value F
  unfolding batch_json
  print_rows answer [] x = (x, message "error" "No events found for given IDs")
  print_rows answer (r ∷ rows) x =
      publish answer (add_text "scada/cmd/" r.edge_agent_id) (batch_json r.tag_id (r ∷ rows))
        (object (
          field "status" (string "Batch print command sent")
            (field "count" (number (pos_int (length (r ∷ rows)))) end)))
        x

  -- `rows` is the answer to the query, or the text of an error.
  unfoldable pub batch_print_events :
      Option String → List ℕ → Result (List (BatchRow F)) String → Api F → Api F × Value F
  unfolding print_rows
  batch_print_events answer [] rows x = (x, message "error" "No event IDs provided")
  batch_print_events answer (i ∷ ids) (ok rows) x = print_rows answer rows x
  batch_print_events answer (i ∷ ids) (err e) x = (x, message "error" e)
