-- ===== src/Server/Api/Commands.antt =====
-- The commands that crates/central-server/src/api.rs sends, as the listener of the agent
-- (crates/application/src/messaging/command_listener.rs) receives them.
use Prim.Native.Char.{Char}
use Prim.Native.String.{◌++◌ as add_text}
use ifascada.Prelude.{
  ℕ, ◌≡◌, refl, ap, sym, ◌∙◌, String, Bool, Option, none, some, List, [], ◌∷◌, map, ok, same,
  same_refl,
}
use ifascada.Float.{Float}
use ifascada.Json.{
  Value, Serde, null, object, string, field, end, get, entry, as_str, as_array, elements,
}
use ifascada.Domain.TagId.{TagId}
use ifascada.Domain.TagId
use ifascada.Domain.Event.{ReportItem}
use ifascada.Messaging.Client.{MqttMessage}
use ifascada.Messaging.Commands.{
  CommandListener, decode_items, print_manual, handle_command, handle_message,
}
use ifascada.Server.Api.{
  Api, BatchRow, items_of, item_json, batch_json, print_rows, batch_print_events, reprint_report,
  publish,
}

module _ {F : Type 0} where
  elements-items_of : (vs : List (Value F)) → elements (items_of vs) ≡ vs
  unfolding elements items_of
  elements-items_of [] = refl
  elements-items_of (v ∷ vs) = ap (λ t. v ∷ t) (elements-items_of vs)

  abbrev newest : List (String × Value F) → String × Value F
  newest [] = ("", null)
  newest (m ∷ ms) = m

  -- The last message that the broker took, as an agent receives it.
  abbrev pub Arrives : Api F → (List ℕ → Option (Value F)) → MqttMessage → Type 0
  Arrives x decode m =
      (v : Value F) × (rest : List (String × Value F)) × (x.published ≡ (m.topic, v) ∷ rest)
      × (decode m.payload ≡ some v)

module _ {F W X : Type 0} ⦃serde : Serde F⦄ ⦃f : Float F⦄ (is_alphanumeric : Char → Bool)
    (from_utf8 : List ℕ → String) (report_item : Value F → Option (ReportItem F))
    (execute_manual_batch : W → TagId → List (ReportItem F) → X → X) where
  abbrev handles : W → MqttMessage → CommandListener X → CommandListener X
  handles = handle_message is_alphanumeric from_utf8 report_item execute_manual_batch

  handle_message-command :
      (w : W) (m : MqttMessage) (l : CommandListener X) (v : Value F)
      → m.topic ≡ add_text "scada/cmd/" l.agent_id
      → serde.from_str (from_utf8 m.payload) ≡ some v
      → (handles w m l).executor
        ≡ handle_command is_alphanumeric from_utf8 report_item execute_manual_batch w v l.executor
  unfolding handle_message
  handle_message-command w m l v h e =
      rw (h, same_refl (add_text "scada/cmd/" l.agent_id), e, handle_message) refl

  handle_message-sent_one :
      (w : W) (m : MqttMessage) (l : CommandListener X) (sent : Value F) (x : Api F)
      (before : List (String × Value F))
      → x.published ≡ (add_text "scada/cmd/" l.agent_id, sent) ∷ before
      → Arrives x (λ p. serde.from_str (from_utf8 p)) m
      → (handles w m l).executor
        ≡ handle_command is_alphanumeric from_utf8 report_item execute_manual_batch w sent
            l.executor
  handle_message-sent_one w m l sent x before q (v, rest, p, d) =
      let e = sym p ∙ q in
      let topic = ap (λ s. (newest s).0) e in
      let same_value = ap (λ s. (newest s).1) e in
      handle_message-command w m l v topic d
      ∙ ap
          (λ c.
            handle_command is_alphanumeric from_utf8 report_item execute_manual_batch w c
              l.executor)
          same_value

  handle_command-batch :
      (w : W) (tag_id : String) (id : TagId) (rows : List (BatchRow F)) (x : X)
      → TagId.new is_alphanumeric tag_id ≡ ok id
      → handle_command is_alphanumeric from_utf8 report_item execute_manual_batch w
          (batch_json tag_id rows)
          x
        ≡ execute_manual_batch w id
            (decode_items is_alphanumeric from_utf8 report_item execute_manual_batch
              (map item_json rows))
            x
  unfolding handle_command print_manual batch_json get entry as_str as_array same
  handle_command-batch w tag_id id rows x h =
      rw (handle_command, print_manual, h, elements-items_of (map item_json rows)) refl

  handle_command-reprint :
      (w : W) (report_id : String) (x : X)
      → handle_command is_alphanumeric from_utf8 report_item execute_manual_batch w
          (object
            (field "type" (string "ReprintReport") (field "report_id" (string report_id) end)))
          x
        ≡ x
  unfolding handle_command get entry as_str same
  handle_command-reprint w report_id x = refl

  -- A listener of an agent that receives what the server has published for a batch, with a valid tag id, prints the batch: it calls the executor with the tag of the first row and all items that decode, in the order of the rows. A listener that receives what the server has published for a reprint, though the server answers that the command was sent, does nothing with the executor.
  pub handle_message-sent :
      (w : W) (i : ℕ) (ids : List ℕ) (r : BatchRow F) (rows : List (BatchRow F))
      (report_id : String) (x : Api F) (id : TagId) (batch reprint : MqttMessage)
      (l : CommandListener X)
      → l.agent_id ≡ r.edge_agent_id
      → TagId.new is_alphanumeric r.tag_id ≡ ok id
      → Arrives
          (batch_print_events none (i ∷ ids) (ok (r ∷ rows)) x).0
          (λ p. serde.from_str (from_utf8 p))
          batch
      → Arrives
          (reprint_report none (some (some (report_id, l.agent_id))) x).0
          (λ p. serde.from_str (from_utf8 p))
          reprint
      → ((handles w batch l).executor
          ≡ execute_manual_batch w id
              (decode_items is_alphanumeric from_utf8 report_item execute_manual_batch
                (map item_json (r ∷ rows)))
              l.executor)
        × ((handles w reprint l).executor ≡ l.executor)
  unfolding batch_print_events print_rows reprint_report publish
  handle_message-sent w i ids r rows report_id x id batch reprint l agent valid b q = (
    handle_message-sent_one w batch l (batch_json r.tag_id (r ∷ rows))
          (batch_print_events none (i ∷ ids) (ok (r ∷ rows)) x).0 x.published
          (ap (λ a. (add_text "scada/cmd/" a, batch_json r.tag_id (r ∷ rows)) ∷ x.published)
            (sym agent))
          b
        ∙ handle_command-batch w r.tag_id id (r ∷ rows) l.executor valid,
    handle_message-sent_one w reprint l
          (object
            (field "type" (string "ReprintReport") (field "report_id" (string report_id) end)))
          (reprint_report none (some (some (report_id, l.agent_id))) x).0 x.published refl q
        ∙ handle_command-reprint w report_id l.executor,
  )
