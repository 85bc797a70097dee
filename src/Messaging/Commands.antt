-- ===== src/Messaging/Commands.antt =====
-- crates/application/src/messaging/command_listener.rs. The listener works over any executor of manual
-- batches; a message carries what the outside answers while it is handled.
use Prim.Native.Char.{Char}
use mathlib.Core.List.{append_assoc}
use Prim.Native.String.{◌++◌ as add_text}
use ifascada.Prelude.{
  ℕ, ◌≡◌, refl, sym, ap, ◌∙◌, String, Bool, Option, none, some, List, [], ◌∷◌, ◌++◌, same, and_then,
  unwrap_or, ok, err, if◌then◌else◌, Bool-cases, inl, inr,
}
use ifascada.Json.{Value, Serde, get, as_str, as_array}
use ifascada.Domain.TagId.{TagId}
use ifascada.Domain.TagId
use ifascada.Domain.Event.{ReportItem}
use ifascada.Messaging.Client.{MqttMessage}

-- What the channel gives: a message, the news that some were skipped, or its end.
pub data Received (W : Type 0) : Type 0 where
  message : W → MqttMessage → Received W
  lagged : ℕ → Received W
  closed : Received W

pub record CommandListener (X : Type 0) : Type 0 where
  pub agent_id : String
  pub executor : X
  pub acks : List ℕ  -- the packets acknowledged, newest first

-- The parameters: Unicode's table, the decoding of a payload and of an item, and the executor.
module _ {F W X : Type 0} ⦃serde : Serde F⦄ (is_alphanumeric : Char → Bool)
    (from_utf8 : List ℕ → String) (report_item : Value F → Option (ReportItem F))
    (execute_manual_batch : W → TagId → List (ReportItem F) → X → X) where
  -- Items that do not decode are skipped.
  unfoldable pub decode_items : List (Value F) → List (ReportItem F)
  decode_items [] = []
  decode_items (v ∷ vs) =
      let rest = decode_items vs in elim (report_item v) [ none ↦ rest | some item ↦ item ∷ rest ]

  unfoldable pub print_manual : W → Value F → X → X
  print_manual w cmd x =
      elim (TagId.new is_alphanumeric (unwrap_or (and_then (get "tag_id" cmd) as_str) "")) [
        | err e ↦ x
        | ok tag_id ↦ elim (and_then (get "items" cmd) as_array) [
          | none ↦ x
          | some items ↦ execute_manual_batch w tag_id (decode_items items) x
        ]
      ]

  unfoldable pub handle_command : W → Value F → X → X
  handle_command w cmd x =
      if same (unwrap_or (and_then (get "type" cmd) as_str) "Unknown") "PrintBatchManual"
      then print_manual w cmd x
      else x

  -- A message on the agent's topic; one that is not JSON is skipped, and every one is acknowledged.
  unfoldable pub handle_message : W → MqttMessage → CommandListener X → CommandListener X
  handle_message w m l =
      if same m.topic (add_text "scada/cmd/" l.agent_id)
      then record l {
        executor = elim (serde.from_str (from_utf8 m.payload)) [
          | none ↦ l.executor
          | some cmd ↦ handle_command w cmd l.executor
        ];
        acks = m.pkid ∷ l.acks;
      }
      else l

  unfoldable pub listen : List (Received W) → CommandListener X → CommandListener X
  listen [] l = l
  listen (message w m ∷ rest) l = listen rest (handle_message w m l)
  listen (lagged n ∷ rest) l = listen rest l
  listen (closed ∷ rest) l = l

-- The packets of a topic up to the end of the channel, newest first.
abbrev pub packets : {W : Type 0} → String → List (Received W) → List ℕ
packets topic [] = []
packets topic (message w m ∷ rest) =
    packets topic rest ++ (if same m.topic topic then m.pkid ∷ [] else [])
packets topic (lagged n ∷ rest) = packets topic rest
packets topic (closed ∷ rest) = []

module _ {F W X : Type 0} ⦃serde : Serde F⦄ (is_alphanumeric : Char → Bool)
    (from_utf8 : List ℕ → String) (report_item : Value F → Option (ReportItem F))
    (execute_manual_batch : W → TagId → List (ReportItem F) → X → X) where
  abbrev handles : W → MqttMessage → CommandListener X → CommandListener X
  handles = handle_message is_alphanumeric from_utf8 report_item execute_manual_batch

  handle_message-acks :
      (w : W) (m : MqttMessage) (l : CommandListener X)
      → ((handles w m l).agent_id ≡ l.agent_id)
        × ((handles w m l).acks
            ≡ (if same m.topic (add_text "scada/cmd/" l.agent_id) then m.pkid ∷ [] else [])
              ++ l.acks)
  unfolding handle_message
  handle_message-acks w m l = elim (Bool-cases (same m.topic (add_text "scada/cmd/" l.agent_id))) [
    | inl t ↦ rw t (refl, refl)
    | inr f ↦ rw f (refl, refl)
  ]

  -- Until its channel ends, the listener acknowledges every message on its agent's topic once and in order, whether or not its command can be read, and no other message.
  pub listen-acks :
      (received : List (Received W)) (l : CommandListener X)
      → (listen is_alphanumeric from_utf8 report_item execute_manual_batch received l).acks
        ≡ packets (add_text "scada/cmd/" l.agent_id) received ++ l.acks
  unfolding listen
  listen-acks [] l = refl
  listen-acks (message w m ∷ rest) l =
      let topic = add_text "scada/cmd/" l.agent_id in
      let (same_agent, acked) = handle_message-acks w m l in
      listen-acks rest (handles w m l)
      ∙ ap (λ a. packets (add_text "scada/cmd/" a) rest ++ (handles w m l).acks) same_agent
      ∙ ap (λ n. packets topic rest ++ n) acked
      ∙ sym (
          append_assoc (packets topic rest) (if same m.topic topic then m.pkid ∷ [] else []) l.acks)
  listen-acks (lagged n ∷ rest) l = listen-acks rest l
  listen-acks (closed ∷ rest) l = refl
