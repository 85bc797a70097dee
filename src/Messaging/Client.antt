-- ===== src/Messaging/Client.antt =====
-- crates/infrastructure/src/messaging/mqtt_client.rs: the connection flag and the subscriptions, as
-- the event loop of rumqttc drives them. Publishing and acknowledging are calls of rumqttc.
use mathlib.Core.List.{append_assoc}
use ifascada.Prelude.{
  ℕ, ◌≡◌, refl, sym, ap, ◌∙◌, String, Bool, true, false, ◌||◌, List, [], ◌∷◌, ◌++◌, arith, same,
  same_iff, if◌then◌else◌,
}
use ifascada.Prelude.Map.{contains}

pub record MqttMessage : Type 0 where
  pub topic : String
  pub payload : List ℕ
  pub pkid : ℕ  -- u16

pub record MqttClient : Type 0 where
  pub connected : Bool
  pub subscriptions : List String  -- in order
  pub requested : List String  -- the topics asked of the broker, newest first
  pub forwarded : List MqttMessage  -- the messages sent to the internal channel, newest first

-- A subscription call, and what `poll` gives: a published message and whether anyone listens, an
-- acknowledged connection, a disconnect, anything else, or an error.
pub data Notification : Type 0 where
  subscribed : String → Notification
  published : MqttMessage → (listening : Bool) → Notification
  acknowledged disconnected other failed : Notification

abbrev request_all : List String → List String → List String
request_all [] requested = requested
request_all (t ∷ topics) requested = request_all topics (t ∷ requested)

unfoldable pub subscribe : String → MqttClient → MqttClient
subscribe topic c = record c {
  subscriptions =
      if contains topic c.subscriptions then c.subscriptions else c.subscriptions ++ topic ∷ [];
  requested = topic ∷ c.requested;
}

unfoldable pub poll : Notification → MqttClient → MqttClient
poll (subscribed topic) c = subscribe topic c
poll (published m listening) c = if listening then record c { forwarded = m ∷ c.forwarded } else c
poll acknowledged c = record c {
  connected = true;
  requested = request_all c.subscriptions c.requested;
}
poll disconnected c = record c { connected = false }
poll other c = c
poll failed c = record c { connected = false }

unfoldable pub poll_all : List Notification → MqttClient → MqttClient
poll_all [] c = c
poll_all (n ∷ ns) c = poll_all ns (poll n c)

abbrev pub new : MqttClient
new = record { connected = false; subscriptions = []; requested = []; forwarded = [] }

-- Whether a topic is among the subscriptions that a list of notifications makes.
abbrev pub asks : String → List Notification → Bool
asks topic [] = false
asks topic (subscribed t ∷ ns) = same t topic || asks topic ns
asks topic (_ ∷ ns) = asks topic ns

contains-append :
    (k : String) (xs ys : List String) → contains k (xs ++ ys) ≡ (contains k xs || contains k ys)
unfolding contains
contains-append k [] ys = refl
contains-append k (x ∷ xs) ys = ground (arith, contains-append k xs ys)

poll-subscriptions :
    (topic : String) (n : Notification) (c : MqttClient)
    → contains topic (poll n c).subscriptions
      ≡ (contains topic c.subscriptions || asks topic (n ∷ []))
unfolding poll subscribe contains
poll-subscriptions topic (subscribed t) c =
    ground (arith, contains-append topic c.subscriptions (t ∷ []), same_iff t topic)
poll-subscriptions topic (published m listening) c = ground arith
poll-subscriptions topic acknowledged c = ground arith
poll-subscriptions topic disconnected c = ground arith
poll-subscriptions topic other c = ground arith
poll-subscriptions topic failed c = ground arith

asks_head :
    (topic : String) (n : Notification) (ns : List Notification) (b : Bool)
    → ((b || asks topic (n ∷ [])) || asks topic ns) ≡ (b || asks topic (n ∷ ns))
asks_head topic (subscribed t) ns b = ground arith
asks_head topic (published m listening) ns b = ground arith
asks_head topic acknowledged ns b = ground arith
asks_head topic disconnected ns b = ground arith
asks_head topic other ns b = ground arith
asks_head topic failed ns b = ground arith

poll_all-subscriptions :
    (topic : String) (ns : List Notification) (c : MqttClient)
    → contains topic (poll_all ns c).subscriptions
      ≡ (contains topic c.subscriptions || asks topic ns)
unfolding poll_all
poll_all-subscriptions topic [] c = ground arith
poll_all-subscriptions topic (n ∷ ns) c =
    poll_all-subscriptions topic ns (poll n c)
    ∙ ap (λ b. b || asks topic ns) (poll-subscriptions topic n c)
    ∙ asks_head topic n ns (contains topic c.subscriptions)

request_all_lem :
    (topic : String) (topics requested : List String)
    → (asked : List String) × (request_all topics requested ≡ asked ++ requested)
      × (contains topic asked ≡ contains topic topics)
unfolding contains
request_all_lem topic [] requested = ([], refl, refl)
request_all_lem topic (t ∷ topics) requested =
    let (asked, e, h) = request_all_lem topic topics (t ∷ requested) in
    (
      asked ++ t ∷ [],
      e ∙ sym (append_assoc asked (t ∷ []) requested),
      ground (arith, h, contains-append topic asked (t ∷ [])),
    )

-- Whatever happened before, an acknowledged connection asks the broker again for every topic ever subscribed to.
pub poll-resubscribes :
    (topic : String) (ns : List Notification)
    → asks topic ns ≡ true
    → let c = poll_all ns new in
      (asked : List String) × ((poll acknowledged c).requested ≡ asked ++ c.requested)
      × (contains topic asked ≡ true)
poll-resubscribes topic ns h =
    let c = poll_all ns new in
    let (asked, e, g) = request_all_lem topic c.subscriptions c.requested in
    (asked, unfold poll in e, g ∙ poll_all-subscriptions topic ns new ∙ unfold contains in h)
