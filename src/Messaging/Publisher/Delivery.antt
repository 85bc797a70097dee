-- ===== src/Messaging/Publisher/Delivery.antt =====
-- No event is lost between `publish` and the broker: the buffered publisher of
-- crates/infrastructure/src/messaging/buffered_publisher.rs, with its flusher in between.
use ifascada.Prelude.{ℕ, ◌≡◌, String, Bool, Option, List, [], ◌∷◌, In, is_ok}
use ifascada.Json.{Serde}
use ifascada.Domain.Event.{DomainEvent}
use ifascada.Messaging.Publisher.{
  Message, Row, BufferedMqttPublisher, World, create_payload, publish, wake, forward,
  heartbeat_message, new,
}
use ifascada.Messaging.Publisher.Consistency.{
  Fresh, Selects, IsConsistent, IsSafeMessage, admit_some, dispatch-IsConsistent, wake-IsConsistent,
  forward_next-IsConsistent,
}

pub data Op (F : Type 0) : Type 0 where
  publishes : World → DomainEvent F → Op F
  wakes : Bool → Option ℕ → Option (List Row) → Op F
  forwards : (published deleted : Bool) → Op F

module _ {F : Type 0} ⦃serde : Serde F⦄ (to_rfc3339 : ℕ → String) where
  unfoldable pub step : Op F → BufferedMqttPublisher → BufferedMqttPublisher
  step (publishes w e) s = (publish to_rfc3339 w e s).0
  step (wakes c n rows) s = wake c n rows s
  step (forwards p d) s = forward p d s

  -- The messages for which `publish` answered `Ok`, heartbeats aside.
  abbrev pub accepts : Op F → BufferedMqttPublisher → List Message → List Message
  accepts (publishes w e) s accepted =
      admit_some (is_ok (publish to_rfc3339 w e s).1) (create_payload to_rfc3339 s.agent_id e)
        accepted
  accepts _ s accepted = accepted

  abbrev pub run :
      List (Op F) → BufferedMqttPublisher → List Message → BufferedMqttPublisher × List Message
  run [] s accepted = (s, accepted)
  run (op ∷ ops) s accepted = run ops (step op s) (accepts op s accepted)

  -- What SQLite answers to an operation, and along a run.
  abbrev pub Answers : Op F → BufferedMqttPublisher → Type 0
  Answers (publishes w e) s = Fresh w.stored s.buffer
  Answers (wakes c n rows) s = (s.flushing ≡ []) × Selects rows s.buffer
  Answers (forwards p d) s = Unit

  abbrev pub AllAnswers : List (Op F) → BufferedMqttPublisher → Type 0
  AllAnswers [] s = Unit
  AllAnswers (op ∷ ops) s = Answers op s × AllAnswers ops (step op s)

  step-IsConsistent :
      (op : Op F) (s : BufferedMqttPublisher) (accepted : List Message)
      → Answers op s
      → IsConsistent s accepted
      → IsConsistent (step op s) (accepts op s accepted)
  unfolding step publish
  step-IsConsistent (publishes w e) s accepted fresh h =
      dispatch-IsConsistent w (create_payload to_rfc3339 s.agent_id e)
        (heartbeat_message to_rfc3339 e) s accepted fresh h
  step-IsConsistent (wakes c n rows) s accepted (idle, sel) h =
      wake-IsConsistent c n rows s accepted sel h
  step-IsConsistent (forwards p d) s accepted a h =
      forward_next-IsConsistent p d s.flushing s accepted h.pending h.distinct h

  run-IsConsistent :
      (ops : List (Op F)) (s : BufferedMqttPublisher) (accepted : List Message)
      → AllAnswers ops s
      → IsConsistent s accepted
      → IsConsistent (run ops s accepted).0 (run ops s accepted).1
  run-IsConsistent [] s accepted a h = h
  run-IsConsistent (op ∷ ops) s accepted (a, later) h =
      run-IsConsistent ops (step op s) (accepts op s accepted) later
        (step-IsConsistent op s accepted a h)

  -- However calls of `publish` and the flusher interleave and whatever fails, every value or report for which `publish` answered `Ok` was taken by the client or is still in the buffer, if SQLite gives new rows new ids and the flusher rows of its table.
  pub run-no_loss :
      (agent_id : String) (ops : List (Op F)) (m : Message)
      → AllAnswers ops (new [] agent_id)
      → In m (run ops (new [] agent_id) []).1
      → IsSafeMessage (run ops (new [] agent_id) []).0 m
  unfolding new
  run-no_loss agent_id ops m a h =
      (run-IsConsistent ops (new [] agent_id) [] a (record {
        unique = λ r q n. absurd n;
        pending = λ r n. absurd n;
        distinct = tt;
        kept = λ n e. absurd e;
      })).kept
        m h
