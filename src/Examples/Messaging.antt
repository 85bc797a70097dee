-- ===== src/Examples/Messaging.antt =====
-- Theorems about messages at concrete inputs.
use ifascada.Prelude.{
  ℕ, suc, refl, String, true, false, Option, none, some, List, [], ◌∷◌, inl, arith,
}
use ifascada.Prelude.Int.{ℤ}
use ifascada.Json.{Value}
use ifascada.Domain.TagId.{TagId}
use ifascada.Domain.Event.{DomainEvent, ReportItem, value_updated}
use ifascada.Domain.Quality.{good}
use ifascada.Text.Utf8.{as_bytes, utf8}
use ifascada.Messaging.Client.{Notification, subscribed, acknowledged, failed}
use ifascada.Messaging.Publisher.{
  Message, Row, World, stored, create_payload, publish, wake, forward_next, enqueue, keep, send,
  dispatch, delete,
}
use ifascada.Messaging.Publisher
use ifascada.Messaging.Publisher.Consistency.{IsSafeMessage}
use ifascada.Messaging.Publisher.Delivery.{Op, publishes, wakes, forwards, run, step, run-no_loss}
use ifascada.Messaging.Commands.{Received, message, closed}
use ifascada.Examples.Sample.{serde, num, weight}

abbrev stamp : ℕ → String
stamp t = "t"

abbrev event : DomainEvent ℤ
event = value_updated weight (num 5) good 9

-- The sample printing writes "?" for every value.
abbrev payload : List ℕ
payload = 63 ∷ []

abbrev down : World
down = record { is_connected = false; published = false; stored = stored 1 0 }

-- An event while the client is offline, and the flusher once it is back.
abbrev ops : List (Op ℤ)
ops =
    publishes down event
    ∷ wakes true (some 1)
        (some (record { id = 1; topic = "scada/data/a1"; payload = payload; created_at = 0 } ∷ []))
    ∷ forwards true true
    ∷ []

run-no_loss_example :
    IsSafeMessage (run stamp ops (Publisher.new [] "a1") []).0 ("scada/data/a1", payload)
unfolding create_payload publish dispatch send keep enqueue step as_bytes utf8 Publisher.new
run-no_loss_example =
    run-no_loss stamp "a1" ops ("scada/data/a1", payload)
      (λ q n. absurd n, ((refl, (λ r h. h, (λ q n. absurd n, tt), omega arith)), (tt, tt)))
      (inl refl)

abbrev notifications : List Notification
notifications = subscribed "scada/cmd/a1" ∷ acknowledged ∷ failed ∷ []

-- An executor that counts the batches it is given.
abbrev count_batch : Unit {0} → TagId → List (ReportItem ℤ) → ℕ → ℕ
count_batch w id items n = suc n

abbrev received : List (Received (Unit {0}))
received =
    message tt (record { topic = "scada/cmd/a1"; payload = 123 ∷ []; pkid = 4 })
    ∷ message tt (record { topic = "other"; payload = []; pkid = 5 })
    ∷ message tt (record { topic = "scada/cmd/a1"; payload = []; pkid = 6 })
    ∷ closed
    ∷ []

abbrev no_item : Value ℤ → Option (ReportItem ℤ)
no_item v = none
