-- ===== src/Examples/Ingest.antt =====
-- Messages at the central server at concrete inputs.
use ifascada.Prelude.{
  leb, subst, sym, All, and_then, unwrap_or, ℕ, ◌≡◌, refl, inl, inr, true, Option, none, some, [],
  ◌∷◌, same, if◌then◌else◌, ◌==◌, arith,
}
use ifascada.Prelude.Int.{ℤ, pos}
use ifascada.Text.{strip_prefix}
use ifascada.Text.Utf8.{as_bytes, utf8, from_utf8-as_bytes}
use ifascada.Float.{ℤ_float}
use ifascada.Json
use ifascada.Json.{Value, Serde, array, cons, nil}
use ifascada.Domain.Quality.{good, as_str}
use ifascada.Messaging.Client.{MqttMessage}
use ifascada.Messaging.Publisher.{Message, Row, create_payload}
use ifascada.Server.{TagData, ReportData, report_completed}
use ifascada.Server
use ifascada.Server.Database.{CentralServer}
use ifascada.Server.Telemetry.{
  Answers, inserted, foreign_key, elements_of, reading_of, time_of, tag_data, process_data,
}
use ifascada.Server.Telemetry
use ifascada.Server.Telemetry.Stored.{Settled, packet, readings, process_data-Settled}
use ifascada.Server.Telemetry.Acks.{process_data-acks}
use ifascada.Server.Reports.{start_time, end_time, items_fit, stored, report_row, process_report}
use ifascada.Server.Reports
use ifascada.Server.Reports.Whole.{takes_all, process_report-takes_all}
use ifascada.Server.Messages.{World, process_mqtt_message}
use ifascada.Server.Messages.Published.{
  arrived, reading_json, with_reading, process_mqtt_message-create_payload,
}
use ifascada.Server.Flusher.{Store, flush, IsKept, flush-IsKept}
use ifascada.Server.Flusher
use ifascada.Examples.Sample.{num, weight}

-- A packet with one reading, whose text is the only one that parses.
abbrev sample_packet : Value ℤ
sample_packet = array (cons (reading_json weight (num 21) good 1000) nil)

instance abbrev serde : Serde ℤ
serde = record {
  to_string = λ v. "[21]";
  from_str = λ t. if same t "[21]" then some sample_packet else none;
}

abbrev server : CentralServer ℤ
server = record { app = Server.new; tag_events = []; reports = []; acks = [] }

abbrev answers : Answers
answers = record {
  savepoint = true;
  insert = inserted;
  release = true;
  rollback = true;
  fallback = true;
}

abbrev database : Telemetry.World
database = record {
  now = 2000;
  begins = true;
  reading = λ i. answers;
  commits = true;
  fits = λ t. leb t 253402300799999;
}

abbrev millis : ℤ → Option ℕ
millis (pos n) = some n
millis _ = none

abbrev telemetry : MqttMessage
telemetry = record { topic = "scada/data/a1"; payload = 91 ∷ 50 ∷ 49 ∷ 93 ∷ []; pkid = 5 }

process_data-Settled_example :
    Settled millis 2000 5
      (packet millis telemetry.payload)
      server
      (process_data millis database "a1" telemetry server)
process_data-Settled_example =
    process_data-Settled millis database "a1" telemetry server (λ i. refl)

-- The time of the reading is one that the time crate can hold.
telemetry-fits :
    All
      (λ r. database.fits (time_of {F = ℤ} millis database.now r) ≡ true)
      (packet millis telemetry.payload)
unfolding packet readings reading_of elements_of as_bytes utf8 same Json.get Json.entry Json.as_str
    Json.as_i64 Json.as_array Json.elements tag_data as_str
telemetry-fits =
    subst
      (λ text.
        All (λ r. database.fits (time_of {F = ℤ} millis database.now r) ≡ true)
          (readings {F = ℤ} millis
            (unwrap_or (and_then (and_then text serde.from_str) Json.as_array) [])))
      (sym (from_utf8-as_bytes "[21]")) (refl, tt)

process_data-acks_example : (process_data millis database "a1" telemetry server).acks ≡ 5 ∷ []
process_data-acks_example =
    process_data-acks millis database "a1" telemetry server refl refl
      (λ i. record { savepoint = refl; release = refl; insert = inl refl }) telemetry-fits

abbrev report : ReportData ℤ
report = record {
  report_id = "r1";
  agent_id = "";
  items =
      record { value = num 3; timestamp = 10; metadata = none }
      ∷ record { value = num 4; timestamp = 20; metadata = none }
      ∷ [];
  timestamp = 30;
}

-- The second item is refused.
abbrev refuses_second : Reports.World
refuses_second = record {
  begins = true;
  summary = stored;
  item = λ i. i == 0;
  commits = true;
  fits = λ t. leb t 253402300799999;
}

process_report-takes_all_example :
    let t = process_report (λ b. some report) refuses_second "a1" telemetry server in
    (t.acks ≡ 5 ∷ [])
    × (t.app.sent ≡ report_completed (record report { agent_id = "a1" }) ∷ [])
    × (t.reports ≡ [])
unfolding takes_all start_time end_time items_fit
process_report-takes_all_example =
    process_report-takes_all (λ b. some report) refuses_second "a1" telemetry server report refl
      refl refl refl refl refl refl

abbrev world : World ℤ
world = record {
  now = 2000;
  telemetry = database;
  report = refuses_second;
  from_utf8_lossy = λ b. "";
  from_timestamp_millis = millis;
  read_report = λ b. some report;
}

abbrev sent : Message
sent = ("scada/data/a1", 91 ∷ 50 ∷ 49 ∷ 93 ∷ [])

process_mqtt_message-create_payload_example :
    process_mqtt_message world (arrived 5 sent) server
    ≡ with_reading 2000 "a1" 1000
        (record { tag_id = "weight"; value = num 21; quality = "good"; timestamp = pos 1000 })
        5
        server
unfolding create_payload strip_prefix same as_bytes utf8 as_str
process_mqtt_message-create_payload_example =
    process_mqtt_message-create_payload (λ t. "") world "a1" weight (num 21) good 1000 5 sent server
      refl refl (omega arith) refl refl refl
      (record { begins = refl; savepoint = refl; insert = refl; release = refl; commits = refl })

abbrev row : Row
row = record { id = 1; topic = ""; payload = 1 ∷ []; created_at = 0 }

abbrev store : Store ℤ
store = record { buffer = row ∷ []; tag_events = [] }

abbrev tag : TagData ℤ
tag = record {
  id = "weight";
  agent_id = "a1";
  value = num 21;
  quality = "Good";
  status = "online";
  timestamp = 1000;
  received_at = none;
}

abbrev takes : Flusher.Answers
takes = record { inserts = true; deletes = true }

flush-IsKept_example :
    IsKept (λ b. some tag) row (flush (λ b. some tag) (some 1) (some ((takes, row) ∷ [])) store)
flush-IsKept_example =
    flush-IsKept (λ b. some tag) (some 1) ((takes, row) ∷ []) store row
      ((λ r k e. elim k [ inl g ↦ g | inr n ↦ absurd n ]), tt) (inl refl)
