-- ===== src/Examples/Printer.antt =====
-- Theorems about batches, printing and the printer at concrete inputs.
use Prim.Native.Char.{Char, code}
use mathlib.Core.List.{Sublist}
use ifascada.Prelude.{
  ℕ, ◌≡◌, refl, String, Bool, true, false, ◌==◌, none, List, [], ◌∷◌, ◌++◌, map, same, ok, err,
  if◌then◌else◌,
}
use ifascada.Prelude.Int.{ℤ}
use ifascada.Float.{ℤ_float}
use ifascada.Json.{number, neg_int}
use ifascada.Domain.Config.{accumulate_data, print_batch}
use ifascada.Domain.Event.{ReportItem}
use ifascada.Printer.Batch
use ifascada.Printer.Session.{Op, add, take, run, added, IsSession, run-IsSession, run-taken_once}
use ifascada.Text.{trim}
use ifascada.Printer.Printing.{World, PrintingActionExecutor, report, reported, to_report, execute}
use ifascada.Printer.Printing
use ifascada.Printer.Printing.Jobs.{batch_of, if_any, queued, execute-print_batch}
use ifascada.Printer.Manager.{PrinterError, connection_failed, write_failed}
use ifascada.Printer.Manager
use ifascada.Printer.Manager.Delivery.{printed, delivered, run-delivered}
use ifascada.Examples.Sample.{serde, num, weight}

-- The blank.
abbrev blank : Char → Bool
blank c = code c == b' '

-- A cycle of two weighings, its end, a new cycle, a pause of more than thirty minutes.
abbrev ops : List (Op ℤ)
ops =
    add 1000 (num 5) none
    ∷ add 2000 (number (neg_int 0)) none
    ∷ add 3000 (num 7) none
    ∷ take
    ∷ add 4000 (num 8) none
    ∷ add 9000000 (num 9) none
    ∷ []

run-IsSession_example : IsSession (run (Batch.new 0) ops).0.current_batch
run-IsSession_example = run-IsSession 0 ops

run-taken_once_example :
    let (m, taken) = run (Batch.new 0) ops in Sublist (taken ++ m.current_batch) (added ops)
run-taken_once_example = run-taken_once 0 ops

abbrev world : World ℤ
world = record {
  created = 1;
  now = 2;
  date = "2024-01-01 00:00:00";
  uuid = "u1";
  published = λ e. true;
  accepted = λ job. true;
}

abbrev executor : PrintingActionExecutor ℤ
executor = execute blank world (accumulate_data " s1" "") weight (num 10) (Printing.new "agent")

abbrev items : List (ReportItem ℤ)
items = record { value = num 10; timestamp = 2; metadata = none } ∷ []

execute-print_batch_example :
    let y = execute blank world (print_batch "s1 " "H" "") weight (num 0) executor in
    let printed_items = map to_report (batch_of (trim blank "s1 ") executor) in
    let e = reported world weight executor.agent_id printed_items in
    (y.print_queue ≡ executor.print_queue ++ queued world "H" printed_items)
    × (y.reports ≡ executor.reports ++ if_any printed_items (e, world.published e))
    × ((j : String)
        → batch_of j y ≡ (if same (trim blank "s1 ") j then [] else batch_of j executor))
execute-print_batch_example = execute-print_batch blank world "s1 " "H" "" weight (num 0) executor

-- The first sending fails, the printer is lost and found, and the second one succeeds.
abbrev unlucky : Manager.World
unlucky = record {
  is_connected = true;
  sent = err (write_failed "paper");
  still_connected = false;
  attempts = err (connection_failed "port") ∷ ok tt ∷ [];
  reconnected = true;
  resent = ok tt;
}

abbrev jobs : List (Manager.World × List ℕ)
jobs = (unlucky, 1 ∷ []) ∷ (unlucky, 2 ∷ []) ∷ []

run-delivered_example :
    let (trace, ended) = Manager.run false (ok tt ∷ []) jobs in
    (ended ≡ true) × (printed trace ≡ delivered jobs)
run-delivered_example = run-delivered false (ok tt ∷ []) jobs refl (refl, (refl, tt))
