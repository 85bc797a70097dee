-- ===== src/Printer/Manager.antt =====
-- crates/application/src/printer/manager.rs: the task that sends jobs to the printer. The connection
-- answers through a `World`, one for each job; what it was asked is the trace, newest first.
pub mod Delivery
use ifascada.Prelude.{
  ℕ, String, Bool, true, false, List, [], ◌∷◌, ◌++◌, Result, ok, err, if◌then◌else◌,
}

-- `PrinterError`.
pub data PrinterError : Type 0 where
  connection_failed write_failed : String → PrinterError
  not_connected : PrinterError

abbrev Job : Type 0
Job = List ℕ

pub data Call : Type 0 where
  connect : Result (Unit {0}) PrinterError → Call
  send_commands : List ℕ → Result (Unit {0}) PrinterError → Call
  sleep : ℕ → Call  -- seconds

-- What the connection answers while one job is handled: to the first check, the first send, the check
-- of the connect loop, its attempts, the check before the retry, and the retry.
pub record World : Type 0 where
  pub is_connected : Bool
  pub sent : Result (Unit {0}) PrinterError
  pub still_connected : Bool
  pub attempts : List (Result (Unit {0}) PrinterError)
  pub reconnected : Bool
  pub resent : Result (Unit {0}) PrinterError

-- The trace, and whether the loop has ended; it goes on as long as every attempt fails.
unfoldable pub try_connect : List (Result (Unit {0}) PrinterError) → List Call → List Call × Bool
try_connect [] trace = (trace, false)
try_connect (ok u ∷ later) trace = (connect (ok u) ∷ trace, true)
try_connect (err e ∷ later) trace = try_connect later (sleep 5 ∷ connect (err e) ∷ trace)

unfoldable pub connect_loop :
    Bool → List (Result (Unit {0}) PrinterError) → List Call → List Call × Bool
connect_loop connected attempts trace =
    if connected then (trace, true) else try_connect attempts trace

-- The retry, once the connect loop has ended.
unfoldable pub retry : World → List ℕ → List Call × Bool → List Call × Bool
retry w job (trace, ended) =
    if ended
    then ((if w.reconnected then send_commands job w.resent ∷ trace else trace), true)
    else (trace, false)

-- One job of the loop.
unfoldable pub handle_job : World → List ℕ → List Call → List Call × Bool
handle_job w job trace =
    if w.is_connected
    then elim w.sent [
      | ok u ↦ (send_commands job (ok u) ∷ trace, true)
      | err e ↦
          retry w job
            (connect_loop w.still_connected w.attempts (send_commands job (err e) ∷ trace))
    ]
    else connect_loop w.still_connected w.attempts trace

-- The jobs in the order of the channel; none is taken while the manager is in the connect loop.
unfoldable pub serve : List (World × List ℕ) → List Call × Bool → List Call × Bool
serve [] s = s
serve ((w, job) ∷ jobs) (trace, false) = (trace, false)
serve ((w, job) ∷ jobs) (trace, true) = serve jobs (handle_job w job trace)

-- The initial connection, and then the jobs.
unfoldable pub run :
    Bool → List (Result (Unit {0}) PrinterError) → List (World × List ℕ) → List Call × Bool
run connected attempts jobs = serve jobs (connect_loop connected attempts [])
