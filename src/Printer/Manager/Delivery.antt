-- ===== src/Printer/Manager/Delivery.antt =====
-- Which jobs reach the printer: crates/application/src/printer/manager.rs.
use mathlib.Core.List.{Sublist, append-nil, append_assoc, sublist-append_right}
use mathlib.Core.List.Sublist
use ifascada.Prelude.{
  ℕ, ◌≡◌, sym, ap, ◌∙◌, ◌&&◌, ◌||◌, refl, ◌⊎◌, inl, inr, Bool, true, false, List, [], ◌∷◌, ◌++◌,
  Result, ok, err, arith, is_ok, All, subst, Result-cases, if◌then◌else◌,
}
use ifascada.Printer.Manager.{
  PrinterError, Call, connect, send_commands, sleep, World, try_connect, connect_loop, retry,
  handle_job, serve, run,
}

-- The jobs that the printer took, newest first.
abbrev pub printed : List Call → List (List ℕ)
printed [] = []
printed (send_commands job (ok u) ∷ calls) = job ∷ printed calls
printed (_ ∷ calls) = printed calls

abbrev pub jobs_of : List (World × List ℕ) → List (List ℕ)
jobs_of [] = []
jobs_of ((w, job) ∷ jobs) = jobs_of jobs ++ job ∷ []

try_connect-printed :
    (attempts : List (Result (Unit {0}) PrinterError)) (trace : List Call)
    → printed (try_connect attempts trace).0 ≡ printed trace
unfolding try_connect
try_connect-printed [] trace = refl
try_connect-printed (ok u ∷ later) trace = refl
try_connect-printed (err e ∷ later) trace =
    try_connect-printed later (sleep 5 ∷ connect (err e) ∷ trace)

connect_loop-printed :
    (connected : Bool) (attempts : List (Result (Unit {0}) PrinterError)) (trace : List Call)
    → printed (connect_loop connected attempts trace).0 ≡ printed trace
unfolding connect_loop
connect_loop-printed true attempts trace = refl
connect_loop-printed false attempts trace = try_connect-printed attempts trace

-- One job is printed once or not at all.
handle_job-printed :
    (w : World) (job : List ℕ) (trace : List Call)
    → (printed (handle_job w job trace).0 ≡ printed trace)
      ⊎ (printed (handle_job w job trace).0 ≡ job ∷ printed trace)
unfolding handle_job retry
handle_job-printed w job trace = elim (Result-cases w.sent) [
  | inl (u, e) ↦ ground (arith, connect_loop-printed w.still_connected w.attempts trace)
  | inr (m, e) ↦ elim (Result-cases w.resent) [
    | inl (u, g) ↦ ground (
      arith,
      connect_loop-printed w.still_connected w.attempts trace,
      connect_loop-printed w.still_connected w.attempts (send_commands job (err m) ∷ trace),
    )
    | inr (n, g) ↦ ground (
      arith,
      connect_loop-printed w.still_connected w.attempts trace,
      connect_loop-printed w.still_connected w.attempts (send_commands job (err m) ∷ trace),
    )
  ]
]

serve-Sublist :
    (jobs : List (World × List ℕ)) (trace : List Call) (ended : Bool)
    → Sublist (printed (serve jobs (trace, ended)).0) (jobs_of jobs ++ printed trace)
unfolding serve
serve-Sublist [] trace ended = Sublist.refl (printed trace)
serve-Sublist ((w, job) ∷ jobs) trace false =
    sublist-append_right (jobs_of jobs ++ job ∷ []) (printed trace)
serve-Sublist ((w, job) ∷ jobs) trace true =
    let ih = serve-Sublist jobs (handle_job w job trace).0 (handle_job w job trace).1 in
    rw (append_assoc (jobs_of jobs) (job ∷ []) (printed trace))
      (elim (handle_job-printed w job trace) [
        | inl e ↦ Sublist.trans ih (
            rw e (
              Sublist.append (Sublist.refl (jobs_of jobs))
                (Sublist.cons job (Sublist.refl (printed trace)))))
        | inr e ↦ Sublist.trans ih (rw e (Sublist.refl (jobs_of jobs ++ job ∷ printed trace)))
      ])

-- Whatever fails, the printer takes the jobs in the order of the channel and no job twice.
pub run-Sublist :
    (connected : Bool) (attempts : List (Result (Unit {0}) PrinterError))
    (jobs : List (World × List ℕ))
    → Sublist (printed (run connected attempts jobs).0) (jobs_of jobs)
unfolding run
run-Sublist connected attempts jobs =
    let c = connect_loop connected attempts [] in
    subst (λ l. Sublist (printed (serve jobs c).0) l)
      (ap (λ p. jobs_of jobs ++ p) (connect_loop-printed connected attempts [])
        ∙ append-nil (jobs_of jobs))
      (serve-Sublist jobs c.0 c.1)

-- Whether one of the attempts succeeds, and whether the answers let a job be printed.
abbrev pub comes_up : List (Result (Unit {0}) PrinterError) → Bool
comes_up [] = false
comes_up (a ∷ later) = is_ok a || comes_up later

abbrev pub delivers : World → Bool
delivers w = w.is_connected && (is_ok w.sent || (w.reconnected && is_ok w.resent))

-- The jobs that are printed, newest first.
abbrev pub delivered : List (World × List ℕ) → List (List ℕ)
delivered [] = []
delivered ((w, job) ∷ jobs) = delivered jobs ++ (if delivers w then job ∷ [] else [])

try_connect-ended :
    (attempts : List (Result (Unit {0}) PrinterError)) (trace : List Call)
    → comes_up attempts ≡ true
    → (try_connect attempts trace).1 ≡ true
unfolding try_connect
try_connect-ended [] trace h = ground arith
try_connect-ended (ok u ∷ later) trace h = refl
try_connect-ended (err e ∷ later) trace h =
    try_connect-ended later (sleep 5 ∷ connect (err e) ∷ trace) h

connect_loop-ended :
    (connected : Bool) (attempts : List (Result (Unit {0}) PrinterError)) (trace : List Call)
    → comes_up attempts ≡ true
    → (connect_loop connected attempts trace).1 ≡ true
unfolding connect_loop
connect_loop-ended true attempts trace h = refl
connect_loop-ended false attempts trace h = try_connect-ended attempts trace h

handle_job_lem :
    (w : World) (job : List ℕ) (trace : List Call)
    → comes_up w.attempts ≡ true
    → ((handle_job w job trace).1 ≡ true)
      × (printed (handle_job w job trace).0
          ≡ (if delivers w then job ∷ [] else []) ++ printed trace)
unfolding handle_job retry
handle_job_lem w job trace h = elim (Result-cases w.sent) [
  | inl (u, e) ↦ ground (
    arith,
    connect_loop-ended w.still_connected w.attempts trace h,
    connect_loop-printed w.still_connected w.attempts trace,
  )
  | inr (m, e) ↦
      let failed = send_commands job (err m) ∷ trace in
      let ended = connect_loop-ended w.still_connected w.attempts failed h in
      let same_jobs = connect_loop-printed w.still_connected w.attempts failed in
      elim (Result-cases w.resent) [
        | inl (u, g) ↦ ground (
          arith,
          ended,
          same_jobs,
          connect_loop-ended w.still_connected w.attempts trace h,
          connect_loop-printed w.still_connected w.attempts trace,
        )
        | inr (n, g) ↦ ground (
          arith,
          ended,
          same_jobs,
          connect_loop-ended w.still_connected w.attempts trace h,
          connect_loop-printed w.still_connected w.attempts trace,
        )
      ]
]

serve_lem :
    (jobs : List (World × List ℕ)) (trace : List Call)
    → All (λ j. comes_up j.0.attempts ≡ true) jobs
    → ((serve jobs (trace, true)).1 ≡ true)
      × (printed (serve jobs (trace, true)).0 ≡ delivered jobs ++ printed trace)
unfolding serve
serve_lem [] trace h = (refl, refl)
serve_lem ((w, job) ∷ jobs) trace (up, h) =
    let (ended, p) = handle_job_lem w job trace up in
    let (all_ended, q) = serve_lem jobs (handle_job w job trace).0 h in
    let e = ap (λ b. serve jobs ((handle_job w job trace).0, b)) ended in
    (
      ap (λ r. r.1) e ∙ all_ended,
      ap (λ r. printed r.0) e
          ∙ q
          ∙ ap (λ l. delivered jobs ++ l) p
          ∙ sym
              (append_assoc (delivered jobs) (if delivers w then job ∷ [] else []) (printed trace)),
    )

-- If the printer can be reached again whenever it is lost, the manager handles every job, and the printer takes those, in order, that find it connected and whose first or second sending succeeds.
pub run-delivered :
    (connected : Bool) (attempts : List (Result (Unit {0}) PrinterError))
    (jobs : List (World × List ℕ))
    → comes_up attempts ≡ true
    → All (λ j. comes_up j.0.attempts ≡ true) jobs
    → let (trace, ended) = run connected attempts jobs in
      (ended ≡ true) × (printed trace ≡ delivered jobs)
unfolding run
run-delivered connected attempts jobs up h =
    let c = connect_loop connected attempts [] in
    let e = ap (λ b. serve jobs (c.0, b)) (connect_loop-ended connected attempts [] up) in
    let (ended, p) = serve_lem jobs c.0 h in
    (
      ap (λ r. r.1) e ∙ ended,
      ap (λ r. printed r.0) e
          ∙ p
          ∙ ap (λ l. delivered jobs ++ l) (connect_loop-printed connected attempts [])
          ∙ append-nil (delivered jobs),
    )
