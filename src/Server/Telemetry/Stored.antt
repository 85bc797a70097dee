-- ===== src/Server/Telemetry/Stored.antt =====
-- Which readings of a packet crates/central-server/src/main.rs stores.
use ifascada.Prelude.{
  ℕ, suc, ◌≡◌, refl, sym, ap, ◌∙◌, ◌⊎◌, inl, inr, String, true, false, ◌&&◌, not, Option, none,
  some, List, [], ◌∷◌, ◌++◌, arith, unwrap_or, Option-cases, Bool-cases, if-some, some-inj, if-elim,
}
use ifascada.Prelude.Int.{ℤ}
use mathlib.Core.List.{append_assoc, append-nil}
use ifascada.Json.{Value, Serde}
use ifascada.Messaging.Client.{MqttMessage}
use ifascada.Server.{AppState, update_tag}
use ifascada.Server.Database.{EventRow, CentralServer, Transaction, begun, committed}
use ifascada.Server.Telemetry.{
  Inserted, inserted, foreign_key, refused, Answers, World, Reading, reading_of, row_of,
  insert_unregistered, insert_registered, insert_reading, attempt_reading, tag_data, time_of,
  insert_all, finish, store_packet, elements_of, process_data,
}

module _ {F : Type 0} (time : ℤ → Option ℕ) where
  unfoldable pub readings : List (Value F) → List (Reading F)
  readings [] = []
  readings (v ∷ vs) =
      let rest = readings vs in elim (reading_of v) [ none ↦ rest | some r ↦ r ∷ rest ]

  -- The rows hold the readings in order, each with its tag or with none.
  abbrev pub Holds : ℕ → List (Reading F) → List (EventRow F) → Type 0
  Holds now [] [] = Unit
  Holds now (r ∷ rs) (row ∷ rows) =
      ((row ≡ row_of (some r.tag_id) (time_of time now r) r)
        ⊎ (row ≡ row_of none (time_of time now r) r))
      × Holds now rs rows
  Holds now _ _ = ⊥

  -- A transaction that goes on, with one more row, for the reading.
  abbrev Added : ℕ → Reading F → (tx more : Transaction (EventRow F)) → Type 0
  Added now r tx more =
      (row : EventRow F) × (more ≡ record { rows = tx.rows ++ row ∷ []; aborted = false })
      × Holds now (r ∷ []) (row ∷ [])

  insert_registered-Added :
      (i : Inserted) (a : Answers) (now : ℕ) (r : Reading F) (tx more : Transaction (EventRow F))
      → a.release ≡ true
      → insert_registered i a (time_of time now r) r tx ≡ some more
      → Added now r tx more
  unfolding insert_registered insert_unregistered
  insert_registered-Added inserted a now r tx more rel e =
      let row = row_of (some r.tag_id) (time_of time now r) r in
      (
        row,
        sym (some-inj e) ∙ ap (λ b. record { rows = tx.rows ++ row ∷ []; aborted = not b }) rel,
        (inl refl, tt),
      )
  insert_registered-Added foreign_key a now r tx more rel e = (
    row_of none (time_of time now r) r,
    sym (some-inj (if-some (a.rollback && a.fallback) _ more e)),
    (inr refl, tt),
  )
  insert_registered-Added refused a now r tx more rel e = absurd (ground arith)

  insert_reading-Added :
      (a : Answers) (now : ℕ) (r : Reading F) (tx more : Transaction (EventRow F))
      → a.release ≡ true
      → insert_reading a (time_of time now r) r tx ≡ some more
      → Added now r tx more
  unfolding insert_reading
  insert_reading-Added a now r tx more rel e =
      insert_registered-Added a.insert a now r tx more rel
        (if-some (a.savepoint && not tx.aborted) _ more e)

  attempt_reading-Added :
      (w : World) (i now : ℕ) (r : Reading F) (tx more : Transaction (EventRow F))
      → (w.reading i).release ≡ true
      → attempt_reading w i (time_of time now r) r tx ≡ some more
      → Added now r tx more
  unfolding attempt_reading
  attempt_reading-Added w i now r tx more rel e =
      insert_reading-Added (w.reading i) now r tx more rel
        (if-some (w.fits (time_of time now r)) _ more e)

  -- The transaction of a packet that was not given up.
  abbrev Filled : ℕ → List (Reading F) → (tx done : Transaction (EventRow F)) → Type 0
  Filled now rs tx done =
      (rows : List (EventRow F)) × (done ≡ record { rows = tx.rows ++ rows; aborted = false })
      × Holds now rs rows

  -- One more row before the rest of them.
  Filled-cons :
      (now : ℕ) (r : Reading F) (rs : List (Reading F)) (tx more done : Transaction (EventRow F))
      → Added now r tx more
      → Filled now rs more done
      → Filled now (r ∷ rs) tx done
  Filled-cons now r rs tx more done (row, e, here) (rows, g, there) = (
    row ∷ rows,
    g
        ∙ ap (λ t. record { rows = t.rows ++ rows; aborted = false }) e
        ∙ ap (λ l. record { rows = l; aborted = false }) (append_assoc tx.rows (row ∷ []) rows),
    (here.0, there),
  )

  insert_all-Filled :
      (w : World) (agent : String) (i : ℕ) (vs : List (Value F))
      (tx done : Transaction (EventRow F)) (st : AppState F)
      → ((j : ℕ) → (w.reading j).release ≡ true)
      → tx.aborted ≡ false
      → (insert_all time w agent i vs tx st).1 ≡ some done
      → Filled w.now (readings vs) tx done
  unfolding insert_all readings
  insert_all-Filled w agent i [] tx done st rel live = λ e. (
    [],
    sym (some-inj e)
        ∙ ap (λ l. record { rows = l; aborted = tx.aborted }) (sym (append-nil tx.rows))
        ∙ ap (λ b. record { rows = tx.rows ++ []; aborted = b }) live,
    tt,
  )
  insert_all-Filled w agent i (v ∷ vs) tx done st rel live = elim (Option-cases (reading_of v)) [
    | inl n ↦
        rw (n, insert_all, readings) (insert_all-Filled w agent (suc i) vs tx done st rel live)
    | inr (r, h) ↦
        let t = time_of time w.now r in
        elim (Option-cases (attempt_reading w i t r tx)) [
          | inl g ↦ rw (h, g, insert_all, readings) (λ e. absurd (ground arith))
          | inr (more, g) ↦
              rw (h, g, insert_all, readings)
                (λ e.
                  let added = attempt_reading-Added w i w.now r tx more (rel i) g in
                  Filled-cons w.now r (readings vs) tx more done added (
                    insert_all-Filled w agent (suc i) vs more done
                      (update_tag w.now (tag_data agent t r) st) rel (ap (λ x. x.aborted) added.1)
                      e))
        ]
  ]

  -- Nothing changed in the database and the packet is not acknowledged, or its readings are stored and it is.
  abbrev pub Settled : ℕ → ℕ → List (Reading F) → (before after : CentralServer F) → Type 0
  Settled now pkid rs s t =
      ((t.acks ≡ s.acks) × (t.tag_events ≡ s.tag_events))
      ⊎ ((rows : List (EventRow F)) × (t.acks ≡ pkid ∷ s.acks)
          × (t.tag_events ≡ s.tag_events ++ rows)
          × Holds now rs rows)

  finish-Settled :
      (w : World) (pkid : ℕ) (rs : List (Reading F)) (o : Option (Transaction (EventRow F)))
      (s : CentralServer F)
      → ((done : Transaction (EventRow F)) → o ≡ some done → Filled w.now rs begun done)
      → Settled w.now pkid rs s (finish w pkid o s)
  unfolding finish committed
  finish-Settled w pkid rs none s f = inl (refl, refl)
  finish-Settled w pkid rs (some tx) s f = elim (Bool-cases w.commits) [
    | inr e ↦ rw e (inl (refl, refl))
    | inl e ↦ let (rows, g, holds) = f tx refl in rw (e, g) (inr (rows, refl, refl, holds))
  ]

  store_packet-Settled :
      (w : World) (agent : String) (pkid : ℕ) (vs : List (Value F)) (s : CentralServer F)
      → ((j : ℕ) → (w.reading j).release ≡ true)
      → Settled w.now pkid (readings vs) s (store_packet time w agent pkid vs s)
  unfolding store_packet
  store_packet-Settled w agent pkid vs s rel =
      let result = insert_all time w agent 0 vs begun s.app in
      if-elim (Settled w.now pkid (readings vs) s) w.begins
        (finish w pkid result.1 (record s { app = result.0 })) s
        (finish-Settled w pkid (readings vs) result.1 (record s { app = result.0 })
          (λ done. insert_all-Filled w agent 0 vs begun done s.app rel refl))
        (inl (refl, refl))

module _ {F : Type 0} ⦃serde : Serde F⦄ (time : ℤ → Option ℕ) where
  -- The readings of a payload: none, if it is not an array in JSON.
  unfoldable pub packet : List ℕ → List (Reading F)
  packet payload = readings time (unwrap_or (elements_of payload) [])

  -- Provided that savepoints can be released, a packet of telemetry is acknowledged only together with the storing of a row for every reading that it holds, in order, with its value, its quality and its time and with its tag or with none; otherwise the table is as before, and so are the acknowledgements.
  pub process_data-Settled :
      (w : World) (agent : String) (m : MqttMessage) (s : CentralServer F)
      → ((j : ℕ) → (w.reading j).release ≡ true)
      → Settled time w.now m.pkid (packet m.payload) s (process_data time w agent m s)
  unfolding process_data packet readings
  process_data-Settled w agent m s rel = elim (Option-cases (elements_of {F = F} m.payload)) [
    | inl e ↦ rw (e, process_data, packet) (inr ([], refl, sym (append-nil s.tag_events), tt))
    | inr (vs, e) ↦ rw (e, process_data, packet) (store_packet-Settled time w agent m.pkid vs s rel)
  ]
