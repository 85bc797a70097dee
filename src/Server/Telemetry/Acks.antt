-- ===== src/Server/Telemetry/Acks.antt =====
-- When crates/central-server/src/main.rs acknowledges a packet of telemetry.
use ifascada.Prelude.{
  ℕ, suc, ◌≡◌, refl, ◌⊎◌, inl, inr, String, true, false, Option, none, some, List, [], ◌∷◌, ◌++◌,
  Option-cases, All,
}
use ifascada.Prelude.Int.{ℤ}
use ifascada.Json.{Value, Serde}
use ifascada.Messaging.Client.{MqttMessage}
use ifascada.Server.{AppState, update_tag}
use ifascada.Server.Database.{EventRow, CentralServer, Transaction, begun}
use ifascada.Server.Telemetry.Stored.{readings, packet}
use ifascada.Server.Telemetry.{
  inserted, foreign_key, Answers, World, Reading, reading_of, row_of, insert_unregistered,
  insert_registered, insert_reading, attempt_reading, tag_data, time_of, insert_all, finish,
  store_packet, elements_of, process_data,
}

-- The statements for a reading succeed, or the tag is not registered and those for such a tag succeed.
pub record IsWilling (a : Answers) : Type 0 where
  pub savepoint : a.savepoint ≡ true
  pub release : a.release ≡ true
  pub insert :
      (a.insert ≡ inserted) ⊎ ((a.insert ≡ foreign_key) × (a.rollback ≡ true) × (a.fallback ≡ true))

abbrev added : {F : Type 0} → EventRow F → Transaction (EventRow F) → Transaction (EventRow F)
added row tx = record { rows = tx.rows ++ row ∷ []; aborted = false }

module _ {F : Type 0} (time : ℤ → Option ℕ) where
  insert_reading-live :
      (a : Answers) (now : ℕ) (r : Reading F) (tx : Transaction (EventRow F))
      → IsWilling a
      → tx.aborted ≡ false
      → (more : Transaction (EventRow F)) × (insert_reading a (time_of time now r) r tx ≡ some more)
        × (more.aborted ≡ false)
  unfolding insert_reading insert_registered insert_unregistered
  insert_reading-live a now r tx h live = elim h.insert [
    | inl e ↦ (
      added (row_of (some r.tag_id) (time_of time now r) r) tx,
      rw (h.savepoint, live, e, h.release) refl,
      refl,
    )
    | inr (e, b, c) ↦
        (added (row_of none (time_of time now r) r) tx, rw (h.savepoint, live, e, b, c) refl, refl)
  ]

  attempt_reading-live :
      (w : World) (i now : ℕ) (r : Reading F) (tx : Transaction (EventRow F))
      → w.fits (time_of time now r) ≡ true
      → IsWilling (w.reading i)
      → tx.aborted ≡ false
      → (more : Transaction (EventRow F)) × (attempt_reading w i (time_of time now r) r tx
          ≡ some more)
        × (more.aborted ≡ false)
  unfolding attempt_reading
  attempt_reading-live w i now r tx fit h live =
      rw fit (insert_reading-live (w.reading i) now r tx h live)

  -- The times of the readings fit.
  abbrev pub Fit : World → List (Value F) → Type 0
  Fit w vs = All (λ r. w.fits (time_of time w.now r) ≡ true) (readings time vs)

  insert_all-live :
      (w : World) (agent : String) (i : ℕ) (vs : List (Value F)) (tx : Transaction (EventRow F))
      (st : AppState F)
      → ((j : ℕ) → IsWilling (w.reading j))
      → tx.aborted ≡ false
      → Fit w vs
      → (done : Transaction (EventRow F)) × ((insert_all time w agent i vs tx st).1 ≡ some done)
  unfolding insert_all readings
  insert_all-live w agent i [] tx st h live = λ fit. (tx, refl)
  insert_all-live w agent i (v ∷ vs) tx st h live = elim (Option-cases (reading_of v)) [
    | inl n ↦ rw (n, insert_all, readings) (insert_all-live w agent (suc i) vs tx st h live)
    | inr (r, e) ↦
        let t = time_of time w.now r in
        rw (e, insert_all, readings)
          (λ fit.
            let (more, g, alive) = attempt_reading-live w i w.now r tx fit.0 (h i) live in
            rw (g, insert_all)
              (insert_all-live w agent (suc i) vs more (update_tag w.now (tag_data agent t r) st) h
                alive fit.1))
  ]

module _ {F : Type 0} ⦃serde : Serde F⦄ (time : ℤ → Option ℕ) where
  -- If the transaction begins and commits, the statements for the readings succeed, for tags that are registered and for others, and the times of the packet's readings fit the time crate, whose conversion panics otherwise, then the packet is acknowledged, also if it has no reading or is not JSON.
  pub process_data-acks :
      (w : World) (agent : String) (m : MqttMessage) (s : CentralServer F)
      → w.begins ≡ true
      → w.commits ≡ true
      → ((j : ℕ) → IsWilling (w.reading j))
      → All (λ r. w.fits (time_of time w.now r) ≡ true) (packet {F = F} time m.payload)
      → (process_data time w agent m s).acks ≡ m.pkid ∷ s.acks
  unfolding process_data store_packet finish insert_all packet
  process_data-acks w agent m s b c h = elim (Option-cases (elements_of {F = F} m.payload)) [
    | inl e ↦ rw (e, process_data, packet) (λ fit. refl)
    | inr (vs, e) ↦
        rw (e, process_data, packet)
          (λ fit.
            let (done, g) = insert_all-live time w agent 0 vs begun s.app h refl fit in
            rw (store_packet, g, finish, c, b) refl)
  ]
