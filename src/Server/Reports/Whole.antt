-- ===== src/Server/Reports/Whole.antt =====
-- Which reports crates/central-server/src/main.rs stores.
use ifascada.Prelude.{
  ℕ, suc, ◌≡◌, refl, sym, ap, ◌∙◌, inl, inr, String, Bool, true, false, ◌&&◌, not, Option, some,
  List, [], ◌∷◌, ◌++◌, map, arith, if◌then◌else◌, Bool-cases,
}
use mathlib.Core.List.{append_assoc, append-nil}
use ifascada.Float.{Float}
use ifascada.Json.{Value}
use ifascada.Domain.Event.{ReportItem}
use ifascada.Messaging.Client.{MqttMessage}
use ifascada.Server.{ReportData, report_completed}
use ifascada.Server.Database.{CentralServer, Transaction, begun, ack}
use ifascada.Server.Reports.{
  World, stored, insert_item, insert_items, report_row, stored_rows, commit_report, store_report,
  begin_report, process_report, start_time, end_time, items_fit,
}

module _ {F : Type 0} where
  -- The database takes every item, from a place on.
  unfoldable pub takes_all : World → ℕ → List (ReportItem F) → Bool
  takes_all w i [] = true
  takes_all w i (item ∷ items) = w.item i && takes_all w (suc i) items

  abbrev pub item_rows : List (ReportItem F) → List (Value F × ℕ)
  item_rows items = map (λ i. (i.value, i.timestamp)) items

  abbrev added : ReportItem F → Transaction (Value F × ℕ) → Transaction (Value F × ℕ)
  added item tx = record { rows = tx.rows ++ (item.value, item.timestamp) ∷ []; aborted = false }

  insert_item-added :
      (item : ReportItem F) (tx : Transaction (Value F × ℕ))
      → tx.aborted ≡ false
      → insert_item true item tx ≡ added item tx
  unfolding insert_item
  insert_item-added item tx e = rw e refl

  insert_items-aborted :
      (w : World) (i : ℕ) (items : List (ReportItem F)) (tx : Transaction (Value F × ℕ))
      → tx.aborted ≡ true
      → (insert_items w i items tx).aborted ≡ true
  unfolding insert_items insert_item
  insert_items-aborted w i [] tx e = e
  insert_items-aborted w i (item ∷ items) tx e =
      insert_items-aborted w (suc i) items (insert_item (w.item i) item tx) (ground (arith, e))

  -- The loop over the items stores them all, or aborts.
  insert_items-takes_all :
      (w : World) (i : ℕ) (items : List (ReportItem F)) (tx : Transaction (Value F × ℕ))
      → tx.aborted ≡ false
      → ((insert_items w i items tx).aborted ≡ not (takes_all w i items))
        × (takes_all w i items ≡ true
            → (insert_items w i items tx).rows ≡ tx.rows ++ item_rows items)
  unfolding insert_items insert_item takes_all
  insert_items-takes_all w i [] tx e = (e, λ t. sym (append-nil tx.rows))
  insert_items-takes_all w i (item ∷ items) tx e = elim (Bool-cases (w.item i)) [
    | inl t ↦
        let q = ap (λ b. insert_item b item tx) t ∙ insert_item-added item tx e in
        let (aborts, rows) = insert_items-takes_all w (suc i) items (added item tx) refl in
        (
          ap (λ x. (insert_items w (suc i) items x).aborted) q ∙ ground (arith, t, aborts),
          λ h.
              ap (λ x. (insert_items w (suc i) items x).rows) q
              ∙ rows (ground (arith, t, h))
              ∙ append_assoc tx.rows (item_rows (item ∷ [])) (item_rows items),
        )
    | inr n ↦
        let q = ap (λ b. insert_item b item tx) n in
        let aborts = insert_items-aborted w (suc i) items (record tx { aborted = true }) refl in
        (
          ap (λ x. (insert_items w (suc i) items x).aborted) q ∙ ground (arith, n, aborts),
          λ h. absurd (ground (arith, n, h)),
        )
  ]

module _ {F : Type 0} ⦃f : Float F⦄ where
  stored_rows-if :
      (r : ReportData F) (tx : Transaction (Value F × ℕ)) (all : Bool)
      → tx.aborted ≡ not all
      → (all ≡ true → tx.rows ≡ item_rows r.items)
      → stored_rows r tx ≡ (if all then report_row r (item_rows r.items) ∷ [] else [])
  unfolding stored_rows
  stored_rows-if r tx true e rows = rw (e, rows refl) refl
  stored_rows-if r tx false e rows = rw e refl

  -- A report that is committed.
  process_report-committed :
      (read : List ℕ → Option (ReportData F)) (w : World) (agent : String) (m : MqttMessage)
      (s : CentralServer F) (r : ReportData F)
      → read m.payload ≡ some r
      → w.begins ≡ true
      → w.summary ≡ stored
      → w.commits ≡ true
      → w.fits (start_time r) ≡ true
      → w.fits (end_time r) ≡ true
      → items_fit w r.items ≡ true
      → process_report read w agent m s
        ≡ ack m.pkid (record s {
          app = record s.app {
            sent = report_completed (record r { agent_id = agent }) ∷ s.app.sent;
          };
          reports =
              s.reports
              ++ stored_rows (record r { agent_id = agent }) (insert_items w 0 r.items begun);
        })
  unfolding process_report begin_report store_report commit_report start_time end_time items_fit
      stored_rows
  process_report-committed read w agent m s r e b u c p q i =
      rw (e, process_report, b, begin_report, p, q, u, store_report, i, c) refl

  -- A report whose own row is stored, in a transaction that begins and commits, and whose times all fit the time crate, is notified and acknowledged; the report is stored with all of its items, in order, if the database takes every item, and otherwise nothing of it is stored.
  pub process_report-takes_all :
      (read : List ℕ → Option (ReportData F)) (w : World) (agent : String) (m : MqttMessage)
      (s : CentralServer F) (r : ReportData F)
      → read m.payload ≡ some r
      → w.begins ≡ true
      → w.summary ≡ stored
      → w.commits ≡ true
      → w.fits (start_time r) ≡ true
      → w.fits (end_time r) ≡ true
      → items_fit w r.items ≡ true
      → let report = record r { agent_id = agent } in
        let t = process_report read w agent m s in
        (t.acks ≡ m.pkid ∷ s.acks)
        × (t.app.sent ≡ report_completed report ∷ s.app.sent)
        × (t.reports
            ≡ s.reports
              ++ (if takes_all w 0 r.items then report_row report (item_rows r.items) ∷ [] else []))
  unfolding stored_rows
  process_report-takes_all read w agent m s r e b u c p q i =
      let tx = insert_items w 0 r.items begun in
      let (aborts, rows) = insert_items-takes_all w 0 r.items begun refl in
      let whole = process_report-committed read w agent m s r e b u c p q i in
      (
        ap (λ t. t.acks) whole,
        ap (λ t. t.app.sent) whole,
        ap (λ t. t.reports) whole
            ∙ ap (λ l. s.reports ++ l)
                (stored_rows-if (record r { agent_id = agent }) tx (takes_all w 0 r.items) aborts
                  rows),
      )
