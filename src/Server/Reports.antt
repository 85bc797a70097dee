-- ===== src/Server/Reports.antt =====
-- The reports of an agent: process_report_message of crates/central-server/src/main.rs.
pub mod Whole
use ifascada.Prelude.{
  ℕ, suc, String, Bool, true, false, not, Option, none, some, List, [], ◌∷◌, ◌++◌, if◌then◌else◌,
  ◌&&◌, get_last?, unwrap_or,
}
use mathlib.Core.Option
use ifascada.Float.{Float}
use ifascada.Json.{Value, number, object, get, as_f64, number_as_f64, of_f64}
use ifascada.Domain.Event.{ReportItem}
use ifascada.Messaging.Client.{MqttMessage}
use ifascada.Server.{AppState, ReportData, report_completed}
use ifascada.Server.Database.{ReportRow, CentralServer, Transaction, begun, ack}

-- The answer to the INSERT of the report's own row.
pub data Summary : Type 0 where
  stored nothing refused : Summary

-- The database's answers: for each item by its place, if the transaction is not aborted.
pub record World : Type 0 where
  pub begins : Bool
  pub summary : Summary
  pub item : ℕ → Bool
  pub commits : Bool
  pub fits : ℕ → Bool  -- whether the time crate can hold a time

module _ {F : Type 0} where
  first : List (ReportItem F) → Option (ReportItem F)
  first [] = none
  first (i ∷ items) = some i

  unfoldable pub start_time : ReportData F → ℕ
  unfolding first
  start_time r = unwrap_or (Option.map (λ i. i.timestamp) (first r.items)) r.timestamp

  unfoldable pub end_time : ReportData F → ℕ
  end_time r = unwrap_or (Option.map (λ i. i.timestamp) (get_last? r.items)) r.timestamp

  -- An item whose INSERT fails aborts the transaction, which nobody looks at.
  unfoldable pub insert_item :
      Bool → ReportItem F → Transaction (Value F × ℕ) → Transaction (Value F × ℕ)
  insert_item answer item tx =
      if answer && not tx.aborted
      then record { rows = tx.rows ++ (item.value, item.timestamp) ∷ []; aborted = false }
      else record tx { aborted = true }

  unfoldable pub insert_items :
      World → ℕ → List (ReportItem F) → Transaction (Value F × ℕ) → Transaction (Value F × ℕ)
  insert_items w i [] tx = tx
  insert_items w i (item ∷ items) tx = insert_items w (suc i) items (insert_item (w.item i) item tx)

  -- The times of the items can be converted; a panic gives the report up.
  unfoldable pub items_fit : World → List (ReportItem F) → Bool
  items_fit w [] = true
  items_fit w (i ∷ items) = w.fits i.timestamp && items_fit w items

module _ {F : Type 0} ⦃f : Float F⦄ where
  -- The weight of an item: a number, or the `value` of an object.
  unfoldable pub measure : Value F → F
  measure (number n) = number_as_f64 n
  measure (object m) = elim (get "value" (object m)) [
    | none ↦ f.of_u64 0
    | some v ↦ unwrap_or (as_f64 v) (f.of_u64 0)
  ]
  measure _ = f.of_u64 0

  unfoldable pub total_from : F → List (ReportItem F) → F
  total_from acc [] = acc
  total_from acc (i ∷ items) = total_from (f.plus acc (measure i.value)) items

  unfoldable pub report_row : ReportData F → List (Value F × ℕ) → ReportRow F
  report_row r items = record {
    report_id = r.report_id;
    agent_id = r.agent_id;
    start_time = start_time r;
    end_time = end_time r;
    total_value = of_f64 (total_from (f.of_u64 0) r.items);
    items = items;
  }

  -- The report and its items, if the transaction is not aborted.
  unfoldable pub stored_rows : ReportData F → Transaction (Value F × ℕ) → List (ReportRow F)
  stored_rows r tx = if tx.aborted then [] else report_row r tx.rows ∷ []

  -- A report that is committed is notified and acknowledged.
  unfoldable pub commit_report : World → ℕ → ReportData F → CentralServer F → CentralServer F
  commit_report w pkid r s =
      if items_fit w r.items && w.commits
      then ack pkid (record s {
        app = record s.app { sent = report_completed r ∷ s.app.sent };
        reports = s.reports ++ stored_rows r (insert_items w 0 r.items begun);
      })
      else s

  unfoldable pub store_report :
      Summary → World → ℕ → ReportData F → CentralServer F → CentralServer F
  store_report stored w pkid r s = commit_report w pkid r s
  store_report nothing w pkid r s = ack pkid s
  store_report refused w pkid r s = s

  unfoldable pub begin_report : World → ℕ → ReportData F → CentralServer F → CentralServer F
  begin_report w pkid r s =
      if w.begins && w.fits (start_time r) && w.fits (end_time r)
      then store_report w.summary w pkid r s
      else s

  -- `read` is the deserialization of a report. The agent is the one of the topic.
  unfoldable pub process_report :
      (read : List ℕ → Option (ReportData F))
      → World
      → String
      → MqttMessage
      → CentralServer F
      → CentralServer F
  process_report read w agent m s = elim (read m.payload) [
    | none ↦ ack m.pkid s
    | some r ↦ begin_report w m.pkid (record r { agent_id = agent }) s
  ]
