-- ===== src/Printer/Printing.antt =====
-- crates/application/src/automation/executor.rs: actions that accumulate and print. The print queue
-- and the publisher answer through a `World`; the jobs and the reports are listed oldest first.
pub mod Jobs
use Prim.Native.Char.{Char}
use Prim.Native.String.{◌++◌ as add_text}
use Prim.Native.String
use ifascada.Prelude.{
  ℕ, zero, suc, ◌+◌, String, Bool, Option, none, some, List, [], ◌∷◌, ◌++◌, map, get_elem?,
  unwrap_or, ltb, ◌==◌, same, if◌then◌else◌, ◌&&◌,
}
use ifascada.Prelude.Map.{lookup, insert}
use ifascada.Text.{decimal, trim}
use ifascada.Float.{Float}
use ifascada.Json.{Value, Serde, number, object, get}
use ifascada.Domain.TagId.{TagId}
use ifascada.Domain.Config.{ActionConfig, print_ticket, publish_mqtt, accumulate_data, print_batch}
use ifascada.Domain.Event.{DomainEvent, ReportItem, report_completed}
use ifascada.Printer.Batch.{PrintItem, BatchManager, add_item, take_batch}
use ifascada.Printer.Batch
use ifascada.Printer.Receipt.{
  ReceiptBuilder, initialize, align_center, align_left, text_line, separator, kv, feed, cut, build,
  pad_left,
}
use ifascada.Printer.Receipt

module _ {F : Type 0} ⦃serde : Serde F⦄ where
  -- The text of a value on a receipt.
  unfoldable pub extract_value : Value F → String
  extract_value (object m) = elim (get "value" (object m)) [
    | some v ↦ serde.to_string v
    | none ↦ serde.to_string (object m)
  ]
  extract_value v = serde.to_string v

  -- A line of a report: its number, and the value in eight characters.
  unfoldable pub report_line : ℕ → Value F → String
  report_line i v = add_text (decimal i) (add_text ". " (pad_left 8 (extract_value v)))

  unfoldable pub report_lines : ℕ → List (ReportItem F) → ReceiptBuilder → ReceiptBuilder
  report_lines i [] b = b
  report_lines i (item ∷ items) b =
      report_lines (suc i) items (text_line (report_line i item.value) b)

  unfoldable pub report : String → List (ReportItem F) → List ℕ
  report header items =
      let b = align_left (separator (text_line header (align_center (initialize Receipt.new)))) in
      build (
        cut (
          feed 2 (text_line "FIN DEL REPORTE" (align_center (separator (report_lines 1 items b))))))

  unfoldable pub ticket : TagId → Value F → String → List ℕ
  ticket tag_id payload date =
      let b = text_line "LABORATORIOS IFA S.A." (align_center (initialize Receipt.new)) in
      let c = kv "Tag:" tag_id.as_str (align_left (separator b)) in
      build (cut (feed 2 (separator (kv "Fecha:" date (kv "Valor:" (extract_value payload) c)))))

-- What the outside answers in one action.
pub record World (F : Type 0) : Type 0 where
  pub created : ℕ  -- the clock at a new session
  pub now : ℕ
  pub date : String  -- the local time
  pub uuid : String
  pub published : DomainEvent F → Bool
  pub accepted : List ℕ → Bool  -- whether the queue takes a job

pub record PrintingActionExecutor (F : Type 0) : Type 0 where
  pub print_queue : List (List ℕ)
  pub batch_managers : List (String × BatchManager F)
  pub agent_id : String
  pub reports : List (DomainEvent F × Bool)  -- with the publisher's answer

module _ {F : Type 0} where
  unfoldable pub new : String → PrintingActionExecutor F
  new agent_id = record { print_queue = []; batch_managers = []; agent_id = agent_id; reports = [] }

  -- A job that the queue refuses is logged.
  unfoldable pub send_job : World F → List ℕ → PrintingActionExecutor F → PrintingActionExecutor F
  send_job w job x =
      if w.accepted job then record x { print_queue = x.print_queue ++ job ∷ [] } else x

  abbrev pub to_report : PrintItem F → ReportItem F
  to_report item = record {
    value = item.value;
    timestamp = item.timestamp;
    metadata = item.metadata;
  }

  -- The event that reports a batch.
  abbrev pub reported : World F → TagId → String → List (ReportItem F) → DomainEvent F
  reported w tag_id agent items =
      report_completed (add_text "man_" (add_text tag_id.as_str (add_text "_" w.uuid))) agent items
        w.now

module _ {F : Type 0} ⦃serde : Serde F⦄ where
  unfoldable pub process_batch_print :
      World F
      → TagId
      → List (ReportItem F)
      → String
      → PrintingActionExecutor F
      → PrintingActionExecutor F
  process_batch_print w tag_id [] header x = x
  process_batch_print w tag_id (item ∷ items) header x =
      let e = reported w tag_id x.agent_id (item ∷ items) in
      send_job w (report header (item ∷ items))
        (record x { reports = x.reports ++ (e, w.published e) ∷ [] })

  unfoldable pub execute_manual_batch :
      World F → TagId → List (ReportItem F) → PrintingActionExecutor F → PrintingActionExecutor F
  execute_manual_batch w tag_id items x =
      process_batch_print w tag_id items "REPORTE MANUAL DE PESAJES" x

module _ {F : Type 0} ⦃f : Float F⦄ ⦃serde : Serde F⦄ (is_whitespace : Char → Bool) where
  unfoldable pub execute :
      World F → ActionConfig → TagId → Value F → PrintingActionExecutor F → PrintingActionExecutor F
  execute w (print_ticket template url) tag_id payload x =
      send_job w (ticket tag_id payload w.date) x
  execute w (accumulate_data session_id template) tag_id payload x =
      let id = trim is_whitespace session_id in
      let m = unwrap_or (lookup id x.batch_managers) (Batch.new w.created) in
      record x { batch_managers = insert id (add_item w.now payload none m) x.batch_managers }
  execute w (print_batch session_id header footer) tag_id payload x =
      let id = trim is_whitespace session_id in
      elim (lookup id x.batch_managers) [
        | none ↦ x
        | some m ↦
            process_batch_print w tag_id (map to_report (take_batch m).1) header
              (record x { batch_managers = insert id (take_batch m).0 x.batch_managers })
      ]
  execute w (publish_mqtt topic template) tag_id payload x = x
