-- ===== src/Printer/Printing/Jobs.antt =====
-- What the actions of crates/application/src/automation/executor.rs print.
use Prim.Native.Char.{Char}
use mathlib.Core.List.{append_assoc, append-nil}
use ifascada.Prelude.{
  ℕ, suc, ◌≡◌, refl, sym, ap, ◌∙◌, String, Bool, false, Option, none, some, List, [], ◌∷◌, ◌++◌,
  map, arith, same, same_iff, same_refl, unwrap_or, if◌then◌else◌, Option-cases, inl, inr,
}
use ifascada.Prelude.Map.{lookup, insert, lookup-insert}
use ifascada.Float.{Float}
use ifascada.Json.{Value, Serde}
use ifascada.Domain.TagId.{TagId}
use ifascada.Domain.Config.{ActionConfig, print_ticket, publish_mqtt, accumulate_data, print_batch}
use ifascada.Domain.Event.{ReportItem}
use ifascada.Text.{trim}
use ifascada.Text.Utf8.{as_bytes}
use ifascada.Printer.Batch.{PrintItem, BatchManager, add_item, take_batch}
use ifascada.Printer.Batch
use ifascada.Printer.Receipt.{
  ReceiptBuilder, initialize, align_center, align_left, text_line, separator, feed, cut,
}
use ifascada.Printer.Receipt
use ifascada.Printer.Printing.{
  World, PrintingActionExecutor, report_line, report_lines, report, reported, to_report, send_job,
  process_batch_print, execute,
}

-- The session that an action names, and whether it is the given one.
abbrev pub names : (Char → Bool) → ActionConfig → String → Bool
names ws (accumulate_data id t) j = same (trim ws id) j
names ws (print_batch id h t) j = same (trim ws id) j
names ws _ j = false

module _ {F : Type 0} where
  -- The batch of a session, which a session that was never opened has not.
  abbrev current : Option (BatchManager F) → List (PrintItem F)
  current none = []
  current (some m) = m.current_batch

  abbrev pub batch_of : String → PrintingActionExecutor F → List (PrintItem F)
  batch_of id x = current (lookup id x.batch_managers)

  abbrev pub if_any : {A : Type 0} → List (ReportItem F) → A → List A
  if_any [] a = []
  if_any (item ∷ items) a = a ∷ []

abbrev rule : String
rule = "----------------------------------------"

module _ {F : Type 0} ⦃serde : Serde F⦄ where
  -- What the queue gets for a report.
  abbrev pub queued : World F → String → List (ReportItem F) → List (List ℕ)
  queued w header [] = []
  queued w header (item ∷ items) =
      let job = report header (item ∷ items) in if w.accepted job then job ∷ [] else []

  -- The lines of a report: each item's number and value, and a line feed.
  abbrev pub lines : ℕ → List (ReportItem F) → List ℕ
  lines i [] = []
  lines i (item ∷ items) = as_bytes (report_line i item.value) ++ 10 ∷ [] ++ lines (suc i) items

  report_lines_lem :
      (i : ℕ) (items : List (ReportItem F)) (b : ReceiptBuilder)
      → (report_lines i items b).buffer ≡ b.buffer ++ lines i items
  unfolding report_lines text_line
  report_lines_lem i [] b = sym (append-nil b.buffer)
  report_lines_lem i (item ∷ items) b =
      let s = as_bytes (report_line i item.value) in
      report_lines_lem (suc i) items (text_line (report_line i item.value) b)
      ∙ rw
          (
            append_assoc (b.buffer ++ s) (10 ∷ []) (lines (suc i) items),
            append_assoc b.buffer s (10 ∷ lines (suc i) items),
            append_assoc s (10 ∷ []) (lines (suc i) items),
          )
          refl

  -- A report is its header, a line for each item in order, numbered from 1, and its end; ESC/POS commands set the layout.
  pub report-lines :
      (header : String) (items : List (ReportItem F))
      → report header items
        ≡ (27 ∷ 64 ∷ 27 ∷ 97 ∷ 1 ∷ [])
          ++ as_bytes header
          ++ 10 ∷ []
          ++ as_bytes rule
          ++ 10 ∷ []
          ++ (27 ∷ 97 ∷ 0 ∷ [])
          ++ lines 1 items
          ++ as_bytes rule
          ++ 10 ∷ []
          ++ (27 ∷ 97 ∷ 1 ∷ [])
          ++ as_bytes "FIN DEL REPORTE"
          ++ 10 ∷ []
          ++ (27 ∷ 100 ∷ 2 ∷ [])
          ++ (29 ∷ 86 ∷ 66 ∷ 0 ∷ [])
  unfolding report initialize align_center align_left text_line separator feed cut
  report-lines header items =
      let b = align_left (separator (text_line header (align_center (initialize Receipt.new)))) in
      rw (report_lines_lem 1 items b) refl

  process_batch_print_lem :
      (w : World F) (tag_id : TagId) (items : List (ReportItem F)) (header : String)
      (x : PrintingActionExecutor F)
      → let y = process_batch_print w tag_id items header x in
        (y.print_queue ≡ x.print_queue ++ queued w header items)
        × (y.reports
            ≡ x.reports
              ++ if_any items (
                reported w tag_id x.agent_id items,
                w.published (reported w tag_id x.agent_id items),
              ))
        × (y.batch_managers ≡ x.batch_managers)
  unfolding process_batch_print send_job
  process_batch_print_lem w tag_id [] header x =
      ground (arith, append-nil x.print_queue, append-nil x.reports)
  process_batch_print_lem w tag_id (item ∷ items) header x =
      ground (arith, append-nil x.print_queue)

module _ {F : Type 0} ⦃f : Float F⦄ ⦃serde : Serde F⦄ (ws : Char → Bool) where
  -- Printing a batch puts one report of the session's items into the queue, unless the queue refuses it, and publishes one event with the same items, or does neither if there are none; it empties that session and leaves the others.
  pub execute-print_batch :
      (w : World F) (id header footer : String) (tag_id : TagId) (payload : Value F)
      (x : PrintingActionExecutor F)
      → let y = execute ws w (print_batch id header footer) tag_id payload x in
        let items = map to_report (batch_of (trim ws id) x) in
        let e = reported w tag_id x.agent_id items in
        (y.print_queue ≡ x.print_queue ++ queued w header items)
        × (y.reports ≡ x.reports ++ if_any items (e, w.published e))
        × ((j : String) → batch_of j y ≡ (if same (trim ws id) j then [] else batch_of j x))
  unfolding execute take_batch
  execute-print_batch w id header footer tag_id payload x =
      elim (Option-cases (lookup (trim ws id) x.batch_managers)) [
        | inl e ↦ (
          ground (arith, append-nil x.print_queue),
          ground (arith, append-nil x.reports),
          λ j. ground (arith, same_iff (trim ws id) j),
        )
        | inr (m, e) ↦
            let m' : BatchManager F = record m { current_batch = [] } in
            let h =
              process_batch_print_lem w tag_id (map to_report m.current_batch) header
                (record x { batch_managers = insert (trim ws id) m' x.batch_managers }) in
            (
              ground (arith, h.0),
              ground (arith, h.1),
              λ j. ground (arith, h.2, lookup-insert (trim ws id) j m' x.batch_managers),
            )
      ]

  -- An action changes at most the batch of the session it names.
  pub execute_other :
      (w : World F) (action : ActionConfig) (tag_id : TagId) (payload : Value F)
      (x : PrintingActionExecutor F) (j : String)
      → names ws action j ≡ false
      → batch_of j (execute ws w action tag_id payload x) ≡ batch_of j x
  execute_other w (print_ticket template url) tag_id payload x j h =
      unfold execute send_job in ground arith
  execute_other w (accumulate_data id template) tag_id payload x j h =
      let m = unwrap_or (lookup (trim ws id) x.batch_managers) (Batch.new w.created) in
      unfold execute in
      rw (lookup-insert (trim ws id) j (add_item w.now payload none m) x.batch_managers, h) refl
  execute_other w (print_batch id header footer) tag_id payload x j h =
      (execute-print_batch w id header footer tag_id payload x).2 j
      ∙ ap (λ b. if b then [] else batch_of j x) h
  execute_other w (publish_mqtt topic template) tag_id payload x j h = unfold execute in refl

  -- A session that was just printed prints nothing more, and no report follows.
  pub execute-print_batch_again :
      (w w' : World F) (id header footer : String) (tag_id : TagId) (payload : Value F)
      (x : PrintingActionExecutor F)
      → let y = execute ws w (print_batch id header footer) tag_id payload x in
        let z = execute ws w' (print_batch id header footer) tag_id payload y in
        (z.print_queue ≡ y.print_queue) × (z.reports ≡ y.reports)
  execute-print_batch_again w w' id header footer tag_id payload x =
      let y = execute ws w (print_batch id header footer) tag_id payload x in
      let gone = (execute-print_batch w id header footer tag_id payload x).2 (trim ws id) in
      let h = execute-print_batch w' id header footer tag_id payload y in
      let empty =
        gone ∙ ap (λ b. if b then [] else batch_of (trim ws id) x) (same_refl (trim ws id)) in
      (
        h.0
            ∙ ap (λ b. y.print_queue ++ queued w' header (map to_report b)) empty
            ∙ append-nil y.print_queue,
        h.1
            ∙ ap
                (λ b.
                  let items = map to_report b in
                  let e = reported w' tag_id y.agent_id items in
                  y.reports ++ if_any items (e, w'.published e))
                empty
            ∙ append-nil y.reports,
      )
