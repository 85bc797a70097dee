-- ===== src/Server/Database.antt =====
-- What crates/central-server keeps: its state in memory, the tables that it fills, and the packets that
-- it acknowledged. Transactions are PostgreSQL's: after a statement that fails every other one fails,
-- up to a rollback, and the commit of such a transaction stores nothing, without an error.
use ifascada.Prelude.{ℕ, String, Bool, false, Option, List, [], ◌∷◌, if◌then◌else◌}
use ifascada.Json.{Value}
use ifascada.Server.{AppState}

-- A row of `tag_events`, without a tag where the tag is not registered.
pub record EventRow (F : Type 0) : Type 0 where
  pub tag_id : Option String
  pub value : Value F
  pub quality : String
  pub timestamp : ℕ

-- A row of `reports` with its rows of `report_items`, of values and times.
pub record ReportRow (F : Type 0) : Type 0 where
  pub report_id : String
  pub agent_id : String
  pub start_time : ℕ
  pub end_time : ℕ
  pub total_value : Value F
  pub items : List (Value F × ℕ)

pub record CentralServer (F : Type 0) : Type 0 where
  pub app : AppState F
  pub tag_events : List (EventRow F)
  pub reports : List (ReportRow F)
  pub acks : List ℕ  -- newest first

-- A transaction: the rows inserted, and whether a statement failed.
pub record Transaction (R : Type 0) : Type 0 where
  pub rows : List R
  pub aborted : Bool

abbrev pub begun : {R : Type 0} → Transaction R
begun = record { rows = []; aborted = false }

-- The rows that a commit stores.
unfoldable pub committed : {R : Type 0} → Transaction R → List R
committed tx = if tx.aborted then [] else tx.rows

abbrev pub ack : {F : Type 0} → ℕ → CentralServer F → CentralServer F
ack pkid s = record s { acks = pkid ∷ s.acks }
