-- ===== src/Server/Flusher.antt =====
-- The store-and-forward of the central server: start_db_flusher of crates/central-server/src/main.rs,
-- over the buffer of crates/infrastructure/src/database/sqlite_buffer.rs.
use ifascada.Prelude.{
  ℕ, ◌≡◌, refl, sym, subst, ◌⊎◌, inl, inr, Bool, true, false, Option, none, some, List, [], ◌∷◌,
  ◌++◌, ltb, if◌then◌else◌, if-elim, In, In-append_left, In-append_right, All, Bool-cases,
  Option-cases,
}
use native.Mathlib.Decide.{ℕ_discrete}
use ifascada.Messaging.Publisher.{Row, delete}
use ifascada.Messaging.Publisher.Rows.{In-delete, delete-In}
use ifascada.Server.{TagData}
use ifascada.Server.Database.{EventRow}

-- What the database and SQLite answer for one row. A time that the time crate cannot hold panics before
-- the INSERT and ends the task: for the row, and for the turn, that is an INSERT that fails.
pub record Answers : Type 0 where
  pub inserts : Bool
  pub deletes : Bool

pub record Store (F : Type 0) : Type 0 where
  pub buffer : List Row
  pub tag_events : List (EventRow F)

-- Every row of the buffer with the id of the row is the row.
abbrev pub Owns : List Row → Row → Type 0
Owns buffer row = (r : Row) → In r buffer → r.id ≡ row.id → r ≡ row

module _ {F : Type 0} where
  abbrev pub event_of : TagData F → EventRow F
  event_of t = record {
    tag_id = some t.id;
    value = t.value;
    quality = t.quality;
    timestamp = t.timestamp;
  }

  -- The row leaves the buffer, if SQLite deletes it.
  unfoldable pub drop_row : Bool → Row → Store F → Store F
  drop_row deletes row s = record s {
    buffer = if deletes then delete row.id s.buffer else s.buffer;
  }

  abbrev insert_event : TagData F → Store F → Store F
  insert_event t s = record s { tag_events = s.tag_events ++ event_of t ∷ [] }

  -- `read` is the deserialization of a buffered tag. A row that cannot be read is deleted; an INSERT
  -- that fails ends the batch.
  unfoldable pub flush_rows :
      (read : List ℕ → Option (TagData F)) → List (Answers × Row) → Store F → Store F
  flush_rows read [] s = s
  flush_rows read ((a, row) ∷ rows) s = elim (read row.payload) [
    | none ↦ flush_rows read rows (drop_row a.deletes row s)
    | some t ↦ elim a.inserts [
      | true ↦ flush_rows read rows (drop_row a.deletes row (insert_event t s))
      | false ↦ s
    ]
  ]

  -- One turn of the loop: the number of rows, and the rows of `dequeue_batch(50)`; `none` is an error.
  unfoldable pub flush :
      (read : List ℕ → Option (TagData F))
      → Option ℕ
      → Option (List (Answers × Row))
      → Store F
      → Store F
  flush read none rows s = s
  flush read (some count) none s = s
  flush read (some count) (some rows) s = if ltb 0 count then flush_rows read rows s else s

  -- The tag of the row is stored, or the row cannot be read.
  abbrev IsDone : (List ℕ → Option (TagData F)) → Row → List (EventRow F) → Type 0
  IsDone read row events =
      ((t : TagData F) × (read row.payload ≡ some t) × In (event_of t) events)
      ⊎ (read row.payload ≡ none)

  abbrev pub IsKept : (List ℕ → Option (TagData F)) → Row → Store F → Type 0
  IsKept read row s = In row s.buffer ⊎ IsDone read row s.tag_events

  delete-IsKept :
      (read : List ℕ → Option (TagData F)) (r row : Row) (s : Store F)
      → Owns s.buffer row
      → IsDone read row s.tag_events
      → IsKept read r s
      → IsKept read r (record s { buffer = delete row.id s.buffer })
  delete-IsKept read r row s owns done (inr k) = inr k
  delete-IsKept read r row s owns done (inl k) = elim (ℕ_discrete r.id row.id) [
    | yes e ↦ inr (subst (λ x. IsDone read x s.tag_events) (sym (owns r k e)) done)
    | no ne ↦ inl (In-delete r row.id s.buffer k ne)
  ]

  drop_row-IsKept :
      (read : List ℕ → Option (TagData F)) (deletes : Bool) (r row : Row) (s : Store F)
      → Owns s.buffer row
      → IsDone read row s.tag_events
      → IsKept read r s
      → IsKept read r (drop_row deletes row s)
  unfolding drop_row
  drop_row-IsKept read true r row s owns done k = delete-IsKept read r row s owns done k
  drop_row-IsKept read false r row s owns done k = k

  insert_event-IsKept :
      (read : List ℕ → Option (TagData F)) (t : TagData F) (r : Row) (s : Store F)
      → IsKept read r s
      → IsKept read r (insert_event t s)
  insert_event-IsKept read t r s (inl k) = inl k
  insert_event-IsKept read t r s (inr (inl (u, e, k))) =
      inr (inl (u, e, In-append_left (event_of u) s.tag_events (event_of t ∷ []) k))
  insert_event-IsKept read t r s (inr (inr e)) = inr (inr e)

  drop_row-Owns :
      (deletes : Bool) (row : Row) (s : Store F) (r : Row)
      → Owns s.buffer r
      → Owns (drop_row deletes row s).buffer r
  unfolding drop_row
  drop_row-Owns true row s r owns = λ q k. owns q (delete-In q row.id s.buffer k)
  drop_row-Owns false row s r owns = owns

  All-Owns :
      (deletes : Bool) (row : Row) (s : Store F) (rows : List (Answers × Row))
      → All (λ p. Owns s.buffer p.1) rows
      → All (λ p. Owns (drop_row deletes row s).buffer p.1) rows
  All-Owns deletes row s [] h = tt
  All-Owns deletes row s (p ∷ rows) h =
      (drop_row-Owns deletes row s p.1 h.0, All-Owns deletes row s rows h.1)

  flush_rows-IsKept :
      (read : List ℕ → Option (TagData F)) (rows : List (Answers × Row)) (s : Store F) (r : Row)
      → All (λ p. Owns s.buffer p.1) rows
      → IsKept read r s
      → IsKept read r (flush_rows read rows s)
  unfolding flush_rows
  flush_rows-IsKept read [] s r h k = k
  flush_rows-IsKept read ((a, row) ∷ rows) s r h k = elim (Option-cases (read row.payload)) [
    | inl e ↦
        rw (e, flush_rows)
          (flush_rows-IsKept read rows (drop_row a.deletes row s) r
            (All-Owns a.deletes row s rows h.1)
            (drop_row-IsKept read a.deletes r row s h.0 (inr e) k))
    | inr (t, e) ↦ elim (Bool-cases a.inserts) [
      | inr no_insert ↦ rw (e, no_insert, flush_rows) k
      | inl insert ↦
          let more = insert_event t s in
          let here = In-append_right (event_of t) s.tag_events (event_of t ∷ []) (inl refl) in
          rw (e, insert, flush_rows)
            (flush_rows-IsKept read rows (drop_row a.deletes row more) r
              (All-Owns a.deletes row more rows h.1)
              (drop_row-IsKept read a.deletes r row more h.0 (inl (t, e, here))
                (insert_event-IsKept read t r s k)))
    ]
  ]

  -- A turn of the flusher loses no buffered row, whichever statements fail: if the ids of the rows that it takes belong to no other buffered row, then a row that was buffered is still buffered, or its tag is stored as an event, or it cannot be read.
  pub flush-IsKept :
      (read : List ℕ → Option (TagData F)) (count : Option ℕ) (rows : List (Answers × Row))
      (s : Store F) (r : Row)
      → All (λ p. Owns s.buffer p.1) rows
      → In r s.buffer
      → IsKept read r (flush read count (some rows) s)
  unfolding flush
  flush-IsKept read none rows s r h k = inl k
  flush-IsKept read (some count) rows s r h k =
      if-elim (IsKept read r) (ltb 0 count) (flush_rows read rows s) s
        (flush_rows-IsKept read rows s r h (inl k)) (inl k)
