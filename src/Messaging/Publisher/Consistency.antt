-- ===== src/Messaging/Publisher/Consistency.antt =====
-- What the operations of crates/infrastructure/src/messaging/buffered_publisher.rs keep.
use ifascada.Prelude.{
  ℕ, ◌≤◌, ◌≡◌, ◌≢◌, refl, sym, ap, ◌∙◌, ◌⊎◌, inl, inr, Bool, true, false, Option, none, some, List,
  [], ◌∷◌, ◌++◌, length, In, In-append_left, In-append_right, arith, ◌==◌, ltb, is_ok,
  if◌then◌else◌, Bool-cases,
}
use ifascada.Messaging.Publisher.{
  Message, Row, Stored, stored, refused, enqueue, delete, BufferedMqttPublisher, World, keep, send,
  wake, forward_next, dispatch,
}
use ifascada.Messaging.Publisher.Rows.{
  eq_of_test, In-delete, delete-In, append_unique, message, DistinctIds,
}

abbrev pub Held : Message → List Row → Type 0
Held m rows = (r : Row) × In r rows × (message r ≡ m)

abbrev pub IsSafeMessage : BufferedMqttPublisher → Message → Type 0
IsSafeMessage s m = In m s.delivered ⊎ Held m s.buffer

pub record IsConsistent (s : BufferedMqttPublisher) (accepted : List Message) : Type 0 where
  pub unique : (r q : Row) → In r s.buffer → In q s.buffer → r.id ≡ q.id → r ≡ q
  pub pending : (r : Row) → In r s.flushing → In r s.buffer
  pub distinct : DistinctIds s.flushing
  pub kept : (m : Message) → In m accepted → IsSafeMessage s m

-- SQLite gives a new row an id that no row has.
abbrev pub Fresh : Stored → List Row → Type 0
Fresh (stored id t) rows = (q : Row) → In q rows → q.id ≢ id
Fresh (refused e) rows = Unit

-- A batch has rows of the table, each once, and at most fifty.
abbrev pub Selects : Option (List Row) → List Row → Type 0
Selects none rows = Unit
Selects (some batch) rows =
    ((r : Row) → In r batch → In r rows) × DistinctIds batch × (length batch ≤ 50)

append-IsSafeMessage :
    (m : Message) (row : Row) (s : BufferedMqttPublisher)
    → IsSafeMessage s m
    → IsSafeMessage (record s { buffer = s.buffer ++ row ∷ [] }) m
append-IsSafeMessage m row s (inl h) = inl h
append-IsSafeMessage m row s (inr (r, h, e)) = inr (r, In-append_left r s.buffer (row ∷ []) h, e)

-- The accepted messages, with one more if it was taken.
abbrev pub admit : Bool → Message → List Message → List Message
admit taken m accepted = if taken then m ∷ accepted else accepted

keep-IsConsistent :
    (answer : Stored) (m : Message) (s : BufferedMqttPublisher) (accepted : List Message)
    → Fresh answer s.buffer
    → IsConsistent s accepted
    → IsConsistent (keep answer m s).0 (admit (is_ok (keep answer m s).1) m accepted)
unfolding keep enqueue
keep-IsConsistent (refused e) m s accepted fresh h = record {
  unique = h.unique;
  pending = h.pending;
  distinct = h.distinct;
  kept = h.kept;
}
keep-IsConsistent (stored id t) (topic, payload) s accepted fresh h =
    let row : Row = record { id = id; topic = topic; payload = payload; created_at = t } in
    record {
      unique = append_unique row s.buffer fresh h.unique;
      pending = λ r p. In-append_left r s.buffer (row ∷ []) (h.pending r p);
      distinct = h.distinct;
      kept = λ m p. elim p [
        | inl e ↦ inr (row, In-append_right row s.buffer (row ∷ []) (inl refl), sym e)
        | inr q ↦ append-IsSafeMessage m row s (h.kept m q)
      ];
    }

send-IsConsistent :
    (w : World) (m : Message) (s : BufferedMqttPublisher) (accepted : List Message)
    → Fresh w.stored s.buffer
    → IsConsistent s accepted
    → IsConsistent (send w m s).0 (admit (is_ok (send w m s).1) m accepted)
unfolding send
send-IsConsistent w m s accepted fresh h = elim (Bool-cases w.is_connected) [
  | inr off ↦ rw off (keep-IsConsistent w.stored m s accepted fresh h)
  | inl on ↦ elim (Bool-cases w.published) [
    | inr failed ↦ rw (on, failed) (keep-IsConsistent w.stored m s accepted fresh h)
    | inl taken ↦
        rw (on, taken)
          (record {
            unique = h.unique;
            pending = h.pending;
            distinct = h.distinct;
            kept = λ n p. elim p [
              | inl e ↦ inl (inl e)
              | inr q ↦ elim (h.kept n q) [ inl d ↦ inl (inr d) | inr b ↦ inr b ]
            ];
          })
  ]
]

delivered-kept :
    (m n : Message) (s : BufferedMqttPublisher) (taken : Bool)
    → IsSafeMessage s n
    → IsSafeMessage (if taken then record s { delivered = m ∷ s.delivered } else s) n
delivered-kept m n s true (inl d) = inl (inr d)
delivered-kept m n s true (inr b) = inr b
delivered-kept m n s false h = h

deliver-IsConsistent :
    (taken : Bool) (m : Message) (s : BufferedMqttPublisher) (accepted : List Message)
    → IsConsistent s accepted
    → IsConsistent (if taken then record s { delivered = m ∷ s.delivered } else s) accepted
deliver-IsConsistent true m s accepted h = record {
  unique = h.unique;
  pending = h.pending;
  distinct = h.distinct;
  kept = λ n e. delivered-kept m n s true (h.kept n e);
}
deliver-IsConsistent false m s accepted h = h

forward-kept :
    (r : Row) (s : BufferedMqttPublisher) (accepted : List Message) (n : Message)
    → IsConsistent s accepted
    → In r s.buffer
    → IsSafeMessage s n
    → In n (message r ∷ s.delivered) ⊎ Held n (delete r.id s.buffer)
forward-kept r s accepted n h here (inl d) = inl (inr d)
forward-kept r s accepted n h here (inr (q, there, e)) = elim (Bool-cases (q.id == r.id)) [
  | inl t ↦ inl (inl (sym e ∙ ap message (h.unique q r there here (eq_of_test q.id r.id t))))
  | inr f ↦ inr (q, In-delete q r.id s.buffer there (λ g. ground (arith, f, g)), e)
]

pub forward_next-IsConsistent :
    (published deleted : Bool) (rows : List Row) (s : BufferedMqttPublisher)
    (accepted : List Message)
    → ((r : Row) → In r rows → In r s.buffer)
    → DistinctIds rows
    → IsConsistent s accepted
    → IsConsistent (forward_next published deleted rows s) accepted
unfolding forward_next
forward_next-IsConsistent p d [] s accepted pending distinct h = h
forward_next-IsConsistent false d (r ∷ rest) s accepted pending distinct h = record {
  unique = h.unique;
  pending = λ q n. absurd n;
  distinct = tt;
  kept = h.kept;
}
forward_next-IsConsistent true false (r ∷ rest) s accepted pending distinct h = record {
  unique = h.unique;
  pending = λ q n. pending q (inr n);
  distinct = distinct.1;
  kept = λ n m. delivered-kept (message r) n s true (h.kept n m);
}
forward_next-IsConsistent true true (r ∷ rest) s accepted pending distinct h = record {
  unique = λ a b ha hb. h.unique a b (delete-In a r.id s.buffer ha) (delete-In b r.id s.buffer hb);
  pending = λ q n. In-delete q r.id s.buffer (pending q (inr n)) (distinct.0 q n);
  distinct = distinct.1;
  kept = λ n m. forward-kept r s accepted n h (pending r (inl refl)) (h.kept n m);
}

pub wake-IsConsistent :
    (c : Bool) (n : Option ℕ) (rows : Option (List Row)) (s : BufferedMqttPublisher)
    (accepted : List Message)
    → Selects rows s.buffer
    → IsConsistent s accepted
    → IsConsistent (wake c n rows s) accepted
unfolding wake
wake-IsConsistent false n rows s accepted sel h = h
wake-IsConsistent true none rows s accepted sel h = h
wake-IsConsistent true (some count) none s accepted sel h = h
wake-IsConsistent true (some count) (some rows) s accepted (inside, distinct, few) h =
    elim (Bool-cases (ltb 0 count)) [
      | inl t ↦
          rw t (record { unique = h.unique; pending = inside; distinct = distinct; kept = h.kept })
      | inr f ↦ rw f h
    ]

abbrev pub admit_some : Bool → Option Message → List Message → List Message
admit_some taken none accepted = accepted
admit_some taken (some m) accepted = admit taken m accepted

pub dispatch-IsConsistent :
    (w : World) (m beat : Option Message) (s : BufferedMqttPublisher) (accepted : List Message)
    → Fresh w.stored s.buffer
    → IsConsistent s accepted
    → IsConsistent (dispatch w m beat s).0 (admit_some (is_ok (dispatch w m beat s).1) m accepted)
unfolding dispatch
dispatch-IsConsistent w (some m) beat s accepted fresh h = send-IsConsistent w m s accepted fresh h
dispatch-IsConsistent w none (some m) s accepted fresh h =
    deliver-IsConsistent w.published m s accepted h
dispatch-IsConsistent w none none s accepted fresh h = h
