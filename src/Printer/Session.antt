-- ===== src/Printer/Session.antt =====
-- What the batches of a session hold: crates/application/src/printer/batch_manager.rs.
use mathlib.Core.List.{Sublist, append-nil, append_assoc, sublist-append_right}
use mathlib.Core.List.Sublist
use ifascada.Prelude.{
  ℕ, ◌+◌, ◌≤◌, ◌≡◌, ◌⊎◌, refl, ap, ◌∙◌, false, ◌&&◌, Option, some, List, [], ◌∷◌, ◌++◌, get_last?,
  arith, Option-cases, inl, inr, get_last?-append,
}
use ifascada.Float.{Float}
use ifascada.Json.{Value}
use ifascada.Printer.Batch.{
  PrintItem, BatchManager, timeout, new, expire, new_cycle, num_val, cut_cycle, add_item,
  take_batch,
}

pub data Op (F : Type 0) : Type 0 where
  add : (now : ℕ) → Value F → Option (Value F) → Op F
  take : Op F

module _ {F : Type 0} ⦃x : Float F⦄ where
  -- The manager after a list of operations, with all that was taken.
  pub run : BatchManager F → List (Op F) → BatchManager F × List (PrintItem F)
  run m [] = (m, [])
  run m (add now v d ∷ ops) = run (add_item now v d m) ops
  run m (take ∷ ops) =
      let (m', batch) = take_batch m in let (end, later) = run m' ops in (end, batch ++ later)

  -- The items that the operations add, in order.
  abbrev pub added : List (Op F) → List (PrintItem F)
  added [] = []
  added (add now v d ∷ ops) = record { value = v; timestamp = now; metadata = d } ∷ added ops
  added (take ∷ ops) = added ops

  -- Neighbours are at most the timeout apart, and no negative number comes before a positive one.
  abbrev pub Together : PrintItem F → PrintItem F → Type 0
  Together a b =
      (b.timestamp ≤ a.timestamp + timeout)
      × ((x.less (num_val a.value) (x.of_u64 0) && x.less (x.of_u64 0) (num_val b.value)) ≡ false)

  abbrev pub IsSession : List (PrintItem F) → Type 0
  IsSession [] = Unit
  IsSession (a ∷ []) = Unit
  IsSession (a ∷ b ∷ rest) = Together a b × IsSession (b ∷ rest)

  record IsKept (m : BatchManager F) : Type 0 where
    together : IsSession m.current_batch
    limit : m.session_timeout ≡ timeout
    newest : (a : PrintItem F) → get_last? m.current_batch ≡ some a → a.timestamp ≡ m.last_update

  IsSession-append :
      (batch : List (PrintItem F)) (b : PrintItem F)
      → IsSession batch
      → ((a : PrintItem F) → get_last? batch ≡ some a → Together a b)
      → IsSession (batch ++ b ∷ [])
  IsSession-append [] b h near = tt
  IsSession-append (a ∷ []) b h near = (near a refl, tt)
  IsSession-append (a ∷ c ∷ rest) b (t, h) near = (t, IsSession-append (c ∷ rest) b h near)

  cut_cycle-kept :
      (v : Value F) (batch : List (PrintItem F))
      → (cut_cycle v batch ≡ [])
        ⊎ ((cut_cycle v batch ≡ batch)
            × ((a : PrintItem F) → get_last? batch ≡ some a → new_cycle a.value v ≡ false))
  unfolding cut_cycle
  cut_cycle-kept v batch = elim (Option-cases (get_last? batch)) [
    | inl e ↦ ground arith
    | inr (a, e) ↦ ground arith
  ]

  expire-kept :
      (now : ℕ) (m : BatchManager F)
      → (expire now m ≡ [])
        ⊎ ((expire now m ≡ m.current_batch) × (now ≤ m.last_update + m.session_timeout))
  unfolding expire
  expire-kept now m = ground arith

  -- What an item finds: nothing, or the whole batch, whose newest item it goes with.
  add_item-kept :
      (now : ℕ) (v : Value F) (d : Option (Value F)) (m : BatchManager F)
      → (cut_cycle v (expire now m) ≡ [])
        ⊎ ((cut_cycle v (expire now m) ≡ m.current_batch)
            × (now ≤ m.last_update + m.session_timeout)
            × ((a : PrintItem F)
                → get_last? m.current_batch ≡ some a
                → new_cycle a.value v ≡ false))
  add_item-kept now v d m = elim (cut_cycle-kept v (expire now m)) [
    | inl e ↦ inl e
    | inr (e, g) ↦ elim (expire-kept now m) [
      | inl h ↦ inl (e ∙ h)
      | inr (h, le) ↦ inr (e ∙ h, le, λ a l. g a (ap get_last? h ∙ l))
    ]
  ]

  add_item-IsKept :
      (now : ℕ) (v : Value F) (d : Option (Value F)) (m : BatchManager F)
      → IsKept m
      → IsKept (add_item now v d m)
  unfolding add_item new_cycle
  add_item-IsKept now v d m h = record {
    together = elim (add_item-kept now v d m) [
      | inl e ↦ rw e tt
      | inr (e, le, same_cycle) ↦ rw e (
          IsSession-append m.current_batch _ h.together
            (λ a l. (omega (arith, le, h.newest a l, h.limit), same_cycle a l)))
    ];
    limit = h.limit;
    newest = λ a e. ground (
      arith,
      get_last?-append (cut_cycle v (expire now m))
          (record { value = v; timestamp = now; metadata = d }),
      e,
    );
  }

  run-IsKept : (m : BatchManager F) (ops : List (Op F)) → IsKept m → IsKept (run m ops).0
  unfolding run take_batch
  run-IsKept m [] h = h
  run-IsKept m (add now v d ∷ ops) h =
      run-IsKept (add_item now v d m) ops (add_item-IsKept now v d m h)
  run-IsKept m (take ∷ ops) h =
      run-IsKept (record m { current_batch = [] }) ops
        (record { together = tt; limit = h.limit; newest = λ a e. ground arith })

  -- In a manager's batch neighbours are never more than thirty minutes apart, and no negative number is followed by a positive one.
  pub run-IsSession : (now : ℕ) (ops : List (Op F)) → IsSession (run (new now) ops).0.current_batch
  unfolding new
  run-IsSession now ops =
      (run-IsKept (new now) ops
        (record { together = tt; limit = refl; newest = λ a e. ground arith })).together

  add-Sublist :
      (m : BatchManager F) (now : ℕ) (v : Value F) (d : Option (Value F))
      (rest : List (PrintItem F))
      → Sublist
          ((add_item now v d m).current_batch ++ rest)
          (m.current_batch ++ record { value = v; timestamp = now; metadata = d } ∷ rest)
  unfolding add_item
  add-Sublist m now v d rest =
      let a : PrintItem F = record { value = v; timestamp = now; metadata = d } in
      elim (add_item-kept now v d m) [
        | inl e ↦ rw e (sublist-append_right m.current_batch (a ∷ rest))
        | inr (e, _, _) ↦
            rw (e, append_assoc m.current_batch (a ∷ []) rest)
              (Sublist.refl (m.current_batch ++ a ∷ rest))
      ]

  run-Sublist :
      (m : BatchManager F) (ops : List (Op F))
      → Sublist ((run m ops).1 ++ (run m ops).0.current_batch) (m.current_batch ++ added ops)
  unfolding run take_batch
  run-Sublist m [] = rw (append-nil m.current_batch) (Sublist.refl m.current_batch)
  run-Sublist m (add now v d ∷ ops) =
      Sublist.trans (run-Sublist (add_item now v d m) ops) (add-Sublist m now v d (added ops))
  run-Sublist m (take ∷ ops) =
      let m' : BatchManager F = record m { current_batch = [] } in
      rw (append_assoc m.current_batch (run m' ops).1 (run m' ops).0.current_batch)
        (Sublist.append (Sublist.refl m.current_batch) (run-Sublist m' ops))

  -- No item is taken twice, none is taken that was not added, and the order is kept: all that was taken, and then what the batch holds, is a sublist of the items that were added.
  pub run-taken_once :
      (now : ℕ) (ops : List (Op F))
      → let (m, taken) = run (new now) ops in Sublist (taken ++ m.current_batch) (added ops)
  unfolding new
  run-taken_once now ops = run-Sublist (new now) ops
