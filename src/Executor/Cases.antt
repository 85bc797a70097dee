-- ===== src/Executor/Cases.antt =====
-- What a turn of a loop of crates/application/src/tag/tag_executor.rs can do: the case rules that the
-- proofs about turns share.
use ifascada.Prelude.{
  ◌≡◌, inl, inr, String, true, Option, none, some, ok, err, arith, Bool-cases, Result-cases,
}
use ifascada.Float.{Float}
use ifascada.Json.{Value, Serde}
use ifascada.Pipeline.{process}
use ifascada.Pipeline.Process.{process-ne-err}
use ifascada.Executor.{
  TagExecutor, World, driver_read, did, handle_timeout, handle_read_error, publish_value,
  timeout_due,
}
use ifascada.Executor.Loop.{
  read_and_publish, after_read, on_change_turn, polling_turn, polling_on_change_turn, consider,
  should_publish, last_published,
}

abbrev pub settled : {F : Type 0} → TagExecutor F → TagExecutor F
settled x = record x { reconnect_attempts = 0 }

module _ {F : Type 0} ⦃f : Float F⦄ ⦃s : Serde F⦄ (w : World F) (x : TagExecutor F) where
  -- What the read brought.
  pub data Reading : Type 0 where
    failing : (m : String) → w.read ≡ err m → Reading
    silent : w.read ≡ ok none → Reading
    discarded :
        (raw : Value F) → w.read ≡ ok (some raw) → process x.pipeline raw ≡ ok none → Reading
    value :
        (raw v : Value F) → w.read ≡ ok (some raw) → process x.pipeline raw ≡ ok (some v) → Reading

  processed : (raw : Value F) → w.read ≡ ok (some raw) → Reading
  processed raw e = elim (Result-cases (process x.pipeline raw)) [
    | inl (none, p) ↦ discarded raw e p
    | inl (some v, p) ↦ value raw v e p
    | inr (m, p) ↦ absurd (process-ne-err x.pipeline raw m p)
  ]

  pub reading : Reading
  reading = elim (Result-cases w.read) [
    | inl (none, e) ↦ silent e
    | inl (some raw, e) ↦ processed raw e
    | inr (m, e) ↦ failing m e
  ]

  reads_failing : (m : String) → w.read ≡ err m → read_and_publish w x ≡ (did driver_read x, err m)
  unfolding read_and_publish
  reads_failing m e = ground arith

  reads_silent : w.read ≡ ok none → read_and_publish w x ≡ (did driver_read x, ok tt)
  unfolding read_and_publish
  reads_silent e = ground arith

  reads_discarded :
      (raw : Value F)
      → w.read ≡ ok (some raw)
      → process x.pipeline raw ≡ ok none
      → read_and_publish w x ≡ (did driver_read x, ok tt)
  unfolding read_and_publish
  reads_discarded raw e p = ground arith

  reads_value :
      (raw v : Value F)
      → w.read ≡ ok (some raw)
      → process x.pipeline raw ≡ ok (some v)
      → read_and_publish w x ≡ (publish_value w v (did driver_read x), ok tt)
  unfolding read_and_publish
  reads_value raw v e p = ground arith

  module _ {ℓ} (P : TagExecutor F → Type ℓ)
      (timed_out : timeout_due w x ≡ true → P (handle_timeout w x))
      (nothing : P (settled (did driver_read x)))
      (update : (v : Value F) → P (settled (publish_value w v (did driver_read x))))
      (fails : (m : String) → P (handle_read_error w m (did driver_read x))) where
    pub polling_turn_cases : P (polling_turn w x).0
    unfolding polling_turn
    polling_turn_cases = elim (Bool-cases (timeout_due w x)) [
      | inl t ↦ rw t (timed_out t)
      | inr t ↦ rw t (elim reading [
        | failing m e ↦ rw (reads_failing m e) (unfold after_read in fails m)
        | silent e ↦ rw (reads_silent e) (unfold after_read in nothing)
        | discarded raw e p ↦ rw (reads_discarded raw e p) (unfold after_read in nothing)
        | value raw v e p ↦ rw (reads_value raw v e p) (unfold after_read in update v)
      ])
    ]

    pub on_change_turn_cases : P (on_change_turn w x).0
    unfolding on_change_turn polling_turn
    on_change_turn_cases = polling_turn_cases

  module _ {ℓ} (threshold : F) (last : Option F) (P : TagExecutor F × Option F → Type ℓ)
      (timed_out : timeout_due w x ≡ true → P (handle_timeout w x, last))
      (nothing : P (did driver_read x, last)) (dropped : P (settled (did driver_read x), last))
      (update : (v : Value F)
        → should_publish threshold v last ≡ true
        → P (settled (publish_value w v (did driver_read x)), last_published v last))
      (fails : (m : String) → P (handle_read_error w m (did driver_read x), last)) where
    pub polling_on_change_turn_cases : P (polling_on_change_turn threshold w (x, last)).0
    unfolding polling_on_change_turn consider
    polling_on_change_turn_cases = elim (Bool-cases (timeout_due w x)) [
      | inl t ↦ rw t (timed_out t)
      | inr t ↦ rw t (elim reading [
        | failing m e ↦ rw e (fails m)
        | silent e ↦ rw e nothing
        | discarded raw e p ↦ rw (e, p) dropped
        | value raw v e p ↦ elim (Bool-cases (should_publish threshold v last)) [
          | inl far ↦ rw (e, p, far) (update v far)
          | inr near ↦ rw (e, p, near) dropped
        ]
      ])
    ]

module _ {F : Type 0} ⦃f : Float F⦄ ⦃s : Serde F⦄ where
  -- No turn ends a loop.
  pub polling_turn-none : (w : World F) (x : TagExecutor F) → (polling_turn w x).1 ≡ none
  unfolding polling_turn
  polling_turn-none w x = ground arith

  pub on_change_turn-none : (w : World F) (x : TagExecutor F) → (on_change_turn w x).1 ≡ none
  unfolding on_change_turn
  on_change_turn-none w x = ground arith

  pub polling_on_change_turn-none :
      (threshold : F) (w : World F) (x : TagExecutor F) (last : Option F)
      → (polling_on_change_turn threshold w (x, last)).1 ≡ none
  unfolding polling_on_change_turn
  polling_on_change_turn-none threshold w x last = elim (reading w x) [
    | failing m e ↦ ground arith
    | silent e ↦ ground arith
    | discarded raw e p ↦ ground arith
    | value raw v e p ↦ ground arith
  ]
