-- ===== src/Drivers/Modbus/Shared/Runs.antt =====
-- Who shares a context in crates/infrastructure/src/drivers/modbus.rs, however the drivers' steps interleave.
use ifascada.Prelude.{
  ℕ, ◌<◌, ◌≡◌, sym, ap, ◌∙◌, inl, inr, String, Option, none, some, List, [], ◌∷◌, ◌++◌, Result,
  get_elem?, map, length, length-append, update_at, length-update_at, All, All-get_elem?, All-map,
  All-update_at, arith, same_iff, ◌==◌, if-elim, some-inj, subst, suc, if◌then◌else◌, Option-cases,
  Result-cases,
}
use ifascada.Prelude.Map.{lookup, insert, lookup-insert}
use ifascada.Domain.Connection.{ConnectionState, connecting, failed}
use ifascada.Drivers.Serial.{Builder}
use ifascada.Drivers.Modbus.{Platform, Holder, port, context, settings, set_state, hold, disconnect}
use ifascada.Drivers.Modbus.Lines.{Context}
use ifascada.Drivers.Modbus.Holders.{
  context-set_state, port-set_state, context-hold, port-hold, context-disconnect,
}
use ifascada.Drivers.Modbus.Shared.{
  Bus, Step, looks, opens_port, disconnects, reads, writes, upgrade, existing, failed_attempt,
  others, opened, open_port, looked, look_up, connect_new, connected_at, talk, actor, act, may,
  step, run, start,
}

-- The port of a context, once another one was opened for a port.
abbrev also : (ℕ → String) → ℕ → String → ℕ → String
also key_of n k m = if m == n then k else key_of m

module _ {F : Type 0} (p : Platform) where
  abbrev key : Holder F → String
  key h = p.to_lowercase (port h)

  -- A driver's context was opened for its port; `key_of` gives the port of a context.
  abbrev IsAt : (ℕ → String) → ℕ → Holder F → Type 0
  IsAt key_of n h = (c : ℕ) → context h ≡ some c → (key_of c ≡ key h) × (c < n)

  record IsKeyed (key_of : ℕ → String) (b : Bus F) : Type 0 where
    holders : All (IsAt key_of (length b.contexts)) b.holders
    registry :
        (k : String) (c : ℕ)
        → lookup k b.registry ≡ some c
        → (key_of c ≡ k) × (c < length b.contexts)

  -- Every context has a port.
  abbrev HasKeys : Bus F → Type 0
  HasKeys b = (key_of : ℕ → String) × IsKeyed key_of b

  existing-some :
      (b : Bus F) (k : String) (c : ℕ) → existing k b ≡ some c → lookup k b.registry ≡ some c
  unfolding existing upgrade
  existing-some b k c e = ground (arith, e)

  IsAt-set_state :
      (key_of : ℕ → String) (n : ℕ) (s : ConnectionState) (h : Holder F)
      → IsAt key_of n h
      → IsAt key_of n (set_state s h)
  IsAt-set_state key_of n s h at c e =
      let (k, l) = at c (sym (context-set_state s h) ∙ e) in
      (k ∙ ap p.to_lowercase (sym (port-set_state s h)), l)

  IsAt-hold :
      (key_of : ℕ → String) (n c : ℕ) (h : Holder F)
      → key_of c ≡ key h
      → c < n
      → IsAt key_of n (hold c h)
  IsAt-hold key_of n c h k l d e =
      let same_context : c ≡ d = some-inj (sym (context-hold c h) ∙ e) in
      (
        subst (λ x. key_of x ≡ key h) same_context k ∙ ap p.to_lowercase (sym (port-hold c h)),
        subst (λ x. x < n) same_context l,
      )

  -- One driver is replaced.
  replaced-HasKeys :
      (b : Bus F) (i : ℕ) (g : Holder F) (w : List ℕ)
      → (h : HasKeys b) → IsAt h.0 (length b.contexts) g
      → HasKeys (record b { holders = update_at i (λ x. g) b.holders; waiting = w })
  replaced-HasKeys b i g w (key_of, s) at = (
    key_of,
    record {
      holders =
          All-update_at (IsAt key_of (length b.contexts)) i (λ x. g) b.holders (λ x e. at)
            s.holders;
      registry = s.registry;
    },
  )

  looked-HasKeys :
      (b : Bus F) (i : ℕ) (h : Holder F)
      → get_elem? b.holders i ≡ some h
      → HasKeys b
      → HasKeys (look_up p i h b)
  unfolding look_up looked
  looked-HasKeys b i h e (key_of, s) = elim (Option-cases (existing (key h) b)) [
    | inl g ↦
        rw (g, look_up, looked)
          (replaced-HasKeys b i (set_state connecting h) (i ∷ b.waiting) (key_of, s)
            (IsAt-set_state key_of (length b.contexts) connecting h
              (All-get_elem? (IsAt key_of (length b.contexts)) i b.holders h s.holders e)))
    | inr (c, g) ↦
        let (k, l) = s.registry (key h) c (existing-some b (key h) c g) in
        rw (g, look_up, looked)
          (replaced-HasKeys b i (hold c h) b.waiting (key_of, s)
            (IsAt-hold key_of (length b.contexts) c h k l))
  ]

  IsAt-also :
      (key_of : ℕ → String) (n : ℕ) (k : String) (h : Holder F)
      → IsAt key_of n h
      → IsAt (also key_of n k) (suc n) h
  IsAt-also key_of n k h at c e = ground (arith, at c e)

  -- A new context, for the port of a driver.
  opened-HasKeys :
      (b : Bus F) (i : ℕ) (h : Holder F) (x : Context) (w : List ℕ)
      → HasKeys b
      → HasKeys (record {
        registry = insert (key h) (length b.contexts) b.registry;
        contexts = b.contexts ++ x ∷ [];
        holders = update_at i (λ g. hold (length b.contexts) h) b.holders;
        waiting = w;
      })
  opened-HasKeys b i h x w (key_of, s) =
      let n = length b.contexts in
      let more = also key_of n (key h) in
      let size : length (b.contexts ++ x ∷ []) ≡ suc n =
        omega (arith, length-append b.contexts (x ∷ [])) in
      (
        more,
        record {
          holders =
              subst (λ m. All (IsAt more m) (update_at i (λ g. hold n h) b.holders)) (sym size)
                (All-update_at (IsAt more (suc n)) i (λ g. hold n h) b.holders
                  (λ g e. IsAt-hold more (suc n) n h (ground arith) (omega arith))
                  (All-map (IsAt key_of n) (IsAt more (suc n)) (IsAt-also key_of n (key h))
                    b.holders s.holders));
          registry = λ k c e. ground (
            arith,
            size,
            e,
            s.registry k c,
            same_iff (key h) k,
            lookup-insert (key h) k n b.registry,
          );
        },
      )

  connect_new-HasKeys :
      (answer : Builder → Result (Unit {0}) String) (b : Bus F) (i : ℕ) (h : Holder F)
      → get_elem? b.holders i ≡ some h
      → HasKeys b
      → HasKeys (connected_at i b (connect_new p answer b h))
  unfolding connect_new open_port opened failed_attempt connected_at
  connect_new-HasKeys answer b i h e (key_of, s) = elim (Result-cases (settings p h)) [
    | inr (m, g) ↦
        rw (g, connect_new, open_port)
          (replaced-HasKeys b i h (others i b.waiting) (key_of, s)
            (All-get_elem? (IsAt key_of (length b.contexts)) i b.holders h s.holders e))
    | inl (x, g) ↦ elim (Result-cases (answer x)) [
      | inr (m, q) ↦
          rw (g, q, connect_new, open_port, opened)
            (replaced-HasKeys b i (set_state failed h) (others i b.waiting) (key_of, s)
              (IsAt-set_state key_of (length b.contexts) failed h
                (All-get_elem? (IsAt key_of (length b.contexts)) i b.holders h s.holders e)))
      | inl (u, q) ↦
          rw (g, q, connect_new, open_port, opened)
            (opened-HasKeys b i h _ (others i b.waiting) (key_of, s))
    ]
  ]

  disconnected-HasKeys :
      (b : Bus F) (i : ℕ)
      → HasKeys b
      → HasKeys (record b { holders = update_at i disconnect b.holders })
  disconnected-HasKeys b i (key_of, s) = (
    key_of,
    record {
      holders =
          All-update_at (IsAt key_of (length b.contexts)) i disconnect b.holders
            (λ h e c g. absurd (ground (arith, context-disconnect h, g))) s.holders;
      registry = s.registry;
    },
  )

  talk-HasKeys :
      (f : Context → Context) (o : Option ℕ) (b : Bus F) → HasKeys b → HasKeys (talk f o b)
  unfolding talk
  talk-HasKeys f none b h = h
  talk-HasKeys f (some c) b (key_of, s) =
      let size = sym (length-update_at c f b.contexts) in
      (
        key_of,
        record {
          holders = subst (λ n. All (IsAt key_of n) b.holders) size s.holders;
          registry = λ k d e. subst (λ n. (key_of d ≡ k) × (d < n)) size (s.registry k d e);
        },
      )

  act-HasKeys :
      (st : Step F) (h : Holder F) (b : Bus F)
      → get_elem? b.holders (actor st) ≡ some h
      → HasKeys b
      → HasKeys (act p st h b)
  unfolding act
  act-HasKeys (looks i) h b e s = looked-HasKeys b i h e s
  act-HasKeys (opens_port answer i) h b e s = connect_new-HasKeys answer b i h e s
  act-HasKeys (disconnects i) h b e s = disconnected-HasKeys b i s
  act-HasKeys (reads l i) h b e s = talk-HasKeys _ (context h) b s
  act-HasKeys (writes l v i) h b e s = talk-HasKeys _ (context h) b s

  step-HasKeys : (st : Step F) (b : Bus F) → HasKeys b → HasKeys (step p st b)
  unfolding step
  step-HasKeys st b s = elim (Option-cases (get_elem? b.holders (actor st))) [
    | inl e ↦ rw (e, step) s
    | inr (h, e) ↦
        rw (e, step)
          (if-elim HasKeys (may st b.waiting) (act p st h b) b (act-HasKeys st h b e s) s)
  ]

  run-HasKeys : (ss : List (Step F)) (b : Bus F) → HasKeys b → HasKeys (run p ss b)
  unfolding run
  run-HasKeys [] b s = s
  run-HasKeys (st ∷ ss) b s = run-HasKeys ss (step p st b) (step-HasKeys st b s)

  All-disconnect :
      (key_of : ℕ → String) (n : ℕ) (hs : List (Holder F)) → All (IsAt key_of n) (map disconnect hs)
  All-disconnect key_of n [] = tt
  All-disconnect key_of n (h ∷ hs) =
      ((λ c e. absurd (ground (arith, context-disconnect h, e))), All-disconnect key_of n hs)

  start-HasKeys : (hs : List (Holder F)) → HasKeys (start hs)
  unfolding lookup
  start-HasKeys hs = (
    λ c. "",
    record { holders = All-disconnect (λ c. "") 0 hs; registry = λ k c e. absurd (ground arith) },
  )

  -- However the steps of the drivers interleave, two drivers that hold the same context have ports of the same name in lower case: a context is never shared by drivers of different ports.
  pub run-same_port :
      (hs : List (Holder F)) (ss : List (Step F)) (i j : ℕ) (g h : Holder F) (c : ℕ)
      → get_elem? (run p ss (start hs)).holders i ≡ some g
      → get_elem? (run p ss (start hs)).holders j ≡ some h
      → context g ≡ some c
      → context h ≡ some c
      → p.to_lowercase (port g) ≡ p.to_lowercase (port h)
  run-same_port hs ss i j g h c at_i at_j e q =
      let b = run p ss (start hs) in
      let (key_of, s) = run-HasKeys ss (start hs) (start-HasKeys hs) in
      let P = IsAt key_of (length b.contexts) in
      sym (All-get_elem? P i b.holders g s.holders at_i c e).0
      ∙ (All-get_elem? P j b.holders h s.holders at_j c q).0
