-- ===== src/Devices/Actor/Published.antt =====
-- What the actor of crates/application/src/device/device_actor.rs publishes.
use ifascada.Prelude.{
  ℕ, ◌==◌, ◌≡◌, refl, sym, ap, ◌∙◌, subst, inl, inr, String, Bool, true, false, some, List, [], ◌∷◌,
  map, same, arith, Result, ok, err, All, In, unwrap_or, if◌then◌else◌, Option-cases, Result-cases,
  Bool-cases,
}
use ifascada.Float.{Float}
use ifascada.Json.{Value, Serde, null}
use ifascada.Domain.TagId.{TagId}
use ifascada.Domain.Device.{Device}
use ifascada.Domain.Event.{DomainEvent}
use ifascada.Domain.Quality.{TagQuality, good, bad}
use ifascada.Domain.Tag.{Tag, update_value}
use ifascada.Pipeline.{TagPipeline, PipelineFactory}
use ifascada.Devices.Actor.{
  Effect, connects, disconnects, polls, publishes, World, DeviceActor, find_tag, change_tag,
  find_pipeline, poll_interval, unbox, update, accept, new, handle_value, handle_result,
  handle_results, poll_once, reconnected, tick, run_ticks, run,
}

module _ {F : Type 0} ⦃f : Float F⦄ ⦃s : Serde F⦄ (ps : List (TagPipeline F)) (ids : List TagId)
    (ws : List (World F)) where
  -- A poll at the time gave the result for the tag.
  abbrev pub Polled : TagId → Result (Value F) String → ℕ → Type 0
  Polled id r t =
      (w : World F) × (results : List (TagId × Result (Value F) String)) × (j : TagId) × In w ws
      × (w.now ≡ t)
      × (w.poll ≡ ok results)
      × In (j, r) results
      × (same id.as_str j.as_str ≡ true)

  -- An event of one of the tags: a good value that the tag's pipeline made of one that a poll gave for the tag then, or null with bad quality, if the poll gave an error for it.
  abbrev pub IsSound : Effect F → Type 0
  IsSound (publishes (DomainEvent.value_updated id v good t) b) =
      In id ids
      × ((raw : Value F) × (accept (find_pipeline id.as_str ps) (unbox raw) ≡ some v)
          × Polled id (ok raw) t)
  IsSound (publishes (DomainEvent.value_updated id v bad t) b) =
      In id ids × (v ≡ null) × ((m : String) × Polled id (err m) t)
  IsSound (publishes _ b) = ⊥
  IsSound _ = Unit

  record IsFaithful (x : DeviceActor F) : Type 0 where
    pipelines : x.pipelines ≡ ps
    same_ids : map (λ t. t.id) x.tags ≡ ids
    sound : All IsSound x.trace

  change_tag-ids :
      (id : String) (v : Value F) (q : TagQuality) (now : ℕ) (tags : List (Tag F))
      → map (λ t. t.id) (change_tag id (λ t. update_value t v q now) tags) ≡ map (λ t. t.id) tags
  unfolding change_tag update_value
  change_tag-ids id v q now [] = refl
  change_tag-ids id v q now (t ∷ tags) = elim (Bool-cases (same t.id.as_str id)) [
    | inl e ↦ rw e refl
    | inr e ↦ rw e (ap (λ l. t.id ∷ l) (change_tag-ids id v q now tags))
  ]

  find_tag-In :
      (id : String) (tags : List (Tag F)) (t : Tag F)
      → find_tag id tags ≡ some t
      → In t.id (map (λ u. u.id) tags) × (same t.id.as_str id ≡ true)
  unfolding find_tag
  find_tag-In id [] t e = absurd (ground arith)
  find_tag-In id (u ∷ tags) t e =
      let cases : Bool → Type 0 = λ b. (if b then some u else find_tag id tags) ≡ some t in
      elim (Bool-cases (same u.id.as_str id)) [
        | inl h ↦
            let found = ap (λ o. (unwrap_or o t).id) (subst cases h e) in
            (inl (sym found), subst (λ k. same k.as_str id ≡ true) found h)
        | inr h ↦ let (here, named) = find_tag-In id tags t (subst cases h e) in (inr here, named)
      ]

  update-good :
      (w : World F) (id : TagId) (raw v : Value F) (x : DeviceActor F)
      → In id ids
      → accept (find_pipeline id.as_str ps) (unbox raw) ≡ some v
      → Polled id (ok raw) w.now
      → IsFaithful x
      → IsFaithful (update w id v good x)
  unfolding update
  update-good w id raw v x here e given h = record {
    pipelines = h.pipelines;
    same_ids = change_tag-ids id.as_str v good w.now x.tags ∙ h.same_ids;
    sound = ((here, (raw, e, given)), h.sound);
  }

  update-bad :
      (w : World F) (id : TagId) (m : String) (x : DeviceActor F)
      → In id ids
      → Polled id (err m) w.now
      → IsFaithful x
      → IsFaithful (update w id null bad x)
  unfolding update
  update-bad w id m x here given h = record {
    pipelines = h.pipelines;
    same_ids = change_tag-ids id.as_str null bad w.now x.tags ∙ h.same_ids;
    sound = ((here, refl, (m, given)), h.sound);
  }

  handle_value-IsFaithful :
      (w : World F) (id : TagId) (raw : Value F) (x : DeviceActor F)
      → In id ids
      → Polled id (ok raw) w.now
      → IsFaithful x
      → IsFaithful (handle_value w id raw x)
  unfolding handle_value
  handle_value-IsFaithful w id raw x here given h =
      elim (Option-cases (accept (find_pipeline id.as_str x.pipelines) (unbox raw))) [
        | inl e ↦ rw (e, handle_value) h
        | inr (v, e) ↦
            rw (e, handle_value)
              (update-good w id raw v x here
                (subst (λ l. accept (find_pipeline id.as_str l) (unbox raw) ≡ some v) h.pipelines e)
                given h)
      ]

  handle_result-IsFaithful :
      (w : World F) (id : TagId) (r : Result (Value F) String) (x : DeviceActor F)
      → ((k : TagId) → same k.as_str id.as_str ≡ true → Polled k r w.now)
      → IsFaithful x
      → IsFaithful (handle_result w id r x)
  unfolding handle_result
  handle_result-IsFaithful w id r x given h = elim (Option-cases (find_tag id.as_str x.tags)) [
    | inl e ↦ rw (e, handle_result) h
    | inr (t, e) ↦
        let (at, named) = find_tag-In id.as_str x.tags t e in
        let here = subst (λ l. In t.id l) h.same_ids at in
        elim (Result-cases r) [
          | inl (v, g) ↦
              rw (e, g, handle_result)
                (handle_value-IsFaithful w t.id v x here
                  (subst (λ o. Polled t.id o w.now) g (given t.id named)) h)
          | inr (m, g) ↦
              rw (e, g, handle_result)
                (update-bad w t.id m x here (subst (λ o. Polled t.id o w.now) g (given t.id named))
                  h)
        ]
  ]

  handle_results-IsFaithful :
      (w : World F) (all results : List (TagId × Result (Value F) String)) (x : DeviceActor F)
      → In w ws
      → w.poll ≡ ok all
      → ((p : TagId × Result (Value F) String) → In p results → In p all)
      → IsFaithful x
      → IsFaithful (handle_results w results x)
  unfolding handle_results
  handle_results-IsFaithful w all [] x at e sub h = h
  handle_results-IsFaithful w all ((id, r) ∷ rest) x at e sub h =
      handle_results-IsFaithful w all rest (handle_result w id r x) at e (λ p k. sub p (inr k))
        (handle_result-IsFaithful w id r x
          (λ k named. (w, all, id, at, refl, e, sub (id, r) (inl refl), named)) h)

  did-IsFaithful :
      (e : Effect F) (x : DeviceActor F)
      → IsSound e
      → IsFaithful x
      → IsFaithful (record x { trace = e ∷ x.trace })
  did-IsFaithful e x g h = record {
    pipelines = h.pipelines;
    same_ids = h.same_ids;
    sound = (g, h.sound);
  }

  poll_once-IsFaithful :
      (w : World F) (x : DeviceActor F) → In w ws → IsFaithful x → IsFaithful (poll_once w x)
  unfolding poll_once
  poll_once-IsFaithful w x at h =
      let polled = did-IsFaithful polls x tt h in
      elim (Result-cases w.poll) [
        | inl (results, e) ↦
            rw (e, poll_once)
              (handle_results-IsFaithful w results results (record x { trace = polls ∷ x.trace }) at
                e (λ p k. k) polled)
        | inr (m, e) ↦
            rw (e, poll_once)
              (did-IsFaithful disconnects (record x { trace = polls ∷ x.trace }) tt polled)
      ]

  reconnected-IsFaithful :
      (r : Result (Unit {0}) String) (w : World F) (x : DeviceActor F)
      → In w ws
      → IsFaithful x
      → IsFaithful (reconnected r w x)
  unfolding reconnected
  reconnected-IsFaithful (ok u) w x at h = poll_once-IsFaithful w x at h
  reconnected-IsFaithful (err e) w x at h = h

  if-IsFaithful :
      (b : Bool) (x y : DeviceActor F)
      → IsFaithful x
      → IsFaithful y
      → IsFaithful (if b then x else y)
  if-IsFaithful true x y h g = h
  if-IsFaithful false x y h g = g

  tick-IsFaithful :
      (w : World F) (x : DeviceActor F) → In w ws → IsFaithful x → IsFaithful (tick w x)
  unfolding tick
  tick-IsFaithful w x at h =
      let y = record x { trace = connects ∷ x.trace } in
      if-IsFaithful w.is_connected (poll_once w x) (reconnected w.connect w y)
        (poll_once-IsFaithful w x at h)
        (reconnected-IsFaithful w.connect w y at (did-IsFaithful connects x tt h))

  run_ticks-IsFaithful :
      (vs : List (World F)) (x : DeviceActor F)
      → ((w : World F) → In w vs → In w ws)
      → IsFaithful x
      → IsFaithful (run_ticks vs x)
  unfolding run_ticks
  run_ticks-IsFaithful [] x sub h = h
  run_ticks-IsFaithful (w ∷ vs) x sub h =
      run_ticks-IsFaithful vs (tick w x) (λ v k. sub v (inr k))
        (tick-IsFaithful w x (sub w (inl refl)) h)

module _ {F : Type 0} ⦃f : Float F⦄ ⦃s : Serde F⦄ where
  -- Every event that an actor publishes is about a tag of its device: either a good value that the tag's pipeline made of a value that a poll gave for the tag at the time of the event, or null with bad quality when a poll gave an error for the tag.
  pub run-IsSound :
      (device : Device F) (tags : List (Tag F)) (factory : PipelineFactory F) (ws : List (World F))
      → let x = new device tags factory in
        All (IsSound x.pipelines (map (λ t. t.id) tags) ws) (run ws x).trace
  unfolding new run
  run-IsSound device tags factory ws =
      let x = new device tags factory in
      let ids = map (λ t. t.id) tags in
      let y = record x { trace = connects ∷ x.trace } in
      let h : IsFaithful x.pipelines ids ws y = record {
        pipelines = refl;
        same_ids = refl;
        sound = (tt, tt);
      } in
      (if-IsFaithful x.pipelines ids ws (poll_interval tags == 0) y (run_ticks ws y) h
        (run_ticks-IsFaithful x.pipelines ids ws ws y (λ w k. k) h)).sound
