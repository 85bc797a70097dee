-- ===== src/Devices/Manager/Running.antt =====
-- Which actors run: crates/application/src/device/manager.rs.
use ifascada.Prelude.{
  ◌≡◌, refl, sym, ap, ◌∙◌, subst, inl, inr, String, Bool, true, false, not, ◌||◌, none, some, List,
  [], ◌∷◌, map, same, same_iff, same_refl, arith, is_some, unwrap_or, if◌then◌else◌, Bool-cases,
}
use ifascada.Prelude.Map.{lookup, insert, remove, lookup-insert}
use ifascada.Domain.Device.{Device}
use ifascada.Domain.Tag.{Tag}
use ifascada.Pipeline.{PipelineFactory}
use ifascada.Devices.Actor.{DeviceActor}
use ifascada.Devices.Actor
use ifascada.Devices.Manager.{
  DeviceManager, new, group_tags, creates, start_device, start_all, start_devices, stop_all,
}
use ifascada.Devices.Manager.Groups.{
  Belong, AllBelong, group_or_none, group_tags-Belong, remove-Belong,
}

module _ {F : Type 0} where
  -- An actor runs under the id of an enabled device, with tags of that device alone, and exactly its tags are listed as active under that id.
  pub record IsRunning (m : DeviceManager F) (id : String) (a : DeviceActor F) : Type 0 where
    pub same_device : a.device.id ≡ id
    pub enabled : a.device.enabled ≡ true
    pub own_tags : Belong id a.tags
    pub listed : lookup id m.active_tags ≡ some (map (λ t. t.id.as_str) a.tags)

  record IsConsistent (m : DeviceManager F) : Type 0 where
    running : (id : String) (a : DeviceActor F) → lookup id m.actors ≡ some a → IsRunning m id a
    unlisted : (id : String) → lookup id m.actors ≡ none → lookup id m.active_tags ≡ none

module _ {F : Type 0} (accepts : Device F → List (Tag F) → Bool) (factory : PipelineFactory F) where
  started : Device F → List (Tag F) → DeviceManager F → DeviceManager F
  started d tags m = record m {
    actors = insert d.id (Actor.new d tags factory) m.actors;
    active_tags = insert d.id (map (λ t. t.id.as_str) tags) m.active_tags;
  }

  started-IsRunning :
      (d : Device F) (tags : List (Tag F)) (m : DeviceManager F) (id : String) (a : DeviceActor F)
      → d.enabled ≡ true
      → Belong d.id tags
      → same d.id id ≡ true
      → lookup id (started d tags m).actors ≡ some a
      → IsRunning (started d tags m) id a
  unfolding started Actor.new
  started-IsRunning d tags m id a on own t e =
      let x = Actor.new d tags factory in
      let ids = map (λ u. u.id.as_str) tags in
      let mine : IsRunning (started d tags m) d.id x = record {
        same_device = refl;
        enabled = on;
        own_tags = own;
        listed = lookup-insert d.id d.id ids m.active_tags ∙ rw (same_refl d.id) refl;
      } in
      let is_new : some x ≡ some a = sym (lookup-insert d.id id x m.actors ∙ rw t refl) ∙ e in
      subst (IsRunning (started d tags m) id) (ap (λ o. unwrap_or o x) is_new)
        (subst (λ j. IsRunning (started d tags m) j x) ((same_iff d.id id).0 t) mine)

  started-IsConsistent :
      (d : Device F) (tags : List (Tag F)) (m : DeviceManager F)
      → d.enabled ≡ true
      → lookup d.id m.actors ≡ none
      → Belong d.id tags
      → IsConsistent m
      → IsConsistent (started d tags m)
  unfolding started
  started-IsConsistent d tags m on absent own h = record {
    running = λ id a e. elim (Bool-cases (same d.id id)) [
      | inl t ↦ started-IsRunning d tags m id a on own t e
      | inr f ↦
          let r =
            h.running id a
              (ground (arith, lookup-insert d.id id (Actor.new d tags factory) m.actors, e, f)) in
          record {
            same_device = r.same_device;
            enabled = r.enabled;
            own_tags = r.own_tags;
            listed = ground (
              arith,
              lookup-insert d.id id (map (λ t. t.id.as_str) tags) m.active_tags,
              f,
              r.listed,
            );
          }
    ];
    unlisted = λ id e. elim (Bool-cases (same d.id id)) [
      | inl t ↦
          absurd (ground (arith, lookup-insert d.id id (Actor.new d tags factory) m.actors, e, t))
      | inr f ↦
          let old : lookup id m.actors ≡ none =
            ground (arith, lookup-insert d.id id (Actor.new d tags factory) m.actors, e, f) in
          ground (
            arith,
            lookup-insert d.id id (map (λ t. t.id.as_str) tags) m.active_tags,
            f,
            h.unlisted id old,
          )
    ];
  }

  -- What one device of the loop keeps.
  abbrev IsGood : DeviceManager F × List (String × List (Tag F)) → Type 0
  IsGood s = IsConsistent s.0 × AllBelong s.1

  started_if :
      (b : Bool) (d : Device F) (tags : List (Tag F)) (m : DeviceManager F)
      → d.enabled ≡ true
      → lookup d.id m.actors ≡ none
      → Belong d.id tags
      → IsConsistent m
      → IsConsistent (if b then started d tags m else m)
  started_if true d tags m on absent own h = started-IsConsistent d tags m on absent own h
  started_if false d tags m on absent own h = h

  guarded :
      (b : Bool) (s t : DeviceManager F × List (String × List (Tag F)))
      → IsGood s
      → (b ≡ false → IsGood t)
      → IsGood (if b then s else t)
  guarded true s t h g = h
  guarded false s t h g = g refl

  start_device-IsGood :
      (d : Device F) (m : DeviceManager F) (groups : List (String × List (Tag F)))
      → IsConsistent m
      → AllBelong groups
      → IsGood (start_device accepts factory d (m, groups))
  unfolding start_device started
  start_device-IsGood d m groups h g =
      let tags = unwrap_or (lookup d.id groups) [] in
      let b = creates accepts d tags in
      guarded (not d.enabled || is_some (lookup d.id m.actors)) (m, groups)
        (if b then started d tags m else m, remove d.id groups) (h, g)
        (λ e. (
          started_if b d tags m (ground (arith, e)) (ground (arith, e))
              (group_or_none d.id groups g) h,
          remove-Belong d.id groups g,
        ))

  start_all-IsConsistent :
      (devices : List (Device F)) (m : DeviceManager F) (groups : List (String × List (Tag F)))
      → IsConsistent m
      → AllBelong groups
      → IsConsistent (start_all accepts factory devices (m, groups)).0
  unfolding start_all
  start_all-IsConsistent [] m groups h g = h
  start_all-IsConsistent (d ∷ devices) m groups h g =
      let s = start_device accepts factory d (m, groups) in
      let (h', g') = start_device-IsGood d m groups h g in
      start_all-IsConsistent devices s.0 s.1 h' g'

-- Starting devices with their tags, and stopping all.
pub data Op (F : Type 0) : Type 0 where
  starts : List (Device F) → List (Tag F) → Op F
  stops : Op F

module _ {F : Type 0} (accepts : Device F → List (Tag F) → Bool) (factory : PipelineFactory F) where
  abbrev pub run : List (Op F) → DeviceManager F → DeviceManager F
  run [] m = m
  run (starts devices tags ∷ ops) m = run ops (start_devices accepts factory devices tags m)
  run (stops ∷ ops) m = run ops (stop_all m)

  empty-IsConsistent : IsConsistent {F = F} new
  unfolding lookup
  empty-IsConsistent = record {
    running = λ id a e. absurd (ground (arith, e));
    unlisted = λ id e. refl;
  }

  run-IsConsistent :
      (ops : List (Op F)) (m : DeviceManager F) → IsConsistent m → IsConsistent (run ops m)
  unfolding start_devices stop_all lookup
  run-IsConsistent [] m h = h
  run-IsConsistent (starts devices tags ∷ ops) m h =
      run-IsConsistent ops (start_devices accepts factory devices tags m) (
        start_all-IsConsistent accepts factory devices m (group_tags tags []) h
          (group_tags-Belong tags [] (λ id ts e. absurd (ground (arith, e)))))
  run-IsConsistent (stops ∷ ops) m h = run-IsConsistent ops (stop_all m) empty-IsConsistent

  -- After any starts and stops each actor runs under the id of an enabled device, with tags of that device alone, and exactly the ids of its tags are listed as active for it; nothing is listed for a device that does not run.
  pub run-IsRunning :
      (ops : List (Op F)) (id : String)
      → let m = run ops new in
        ((a : DeviceActor F) → lookup id m.actors ≡ some a → IsRunning m id a)
        × (lookup id m.actors ≡ none → lookup id m.active_tags ≡ none)
  run-IsRunning ops id =
      let h = run-IsConsistent ops new empty-IsConsistent in
      (λ a e. h.running id a e, λ e. h.unlisted id e)
