-- ===== src/Reload/Database.antt =====
-- What a received configuration leaves in the table of devices: handle_reload of
-- crates/edge-agent/src/config_manager.rs over crates/infrastructure/src/database/device_repository.rs,
-- while the database answers every statement.
use Prim.Native.Char.{Char}
use ifascada.Prelude.{
  ℕ, ◌≡◌, unwrap_or, is_some, not, ◌&&◌, Result-cases, refl, ap, ◌∙◌, String, Bool, true, false,
  Option, none, some, List, [], ◌∷◌, map, ok, ok_value, is_ok, same, same_iff, inl, inr, arith,
  Option-cases, if◌then◌else◌,
}
use ifascada.Prelude.Map.{contains, lookup, lookup-remove}
use ifascada.Domain.Device.{Device}
use ifascada.Domain.Tag.{Tag}
use ifascada.Pipeline.{PipelineFactory}
use ifascada.Settings.{AgentConfig}
use ifascada.Repositories.Tags.{done}
use ifascada.Repositories.Devices.{Model, save, find_by_id, found, find_by_agent, delete}
use ifascada.Repositories.Devices.Saved.{find_by_id-save_if}
use ifascada.Reload.{
  Repository, ConfigManager, handle_reload, store, restart, settle, tag_key, device_key, save_all,
  delete_missing, prune,
}

abbrev Table : Type 0 → Type 0
Table F = List (String × Model F)

module _ {F : Type 0} (order : List (Model F) → List (Model F)) (agent_id : String) (now : ℕ) where
  unfoldable pub devices : Repository (List (String × Model F)) (Device F)
  devices = record {
    save = λ d t. let (t', r) = save agent_id now done d t in (t', is_ok r);
    find_by_agent = λ agent t. ok_value (find_by_agent order done agent t);
    delete = λ id t. let (t', r) = delete done id t in (t', is_ok r);
  }

module _ {F : Type 0} where
  -- The last device of a configuration with an id.
  unfoldable pub last_device : String → List (Device F) → Option (Device F)
  last_device id [] = none
  last_device id (d ∷ ds) = elim (last_device id ds) [
    | some e ↦ some e
    | none ↦ if same d.id id then some d else none
  ]

  contains-last_device :
      (id : String) (ds : List (Device F))
      → contains id (map device_key ds) ≡ is_some (last_device id ds)
  unfolding last_device contains
  contains-last_device id [] = refl
  contains-last_device id (d ∷ ds) =
      ground (arith, contains-last_device id ds, Option-cases (last_device id ds))

  found-none :
      (b : Bool) (o : Option (Model F))
      → found (if b then none else o) ≡ (if b then ok none else found o)
  unfolding found
  found-none true o = refl
  found-none false o = refl

  find_by_id-delete :
      (id j : String) (t : Table F)
      → find_by_id done j (delete done id t).0
        ≡ (if same id j then ok none else find_by_id done j t)
  unfolding find_by_id delete found
  find_by_id-delete id j t = ap found (lookup-remove id j t) ∙ found-none (same id j) (lookup j t)

module _ {F : Type 0} (order : List (Model F) → List (Model F)) (agent_id : String) (now : ℕ) where
  abbrev saved : List (Device F) → Table F → Table F
  saved ds t = save_all (devices order agent_id now) ds t

  find_by_id-save_all :
      (id : String) (ds : List (Device F)) (t : Table F)
      → find_by_id done id (saved ds t)
        ≡ (elim (last_device id ds) [ none ↦ find_by_id done id t | some d ↦ ok (some d) ])
  unfolding save_all last_device devices
  find_by_id-save_all id [] t = refl
  find_by_id-save_all id (d ∷ ds) t = ground (
    arith,
    find_by_id-save_all id ds (save agent_id now done d t).0,
    find_by_id-save_if agent_id now d t id,
  )

  -- A round of the loop that deletes.
  abbrev dropped : List String → Device F → Table F → Table F
  dropped ids e t = if contains e.id ids then t else ((devices order agent_id now).delete e.id t).0

  find_by_id-dropped :
      (id : String) (ids : List String) (e : Device F) (t : Table F)
      → find_by_id done id (dropped ids e t) ≡ (
          if contains e.id ids
          then find_by_id done id t
          else if same e.id id
          then ok none
          else find_by_id done id t)
  unfolding devices
  find_by_id-dropped id ids e t = dropped-if (contains e.id ids)
    where
      dropped-if :
          (b : Bool)
          → find_by_id done id (if b then t else (delete done e.id t).0) ≡ (
              if b
              then find_by_id done id t
              else if same e.id id
              then ok none
              else find_by_id done id t)
      dropped-if true = refl
      dropped-if false = find_by_id-delete e.id id t

  -- Whether a stored device is deleted.
  abbrev gone : String → List String → List (Device F) → Bool
  gone id ids es = not (contains id ids) && contains id (map device_key es)

  find_by_id-delete_missing :
      (id : String) (ids : List String) (es : List (Device F)) (t : Table F)
      → find_by_id done id (delete_missing (devices order agent_id now) device_key ids es t)
        ≡ (if gone id ids es then ok none else find_by_id done id t)
  unfolding delete_missing contains
  find_by_id-delete_missing id ids [] t = ground arith
  find_by_id-delete_missing id ids (e ∷ es) t =
      find_by_id-delete_missing id ids es (dropped ids e t)
      ∙ ground (arith, find_by_id-dropped id ids e t, same_iff e.id id)

  -- The devices that the database lists for the agent, none if it cannot read one.
  unfoldable pub listed : Table F → List (Device F)
  listed t = unwrap_or (ok_value (find_by_agent order done agent_id t)) []

  find_by_id-prune :
      (id : String) (ids : List String) (t : Table F)
      → find_by_id done id (prune (devices order agent_id now) device_key agent_id ids t)
        ≡ (if gone id ids (listed t) then ok none else find_by_id done id t)
  unfolding prune listed devices delete_missing
  find_by_id-prune id ids t = elim (Result-cases (find_by_agent order done agent_id t)) [
    | inl (es, e) ↦ rw (e, prune) (find_by_id-delete_missing id ids es t)
    | inr (m, e) ↦ rw (e, prune) (find_by_id-delete_missing id ids [] t)
  ]

module _ {F R : Type 0} (is_alphanumeric : Char → Bool) (accepts : Device F → List (Tag F) → Bool)
    (factory : PipelineFactory F) (order : List (Model F) → List (Model F))
    (tag_repo : Repository R (Tag F)) where
  abbrev Manager : Type 0
  Manager = ConfigManager F (List (String × Model F)) R

  restart-device_repository :
      (repo : Repository (List (String × Model F)) (Device F)) (x : Manager)
      → (restart is_alphanumeric accepts factory repo tag_repo x).0.device_repository
        ≡ x.device_repository
  unfolding restart
  restart-device_repository repo x = ground (
    arith,
    Option-cases (tag_repo.find_by_agent x.agent_id x.tag_repository),
    Option-cases (repo.find_by_agent x.agent_id x.device_repository),
  )

  settle-device_repository :
      (repo : Repository (List (String × Model F)) (Device F)) (saved : Option (List String))
      (x : Manager)
      → (settle is_alphanumeric accepts factory repo tag_repo saved x).0.device_repository
        ≡ x.device_repository
  unfolding settle
  settle-device_repository repo none x = refl
  settle-device_repository repo (some ids) x =
      restart-device_repository repo
        (record x { tag_repository = prune tag_repo tag_key x.agent_id ids x.tag_repository })

  abbrev pub reloads : ℕ → AgentConfig F → Manager → Manager
  reloads now config x =
      (handle_reload is_alphanumeric accepts factory (devices order x.agent_id now) tag_repo now
        config x).0

  -- The devices that are listed once those of the configuration are saved.
  abbrev pub candidates : ℕ → AgentConfig F → Manager → List (Device F)
  candidates now config x =
      listed order x.agent_id now
        (save_all (devices order x.agent_id now) config.devices x.device_repository)

  -- After a reload while the database answers every statement, whatever becomes of the tags, a device that is configured is found as the last entry of the configuration with its id says, a device that is not configured but is listed for the agent is gone, and every other device is found as before.
  pub handle_reload-devices :
      (now : ℕ) (config : AgentConfig F) (x : ConfigManager F (List (String × Model F)) R)
      (id : String)
      → find_by_id done id (reloads now config x).device_repository
        ≡ (elim (last_device id config.devices) [
          | some d ↦ ok (some d)
          | none ↦
              if contains id (map device_key (candidates now config x))
              then ok none
              else find_by_id done id x.device_repository
        ])
  unfolding handle_reload store
  handle_reload-devices now config x id =
      let repo = devices order x.agent_id now in
      let (y, tags) = store is_alphanumeric accepts factory repo tag_repo now config x in
      ap (find_by_id done id) (settle-device_repository repo tags y)
      ∙ find_by_id-prune order x.agent_id now id (map device_key config.devices)
          (save_all repo config.devices x.device_repository)
      ∙ ground (
        arith,
        contains-last_device id config.devices,
        Option-cases (last_device id config.devices),
        find_by_id-save_all order x.agent_id now id config.devices x.device_repository,
      )
