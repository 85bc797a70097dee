-- ===== src/Domain/Tag/Health.antt =====
-- Status and quality of a tag over its life: crates/domain/src/tag/aggregate.rs.
use ifascada.Prelude.{ℕ, ◌≡◌, ◌↔◌, String, ◌&&◌, Option, List, [], ◌∷◌, All, arith}
use ifascada.Json.{Value}
use ifascada.Domain.TagId.{TagId}
use ifascada.Domain.Config.{PipelineConfig}
use ifascada.Domain.UpdateMode.{TagUpdateMode, TagValueType}
use ifascada.Domain.Status.{TagStatus, online, offline, unknown, is_healthy as status_is_healthy}
use ifascada.Domain.Quality.{TagQuality, good, timeout, uncertain}
use ifascada.Domain.Tag.{
  Tag, new, is_healthy, update_value, mark_offline, mark_error, enable, disable, reset_timeout,
  with_device_id, set_value_schema, set_metadata, set_pipeline_config, set_runtime_state,
  set_timestamps,
}

-- Every method that changes a tag, with its arguments; a method that reads the clock has the reading last.
pub data Op (F : Type 0) : Type 0 where
  updates : Value F → TagQuality → ℕ → Op F
  goes_offline : ℕ → Op F
  fails : String → ℕ → Op F
  enables disables resets : ℕ → Op F
  moves_to : String → Op F
  sets_schema sets_metadata : Value F → Op F
  sets_pipeline : PipelineConfig F → Op F
  restores : Option (Value F) → Option ℕ → TagStatus → TagQuality → Option String → Op F
  sets_times : ℕ → ℕ → Op F

module _ {F : Type 0} where
  unfoldable pub apply : Tag F → Op F → Tag F
  unfolding update_value mark_offline mark_error enable disable reset_timeout with_device_id
      set_value_schema set_metadata set_pipeline_config set_runtime_state set_timestamps
  apply t (updates v q now) = update_value t v q now
  apply t (goes_offline now) = mark_offline t now
  apply t (fails message now) = mark_error t message now
  apply t (enables now) = enable t now
  apply t (disables now) = disable t now
  apply t (resets now) = reset_timeout t now
  apply t (moves_to device) = with_device_id t device
  apply t (sets_schema schema) = set_value_schema t schema
  apply t (sets_metadata metadata) = set_metadata t metadata
  apply t (sets_pipeline config) = set_pipeline_config t config
  apply t (restores v at s q message) = set_runtime_state t v at s q message
  apply t (sets_times created updated) = set_timestamps t created updated

  unfoldable pub live : Tag F → List (Op F) → Tag F
  live t [] = t
  live t (o ∷ os) = live (apply t o) os

-- A status says the same as a quality.
pub record Agree (s : TagStatus) (q : TagQuality) : Type 0 where
  pub online_good : (s ≡ online) ↔ (q ≡ good)
  pub offline_timeout : (s ≡ offline) ↔ (q ≡ timeout)
  pub unknown_uncertain : s ≡ unknown → q ≡ uncertain

abbrev pub IsCoherent : {F : Type 0} → Tag F → Type 0
IsCoherent t = Agree t.status t.quality

module _ {F : Type 0} where
  -- A state that is written as it is, such as one read from a row, is one that agrees.
  abbrev pub Restores : Op F → Type 0
  Restores (restores v at s q message) = Agree s q
  Restores _ = Unit

  apply-IsCoherent : (t : Tag F) (o : Op F) → Restores o → IsCoherent t → IsCoherent (apply t o)
  unfolding apply
  apply-IsCoherent t (restores v at s q message) r h = r
  apply-IsCoherent t (updates v q now) r h = ground arith
  apply-IsCoherent t (goes_offline now) r h = ground arith
  apply-IsCoherent t (fails message now) r h = ground arith
  apply-IsCoherent t (enables now) r h = h
  apply-IsCoherent t (disables now) r h = h
  apply-IsCoherent t (resets now) r h = h
  apply-IsCoherent t (moves_to device) r h = h
  apply-IsCoherent t (sets_schema schema) r h = h
  apply-IsCoherent t (sets_metadata metadata) r h = h
  apply-IsCoherent t (sets_pipeline config) r h = h
  apply-IsCoherent t (sets_times created updated) r h = h

  live-IsCoherent_of :
      (t : Tag F) (os : List (Op F)) → All Restores os → IsCoherent t → IsCoherent (live t os)
  unfolding live
  live-IsCoherent_of t [] rs h = h
  live-IsCoherent_of t (o ∷ os) (r, rs) h =
      live-IsCoherent_of (apply t o) os rs (apply-IsCoherent t o r h)

module _ {F : Type 0} (id : TagId) (device : String) (source : Value F) (mode : TagUpdateMode F)
    (type : TagValueType) (pipeline : PipelineConfig F) (now : ℕ) where
  -- After any operations on a new tag it is online exactly when its quality is good, offline exactly when its quality is timeout, and of unknown status only with uncertain quality, if each status and quality that `set_runtime_state` writes among them agree in this way.
  pub live-IsCoherent :
      (os : List (Op F))
      → All Restores os
      → IsCoherent (live (new id device source mode type pipeline now) os)
  unfolding new
  live-IsCoherent os rs = live-IsCoherent_of _ os rs (ground arith)

  -- So the health of a tag is decided by its enabled flag and its status alone.
  pub is_healthy-live :
      (os : List (Op F))
      → All Restores os
      → let t = live (new id device source mode type pipeline now) os in
        is_healthy t ≡ (t.enabled && status_is_healthy t.status)
  unfolding is_healthy
  is_healthy-live os rs = ground (arith, live-IsCoherent os rs)
