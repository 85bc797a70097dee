-- ===== src/Repositories/Tags.antt =====
-- crates/infrastructure/src/database/tag_repository/sea_orm_tag_repository.rs. The table is a map of rows
-- by their id; the answers to statements are arguments.
pub mod Saved
use Prim.Native.Char.{Char}
use Prim.Native.String.{◌++◌ as add_text}
use ifascada.Prelude.{
  ℕ, String, Bool, true, false, Option, none, some, List, [], ◌∷◌, Result, ok, err, same,
  if◌then◌else◌,
}
use ifascada.Prelude.Map.{lookup, insert, remove}
use ifascada.Json.{Value, null}
use ifascada.Domain.TagId.{TagId, DomainError, invalid_configuration}
use ifascada.Domain.TagId
use ifascada.Domain.Config.{PipelineConfig}
use ifascada.Domain.Config
use ifascada.Domain.Status.{TagStatus, online, offline, error, unknown}
use ifascada.Domain.Status
use ifascada.Domain.Quality.{TagQuality, good, bad, uncertain, timeout}
use ifascada.Domain.Quality
use ifascada.Domain.UpdateMode.{
  TagUpdateMode, on_change, polling, polling_on_change, TagValueType, simple, composite,
}
use ifascada.Domain.Tag.{Tag, disable, set_runtime_state}
use ifascada.Domain.Tag

-- The answer to a statement: an error has a text.
pub data Answer : Type 0 where
  done : Answer
  failed : String → Answer

-- A row of `tags`.
pub record Model (F : Type 0) : Type 0 where
  pub id : String
  pub device_id : String
  pub source_config : Value F
  pub update_mode : String
  pub update_config : Value F
  pub value_type : String
  pub value_schema : Option (Value F)
  pub enabled : Bool
  pub description : Option String
  pub metadata : Option (Value F)
  pub last_value : Option (Value F)
  pub last_update : Option ℕ
  pub status : String
  pub quality : String
  pub error_message : Option String
  pub created_at : ℕ
  pub updated_at : ℕ
  pub pipeline_config : Option (Value F)

-- The derived conversions of serde for update modes and pipelines, with the texts of their errors.
pub record Codec (F : Type 0) : Type 0 where
  pub mode_to_value : TagUpdateMode F → Result (Value F) String
  pub mode_from_value : Value F → Result (TagUpdateMode F) String
  pub pipeline_to_value : PipelineConfig F → Option (Value F)
  pub pipeline_from_value : Value F → Result (PipelineConfig F) String

unfoldable pub value_type_str : TagValueType → String
value_type_str simple = "Simple"
value_type_str composite = "Composite"

unfoldable pub value_type_of : String → Result TagValueType DomainError
value_type_of s =
    if same s "Simple"
    then ok simple
    else if same s "Composite"
    then ok composite
    else err (invalid_configuration "Unknown value type")

unfoldable pub status_of : String → TagStatus
status_of s =
    if same s "online"
    then online
    else if same s "offline"
    then offline
    else if same s "error"
    then error
    else unknown

unfoldable pub quality_of : String → TagQuality
quality_of s =
    if same s "good"
    then good
    else if same s "bad"
    then bad
    else if same s "uncertain"
    then uncertain
    else if same s "timeout"
    then timeout
    else uncertain

-- `?` of Rust.
abbrev pub try {ℓ κ} :
    {A : Type ℓ} {B : Type κ}
    → Result A DomainError
    → (A → Result B DomainError)
    → Result B DomainError
try (ok a) f = f a
try (err e) f = err e

-- `map_err` to an error of configuration.
abbrev pub or_invalid {ℓ} :
    {A : Type ℓ} → (String → String) → Result A String → Result A DomainError
or_invalid message (ok a) = ok a
or_invalid message (err e) = err (invalid_configuration (message e))

module _ {F : Type 0} where
  unfoldable pub update_mode_type : TagUpdateMode F → String
  update_mode_type (on_change d t) = "OnChange"
  update_mode_type (polling i) = "Polling"
  update_mode_type (polling_on_change i c) = "PollingOnChange"

  -- The row of a tag, with its update mode in JSON. A tag has no description.
  unfoldable pub row_of : Codec F → Tag F → Value F → Model F
  row_of c t mode = record {
    id = t.id.as_str;
    device_id = t.device_id;
    source_config = t.source_config;
    update_mode = update_mode_type t.update_mode;
    update_config = mode;
    value_type = value_type_str t.value_type;
    value_schema = t.value_schema;
    enabled = t.enabled;
    description = none;
    metadata = t.metadata;
    last_value = t.last_value;
    last_update = t.last_update;
    status = Status.as_str t.status;
    quality = Quality.as_str t.quality;
    error_message = t.error_message;
    created_at = t.created_at;
    updated_at = t.updated_at;
    pipeline_config = c.pipeline_to_value t.pipeline_config;
  }

  -- The row that an upsert leaves: a row that is there keeps its time of creation.
  unfoldable pub merge : Option (Model F) → Model F → Model F
  merge none row = row
  merge (some old) row = record row { created_at = old.created_at }

  unfoldable pub upsert : Model F → List (String × Model F) → List (String × Model F)
  upsert row table = insert row.id (merge (lookup row.id table) row) table

  unfoldable pub store :
      Answer
      → Model F
      → List (String × Model F)
      → List (String × Model F) × Result (Unit {0}) DomainError
  store done row table = (upsert row table, ok tt)
  store (failed e) row table = (table, err (invalid_configuration (add_text "Database error: " e)))

  unfoldable pub save :
      Codec F
      → Answer
      → Tag F
      → List (String × Model F)
      → List (String × Model F) × Result (Unit {0}) DomainError
  save c answer t table = elim (c.mode_to_value t.update_mode) [
    | err e ↦ (table, err (invalid_configuration e))
    | ok mode ↦ store answer (row_of c t mode) table
  ]

  unfoldable pub delete :
      Answer
      → String
      → List (String × Model F)
      → List (String × Model F) × Result (Unit {0}) DomainError
  delete done id table = (remove id table, ok tt)
  delete (failed e) id table = (table, err (invalid_configuration (add_text "Database error: " e)))

  -- The pipeline of a row: the default, if there is none or null.
  unfoldable pub pipeline_of : Codec F → Option (Value F) → Result (PipelineConfig F) DomainError
  pipeline_of c none = ok Config.default
  pipeline_of c (some null) = ok Config.default
  pipeline_of c (some v) =
      or_invalid (add_text "Invalid pipeline config: ") (c.pipeline_from_value v)

  -- A new tag, then the enabling and the runtime state of the row. The schema, the metadata and the
  -- times of the row are not read.
  unfoldable pub restore :
      Model F → TagId → TagUpdateMode F → TagValueType → PipelineConfig F → ℕ → Tag F
  restore m id mode kind pipeline now =
      let t = Tag.new id m.device_id m.source_config mode kind pipeline now in
      set_runtime_state (if m.enabled then t else disable t now) m.last_value m.last_update
        (status_of m.status) (quality_of m.quality) m.error_message

module _ {F : Type 0} (is_alphanumeric : Char → Bool) (c : Codec F) where
  unfoldable pub model_to_tag : ℕ → Model F → Result (Tag F) DomainError
  model_to_tag now m = try (TagId.new is_alphanumeric m.id) (λ id.
      try (or_invalid (λ e. e) (c.mode_from_value m.update_config)) (λ mode.
        try (value_type_of m.value_type) (λ kind.
          try (pipeline_of c m.pipeline_config)
            (λ pipeline. ok (restore m id mode kind pipeline now)))))

  unfoldable pub found : ℕ → Option (Model F) → Result (Option (Tag F)) DomainError
  found now none = ok none
  found now (some m) = try (model_to_tag now m) (λ t. ok (some t))

  unfoldable pub find_by_id :
      ℕ → Answer → String → List (String × Model F) → Result (Option (Tag F)) DomainError
  find_by_id now done id table = found now (lookup id table)
  find_by_id now (failed e) id table = err (invalid_configuration (add_text "Database error: " e))

  -- The tags of rows, up to the first that cannot be read.
  unfoldable pub to_tags : ℕ → List (Model F) → Result (List (Tag F)) DomainError
  to_tags now [] = ok []
  to_tags now (m ∷ ms) = try (model_to_tag now m) (λ t. try (to_tags now ms) (λ ts. ok (t ∷ ts)))

module _ {F : Type 0} where
  -- The rows that a query selects, before they are ordered.
  unfoldable pub select : (Model F → Bool) → List (String × Model F) → List (Model F)
  select p [] = []
  select p ((k, m) ∷ table) = let rest = select p table in if p m then m ∷ rest else rest

-- The queries; `order` is the database's ordering by id, and `devices` gives the agents of devices.
module _ {F : Type 0} (is_alphanumeric : Char → Bool) (c : Codec F)
    (order : List (Model F) → List (Model F)) where
  unfoldable pub query :
      (Model F → Bool) → ℕ → Answer → List (String × Model F) → Result (List (Tag F)) DomainError
  query p now done table = to_tags is_alphanumeric c now (order (select p table))
  query p now (failed e) table = err (invalid_configuration (add_text "Database error: " e))

  unfoldable pub find_all : ℕ → Answer → List (String × Model F) → Result (List (Tag F)) DomainError
  find_all = query (λ m. true)

  unfoldable pub find_enabled :
      ℕ → Answer → List (String × Model F) → Result (List (Tag F)) DomainError
  find_enabled = query (λ m. m.enabled)

  unfoldable pub find_by_agent :
      List (String × String)
      → String
      → ℕ
      → Answer
      → List (String × Model F)
      → Result (List (Tag F)) DomainError
  find_by_agent devices agent =
      query (λ m. elim (lookup m.device_id devices) [ none ↦ false | some a ↦ same a agent ])
