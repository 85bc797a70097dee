-- ===== src/Repositories/Postgres.antt =====
-- crates/infrastructure/src/database/tag_repository/postgres_tag_repository.rs: the repository of tags over
-- sqlx, with the rows and the conversions of the one over SeaORM.
use Prim.Native.Char.{Char}
use Prim.Native.String.{◌++◌ as add_text}
use ifascada.Prelude.{
  ℕ, Bool, true, false, ◌≡◌, refl, ap, ◌∙◌, String, Option, none, some, List, [], ◌∷◌, Result, ok,
  err, same, same_refl, arith, if◌then◌else◌,
}
use ifascada.Prelude.Map.{lookup, insert, remove, lookup-insert}
use ifascada.Json.{Value}
use ifascada.Domain.TagId.{TagId, DomainError, invalid_configuration}
use ifascada.Domain.TagId
use ifascada.Domain.UpdateMode.{TagValueType, simple, composite}
use ifascada.Domain.Tag.{Tag}
use ifascada.Domain.Tag
use ifascada.Repositories.Tags.{
  Model, Codec, Answer, done, failed, try, or_invalid, value_type_str, row_of, pipeline_of, select,
}
use ifascada.Repositories.Tags.Saved.{IsReadable}

unfoldable pub value_type_of : String → Result TagValueType DomainError
value_type_of s =
    if same s "Simple"
    then ok simple
    else if same s "Composite"
    then ok composite
    else err (invalid_configuration (add_text "Unknown value type: " s))

abbrev database_error {ℓ} : {A : Type ℓ} → String → Result A DomainError
database_error e = err (invalid_configuration (add_text "Database error: " e))

module _ {F : Type 0} where
  -- A row that is there keeps its description, its metadata and its time of creation.
  unfoldable pub merge : Option (Model F) → Model F → Model F
  merge none row = row
  merge (some old) row = record row {
    description = old.description;
    metadata = old.metadata;
    created_at = old.created_at;
  }

  unfoldable pub store :
      Answer
      → Model F
      → List (String × Model F)
      → List (String × Model F) × Result (Unit {0}) DomainError
  unfolding merge
  store done row table = (insert row.id (merge (lookup row.id table) row) table, ok tt)
  store (failed e) row table = (table, database_error e)

  unfoldable pub save :
      Codec F
      → Answer
      → Tag F
      → List (String × Model F)
      → List (String × Model F) × Result (Unit {0}) DomainError
  save c answer t table = elim (c.mode_to_value t.update_mode) [
    | err e ↦ (table, err (invalid_configuration e))
    | ok mode ↦ store answer (row_of c t mode) table
  ]

module _ {F : Type 0} where
  unfoldable pub delete :
      Answer
      → String
      → List (String × Model F)
      → List (String × Model F) × Result (Unit {0}) DomainError
  delete done id table = (remove id table, ok tt)
  delete (failed e) id table = (table, database_error e)

module _ {F : Type 0} (is_alphanumeric : Char → Bool) (c : Codec F) where
  -- A new tag with the configuration of the row: the rest of the row is not read.
  unfoldable pub row_to_tag : ℕ → Model F → Result (Tag F) DomainError
  row_to_tag now m = try (TagId.new is_alphanumeric m.id) (λ id.
      try (or_invalid (λ e. e) (c.mode_from_value m.update_config)) (λ mode.
        try (value_type_of m.value_type) (λ kind.
          try (pipeline_of c m.pipeline_config)
            (λ pipeline. ok (Tag.new id m.device_id m.source_config mode kind pipeline now)))))

  unfoldable pub found : ℕ → Option (Model F) → Result (Option (Tag F)) DomainError
  found now none = ok none
  found now (some m) = try (row_to_tag now m) (λ t. ok (some t))

  unfoldable pub find_by_id :
      ℕ → Answer → String → List (String × Model F) → Result (Option (Tag F)) DomainError
  find_by_id now done id table = found now (lookup id table)
  find_by_id now (failed e) id table = database_error e

  -- `collect`: the tags of rows, up to the first that cannot be read.
  unfoldable pub to_tags : ℕ → List (Model F) → Result (List (Tag F)) DomainError
  to_tags now [] = ok []
  to_tags now (m ∷ ms) = try (row_to_tag now m) (λ t. try (to_tags now ms) (λ ts. ok (t ∷ ts)))

-- The queries; `order` is the database's ordering by id, and `devices` gives the agents of devices.
module _ {F : Type 0} (is_alphanumeric : Char → Bool) (c : Codec F)
    (order : List (Model F) → List (Model F)) where
  unfoldable pub query :
      (Model F → Bool) → ℕ → Answer → List (String × Model F) → Result (List (Tag F)) DomainError
  query p now done table = to_tags is_alphanumeric c now (order (select p table))
  query p now (failed e) table = database_error e

  unfoldable pub find_all : ℕ → Answer → List (String × Model F) → Result (List (Tag F)) DomainError
  find_all = query (λ m. true)

  unfoldable pub find_enabled :
      ℕ → Answer → List (String × Model F) → Result (List (Tag F)) DomainError
  find_enabled = query (λ m. m.enabled)

  unfoldable pub find_by_agent :
      List (String × String)
      → String
      → ℕ
      → Answer
      → List (String × Model F)
      → Result (List (Tag F)) DomainError
  find_by_agent devices agent =
      query (λ m. elim (lookup m.device_id devices) [ none ↦ false | some a ↦ same a agent ])

module _ {F : Type 0} (is_alphanumeric : Char → Bool) (c : Codec F) where
  value_type_of-str : (k : TagValueType) → value_type_of (value_type_str k) ≡ ok k
  unfolding value_type_of value_type_str same
  value_type_of-str simple = refl
  value_type_of-str composite = refl

  -- What the repository keeps of a tag.
  abbrev pub reset : ℕ → Tag F → Tag F
  reset now t =
      Tag.new t.id t.device_id t.source_config t.update_mode t.value_type t.pipeline_config now

  found-reset :
      (t : Tag F) (mode : Value F) (old : Option (Model F)) (now : ℕ)
      → IsReadable c t mode
      → TagId.new is_alphanumeric t.id.as_str ≡ ok t.id
      → found is_alphanumeric c now (some (merge old (row_of c t mode))) ≡ ok (some (reset now t))
  unfolding found row_to_tag merge row_of
  found-reset t mode none now h valid =
      rw (valid, h.read, value_type_of-str t.value_type, h.pipeline) refl
  found-reset t mode (some m) now h valid =
      rw (valid, h.read, value_type_of-str t.value_type, h.pipeline) refl

  -- A tag with a valid id that was saved is found by its id as a new tag with its configuration: it is enabled and its state is unknown, whatever was saved, unlike with the repository over SeaORM. The conversions of serde have to give back what they were given.
  pub find_by_id-save_reset :
      (t : Tag F) (table : List (String × Model F)) (mode : Value F) (now : ℕ)
      → IsReadable c t mode
      → TagId.new is_alphanumeric t.id.as_str ≡ ok t.id
      → find_by_id is_alphanumeric c now done t.id.as_str (save c done t table).0
        ≡ ok (some (reset now t))
  unfolding find_by_id save store row_of
  find_by_id-save_reset t table mode now h valid =
      let old = lookup t.id.as_str table in
      let row = merge old (row_of c t mode) in
      let q : lookup t.id.as_str (insert t.id.as_str row table) ≡ some row =
        ground (arith, lookup-insert t.id.as_str t.id.as_str row table, same_refl t.id.as_str) in
      rw (h.printed, save) (ap (found is_alphanumeric c now) q ∙ found-reset t mode old now h valid)
