-- ===== src/Repositories/Tags/Saved.antt =====
-- What is read back of a tag that
-- crates/infrastructure/src/database/tag_repository/sea_orm_tag_repository.rs saved.
use Prim.Native.Char.{Char}
use ifascada.Prelude.{
  ℕ, ◌≡◌, refl, ap, ◌∙◌, String, Bool, true, false, Option, none, some, List, ok, same, same_refl,
  arith,
}
use ifascada.Prelude.Map.{lookup, insert, lookup-insert}
use ifascada.Json.{Value}
use ifascada.Domain.TagId.{TagId, DomainError}
use ifascada.Domain.TagId
use ifascada.Domain.Status.{TagStatus, online, offline, error, unknown}
use ifascada.Domain.Status
use ifascada.Domain.Quality.{TagQuality, good, bad, uncertain, timeout}
use ifascada.Domain.Quality
use ifascada.Domain.UpdateMode.{TagValueType, simple, composite}
use ifascada.Domain.Tag.{Tag, disable, set_runtime_state}
use ifascada.Domain.Tag
use ifascada.Repositories.Tags.{
  Model, Codec, done, try, value_type_str, value_type_of, status_of, quality_of, row_of, merge,
  upsert, store, save, pipeline_of, restore, model_to_tag, found, find_by_id,
}

status_of-as_str : (s : TagStatus) → status_of (Status.as_str s) ≡ s
unfolding status_of Status.as_str same
status_of-as_str online = refl
status_of-as_str offline = refl
status_of-as_str error = refl
status_of-as_str unknown = refl

quality_of-as_str : (q : TagQuality) → quality_of (Quality.as_str q) ≡ q
unfolding quality_of Quality.as_str same
quality_of-as_str good = refl
quality_of-as_str bad = refl
quality_of-as_str uncertain = refl
quality_of-as_str timeout = refl

value_type_of-str : (k : TagValueType) → value_type_of (value_type_str k) ≡ ok k
unfolding value_type_of value_type_str same
value_type_of-str simple = refl
value_type_of-str composite = refl

-- What serde prints of the tag it reads back: `mode` is the update mode in JSON.
pub record IsReadable {F : Type 0} (c : Codec F) (t : Tag F) (mode : Value F) : Type 0 where
  pub printed : c.mode_to_value t.update_mode ≡ ok mode
  pub read : c.mode_from_value mode ≡ ok t.update_mode
  pub pipeline : pipeline_of c (c.pipeline_to_value t.pipeline_config) ≡ ok t.pipeline_config

module _ {F : Type 0} (is_alphanumeric : Char → Bool) (c : Codec F) where
  -- The tag that comes back: without its schema and its metadata, and with new times.
  abbrev pub reread : ℕ → Tag F → Tag F
  reread now t = record t {
    value_schema = none;
    metadata = none;
    created_at = now;
    updated_at = now;
  }

  restore-reread :
      (t : Tag F) (mode : Value F) (created now : ℕ) (b : Bool)
      → t.enabled ≡ b
      → restore
          (record (row_of c t mode) { created_at = created })
          t.id
          t.update_mode
          t.value_type
          t.pipeline_config
          now
        ≡ reread now t
  unfolding restore row_of Tag.new disable set_runtime_state
  restore-reread t mode created now true e =
      rw (e, status_of-as_str t.status, quality_of-as_str t.quality) refl
  restore-reread t mode created now false e =
      rw (e, status_of-as_str t.status, quality_of-as_str t.quality) refl

  model_to_tag-reread :
      (t : Tag F) (mode : Value F) (created now : ℕ)
      → IsReadable c t mode
      → TagId.new is_alphanumeric t.id.as_str ≡ ok t.id
      → model_to_tag is_alphanumeric c now (record (row_of c t mode) { created_at = created })
        ≡ ok (reread now t)
  unfolding model_to_tag row_of
  model_to_tag-reread t mode created now h valid =
      rw (valid, h.read, value_type_of-str t.value_type, h.pipeline)
        (ap ok (restore-reread t mode created now t.enabled refl))

  found-merge :
      (t : Tag F) (mode : Value F) (old : Option (Model F)) (now : ℕ)
      → IsReadable c t mode
      → TagId.new is_alphanumeric t.id.as_str ≡ ok t.id
      → found is_alphanumeric c now (some (merge old (row_of c t mode))) ≡ ok (some (reread now t))
  unfolding found merge row_of
  found-merge t mode none now h valid =
      ap (λ r. try r (λ t. ok (some t))) (model_to_tag-reread t mode t.created_at now h valid)
  found-merge t mode (some m) now h valid =
      ap (λ r. try r (λ t. ok (some t))) (model_to_tag-reread t mode m.created_at now h valid)

  -- A tag with a valid id that was saved is found by its id with its configuration, its enabling and its runtime state; its schema and its metadata are lost, and its times are those of the reading. The conversions of serde have to give back what they were given.
  pub find_by_id-save :
      (t : Tag F) (table : List (String × Model F)) (mode : Value F) (now : ℕ)
      → IsReadable c t mode
      → TagId.new is_alphanumeric t.id.as_str ≡ ok t.id
      → find_by_id is_alphanumeric c now done t.id.as_str (save c done t table).0
        ≡ ok (some (reread now t))
  unfolding find_by_id save store upsert row_of
  find_by_id-save t table mode now h valid =
      let old = lookup t.id.as_str table in
      let row = merge old (row_of c t mode) in
      let q : lookup t.id.as_str (insert t.id.as_str row table) ≡ some row =
        ground (arith, lookup-insert t.id.as_str t.id.as_str row table, same_refl t.id.as_str) in
      rw (h.printed, save) (ap (found is_alphanumeric c now) q ∙ found-merge t mode old now h valid)
