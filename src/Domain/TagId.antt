-- ===== src/Domain/TagId.antt =====
-- crates/domain/src/tag/tag_id.rs and error.rs.
use Prim.Native.Char.{Char, code}
use ifascada.Prelude.{
  ℕ, ◌≡◌, ◌↔◌, ◌≤◌, ◌≢◌, String, len, Bool, true, ◌&&◌, ◌||◌, Result, ok, err, arith, ltb, ◌==◌,
  same, same_iff, if◌then◌else◌,
}

-- `DomainError`, with the detail that `InvalidTagId` reports.
pub data TagIdFault : Type 0 where
  empty : TagIdFault
  too_long : ℕ → TagIdFault
  bad_characters : String → TagIdFault

pub data DomainError : Type 0 where
  invalid_tag_id : TagIdFault → DomainError
  invalid_configuration tag_not_found invalid_value : String → DomainError
  tag_disabled : DomainError
  invalid_driver_config driver_error : String → DomainError

pub record TagId : Type 0 where
  pub as_str : String

-- `is_alphanumeric` is Unicode's table of letters and digits, a parameter here.
module _ (is_alphanumeric : Char → Bool) where
  unfoldable pub allowed : Char → Bool
  allowed c = is_alphanumeric c || code c == b'_' || code c == b'-' || code c == b'/'

  unfoldable pub all_allowed : String → Bool
  unfolding allowed
  all_allowed String.[] = true
  all_allowed (String.◌∷◌ c s) = allowed c && all_allowed s

  unfoldable pub new : String → Result TagId DomainError
  new id =
      if same id ""
      then err (invalid_tag_id empty)
      else if ltb 100 (len id)
      then err (invalid_tag_id (too_long (len id)))
      else if all_allowed id
      then ok (record { as_str = id })
      else err (invalid_tag_id (bad_characters id))

  -- A text is a tag id exactly when it is not empty, has at most 100 bytes and only allowed characters; the id is the text itself.
  pub new-ok_iff :
      (s : String) (id : TagId)
      → (new s ≡ ok id) ↔ ((s ≢ "") × (len s ≤ 100) × (all_allowed s ≡ true) × (id.as_str ≡ s))
  unfolding new
  new-ok_iff s id = (
    λ h. (λ e. ground (arith, same_iff s ""), ground arith, ground arith, ground arith),
    λ h. ground (arith, same_iff s ""),
  )
