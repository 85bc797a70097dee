-- ===== src/Devices/Manager/Groups.antt =====
-- The tags of each device: `start_devices` of crates/application/src/device/manager.rs.
use ifascada.Prelude.{
  ◌≡◌, refl, subst, ◌⊎◌, inl, inr, String, some, List, [], ◌∷◌, ◌++◌, same, same_iff, arith, All,
  unwrap_or, Option-cases, Bool-cases,
}
use ifascada.Prelude.Map.{lookup, insert, remove, lookup-insert, lookup-remove}
use ifascada.Domain.Tag.{Tag}
use ifascada.Devices.Manager.{group_tag, group_tags}

-- An entry of a map after an insertion.
insert-cases :
    {V : Type 0} (k j : String) (v w : V) (m : List (String × V))
    → lookup j (insert k v m) ≡ some w
    → ((k ≡ j) × (v ≡ w)) ⊎ (lookup j m ≡ some w)
insert-cases k j v w m h = elim (Bool-cases (same k j)) [
  | inl t ↦ inl ((same_iff k j).0 t, ground (arith, lookup-insert k j v m, h, t))
  | inr f ↦ inr (ground (arith, lookup-insert k j v m, h, f))
]

module _ {F : Type 0} where
  -- Every tag of a group belongs to the group's device.
  abbrev pub Belong : String → List (Tag F) → Type 0
  Belong id tags = All (λ t. t.device_id ≡ id) tags

  abbrev pub AllBelong : List (String × List (Tag F)) → Type 0
  AllBelong groups =
      (id : String) (tags : List (Tag F)) → lookup id groups ≡ some tags → Belong id tags

  All-snoc :
      (id : String) (tags : List (Tag F)) (t : Tag F)
      → Belong id tags
      → t.device_id ≡ id
      → Belong id (tags ++ t ∷ [])
  All-snoc id [] t h e = (e, tt)
  All-snoc id (u ∷ tags) t (g, h) e = (g, All-snoc id tags t h e)

  pub group_or_none :
      (id : String) (groups : List (String × List (Tag F)))
      → AllBelong groups
      → Belong id (unwrap_or (lookup id groups) [])
  group_or_none id groups h = elim (Option-cases (lookup id groups)) [
    | inl e ↦ rw e tt
    | inr (tags, e) ↦ rw e (h id tags e)
  ]

  group_tag-Belong :
      (t : Tag F) (groups : List (String × List (Tag F)))
      → AllBelong groups
      → AllBelong (group_tag t groups)
  unfolding group_tag
  group_tag-Belong t groups h = elim (Bool-cases (same t.device_id "")) [
    | inl e ↦ rw (e, group_tag) h
    | inr e ↦
        rw (e, group_tag)
          (λ id tags l.
            elim (insert-cases t.device_id id (unwrap_or (lookup t.device_id groups) [] ++ t ∷ [])
              tags groups l) [
                | inl (k, v) ↦ subst (Belong id) v (
                    subst (λ j. Belong j (unwrap_or (lookup t.device_id groups) [] ++ t ∷ [])) k
                      (All-snoc t.device_id _ t (group_or_none t.device_id groups h) refl))
                | inr old ↦ h id tags old
              ])
  ]

  pub group_tags-Belong :
      (tags : List (Tag F)) (groups : List (String × List (Tag F)))
      → AllBelong groups
      → AllBelong (group_tags tags groups)
  unfolding group_tags
  group_tags-Belong [] groups h = h
  group_tags-Belong (t ∷ tags) groups h =
      group_tags-Belong tags (group_tag t groups) (group_tag-Belong t groups h)

  pub remove-Belong :
      (k : String) (groups : List (String × List (Tag F)))
      → AllBelong groups
      → AllBelong (remove k groups)
  remove-Belong k groups h id tags e = elim (Bool-cases (same k id)) [
    | inl t ↦ absurd (ground (arith, lookup-remove k id groups, e, t))
    | inr f ↦ h id tags (ground (arith, lookup-remove k id groups, e, f))
  ]
