-- ===== src/Server/Tags.antt =====
-- What a heartbeat says of the agent's tags: `update_agent_heartbeat` of
-- crates/central-server/src/state.rs.
use mathlib.Core.Option
use ifascada.Prelude.{
  ℕ, ◌≡◌, refl, ap, ◌∙◌, String, Bool, true, false, ◌||◌, Option, none, some, List, [], ◌∷◌, arith,
  same, same_iff, same_refl, subst, if◌then◌else◌, and_then, Bool-cases, Option-cases, inl, inr,
}
use ifascada.Prelude.Map.{lookup, insert, contains, lookup-insert}
use ifascada.Json.{Value, get, as_array}
use ifascada.Server.{
  TagData, AppState, texts, tags_of, refresh, refresh_one, refresh_all, see_agent, see_tags, notify,
  update_agent_heartbeat,
}

module _ {F : Type 0} (active : List String) where
  refresh_twice :
      (id : String) (t : TagData F) → refresh active id (refresh active id t) ≡ refresh active id t
  unfolding refresh
  refresh_twice id t =
      ground (arith, same_refl (if contains id active then "online" else "offline"))

  map_twice :
      (id : String) (o : Option (TagData F))
      → Option.map (refresh active id) (Option.map (refresh active id) o)
        ≡ Option.map (refresh active id) o
  map_twice id none = refl
  map_twice id (some t) = ap some (refresh_twice id t)

  abbrev pub refreshed : Bool → String → Option (TagData F) → Option (TagData F)
  refreshed b k o = if b then Option.map (refresh active k) o else o

  insert-refreshed :
      (id k : String) (t : TagData F) (tags : List (String × TagData F))
      → lookup id tags ≡ some t
      → lookup k (insert id (refresh active id t) tags) ≡ refreshed (same id k) k (lookup k tags)
  insert-refreshed id k t tags e =
      lookup-insert id k (refresh active id t) tags
      ∙ elim (Bool-cases (same id k))
          as (λ _.
            (if same id k then some (refresh active id t) else lookup k tags)
            ≡ refreshed (same id k) k (lookup k tags)) [
              | inl b ↦ rw b (
                  subst
                    (λ j.
                      some (refresh active id t) ≡ Option.map (refresh active j) (lookup j tags))
                    ((same_iff id k).0 b) (rw e refl))
              | inr b ↦ rw b refl
            ]

  refreshed-absent :
      (id k : String) (tags : List (String × TagData F))
      → lookup id tags ≡ none
      → lookup k tags ≡ refreshed (same id k) k (lookup k tags)
  refreshed-absent id k tags e = elim (Bool-cases (same id k)) [
    | inl b ↦ rw b (
        subst (λ j. lookup j tags ≡ Option.map (refresh active j) (lookup j tags))
          ((same_iff id k).0 b) (rw e refl))
    | inr b ↦ rw b refl
  ]

  refreshed-or :
      (b c : Bool) (k : String) (o : Option (TagData F))
      → refreshed c k (refreshed b k o) ≡ refreshed (b || c) k o
  refreshed-or true true k o = map_twice k o
  refreshed-or true false k o = refl
  refreshed-or false c k o = refl

  refresh_one-tags :
      (id k : String) (st : AppState F)
      → lookup k (refresh_one active id st).tags ≡ refreshed (same id k) k (lookup k st.tags)
  unfolding refresh_one
  refresh_one-tags id k st = elim (Option-cases (lookup id st.tags)) [
    | inl e ↦ rw (e, refresh_one) (refreshed-absent id k st.tags e)
    | inr (t, e) ↦ rw (e, refresh_one) (insert-refreshed id k t st.tags e)
  ]

  refresh_all-tags :
      (k : String) (ids : List String) (st : AppState F)
      → lookup k (refresh_all active ids st).tags ≡ refreshed (contains k ids) k (lookup k st.tags)
  unfolding refresh_all contains
  refresh_all-tags k [] st = refl
  refresh_all-tags k (id ∷ ids) st =
      refresh_all-tags k ids (refresh_one active id st)
      ∙ ap (refreshed (contains k ids) k) (refresh_one-tags id k st)
      ∙ refreshed-or (same id k) (contains k ids) k (lookup k st.tags)

module _ {F : Type 0} where
  notify-tags : (id : String) (st : AppState F) → (notify id st).tags ≡ st.tags
  unfolding notify
  notify-tags id st = ground arith

  -- A heartbeat that lists tag ids puts each of the agent's tags online if its id is listed and offline if not, and leaves the tags of other agents.
  pub update_agent_heartbeat-tags :
      (now : ℕ) (id : String) (metrics : Value F) (st : AppState F) (ids : List (Value F))
      (k : String)
      → and_then (get "tag_ids" metrics) as_array ≡ some ids
      → lookup k (update_agent_heartbeat now id metrics st).tags
        ≡ refreshed (texts ids) (contains k (tags_of id st.tags)) k (lookup k st.tags)
  unfolding update_agent_heartbeat see_tags see_agent
  update_agent_heartbeat-tags now id metrics st ids k e =
      ap (lookup k) (notify-tags id (see_tags id metrics (see_agent now id metrics st)))
      ∙ rw (e, see_tags)
          (refresh_all-tags (texts ids) k (tags_of id st.tags) (see_agent now id metrics st))
