-- ===== src/Server/Lemmas.antt =====
-- What the loops of crates/central-server/src/state.rs do to each agent and each tag.
use ifascada.Prelude.{
  ℕ, ◌≡◌, refl, ap, ◌∙◌, String, Bool, true, false, ◌&&◌, ◌||◌, Option, none, some, List, [], ◌∷◌,
  ◌++◌, same, if◌then◌else◌, Bool-cases, inl, inr,
}
use ifascada.Prelude.Map.{lookup}
use mathlib.Core.Option
use ifascada.Server.{
  AgentData, TagData, SystemEvent, AppState, set_offline, over_tags, is_expired, expire, drop_tags,
  expiry, check_agents, notify_all, check_agent_liveness,
}

map_self : {A : Type 0} (o : Option A) → o ≡ Option.map (λ a. a) o
map_self none = refl
map_self (some a) = refl

map_twice :
    {A : Type 0} (f g h : A → A)
    → ((a : A) → g (f a) ≡ h a)
    → (o : Option A) → Option.map g (Option.map f o) ≡ Option.map h o
map_twice f g h e none = refl
map_twice f g h e (some a) = ap some (e a)

module _ {F : Type 0} where
  notify_all-frame :
      (events : List (SystemEvent F)) (st : AppState F)
      → ((notify_all events st).agents ≡ st.agents) × ((notify_all events st).tags ≡ st.tags)
  notify_all-frame [] st = (refl, refl)
  notify_all-frame (e ∷ events) st = notify_all-frame events (record st { sent = e ∷ st.sent })

  check_agents-lookup :
      (now : ℕ) (k : String) (l : List (String × AgentData F)) (st : AppState F)
      → lookup k (check_agents now l st).0.agents ≡ Option.map (expire now) (lookup k l)
  unfolding check_agents lookup
  check_agents-lookup now k [] st = refl
  check_agents-lookup now k ((j, a) ∷ rest) st = elim (Bool-cases (same j k)) [
    | inl t ↦ rw t refl
    | inr f ↦ rw f (check_agents-lookup now k rest _)
  ]

  -- The check puts an agent offline exactly if it is online and was last seen too long ago, and changes nothing else of it.
  pub check_agent_liveness-agents :
      (now : ℕ) (k : String) (st : AppState F)
      → lookup k (check_agent_liveness now st).agents ≡ Option.map (expire now) (lookup k st.agents)
  unfolding check_agent_liveness
  check_agent_liveness-agents now k st =
      ap (lookup k)
        (notify_all-frame (check_agents now st.agents st).1 (check_agents now st.agents st).0).0
      ∙ check_agents-lookup now k st.agents st

  over_tags-lookup :
      (f : TagData F → TagData F) (k : String) (tags : List (String × TagData F))
      → lookup k (over_tags f tags) ≡ Option.map f (lookup k tags)
  unfolding over_tags lookup
  over_tags-lookup f k [] = refl
  over_tags-lookup f k ((j, t) ∷ tags) = elim (Bool-cases (same j k)) [
    | inl e ↦ rw e refl
    | inr e ↦ rw e (over_tags-lookup f k tags)
  ]

  -- Whether one of the agents expires and has the id.
  abbrev pub loses : ℕ → List (String × AgentData F) → String → Bool
  loses now [] agent = false
  loses now ((k, a) ∷ rest) agent = (is_expired now a && same agent a.id) || loses now rest agent

  abbrev pub after_check : ℕ → List (String × AgentData F) → TagData F → TagData F
  after_check now l t = if loses now l t.agent_id then set_offline t else t

  -- A tag after one agent of the loop.
  abbrev after_agent : ℕ → AgentData F → TagData F → TagData F
  after_agent now a t = if is_expired now a && same t.agent_id a.id then set_offline t else t

  after_check-cons :
      (now : ℕ) (k : String) (a : AgentData F) (rest : List (String × AgentData F)) (t : TagData F)
      → after_check now rest (after_agent now a t) ≡ after_check now ((k, a) ∷ rest) t
  after_check-cons now k a rest t = elim (Bool-cases (is_expired now a && same t.agent_id a.id)) [
    | inl e ↦
        rw e
          (elim (Bool-cases (loses now rest t.agent_id)) [ inl h ↦ rw h refl | inr h ↦ rw h refl ])
    | inr e ↦ rw e refl
  ]

  tags_if :
      (b : Bool) (k agent : String) (st expired : AppState F)
      → expired.tags ≡ drop_tags agent st.tags
      → lookup k (if b then expired else st).tags
        ≡ Option.map
            (λ t. if b && same t.agent_id agent then set_offline t else t)
            (lookup k st.tags)
  unfolding drop_tags
  tags_if true k agent st expired e = ap (lookup k) e ∙ over_tags-lookup _ k st.tags
  tags_if false k agent st expired e = map_self (lookup k st.tags)

  check_agents-tags :
      (now : ℕ) (k : String) (l : List (String × AgentData F)) (st : AppState F)
      → lookup k (check_agents now l st).0.tags ≡ Option.map (after_check now l) (lookup k st.tags)
  unfolding check_agents
  check_agents-tags now k [] st = map_self (lookup k st.tags)
  check_agents-tags now k ((j, a) ∷ rest) st =
      let expired = record st {
        tags = drop_tags a.id st.tags;
        statements = expiry a.id ++ st.statements;
      } in
      check_agents-tags now k rest (if is_expired now a then expired else st)
      ∙ ap (Option.map (after_check now rest)) (tags_if (is_expired now a) k a.id st expired refl)
      ∙ map_twice (after_agent now a) (after_check now rest) (after_check now ((j, a) ∷ rest))
          (after_check-cons now j a rest) (lookup k st.tags)

  -- The check puts the tags of the agents that it puts offline offline too, with quality "uncertain", and leaves all others.
  pub check_agent_liveness-tags :
      (now : ℕ) (k : String) (st : AppState F)
      → lookup k (check_agent_liveness now st).tags
        ≡ Option.map (after_check now st.agents) (lookup k st.tags)
  unfolding check_agent_liveness
  check_agent_liveness-tags now k st =
      ap (lookup k)
        (notify_all-frame (check_agents now st.agents st).1 (check_agents now st.agents st).0).1
      ∙ check_agents-tags now k st.agents st
