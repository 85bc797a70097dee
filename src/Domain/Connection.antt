-- ===== src/Domain/Connection.antt =====
-- crates/domain/src/driver/connection_state.rs.
use ifascada.Prelude.{◌≡◌, refl, ◌↔◌, ◌≢◌, Bool, true, false, Result, ok, err, arith, is_ok}

pub data ConnectionState : Type 0 where
  disconnected connecting connected reconnecting failed : ConnectionState

unfoldable pub can_connect : ConnectionState → Bool
can_connect disconnected = true
can_connect failed = true
can_connect _ = false

unfoldable pub can_reconnect : ConnectionState → Bool
can_reconnect disconnected = true
can_reconnect failed = true
can_reconnect _ = false

unfoldable pub is_connected : ConnectionState → Bool
is_connected connected = true
is_connected _ = false

unfoldable pub is_transitioning : ConnectionState → Bool
is_transitioning connecting = true
is_transitioning reconnecting = true
is_transitioning _ = false

-- The messages of the refused transitions.
pub data Refusal : Type 0 where
  only_from_disconnected_or_failed only_from_transition only_from_connected_or_disconnected :
      Refusal

unfoldable pub to_connecting : ConnectionState → Result ConnectionState Refusal
to_connecting disconnected = ok connecting
to_connecting failed = ok connecting
to_connecting _ = err only_from_disconnected_or_failed

unfoldable pub to_connected : ConnectionState → Result ConnectionState Refusal
to_connected connecting = ok connected
to_connected reconnecting = ok connected
to_connected _ = err only_from_transition

unfoldable pub to_disconnected : ConnectionState → ConnectionState
to_disconnected _ = disconnected

unfoldable pub to_reconnecting : ConnectionState → Result ConnectionState Refusal
to_reconnecting connected = ok reconnecting
to_reconnecting disconnected = ok reconnecting
to_reconnecting _ = err only_from_connected_or_disconnected

unfoldable pub to_failed : ConnectionState → ConnectionState
to_failed _ = failed

unfoldable pub default : ConnectionState
default = disconnected

-- One transition of the state machine.
pub data Transition : ConnectionState → ConnectionState → Type 0 where
  connect : {s t : ConnectionState} → to_connecting s ≡ ok t → Transition s t
  complete : {s t : ConnectionState} → to_connected s ≡ ok t → Transition s t
  reconnect : {s t : ConnectionState} → to_reconnecting s ≡ ok t → Transition s t
  disconnect : (s : ConnectionState) → Transition s (to_disconnected s)
  fail : (s : ConnectionState) → Transition s (to_failed s)

pub data Run (s : ConnectionState) : ConnectionState → Type 0 where
  here : Run s s
  next : {t u : ConnectionState} → Run s t → Transition t u → Run s u

-- The guard `can_connect` holds exactly where `to_connecting` succeeds, and `is_transitioning` exactly where `to_connected` does.
pub guards_exact :
    (s : ConnectionState)
    → (can_connect s ≡ is_ok (to_connecting s)) × (is_transitioning s ≡ is_ok (to_connected s))
unfolding can_connect to_connecting is_transitioning to_connected
guards_exact s = ground arith

-- A transition ends in `connected` only from `connecting` or `reconnecting`.
pub Transition-connected :
    {s t : ConnectionState} → Transition s t → t ≡ connected → is_transitioning s ≡ true
unfolding to_connecting to_connected to_reconnecting to_disconnected to_failed is_transitioning
Transition-connected (connect {s} e) h = ground arith
Transition-connected (complete {s} e) h = ground arith
Transition-connected (reconnect {s} e) h = ground arith
Transition-connected (disconnect s) h = cc
Transition-connected (fail s) h = cc

-- A run with a transitional state on it.
pub data Passed (s : ConnectionState) : ConnectionState → Type 0 where
  through : {t u : ConnectionState} → is_transitioning t ≡ true → Run s t → Run t u → Passed s u

-- A run that ends in `connected` and did not begin there passed the state `connecting` or `reconnecting`.
pub Run-connected : {s t : ConnectionState} → Run s t → s ≢ connected → t ≡ connected → Passed s t
Run-connected here h e = absurd (h e)
Run-connected (next r st) h e = through (Transition-connected st e) r (next here st)

-- From every state there is a run to `connected`.
pub Run-to_connected : (s : ConnectionState) → Run s connected
unfolding to_connecting to_connected to_disconnected
Run-to_connected disconnected = next (next here (connect refl)) (complete refl)
Run-to_connected connecting = next here (complete refl)
Run-to_connected connected = here
Run-to_connected reconnecting = next here (complete refl)
Run-to_connected failed = next (next here (connect refl)) (complete refl)

-- The guard `can_reconnect` agrees with `to_reconnecting` except in the states `connected` and `failed`, where it says the opposite.
pub can_reconnect_iff :
    (s : ConnectionState)
    → (can_reconnect s ≡ is_ok (to_reconnecting s)) ↔ ((s ≢ connected) × (s ≢ failed))
unfolding can_reconnect to_reconnecting
can_reconnect_iff disconnected = (λ h. (λ e. cc, λ e. cc), λ h. refl)
can_reconnect_iff connecting = (λ h. (λ e. cc, λ e. cc), λ h. refl)
can_reconnect_iff connected = (λ h. cc, λ h. absurd (h.0 refl))
can_reconnect_iff reconnecting = (λ h. (λ e. cc, λ e. cc), λ h. refl)
can_reconnect_iff failed = (λ h. cc, λ h. absurd (h.1 refl))
