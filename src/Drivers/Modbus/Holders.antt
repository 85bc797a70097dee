-- ===== src/Drivers/Modbus/Holders.antt =====
-- What the changes of a driver do to its context, its port and its state, in crates/infrastructure/src/drivers/modbus.rs.
use ifascada.Prelude.{ℕ, ◌≡◌, refl, none, some}
use ifascada.Domain.Connection.{ConnectionState, connected}
use ifascada.Drivers.Modbus.{
  Holder, connection, device, port, context, state, set_state, hold, disconnect,
}

module _ {F : Type 0} where
  pub context-set_state : (s : ConnectionState) (h : Holder F) → context (set_state s h) ≡ context h
  unfolding context set_state
  context-set_state s (connection x) = refl
  context-set_state s (device x) = refl

  pub state-set_state : (s : ConnectionState) (h : Holder F) → state (set_state s h) ≡ s
  unfolding state set_state
  state-set_state s (connection x) = refl
  state-set_state s (device x) = refl

  pub port-set_state : (s : ConnectionState) (h : Holder F) → port (set_state s h) ≡ port h
  unfolding port set_state
  port-set_state s (connection x) = refl
  port-set_state s (device x) = refl

  pub context-hold : (c : ℕ) (h : Holder F) → context (hold c h) ≡ some c
  unfolding context hold
  context-hold c (connection x) = refl
  context-hold c (device x) = refl

  pub state-hold : (c : ℕ) (h : Holder F) → state (hold c h) ≡ connected
  unfolding state hold
  state-hold c (connection x) = refl
  state-hold c (device x) = refl

  pub port-hold : (c : ℕ) (h : Holder F) → port (hold c h) ≡ port h
  unfolding port hold
  port-hold c (connection x) = refl
  port-hold c (device x) = refl

  pub context-disconnect : (h : Holder F) → context (disconnect h) ≡ none
  unfolding context disconnect
  context-disconnect (connection x) = refl
  context-disconnect (device x) = refl

  pub state-disconnect : (h : Holder F) → state (disconnect h) ≡ ConnectionState.disconnected
  unfolding state disconnect
  state-disconnect (connection x) = refl
  state-disconnect (device x) = refl
