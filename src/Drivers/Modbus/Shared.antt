-- ===== src/Drivers/Modbus/Shared.antt =====
-- The registry SHARED_PORTS of crates/infrastructure/src/drivers/modbus.rs, with the drivers that
-- connect through it and the contexts they hold. The lock of the registry is released between the look for
-- a context and the storing of a new one, so a connection is two steps, and other drivers act in between.
pub mod Runs
use Prim.Native.String.{◌++◌ as add_text}
use ifascada.Prelude.{
  ℕ, String, Bool, true, false, ◌||◌, not, Option, none, some, List, [], ◌∷◌, ◌++◌, Result, ok, err,
  ◌==◌, length, get_elem?, map, update_at, if◌then◌else◌, and_then,
}
use ifascada.Prelude.Map.{lookup, insert}
use ifascada.Json.{Value}
use ifascada.Domain.TagId.{DomainError, driver_error}
use ifascada.Domain.Connection.{connecting, failed}
use ifascada.Drivers.Serial.{Builder}
use ifascada.Drivers.Modbus.{
  Platform, Holder, connection, device, port, port_name, slave_id, context, settings, set_state,
  hold, disconnect,
}
use ifascada.Drivers.Modbus.Lines.{Context, Line, poll, read_value}
use ifascada.Drivers.Modbus.Writes.{write_value}

-- `registry` names contexts, which are the positions of `contexts`.
pub record Bus (F : Type 0) : Type 0 where
  pub registry : List (String × ℕ)
  pub contexts : List Context
  pub holders : List (Holder F)
  pub waiting : List ℕ  -- the drivers that found no context and are opening their port

-- The driver and the bus after the opening of a port, and what the connection returns.
pub record Attempt (F : Type 0) : Type 0 where
  pub registry : List (String × ℕ)
  pub contexts : List Context
  pub holder : Holder F
  pub outcome : Result (Unit {0}) DomainError

pub data Step (F : Type 0) : Type 0 where
  looks : ℕ → Step F
  opens_port : (Builder → Result (Unit {0}) String) → ℕ → Step F
  disconnects : ℕ → Step F
  reads : Line → ℕ → Step F
  writes : Line → Value F → ℕ → Step F

unfoldable pub holds : ℕ → Option ℕ → Bool
holds c none = false
holds c (some d) = d == c

unfoldable pub is_waiting : ℕ → List ℕ → Bool
is_waiting i [] = false
is_waiting i (j ∷ js) = j == i || is_waiting i js

unfoldable pub others : ℕ → List ℕ → List ℕ
others i [] = []
others i (j ∷ js) = let rest = others i js in if j == i then rest else j ∷ rest

module _ {F : Type 0} where
  -- Some driver holds the context, so its weak reference can be upgraded.
  unfoldable pub is_alive : ℕ → List (Holder F) → Bool
  unfolding holds context
  is_alive c [] = false
  is_alive c (h ∷ hs) = holds c (context h) || is_alive c hs

  -- The context of the registry, unless it was dropped.
  unfoldable pub upgrade : Option ℕ → List (Holder F) → Option ℕ
  unfolding is_alive
  upgrade none hs = none
  upgrade (some c) hs = if is_alive c hs then some c else none

  unfoldable pub existing : String → Bus F → Option ℕ
  existing key b = upgrade (lookup key b.registry) b.holders

  unfoldable pub failed_attempt : Bus F → Holder F → DomainError → Attempt F
  failed_attempt b h e = record {
    registry = b.registry;
    contexts = b.contexts;
    holder = h;
    outcome = err e;
  }

  -- The answer to the opening of the port: a new context is stored in the registry.
  unfoldable pub opened : String → String → Bus F → Holder F → Result (Unit {0}) String → Attempt F
  unfolding failed_attempt
  opened key name b h (err e) =
      failed_attempt b (set_state failed h)
        (driver_error (add_text "Failed to open serial port " (add_text name (add_text ": " e))))
  opened key name b h (ok u) = record {
    registry = insert key (length b.contexts) b.registry;
    contexts = b.contexts ++ record { slave = slave_id h; sent = [] } ∷ [];
    holder = hold (length b.contexts) h;
    outcome = ok tt;
  }

  -- Settings that are refused leave the driver as it is.
  unfoldable pub open_port :
      (Builder → Result (Unit {0}) String)
      → String
      → String
      → Bus F
      → Holder F
      → Result Builder DomainError
      → Attempt F
  unfolding opened failed_attempt
  open_port opens key name b h (err e) = failed_attempt b h e
  open_port opens key name b h (ok s) = opened key name b h (opens s)

  -- `connect` of the two kinds of driver, first part: a context that is found is taken.
  unfoldable pub looked : Option ℕ → ℕ → Holder F → Bus F → Bus F
  looked (some c) i h b = record b { holders = update_at i (λ g. hold c h) b.holders }
  looked none i h b = record b {
    holders = update_at i (λ g. set_state connecting h) b.holders;
    waiting = i ∷ b.waiting;
  }

  unfoldable pub look_up : Platform → ℕ → Holder F → Bus F → Bus F
  unfolding existing looked
  look_up p i h b = looked (existing (p.to_lowercase (port h)) b) i h b

  -- The second part: the port is opened.
  unfoldable pub connect_new :
      Platform → (Builder → Result (Unit {0}) String) → Bus F → Holder F → Attempt F
  unfolding open_port
  connect_new p opens b h =
      open_port opens (p.to_lowercase (port h)) (port_name p (port h)) b h (settings p h)

  -- The attempt of the driver at a position is over.
  unfoldable pub connected_at : ℕ → Bus F → Attempt F → Bus F
  unfolding others
  connected_at i b a = record {
    registry = a.registry;
    contexts = a.contexts;
    holders = update_at i (λ h. a.holder) b.holders;
    waiting = others i b.waiting;
  }

  -- What a driver does over its context.
  unfoldable pub read_over : Line → Holder F → Context → Context
  read_over l (connection x) c = (read_value {F = F} l x c).0
  read_over l (device x) c = (poll l x c).0

  unfoldable pub write_over : Line → Value F → Holder F → Context → Context
  write_over l v (connection x) c = (write_value l x v c).0
  write_over l v (device x) c = c

  -- A driver without a context does nothing but return an error.
  unfoldable pub talk : (Context → Context) → Option ℕ → Bus F → Bus F
  talk f none b = b
  talk f (some c) b = record b { contexts = update_at c f b.contexts }

  unfoldable pub act : Platform → Step F → Holder F → Bus F → Bus F
  unfolding look_up connect_new connected_at talk read_over write_over
  act p (looks i) h b = look_up p i h b
  act p (opens_port answer i) h b = connected_at i b (connect_new p answer b h)
  act p (disconnects i) h b = record b { holders = update_at i disconnect b.holders }
  act p (reads l i) h b = talk (read_over l h) (context h) b
  act p (writes l v i) h b = talk (write_over l v h) (context h) b

  abbrev pub actor : Step F → ℕ
  actor (looks i) = i
  actor (opens_port answer i) = i
  actor (disconnects i) = i
  actor (reads l i) = i
  actor (writes l v i) = i

  -- A driver that waits for its port does nothing but open it.
  unfoldable pub may : Step F → List ℕ → Bool
  unfolding is_waiting
  may (opens_port answer i) waiting = is_waiting i waiting
  may (looks i) waiting = not (is_waiting i waiting)
  may (disconnects i) waiting = not (is_waiting i waiting)
  may (reads l i) waiting = not (is_waiting i waiting)
  may (writes l v i) waiting = not (is_waiting i waiting)

  -- A step of the driver at a position, if there is one that may act.
  unfoldable pub step : Platform → Step F → Bus F → Bus F
  unfolding act may
  step p s b = elim (get_elem? b.holders (actor s)) [
    | none ↦ b
    | some h ↦ if may s b.waiting then act p s h b else b
  ]

  unfoldable pub run : Platform → List (Step F) → Bus F → Bus F
  unfolding step
  run p [] b = b
  run p (s ∷ ss) b = run p ss (step p s b)

  -- The drivers as `new` makes them, before any port was opened.
  abbrev pub start : List (Holder F) → Bus F
  start hs = record { registry = []; contexts = []; holders = map disconnect hs; waiting = [] }
