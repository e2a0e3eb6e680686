-- ===== src/Gateway/Handler.antt =====
-- The handlers of liveclaw-gateway/src/server.rs as actions: an action takes the server's state and
-- its connection's, returns the new ones, and answers a value or leaves the handler early with a
-- response, as `return` does in the source.
pub mod Rules
use liveclaw.Prelude.{Bool, true, false, Option, none, some, String, Result, ok, err, if◌then◌else◌}
use liveclaw.Gateway.Protocol.{GatewayResponse}
use liveclaw.Gateway.State.{AppState, ConnectionState, World, failure}

abbrev pub Action : Type 0 → Type 0 → Type 0 → Type 0
Action S J A = World S J → World S J × Result A (GatewayResponse J)

module _ {S J : Type 0} where
  infixl 5 ◌>>=◌ ◌>>◌
  -- Shut, so that a proof about a handler goes by the rules of the child module; `actions` opens it.
  unfoldable pub ◌>>=◌ : {A B : Type 0} → Action S J A → (A → Action S J B) → Action S J B
  ◌>>=◌ m f w = let (w', r) = m w in elim r [ ok a ↦ f a w' | err resp ↦ (w', err resp) ]

  abbrev pub ◌>>◌ : {B : Type 0} → Action S J (Unit {0}) → Action S J B → Action S J B
  m >> k = m >>= λ _. k

  abbrev pub pure : {A : Type 0} → A → Action S J A
  pure a w = (w, ok a)

  abbrev pub stop : {A : Type 0} → GatewayResponse J → Action S J A
  stop resp w = (w, err resp)

  abbrev pub read_app : Action S J (AppState S J)
  read_app w = (w, ok w.app)

  abbrev pub read_conn : Action S J ConnectionState
  read_conn w = (w, ok w.conn)

  abbrev pub change_app : (AppState S J → AppState S J) → Action S J (Unit {0})
  change_app f w = (record w { app = f w.app }, ok tt)

  abbrev pub change_conn : (ConnectionState → ConnectionState) → Action S J (Unit {0})
  change_conn f w = (record w { conn = f w.conn }, ok tt)

  -- A call of the runner.
  abbrev pub call : {A : Type 0} → (S → Result A String × S) → Action S J (Result A String)
  call op w =
      let (r, s) = op w.app.runner_state in
      (record w { app = record (w.app) { runner_state = s } }, ok r)

  -- `let Some(a) = o else { return resp; }`
  abbrev pub or_stop : {A : Type 0} → Option A → GatewayResponse J → Action S J A
  or_stop none resp = stop resp
  or_stop (some a) resp = pure a

  abbrev pub unless_stop : Bool → GatewayResponse J → Action S J (Unit {0})
  unless_stop b resp w = if b then (w, ok tt) else (w, err resp)

  -- A test between two actions.
  unfoldable pub choose : {A : Type 0} → Bool → Action S J A → Action S J A → Action S J A
  choose true m n = m
  choose false m n = n

  -- `match r { Ok(()) => accepted, Err(e) => error }`, and a call of the runner that ends in it.
  unfoldable pub settle :
      GatewayResponse J
      → (code text : String) → Result (Unit {0}) String
      → Action S J (GatewayResponse J)
  settle accepted code text (ok _) = pure accepted
  settle accepted code text (err e) = pure (failure code text e)

  abbrev pub forward :
      (S → Result (Unit {0}) String × S)
      → GatewayResponse J
      → (code text : String) → Action S J (GatewayResponse J)
  forward op accepted code text = call op >>= settle accepted code text

  -- `if let Err(e) = r { return error; }`, and a call of the runner that goes through it.
  unfoldable pub demand : (code text : String) → Result (Unit {0}) String → Action S J (Unit {0})
  demand code text (ok _) = pure tt
  demand code text (err e) = stop (failure code text e)

  unfoldable pub require :
      (S → Result (Unit {0}) String × S) → (code text : String) → Action S J (Unit {0})
  require op code text = call op >>= demand code text

  -- The response of a handler, whether it ran to its end or left early.
  abbrev pub respond : Action S J (GatewayResponse J) → World S J → World S J × GatewayResponse J
  respond m w = let (w', r) = m w in elim r [ ok resp ↦ (w', resp) | err resp ↦ (w', resp) ]

unfoldable pub actions : Unit {0}
unfolding ◌>>=◌ choose settle demand require
actions = tt
