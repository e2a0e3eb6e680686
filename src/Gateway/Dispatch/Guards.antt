-- ===== src/Gateway/Dispatch/Guards.antt =====
-- The guards of `handle_message` and of `authorize_session_access`, of
-- liveclaw-gateway/src/server.rs.
use Prim.Native.String
use liveclaw.Prelude.{
  Bool, true, false, Option, none, some, String, ◌≡◌, refl, arith, str_eq, not, ok, err, Bool-cases,
  inl, inr, string_Key, ap, ◌∙◌, Result,
}
use liveclaw.Gateway.Protocol.{
  GatewayMessage, pair, authenticate, terminate_session, session_audio, session_audio_commit,
  session_response_create, session_response_interrupt, session_prompt, error, session_tool_call,
  get_gateway_health, ping, GatewayResponse,
}
use liveclaw.Gateway.State.{World, Linked, Moment, Sender, auth_required_error}
use liveclaw.Gateway.Handler.{Action, ◌>>=◌, respond, actions}
use liveclaw.Prelude.Map.{get}
use liveclaw.Gateway.Access.{authorize_session_access, authorize_by_owner, owns}
use liveclaw.Gateway.Sessions.{
  handle_terminate_session, handle_session_audio, handle_session_audio_commit,
  handle_session_response_create, handle_session_response_interrupt, handle_session_tool_call,
  handle_session_prompt,
}
use liveclaw.Gateway.Dispatch.{handle_message, route_message, authenticated_only}

-- The messages that a connection may send before it is authenticated.
abbrev pub is_public : {J : Type 0} → GatewayMessage J → Bool
is_public ping = true
is_public (pair given) = true
is_public (authenticate token) = true
is_public get_gateway_health = true
is_public other = false

module _ {S J : Type 0} where
  authenticated_only-refuses :
      (handler : Action S J (GatewayResponse J)) (w : World S J)
      → w.conn.authenticated ≡ false
      → respond (authenticated_only handler) w ≡ (w, auth_required_error)
  unfolding actions
  authenticated_only-refuses handler w h = rw h refl

  -- Every message but ping, pair, authenticate and the health request, from a connection that is
  -- not authenticated, is answered by the `auth_required` error and changes nothing.
  pub handle_message-refuses :
      (env : Linked S J) (m : Moment) (tx ptx : Sender) (msg : GatewayMessage J) (w : World S J)
      → is_public msg ≡ false
      → w.conn.authenticated ≡ false
      → handle_message env m tx ptx msg w ≡ (w, auth_required_error)
  unfolding handle_message route_message
  handle_message-refuses env m tx ptx ping w p h = absurd (cc)
  handle_message-refuses env m tx ptx (pair given) w p h = absurd (cc)
  handle_message-refuses env m tx ptx (authenticate token) w p h = absurd (cc)
  handle_message-refuses env m tx ptx get_gateway_health w p h = absurd (cc)
  handle_message-refuses env m tx ptx msg w p h = authenticated_only-refuses _ w h

-- The session that a message speaks of.
abbrev pub session_of : {J : Type 0} → GatewayMessage J → Option String
session_of (terminate_session session_id) = some session_id
session_of (session_audio session_id audio) = some session_id
session_of (session_audio_commit session_id) = some session_id
session_of (session_response_create session_id) = some session_id
session_of (session_response_interrupt session_id) = some session_id
session_of (session_prompt session_id prompt create_response) = some session_id
session_of (session_tool_call session_id tool_name arguments) = some session_id
session_of other = none

-- The refusal of a session that the connection does not hold.
abbrev pub refusal : {J : Type 0} → String → Option String → GatewayResponse J
refusal session_id none =
    error "session_not_found" (String.◌++◌ "Session '" (String.◌++◌ session_id "' not found"))
refusal session_id (some owner) =
    error "forbidden_session" "Session is not owned by the authenticated principal"

-- Is the registered owner of a session, if there is one, another principal?
abbrev pub is_foreign : String → Option String → Bool
is_foreign principal_id none = true
is_foreign principal_id (some owner) = not (str_eq owner principal_id)

module _ {S J : Type 0} where
  by_owner-refuses :
      (session_id p : String) (tx ptx : Option Sender) (owner : Option String) (w : World S J)
      → is_foreign p owner ≡ true
      → authorize_by_owner session_id p tx ptx owner w ≡ (w, err (refusal session_id owner))
  unfolding actions authorize_by_owner
  by_owner-refuses session_id p tx ptx none w h = refl
  by_owner-refuses session_id p tx ptx (some owner) w h = elim (Bool-cases (str_eq owner p)) [
    | inl same ↦ ground (arith)
    | inr other ↦ rw other refl
  ]

  access-refuses :
      (session_id p : String) (tx ptx : Option Sender) (w : World S J)
      → w.conn.principal_id ≡ some p
      → owns w.conn session_id ≡ false
      → is_foreign p (get session_id w.app.session_owners) ≡ true
      → authorize_session_access session_id tx ptx w
        ≡ (w, err (refusal session_id (get session_id w.app.session_owners)))
  unfolding actions authorize_session_access
  access-refuses session_id p tx ptx w here held foreign = simp (
    here,
    held,
    by_owner-refuses session_id p tx ptx (get session_id w.app.session_owners) w foreign,
  )

  authenticated_only-allows :
      (handler : Action S J (GatewayResponse J)) (w : World S J)
      → w.conn.authenticated ≡ true
      → authenticated_only handler w ≡ handler w
  unfolding actions
  authenticated_only-allows handler w h = simp h

  stops :
      {A B : Type 0} (check : Action S J A) (rest : A → Action S J B) (resp : GatewayResponse J)
      (w : World S J)
      → check w ≡ (w, err resp)
      → (check >>= rest) w ≡ (w, err resp)
  unfolding actions
  stops {A} {B} check rest resp w refused =
      ap
        (λ x. elim x.1 as (λ _. World S J × Result B (GatewayResponse J)) [
          | ok a ↦ rest a x.0
          | err r ↦ (x.0, err r)
        ])
        refused

  guarded-refuses :
      {A : Type 0} (check : Action S J A) (rest : A → Action S J (GatewayResponse J))
      (resp : GatewayResponse J) (w : World S J)
      → w.conn.authenticated ≡ true
      → check w ≡ (w, err resp)
      → respond (authenticated_only (check >>= rest)) w ≡ (w, resp)
  guarded-refuses check rest resp w is_auth refused =
      ap
        (λ x. elim x.1 as (λ _. World S J × GatewayResponse J) [
          | ok r ↦ (x.0, r)
          | err r ↦ (x.0, r)
        ])
        (authenticated_only-allows (check >>= rest) w is_auth ∙ stops check rest resp w refused)

  module _ (env : Linked S J) (m : Moment) (tx ptx : Sender) (w : World S J) (p : String)
      (is_auth : w.conn.authenticated ≡ true) (here : w.conn.principal_id ≡ some p) where
    foreign-stops :
        (sid session_id : String) (t q : Option Sender)
        (rest : Unit {0} → Action S J (GatewayResponse J))
        → ◌≡◌ {A = Option String} (some sid) (some session_id)
        → owns w.conn session_id ≡ false
        → is_foreign p (get session_id w.app.session_owners) ≡ true
        → respond (authenticated_only (authorize_session_access sid t q >>= rest)) w
          ≡ (w, refusal session_id (get session_id w.app.session_owners))
    foreign-stops sid session_id t q rest e held foreign =
        let same : sid ≡ session_id = cc in
        rw same (
          guarded-refuses (authorize_session_access session_id t q) rest
            (refusal session_id (get session_id w.app.session_owners)) w is_auth
            (access-refuses session_id p t q w here held foreign))

    -- Each of the seven messages about a session, from an authenticated connection that does not
    -- hold the session and whose principal is not the registered owner, is answered by
    -- `forbidden_session`, or by `session_not_found` where there is no owner, and changes nothing:
    -- neither the server, nor the connection, nor the runner.
    pub handle_message-refuses_foreign :
        (msg : GatewayMessage J) (session_id : String)
        → session_of msg ≡ some session_id
        → owns w.conn session_id ≡ false
        → is_foreign p (get session_id w.app.session_owners) ≡ true
        → handle_message env m tx ptx msg w
          ≡ (w, refusal session_id (get session_id w.app.session_owners))
    unfolding handle_message route_message handle_terminate_session handle_session_audio
        handle_session_audio_commit handle_session_response_create handle_session_response_interrupt
        handle_session_prompt handle_session_tool_call
    handle_message-refuses_foreign (terminate_session sid) session_id e held foreign =
        foreign-stops sid session_id _ _ _ e held foreign
    handle_message-refuses_foreign (session_audio sid audio) session_id e held foreign =
        foreign-stops sid session_id _ _ _ e held foreign
    handle_message-refuses_foreign (session_audio_commit sid) session_id e held foreign =
        foreign-stops sid session_id _ _ _ e held foreign
    handle_message-refuses_foreign (session_response_create sid) session_id e held foreign =
        foreign-stops sid session_id _ _ _ e held foreign
    handle_message-refuses_foreign (session_response_interrupt sid) session_id e held foreign =
        foreign-stops sid session_id _ _ _ e held foreign
    handle_message-refuses_foreign (session_prompt sid prompt create_response) session_id e held
          foreign =
        foreign-stops sid session_id _ _ _ e held foreign
    handle_message-refuses_foreign (session_tool_call sid tool_name arguments) session_id e held
          foreign =
        foreign-stops sid session_id _ _ _ e held foreign
    handle_message-refuses_foreign msg session_id e held foreign = absurd (cc)
