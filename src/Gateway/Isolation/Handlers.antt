-- ===== src/Gateway/Isolation/Handlers.antt =====
-- Authorisation, the creation of sessions and the choice of a route's session, of
-- liveclaw-gateway/src/server.rs, and the isolation of principals.
use liveclaw.Prelude.{
  String, Option, none, some, List, ◌≡◌, refl, arith, string_Key, Result, ok, err, unwrap_or, ◌∙◌,
}
use liveclaw.Prelude.Map.{Map, get, get-insert_self}
use liveclaw.Gateway.Protocol.{SessionConfig, ChannelOutboundItem, GatewayResponse, session_created}
use liveclaw.Gateway.State.{World, Linked, Moment, Sender, ChannelRouteKey, route_Key, RunnerHandle}
use liveclaw.Gateway.Handler.{require}
use liveclaw.Gateway.Handler.Rules.{
  Ensures, Ensures-ok, Ensures-err, bind_rule, or_stop_rule, unless_rule, choose_rule, call_rule,
  demand_rule, read_app_rule, read_conn_rule, change_app_rule, change_conn_rule,
}
use liveclaw.Gateway.Access.{authorize_session_access, authorize_by_owner}
use liveclaw.Gateway.Sessions.{handle_create_session_internal, created_session, register_session}
use liveclaw.Gateway.Channels.{
  force_recreate, replace_session, create_for_route, session_for_route, created_or_stop,
}
use liveclaw.Gateway.Isolation.{OwnedBy, Isolated, Fresh}
use liveclaw.Gateway.Isolation.Rules.{
  without_owner, with_owner, with_route, without_route, without_reverse, without_queue,
  IsFresh-without, IsFresh-without_queue,
}

-- A created session has the identifier that the runner was asked for, as in `RunnerAdapter`.
abbrev pub CreatesAsAsked : {S J : Type 0} → RunnerHandle S J → Type 0
CreatesAsAsked {S} {J} runner =
    (principal_id session_id : String) (config : Option SessionConfig) (s : S) (sid : String)
    → (runner.create_session principal_id session_id config s).0 ≡ ok sid
    → sid ≡ session_id

-- A property of the maps about sessions and routes.
abbrev pub Maps : Type 1
Maps =
    Map String String
    → Map ChannelRouteKey String
    → Map String ChannelRouteKey
    → Map ChannelRouteKey (List ChannelOutboundItem)
    → Type 0

module _ {S J : Type 0} where
  abbrev pub At : Maps → World S J → Type 0
  At P w =
      P w.app.session_owners w.app.channel_routes w.app.session_channel_routes w.app.channel_outbox

  authorize_by_owner_keeps :
      (P : Maps) (session_id principal_id : String) (tx ptx : Option Sender) (owner : Option String)
      (w : World S J)
      → At P w
      → Ensures (λ _. At P) (At P) (authorize_by_owner session_id principal_id tx ptx owner w)
  unfolding authorize_by_owner
  authorize_by_owner_keeps P session_id principal_id tx ptx none w h = Ensures-err _ _ _ w h
  authorize_by_owner_keeps P session_id principal_id tx ptx (some owner_id) w h =
      unless_rule _ _ _ _ _ w h λ _. change_conn_rule _ _ _ _ w (Ensures-ok _ _ tt _ h)

  -- Authorisation changes none of the four maps.
  pub authorize_keeps :
      (P : Maps) (session_id : String) (tx ptx : Option Sender) (w : World S J)
      → At P w
      → Ensures (λ _. At P) (At P) (authorize_session_access session_id tx ptx w)
  unfolding authorize_session_access
  authorize_keeps P session_id tx ptx w h = read_conn_rule _ _ _ w (
      or_stop_rule _ _ _ _ _ w h λ principal_id _. read_app_rule _ _ _ w (
        choose_rule _ _ _ _ _ w (λ _. Ensures-ok _ _ tt _ h)
          (λ _. authorize_by_owner_keeps P session_id principal_id tx ptx _ w h)))

  -- A call of the runner changes none of them either.
  pub require_keeps :
      (P : Maps) (op : S → Result (Unit {0}) String × S) (code text : String) (w : World S J)
      → At P w
      → Ensures (λ _. At P) (At P) (require op code text w)
  unfolding require
  require_keeps P op code text w h = call_rule _ _ _ _ w λ r s _. demand_rule _ _ code text r _ h h

  -- A session that was created is registered for the principal.
  abbrev pub Created : String → GatewayResponse J → World S J → Type 0
  Created principal_id resp v =
      Isolated v.app
      × ((sid : String)
          → resp ≡ session_created sid
          → get sid v.app.session_owners ≡ some principal_id)

  -- The session of a route belongs to the principal of the route.
  abbrev pub RouteSession : ChannelRouteKey → String → World S J → Type 0
  RouteSession key sid v = Isolated v.app × OwnedBy v.app.session_owners sid key.principal_id

  created_or_stop_keeps :
      (key : ChannelRouteKey) (resp : GatewayResponse J) (v : World S J)
      → Created key.principal_id resp v
      → Ensures (RouteSession key) (λ v. Isolated v.app) (created_or_stop resp v)
  created_or_stop_keeps key (session_created sid) v (i, owned) =
      Ensures-ok _ _ _ _ (i, λ p e. ground (arith, owned sid refl))
  created_or_stop_keeps key other v (i, owned) = Ensures-err _ _ _ _ i

  module _ (env : Linked S J) (m : Moment) (as_asked : CreatesAsAsked env.runner) where
    created_session_keeps :
        (principal_id : String) (tx ptx : Option Sender) (r : Result String String) (w : World S J)
        → ((sid : String) → r ≡ ok sid → sid ≡ m.uuid)
        → Isolated w.app
        → Fresh m.uuid w.app
        → Ensures
            (Created principal_id)
            (λ v. Isolated v.app)
            (created_session principal_id tx ptx r w)
    unfolding created_session register_session
    created_session_keeps principal_id tx ptx (ok sid) w asked i f =
        let named : sid ≡ m.uuid = asked sid refl in
        change_app_rule _ _ _ _ w (
          change_conn_rule _ _ _ _ _ (
            Ensures-ok _ _ _ _ (
              with_owner i sid principal_id (rw named f),
              λ s e. rw (same_session s e) (get-insert_self sid principal_id w.app.session_owners),
            )))
      where
        same_session :
            (s : String)
            → ◌≡◌ {A = GatewayResponse J} (session_created sid) (session_created s)
            → s ≡ sid
        same_session s e = cc
    created_session_keeps principal_id tx ptx (err e) w asked i f =
        Ensures-ok _ _ _ _ (i, λ s h. cc)

    pub Created-keeps :
        (config : Option SessionConfig) (tx ptx : Option Sender) (w : World S J)
        → Isolated w.app
        → Fresh m.uuid w.app
        → Ensures
            (Created (unwrap_or w.conn.principal_id "unknown"))
            (λ v. Isolated v.app)
            (handle_create_session_internal env m config tx ptx w)
    unfolding handle_create_session_internal
    Created-keeps config tx ptx w i f =
        let p = unwrap_or w.conn.principal_id "unknown" in
        read_conn_rule _ _ _ w (
          call_rule _ _ _ _ w λ r s e.
            created_session_keeps p tx ptx r _
              (λ sid h. as_asked p m.uuid config w.app.runner_state sid (e ∙ h)) i f)

    pub create_for_route_keeps :
        (key : ChannelRouteKey) (config : Option SessionConfig) (tx ptx : Option Sender)
        (w : World S J)
        → unwrap_or w.conn.principal_id "unknown" ≡ key.principal_id
        → Isolated w.app
        → Fresh m.uuid w.app
        → Ensures
            (RouteSession key)
            (λ v. Isolated v.app)
            (create_for_route env m key config tx ptx w)
    unfolding create_for_route
    create_for_route_keeps key config tx ptx w same i f =
        bind_rule _ (Created key.principal_id) _ _ _ w
          (rw same at (Created-keeps config tx ptx w i f))
          λ resp v c.
            bind_rule _ (RouteSession key) _ _ _ v (created_or_stop_keeps key resp v c) λ sid u q.
              change_app_rule _ _ _ _ u (Ensures-ok _ _ _ _ (with_route q.0 key sid q.1, q.1))

    pub session_for_route_keeps :
        (key : ChannelRouteKey) (mapped : Option String) (config : Option SessionConfig)
        (tx ptx : Option Sender) (w : World S J)
        → unwrap_or w.conn.principal_id "unknown" ≡ key.principal_id
        → ((sid : String) → mapped ≡ some sid → OwnedBy w.app.session_owners sid key.principal_id)
        → Isolated w.app
        → Fresh m.uuid w.app
        → Ensures
            (RouteSession key)
            (λ v. Isolated v.app)
            (session_for_route env m key mapped config tx ptx w)
    unfolding session_for_route
    session_for_route_keeps key none config tx ptx w same owned i f =
        create_for_route_keeps key config tx ptx w same i f
    session_for_route_keeps key (some existing) config tx ptx w same owned i f =
        read_app_rule _ _ _ w (
          choose_rule _ _ _ _ _ w (λ _. Ensures-ok _ _ _ _ (i, owned existing refl))
            λ _. change_app_rule _ _ _ _ w (
              create_for_route_keeps key config tx ptx _ same
                (without_reverse (without_route i key) existing) (IsFresh-without f key existing)))

    pub force_recreate_keeps :
        (key : ChannelRouteKey) (mapped : Option String) (w : World S J)
        → Isolated w.app
        → Fresh m.uuid w.app
        → Ensures
            (λ _ v. Isolated v.app × Fresh m.uuid v.app × (v.conn ≡ w.conn))
            (λ v. Isolated v.app)
            (force_recreate env m key mapped w)
    unfolding force_recreate replace_session
    force_recreate_keeps key none w i f = Ensures-ok _ _ _ _ (i, f, refl)
    force_recreate_keeps key (some existing) w i f = change_app_rule _ _ _ _ w (
        call_rule _ _ _ _ _ λ r s _. Ensures-ok _ _ _ _ (
          without_owner (without_queue (without_reverse (without_route i key) existing) key)
              existing,
          IsFresh-without_queue (IsFresh-without f key existing) key,
          refl,
        ))
