-- ===== src/Gateway/Isolation/Inbound.antt =====
-- `handle_channel_inbound` of liveclaw-gateway/src/server.rs and the isolation of principals.
use liveclaw.Prelude.{
  String, Bool, true, Option, none, some, ◌≡◌, refl, arith, string_Key, if◌then◌else◌, unwrap_or,
}
use liveclaw.Prelude.Map.{get, get-All}
use liveclaw.Gateway.State.{World, Linked, Moment, Sender, ChannelRouteKey, route_Key}
use liveclaw.Gateway.Handler.Rules.{
  Ensures, Ensures-ok, weaken, bind_rule, or_stop_rule, choose_rule, read_app_rule, read_conn_rule,
  change_app_rule,
}
use liveclaw.Gateway.Channels.{
  ChannelInboundRequest, handle_channel_inbound, route_key, deliver, route_inbound,
}
use liveclaw.Gateway.Isolation.{OwnedBy, IsIsolated, Isolated, Fresh}
use liveclaw.Gateway.Isolation.Handlers.{
  CreatesAsAsked, At, authorize_keeps, require_keeps, RouteSession, force_recreate_keeps,
  session_for_route_keeps,
}
use liveclaw.Gateway.Isolation.Rules.{with_reverse}

module _ {S J : Type 0} where
  -- A route key that was checked names the principal that it was made for.
  pub route_key_keeps :
      (P : World S J → Type 0) (principal_id channel account_id external_user_id : String)
      (w : World S J)
      → P w
      → Ensures
          (λ key v. (v ≡ w) × (key.principal_id ≡ principal_id))
          P
          (route_key principal_id channel account_id external_user_id w)
  unfolding route_key
  route_key_keeps P principal_id channel account_id external_user_id w h =
      or_stop_rule _ _ _ _ _ w h λ c _.
        or_stop_rule _ _ _ _ _ w h
          λ a _. or_stop_rule _ _ _ _ _ w h λ u _. Ensures-ok _ _ _ w (refl, refl)

module _ {S J : Type 0} (env : Linked S J) (m : Moment) (as_asked : CreatesAsAsked env.runner) where
  -- From the session on: the reverse entry, authorisation, and the calls of the runner.
  delivery_keeps :
      (key : ChannelRouteKey) (sid text : String) (create_response : Bool) (tx ptx : Option Sender)
      (v : World S J)
      → RouteSession key sid v
      → Ensures
          (λ _ v. Isolated v.app)
          (λ v. Isolated v.app)
          (deliver env m key sid text create_response tx ptx v)
  unfolding deliver
  delivery_keeps key sid text create_response tx ptx v (i, owned) = change_app_rule _ _ _ _ v (
      bind_rule _ (λ _. At IsIsolated) _ _ _ _
        (authorize_keeps IsIsolated sid tx ptx _ (with_reverse i sid key owned))
        λ _ w h.
          bind_rule _ (λ _. At IsIsolated) _ _ _ w (require_keeps IsIsolated _ _ _ w h)
            λ _ u k.
              bind_rule _ (λ _. At IsIsolated) _ _ _ u
                (choose_rule _ _ _ _ _ u (λ _. require_keeps IsIsolated _ _ _ u k)
                  (λ _. Ensures-ok _ _ tt u k))
                λ _ t l. Ensures-ok _ _ _ t l)

  route_inbound_keeps :
      (request : ChannelInboundRequest) (key : ChannelRouteKey) (text : String)
      (tx ptx : Option Sender) (w : World S J)
      → w.conn.principal_id ≡ some key.principal_id
      → Isolated w.app
      → Fresh m.uuid w.app
      → Ensures
          (λ _ v. Isolated v.app)
          (λ v. Isolated v.app)
          (route_inbound env m request key text tx ptx w)
  unfolding route_inbound
  route_inbound_keeps request key text tx ptx w here i f = read_app_rule _ _ _ w (
      bind_rule _ Ready _ _ _ w
        (choose_rule _ _ _ _ _ w
          (λ forced.
            weaken _ _ Ready _ (force_recreate_keeps env m as_asked key mapped w i f)
              λ _ v q. (q.0, q.1, q.2, λ sid e. absurd (nothing forced sid e)))
          (λ unforced. Ensures-ok _ _ tt w (
            i,
            f,
            refl,
            λ sid e.
                get-All (λ b. OwnedBy w.app.session_owners b.1 b.0.principal_id) key sid
                  w.app.channel_routes i.routed (rw unforced at e),
          )))
        λ _ v ready.
          bind_rule _ (RouteSession key) _ _ _ v
            (session_for_route_keeps env m as_asked key chosen _ tx ptx v (same_principal v ready.2)
              ready.3 ready.0 ready.1)
            λ sid u q. delivery_keeps key sid text request.create_response tx ptx u q)
    where
      mapped : Option String
      mapped = get key w.app.channel_routes

      chosen : Option String
      chosen = if request.force_session_recreate then none else mapped

      Ready : Unit {0} → World S J → Type 0
      Ready _ v =
          Isolated v.app
          × Fresh m.uuid v.app
          × (v.conn ≡ w.conn)
          × ((sid : String) → chosen ≡ some sid → OwnedBy v.app.session_owners sid key.principal_id)

      nothing : request.force_session_recreate ≡ true → (sid : String) → chosen ≡ some sid → ⊥
      nothing forced sid e = ground arith

      same_principal :
          (v : World S J)
          → v.conn ≡ w.conn
          → unwrap_or v.conn.principal_id "unknown" ≡ key.principal_id
      same_principal v e = rw (e, here)

  -- An inbound message, on every way out of the handler.
  pub inbound_keeps :
      (request : ChannelInboundRequest) (tx ptx : Option Sender) (w : World S J)
      → Isolated w.app
      → Fresh m.uuid w.app
      → Ensures
          (λ _ v. Isolated v.app)
          (λ v. Isolated v.app)
          (handle_channel_inbound env m request tx ptx w)
  unfolding handle_channel_inbound
  inbound_keeps request tx ptx w i f = read_conn_rule _ _ _ w (
      or_stop_rule _ _ _ _ _ w i λ principal_id here.
        bind_rule _ _ _ _ _ w
          (route_key_keeps (λ v. Isolated v.app) principal_id request.channel request.account_id
            request.external_user_id w i)
          λ key v q. or_stop_rule _ _ _ _ _ v (rw q.0 i) λ text _.
            route_inbound_keeps request key text tx ptx v (rw (q.0, q.1) here) (rw q.0 i)
              (rw q.0 f))
