-- ===== src/Gateway/Isolation/Http.antt =====
-- The HTTP routes of liveclaw-gateway/src/server.rs and the isolation of principals.
use liveclaw.Prelude.{Option, none, String, Result, ok, err}
use liveclaw.Gateway.Protocol.{GatewayResponse, channel_routed}
use liveclaw.Gateway.State.{AppState, World, Linked, Moment, Sender, ConnectionState}
use liveclaw.Gateway.Handler.{Action, respond}
use liveclaw.Gateway.Handler.Rules.{respond_rule}
use liveclaw.Gateway.Channels.{ChannelInboundRequest, handle_channel_inbound}
use liveclaw.Gateway.Jobs.{
  handle_create_channel_job, handle_cancel_channel_job, handle_list_channel_jobs,
}
use liveclaw.Gateway.Sessions.{handle_session_tool_call}
use liveclaw.Gateway.Http.Payloads.{ChannelIngressQuery, WebhookSupervisedActionPayload}
use liveclaw.Gateway.Http.Ingress.{Ingress}
use liveclaw.Gateway.Http.Handlers.{
  http_connection, serve, with_principal, drain_response, handle_channel_http_outbound_poll,
  handle_channel_http_cancel_job, handle_channel_http_list_jobs, handle_channel_http_route,
  handle_channel_http_create_job, ingest,
}
use liveclaw.Gateway.Http.Router.{
  HttpRoute, webhook, slack_events, telegram_update, discord_events, matrix_events, teams_events,
  outbound_poll, jobs_create, jobs_cancel, jobs_list, supervised_action, handle_http,
  supervised_tool_call, supervise, job_create_request, channel_webhook_supervised_action_handler,
  supervised_request,
}
use liveclaw.Gateway.Isolation.{Isolated, Fresh}
use liveclaw.Gateway.Isolation.Handlers.{CreatesAsAsked}
use liveclaw.Gateway.Isolation.Inbound.{inbound_keeps}
use liveclaw.Gateway.Isolation.Messages.{Kept, tool_call_keeps}
use liveclaw.Gateway.Isolation.Channels.{
  create_job_keeps, cancel_job_keeps, list_jobs_keeps, drain_response_keeps,
}

module _ {S J : Type 0} where
  with_principal_keeps :
      (r : Result String (GatewayResponse J))
      (run : String → AppState S J → AppState S J × GatewayResponse J) (app : AppState S J)
      → Isolated app
      → ((p : String) → Isolated (run p app).0)
      → Isolated (with_principal r run app).0
  unfolding with_principal
  with_principal_keeps (ok p) run app i h = h p
  with_principal_keeps (err resp) run app i h = i

  serve_keeps :
      (action : Action S J (GatewayResponse J)) (conn : ConnectionState) (app : AppState S J)
      → Kept (action (record { app = app; conn = conn }))
      → Isolated (serve action conn app).0
  serve_keeps action conn app h =
      respond_rule (λ v. Isolated v.app) action (record { app = app; conn = conn }) h

  served_keeps :
      (r : Result String (GatewayResponse J)) (action : String → Action S J (GatewayResponse J))
      (token : Option String) (app : AppState S J)
      → Isolated app
      → ((p : String) (w : World S J) → Isolated w.app → Kept (action p w))
      → Isolated (with_principal r (λ p. serve (action p) (http_connection token p)) app).0
  served_keeps r action token app i h =
      with_principal_keeps r (λ p. serve (action p) (http_connection token p)) app i
        λ p.
          serve_keeps (action p) (http_connection token p) app
            (h p (record { app = app; conn = http_connection token p }) i)

module _ {S J : Type 0} (env : Linked S J) (m : Moment) (as_asked : CreatesAsAsked env.runner) where
  route_keeps :
      (request : ChannelInboundRequest) (token : Option String) (app : AppState S J)
      → Isolated app
      → Fresh m.uuid app
      → Isolated (handle_channel_http_route env m request token app).0
  unfolding handle_channel_http_route
  route_keeps request token app i f = with_principal_keeps _ _ app i λ p.
      serve_keeps (handle_channel_inbound env m request none none) (http_connection token p) app (
        inbound_keeps env m as_asked request none none
          (record { app = app; conn = http_connection token p }) i f)

  ingest_keeps :
      (parsed : Ingress J ChannelInboundRequest) (token : Option String) (app : AppState S J)
      → Isolated app
      → Fresh m.uuid app
      → Isolated (ingest env m parsed token app).0
  unfolding ingest
  ingest_keeps (ok request) token app i f = route_keeps request token app i f
  ingest_keeps (err resp) token app i f = i

  tool_keeps :
      (payload : WebhookSupervisedActionPayload J) (tx ptx : Sender) (w : World S J)
      (resp : GatewayResponse J)
      → Isolated w.app
      → Isolated (supervised_tool_call env m payload tx ptx (w, resp)).0
  unfolding supervised_tool_call
  tool_keeps payload tx ptx w (channel_routed channel account_id external_user_id session_id) i =
      respond_rule (λ v. Isolated v.app)
        (handle_session_tool_call env m session_id payload.tool_name payload.arguments tx ptx) w
        (tool_call_keeps env m session_id payload.tool_name payload.arguments tx ptx w i)
  tool_keeps payload tx ptx w other i = i

  supervise_keeps :
      (payload : WebhookSupervisedActionPayload J) (query : ChannelIngressQuery)
      (token : Option String) (tx ptx : Sender) (r : Result String (GatewayResponse J))
      (app : AppState S J)
      → Isolated app
      → Fresh m.uuid app
      → Isolated (supervise env m payload query token tx ptx r app).0
  unfolding supervise
  supervise_keeps payload query token tx ptx (err resp) app i f = i
  supervise_keeps payload query token tx ptx (ok p) app i f =
      let start : World S J = record { app = app; conn = http_connection token p } in
      let action = handle_channel_inbound env m (supervised_request payload query) none none in
      tool_keeps payload tx ptx (respond action start).0 (respond action start).1 (
        respond_rule (λ v. Isolated v.app) action start
          (inbound_keeps env m as_asked (supervised_request payload query) none none start i f))

  -- Any HTTP request, whatever its token, its query and its body, keeps the principals isolated, on
  -- every way out of its handler. It assumes that the runner creates a session under the identifier
  -- it is given and that the UUID of the step is new.
  pub handle_http-Isolated :
      (authorization : Option String) (query : ChannelIngressQuery) (tx ptx : Sender)
      (route : HttpRoute J) (app : AppState S J)
      → Isolated app
      → Fresh m.uuid app
      → Isolated (handle_http env m authorization query tx ptx route app).0
  unfolding handle_http handle_channel_http_outbound_poll handle_channel_http_create_job
      handle_channel_http_cancel_job handle_channel_http_list_jobs
      channel_webhook_supervised_action_handler
  handle_http-Isolated authorization query tx ptx (webhook payload) app i f =
      route_keeps _ _ app i f
  handle_http-Isolated authorization query tx ptx (slack_events payload) app i f =
      ingest_keeps _ _ app i f
  handle_http-Isolated authorization query tx ptx (telegram_update payload) app i f =
      ingest_keeps _ _ app i f
  handle_http-Isolated authorization query tx ptx (discord_events payload) app i f =
      ingest_keeps _ _ app i f
  handle_http-Isolated authorization query tx ptx (matrix_events payload) app i f =
      ingest_keeps _ _ app i f
  handle_http-Isolated authorization query tx ptx (teams_events payload) app i f =
      ingest_keeps _ _ app i f
  handle_http-Isolated authorization query tx ptx (outbound_poll payload) app i f =
      served_keeps _
        (λ p.
          drain_response p payload.channel payload.account_id payload.external_user_id
            payload.max_items)
        _ app i
        (λ p.
          drain_response_keeps p payload.channel payload.account_id payload.external_user_id
            payload.max_items)
  handle_http-Isolated authorization query tx ptx (jobs_create payload) app i f =
      served_keeps _ (λ p. handle_create_channel_job m (job_create_request payload)) _ app i
        (λ p. create_job_keeps m (job_create_request payload))
  handle_http-Isolated authorization query tx ptx (jobs_cancel job_id) app i f =
      served_keeps _ (λ p. handle_cancel_channel_job job_id) _ app i (λ p. cancel_job_keeps job_id)
  handle_http-Isolated authorization query tx ptx jobs_list app i f =
      served_keeps _ (λ p. handle_list_channel_jobs) _ app i (λ p. list_jobs_keeps)
  handle_http-Isolated authorization query tx ptx (supervised_action payload) app i f =
      supervise_keeps payload query _ tx ptx _ app i f
