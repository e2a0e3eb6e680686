-- ===== src/Gateway/Http/Handlers.antt =====
-- The HTTP handlers of liveclaw-gateway/src/server.rs around the gateway's: a request is authenticated
-- by its token alone, and served on a connection of its own.
use liveclaw.Prelude.{ℕ, true, Option, none, some, String, [], Result, ok, err, if◌then◌else◌}
use liveclaw.Gateway.Pairing.{is_authenticated}
use liveclaw.Gateway.Protocol.{GatewayResponse, error, channel_outbound_batch}
use liveclaw.Gateway.State.{AppState, ConnectionState, Linked, Moment, auth_required_error}
use liveclaw.Gateway.Handler.{Action, ◌>>=◌, pure, respond}
use liveclaw.Gateway.Access.{principal_from_token}
use liveclaw.Gateway.Channels.{ChannelInboundRequest, handle_channel_inbound, drain_channel_outbox}
use liveclaw.Gateway.Jobs.{
  ChannelJobCreateRequest, handle_create_channel_job, handle_cancel_channel_job,
  handle_list_channel_jobs,
}
use liveclaw.Gateway.Http.Payloads.{
  ChannelOutboundPollPayload, HttpResponse, http_response_from_gateway,
}
use liveclaw.Gateway.Http.Ingress.{Ingress}

-- The connection that a request is served on.
abbrev pub http_connection : Option String → String → ConnectionState
http_connection token principal_id = record {
  authenticated = true;
  token = token;
  principal_id = some principal_id;
  owned_sessions = [];
}

module _ {S J : Type 0} where
  -- An action on a connection that the server forgets after it.
  abbrev pub serve :
      Action S J (GatewayResponse J)
      → ConnectionState
      → AppState S J
      → AppState S J × GatewayResponse J
  serve action conn app =
      let (w, resp) = respond action (record { app = app; conn = conn }) in (w.app, resp)

  -- `match authenticate_http_principal(..) { Ok(id) => .., Err(resp) => return resp }`
  unfoldable pub with_principal :
      Result String (GatewayResponse J)
      → (String → AppState S J → AppState S J × GatewayResponse J)
      → AppState S J
      → AppState S J × GatewayResponse J
  with_principal (ok principal_id) run app = run principal_id app
  with_principal (err resp) run app = (app, resp)

  abbrev pub answer : AppState S J × GatewayResponse J → AppState S J × HttpResponse J
  answer (app, resp) = (app, http_response_from_gateway resp)

  unfoldable pub drain_response :
      (principal_id channel account_id external_user_id : String)
      → Option ℕ
      → Action S J (GatewayResponse J)
  drain_response principal_id channel account_id external_user_id max_items = do
    (key, items) ← drain_channel_outbox principal_id channel account_id external_user_id max_items
    pure (channel_outbound_batch key.channel key.account_id key.external_user_id items)

module _ {S J : Type 0} (env : Linked S J) where
  -- The principal of a token on its own, without a connection.
  unfoldable pub token_principal : Option String → AppState S J → Result String (GatewayResponse J)
  token_principal none app = err auth_required_error
  token_principal (some token) app =
      if is_authenticated env.sha256 app.pairing token
      then ok (principal_from_token env.sha256 token)
      else err (error "invalid_token" "Token authentication failed")

  unfoldable pub authenticate_http_principal :
      Option String → AppState S J → Result String (GatewayResponse J)
  unfolding token_principal
  authenticate_http_principal token app =
      if is_authenticated env.sha256 app.pairing ""
      then ok "anonymous"
      else token_principal token app

  unfoldable pub handle_channel_http_outbound_poll :
      ChannelOutboundPollPayload → Option String → AppState S J → AppState S J × GatewayResponse J
  handle_channel_http_outbound_poll request token app =
      with_principal (authenticate_http_principal token app)
        (λ principal_id.
          serve
            (drain_response principal_id request.channel request.account_id request.external_user_id
              request.max_items)
            (http_connection token principal_id))
        app

  unfoldable pub handle_channel_http_cancel_job :
      String → Option String → AppState S J → AppState S J × GatewayResponse J
  handle_channel_http_cancel_job job_id token app =
      with_principal (authenticate_http_principal token app)
        (λ principal_id.
          serve (handle_cancel_channel_job job_id) (http_connection token principal_id))
        app

  unfoldable pub handle_channel_http_list_jobs :
      Option String → AppState S J → AppState S J × GatewayResponse J
  handle_channel_http_list_jobs token app =
      with_principal (authenticate_http_principal token app)
        (λ principal_id. serve handle_list_channel_jobs (http_connection token principal_id)) app

  module _ (m : Moment) where
    unfoldable pub handle_channel_http_route :
        ChannelInboundRequest → Option String → AppState S J → AppState S J × GatewayResponse J
    handle_channel_http_route request token app =
        with_principal (authenticate_http_principal token app)
          (λ principal_id.
            serve (handle_channel_inbound env m request none none)
              (http_connection token principal_id))
          app

    unfoldable pub handle_channel_http_create_job :
        ChannelJobCreateRequest → Option String → AppState S J → AppState S J × GatewayResponse J
    handle_channel_http_create_job request token app =
        with_principal (authenticate_http_principal token app)
          (λ principal_id.
            serve (handle_create_channel_job m request) (http_connection token principal_id))
          app

    -- The end of a platform's handler.
    unfoldable pub ingest :
        Ingress J ChannelInboundRequest
        → Option String
        → AppState S J
        → AppState S J × HttpResponse J
    ingest (ok request) token app = answer (handle_channel_http_route request token app)
    ingest (err resp) token app = (app, resp)
