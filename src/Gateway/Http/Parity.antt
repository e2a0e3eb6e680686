-- ===== src/Gateway/Http/Parity.antt =====
-- The HTTP routes of liveclaw-gateway/src/server.rs against the messages of the same name on a
-- WebSocket connection.
use liveclaw.Prelude.{
  true, Option, none, some, String, ◌≡◌, refl, sym, ◌∙◌, ap, ok, if◌then◌else◌, unwrap_or,
  Bool-cases, inl, inr,
}
use liveclaw.Gateway.Pairing.{is_authenticated}
use liveclaw.Gateway.Protocol.{
  GatewayMessage, GatewayResponse, authenticate, ping, get_channel_outbound, create_channel_job,
  cancel_channel_job, list_channel_jobs, authenticated,
}
use liveclaw.Gateway.State.{AppState, Linked, Moment, Sender, new_connection}
use liveclaw.Gateway.Handler.{actions}
use liveclaw.Gateway.Access.{principal_from_token, handle_authenticate}
use liveclaw.Gateway.Handler.Rules.{respond-end}
use liveclaw.Gateway.Channels.{handle_get_channel_outbound}
use liveclaw.Gateway.Dispatch.{handle_message, route_message}
use liveclaw.Gateway.Http.Payloads.{ChannelIngressQuery, extract_channel_token}
use liveclaw.Gateway.Http.Handlers.{
  http_connection, answer, with_principal, drain_response, authenticate_http_principal,
  token_principal, handle_channel_http_outbound_poll, handle_channel_http_create_job,
  handle_channel_http_cancel_job, handle_channel_http_list_jobs,
}
use liveclaw.Gateway.Http.Router.{
  HttpRoute, outbound_poll, jobs_create, jobs_cancel, jobs_list, handle_http, job_create_request,
}

-- The message that asks for what a route does.
abbrev pub counterpart : {J : Type 0} → HttpRoute J → Option (GatewayMessage J)
counterpart (outbound_poll p) =
    some (get_channel_outbound p.channel p.account_id p.external_user_id p.max_items)
counterpart (jobs_create p) = some (
    create_channel_job p.channel p.account_id p.external_user_id p.text p.interval_seconds
      p.create_response)
counterpart (jobs_cancel job_id) = some (cancel_channel_job job_id)
counterpart jobs_list = some list_channel_jobs
counterpart other = none

module _ {S J : Type 0} (env : Linked S J) (m : Moment) (tx ptx : Sender) where
  -- A message on a new connection that authenticates by a token first.
  abbrev pub over_websocket :
      (token : String) → GatewayMessage J → AppState S J → AppState S J × GatewayResponse J
  over_websocket token msg app =
      let w =
        (handle_message env m tx ptx (authenticate token)
          (record { app = app; conn = new_connection })).0 in
      let (v, resp) = handle_message env m tx ptx msg w in (v.app, resp)

  abbrev principal_of : String → AppState S J → String
  principal_of token app =
      if is_authenticated env.sha256 app.pairing ""
      then "anonymous"
      else principal_from_token env.sha256 token

  authenticates :
      (token : String) (app : AppState S J)
      → is_authenticated env.sha256 app.pairing token ≡ true
      → handle_authenticate env m token (record { app = app; conn = new_connection }) ≡ (
        record { app = app; conn = http_connection (some token) (principal_of token app) },
        ok (authenticated (principal_of token app)),
      )
  unfolding actions handle_authenticate
  authenticates token app h = simp h

  authenticated_connection :
      (token : String) (app : AppState S J)
      → is_authenticated env.sha256 app.pairing token ≡ true
      → (handle_message env m tx ptx
          (authenticate token)
          (record { app = app; conn = new_connection })).0
        ≡ record { app = app; conn = http_connection (some token) (principal_of token app) }
  unfolding handle_message route_message
  authenticated_connection token app h =
      ap (λ x. x.0)
        (respond-end (handle_authenticate env m token) _ _ _ (inl (authenticates token app h)))

  http_principal :
      (token : String) (app : AppState S J)
      → is_authenticated env.sha256 app.pairing token ≡ true
      → authenticate_http_principal env (some token) app ≡ ok (principal_of token app)
  unfolding authenticate_http_principal token_principal
  http_principal token app h = elim (Bool-cases (is_authenticated env.sha256 app.pairing "")) [
    | inl open_ ↦ rw open_ refl
    | inr closed ↦ rw (closed, h) refl
  ]

  abbrev on_request :
      (token : String) → GatewayMessage J → AppState S J → AppState S J × GatewayResponse J
  on_request token msg app =
      let (v, resp) =
        handle_message env m tx ptx msg
          (record { app = app; conn = http_connection (some token) (principal_of token app) }) in
      (v.app, resp)

  over_connection :
      (token : String) (msg : GatewayMessage J) (app : AppState S J)
      → is_authenticated env.sha256 app.pairing token ≡ true
      → over_websocket token msg app ≡ on_request token msg app
  over_connection token msg app h =
      ap (λ w. let (v, resp) = handle_message env m tx ptx msg w in (v.app, resp))
        (authenticated_connection token app h)

  -- A handler that runs the message's own action on the request's connection.
  serves :
      (token : String) (app : AppState S J) (sent msg : GatewayMessage J)
      (run : String → AppState S J → AppState S J × GatewayResponse J)
      → some sent ≡ some msg
      → is_authenticated env.sha256 app.pairing token ≡ true
      → run (principal_of token app) app ≡ on_request token sent app
      → answer (with_principal (authenticate_http_principal env (some token) app) run app)
        ≡ answer (on_request token msg app)
  unfolding with_principal
  serves token app sent msg run c h k =
      ap (λ r. answer (with_principal r run app)) (http_principal token app h)
      ∙ ap answer (k ∙ ap (λ o. on_request token (unwrap_or o ping) app) c)

  on_route :
      (query : ChannelIngressQuery) (route : HttpRoute J) (msg : GatewayMessage J)
      (authorization : Option String) (token : String) (app : AppState S J)
      → counterpart route ≡ some msg
      → extract_channel_token authorization query ≡ some token
      → is_authenticated env.sha256 app.pairing token ≡ true
      → handle_http env m authorization query tx ptx route app ≡ answer (on_request token msg app)
  unfolding handle_http handle_message route_message handle_channel_http_outbound_poll
      handle_get_channel_outbound drain_response actions handle_channel_http_create_job
      handle_channel_http_cancel_job handle_channel_http_list_jobs job_create_request
  on_route query (outbound_poll p) msg a token app c t h = rw t (serves token app _ msg _ c h refl)
  on_route query (jobs_create p) msg a token app c t h = rw t (serves token app _ msg _ c h refl)
  on_route query (jobs_cancel job_id) msg a token app c t h =
      rw t (serves token app _ msg _ c h refl)
  on_route query jobs_list msg a token app c t h = rw t (serves token app _ msg _ c h refl)
  on_route query other msg a token app c t h = cc

  -- For the routes that poll an outbox and that create, cancel and list jobs, a request with a
  -- token that the server accepts has the effect on the server, and the response, of the message of
  -- the same name on a new WebSocket connection that has authenticated by the same token.
  pub handle_http-over_websocket :
      (query : ChannelIngressQuery) (route : HttpRoute J) (msg : GatewayMessage J)
      (authorization : Option String) (token : String) (app : AppState S J)
      → counterpart route ≡ some msg
      → extract_channel_token authorization query ≡ some token
      → is_authenticated env.sha256 app.pairing token ≡ true
      → handle_http env m authorization query tx ptx route app
        ≡ answer (over_websocket token msg app)
  handle_http-over_websocket query route msg authorization token app c t h =
      on_route query route msg authorization token app c t h
      ∙ ap answer (sym (over_connection token msg app h))
