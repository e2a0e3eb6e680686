-- ===== src/Gateway/Http/Refusals.antt =====
-- The HTTP routes of liveclaw-gateway/src/server.rs for a request whose token is missing or unknown.
use liveclaw.Prelude.{false, Option, none, some, String, ◌≡◌, refl, ok, err, unwrap_or}
use liveclaw.Gateway.Pairing.{is_authenticated}
use liveclaw.Gateway.Protocol.{GatewayResponse}
use liveclaw.Gateway.State.{AppState, Linked, Moment, Sender, auth_required_error}
use liveclaw.Gateway.Channels.{ChannelInboundRequest}
use liveclaw.Gateway.Http.Payloads.{
  ChannelIngressQuery, WebhookSupervisedActionPayload, HttpResponse, unauthorized_401, error_body,
  http_response_from_gateway, extract_channel_token, http_json_error, error_status,
}
use liveclaw.Gateway.Http.Ingress.{
  Ingress, slack_request, telegram_request, discord_request, matrix_request, teams_request,
}
use liveclaw.Gateway.Http.Handlers.{
  answer, with_principal, authenticate_http_principal, token_principal,
  handle_channel_http_outbound_poll, handle_channel_http_create_job, handle_channel_http_cancel_job,
  handle_channel_http_list_jobs, handle_channel_http_route, ingest,
}
use liveclaw.Gateway.Http.Router.{
  HttpRoute, webhook, slack_events, telegram_update, discord_events, matrix_events, teams_events,
  outbound_poll, jobs_create, jobs_cancel, jobs_list, supervised_action, handle_http, supervise,
  channel_webhook_supervised_action_handler,
}

-- What an adapter answers without the gateway, if it does.
abbrev pub early : {A J : Type 0} → Ingress J A → Option (HttpResponse J)
early (ok a) = none
early (err resp) = some resp

abbrev pub early_answer : {J : Type 0} → ChannelIngressQuery → HttpRoute J → Option (HttpResponse J)
early_answer query (slack_events payload) = early (slack_request payload query)
early_answer query (telegram_update payload) = early (telegram_request payload query)
early_answer query (discord_events payload) = early (discord_request payload query)
early_answer query (matrix_events payload) = early (matrix_request payload query)
early_answer query (teams_events payload) = early (teams_request payload query)
early_answer query other = none

-- The answer to a request that has no token, or one that is not known.
abbrev pub unauthorized : {J : Type 0} → Option String → HttpResponse J
unauthorized none = (
  unauthorized_401,
  error_body "auth_required" "Authentication required. Send Pair or Authenticate first.",
)
unauthorized (some token) =
    (unauthorized_401, error_body "invalid_token" "Token authentication failed")

module _ {S J : Type 0} (env : Linked S J) where
  -- A server that requires pairing, and a token that it did not issue.
  abbrev pub Unknown : Option String → AppState S J → Type 0
  Unknown none app = is_authenticated env.sha256 app.pairing "" ≡ false
  Unknown (some token) app =
      (is_authenticated env.sha256 app.pairing "" ≡ false)
      × (is_authenticated env.sha256 app.pairing token ≡ false)

  refused :
      (token : Option String) (app : AppState S J)
      (run : String → AppState S J → AppState S J × GatewayResponse J)
      → Unknown token app
      → answer (with_principal (authenticate_http_principal env token app) run app)
        ≡ (app, unauthorized token)
  unfolding with_principal authenticate_http_principal token_principal http_response_from_gateway
      http_json_error error_status auth_required_error
  refused none app run closed = rw closed refl
  refused (some t) app run (closed, unknown) = rw (closed, unknown) refl

  supervise-refuses :
      (m : Moment) (payload : WebhookSupervisedActionPayload J) (query : ChannelIngressQuery)
      (token : Option String) (tx ptx : Sender) (app : AppState S J)
      → Unknown token app
      → supervise env m payload query token tx ptx (authenticate_http_principal env token app) app
        ≡ (app, unauthorized token)
  unfolding supervise authenticate_http_principal token_principal http_response_from_gateway
      http_json_error error_status auth_required_error
  supervise-refuses m payload query none tx ptx app closed = rw closed refl
  supervise-refuses m payload query (some t) tx ptx app (closed, unknown) =
      rw (closed, unknown) refl

  module _ (m : Moment) (tx ptx : Sender) where
    ingest-refuses :
        (request : Ingress J ChannelInboundRequest) (token : Option String) (app : AppState S J)
        → Unknown token app
        → ingest env m request token app ≡ (app, unwrap_or (early request) (unauthorized token))
    unfolding ingest handle_channel_http_route
    ingest-refuses (ok request) token app h = refused token app _ h
    ingest-refuses (err resp) token app h = refl

    -- Where the server requires pairing, a request with no token, or with one that the server does
    -- not know, changes nothing, by any route. It is answered by the early response of the
    -- platform's adapter if there is one, and otherwise by the status 401, with `auth_required` or
    -- `invalid_token`.
    pub handle_http-refuses :
        (authorization : Option String) (query : ChannelIngressQuery) (route : HttpRoute J)
        (app : AppState S J)
        → Unknown (extract_channel_token authorization query) app
        → handle_http env m authorization query tx ptx route app ≡ (
          app,
          unwrap_or
              (early_answer query route)
              (unauthorized (extract_channel_token authorization query)),
        )
    unfolding handle_http handle_channel_http_route handle_channel_http_outbound_poll
        handle_channel_http_create_job handle_channel_http_cancel_job handle_channel_http_list_jobs
        channel_webhook_supervised_action_handler
    handle_http-refuses a query (webhook payload) app h = refused _ app _ h
    handle_http-refuses a query (slack_events payload) app h =
        ingest-refuses (slack_request payload query) _ app h
    handle_http-refuses a query (telegram_update payload) app h =
        ingest-refuses (telegram_request payload query) _ app h
    handle_http-refuses a query (discord_events payload) app h =
        ingest-refuses (discord_request payload query) _ app h
    handle_http-refuses a query (matrix_events payload) app h =
        ingest-refuses (matrix_request payload query) _ app h
    handle_http-refuses a query (teams_events payload) app h =
        ingest-refuses (teams_request payload query) _ app h
    handle_http-refuses a query (outbound_poll payload) app h = refused _ app _ h
    handle_http-refuses a query (jobs_create payload) app h = refused _ app _ h
    handle_http-refuses a query (jobs_cancel job_id) app h = refused _ app _ h
    handle_http-refuses a query jobs_list app h = refused _ app _ h
    handle_http-refuses a query (supervised_action payload) app h =
        supervise-refuses m payload query _ tx ptx app h
