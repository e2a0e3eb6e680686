-- ===== src/Gateway/Http/Router.antt =====
-- The routes of `build_router` of liveclaw-gateway/src/server.rs, and the supervised action, which
-- routes a message and then calls a tool.
use liveclaw.Prelude.{true, false, Option, none, some, String, Result, ok, err, unwrap_or}
use liveclaw.Gateway.Protocol.{SessionConfig, GatewayResponse, channel_routed, session_tool_result}
use liveclaw.Gateway.State.{AppState, World, Linked, Moment, Sender}
use liveclaw.Gateway.Handler.{respond}
use liveclaw.Gateway.Channels.{ChannelInboundRequest, handle_channel_inbound}
use liveclaw.Gateway.Jobs.{ChannelJobCreateRequest}
use liveclaw.Gateway.Sessions.{handle_session_tool_call}
use liveclaw.Gateway.Http.Payloads.{
  ChannelIngressQuery, WebhookInboundPayload, ChannelOutboundPollPayload, ChannelJobCreatePayload,
  WebhookSupervisedActionPayload, SlackEnvelope, TelegramUpdate, DiscordMessageEvent,
  MatrixEventPayload, TeamsActivityEvent, HttpResponse, ok_200, supervised_action_body,
  http_response_from_gateway, extract_channel_token, or_else,
}
use liveclaw.Gateway.Http.Ingress.{
  webhook_request, slack_request, telegram_request, discord_request, matrix_request, teams_request,
}
use liveclaw.Gateway.Http.Handlers.{
  http_connection, answer, authenticate_http_principal, handle_channel_http_outbound_poll,
  handle_channel_http_cancel_job, handle_channel_http_list_jobs, handle_channel_http_route,
  handle_channel_http_create_job, ingest,
}

-- The supervised role with the graph, for a supervised action.
abbrev pub supervised_config : SessionConfig
supervised_config = record {
  model = none;
  voice = none;
  instructions = none;
  role = some "supervised";
  enable_graph = some true;
}

unfoldable pub supervised_request :
    {J : Type 0} → WebhookSupervisedActionPayload J → ChannelIngressQuery → ChannelInboundRequest
supervised_request payload query = record {
  channel = unwrap_or payload.channel "webhook";
  account_id = payload.account_id;
  external_user_id = payload.external_user_id;
  text = unwrap_or payload.text "Webhook supervised action trigger";
  create_response = unwrap_or (or_else payload.create_response query.create_response) false;
  session_config_on_create = some supervised_config;
  force_session_recreate = unwrap_or payload.force_session_recreate true;
}

-- The routes of `build_router` below `/channels`, with what each extracts from a request.
pub data HttpRoute (J : Type 0) : Type 0 where
  webhook : WebhookInboundPayload → HttpRoute J
  slack_events : SlackEnvelope → HttpRoute J
  telegram_update : TelegramUpdate → HttpRoute J
  discord_events : DiscordMessageEvent → HttpRoute J
  matrix_events : MatrixEventPayload → HttpRoute J
  teams_events : TeamsActivityEvent → HttpRoute J
  outbound_poll : ChannelOutboundPollPayload → HttpRoute J
  jobs_create : ChannelJobCreatePayload → HttpRoute J
  jobs_cancel : (job_id : String) → HttpRoute J
  jobs_list : HttpRoute J
  supervised_action : WebhookSupervisedActionPayload J → HttpRoute J

unfoldable pub job_create_request : ChannelJobCreatePayload → ChannelJobCreateRequest
job_create_request payload = record {
  channel = payload.channel;
  account_id = payload.account_id;
  external_user_id = payload.external_user_id;
  text = payload.text;
  interval_seconds = payload.interval_seconds;
  create_response = unwrap_or payload.create_response true;
}

module _ {S J : Type 0} (env : Linked S J) (m : Moment) where
  -- The `match` on the result of the tool call.
  unfoldable pub supervised_result :
      (channel account_id external_user_id session_id : String) → GatewayResponse J → HttpResponse J
  supervised_result channel account_id external_user_id session_id
        (session_tool_result _ tool_name result graph) =
      (
        ok_200,
        supervised_action_body channel account_id external_user_id session_id tool_name result
            graph,
      )
  supervised_result channel account_id external_user_id session_id other =
      http_response_from_gateway other

  -- The `match` on the result of the routing, and the tool call on the same connection.
  unfoldable pub supervised_tool_call :
      WebhookSupervisedActionPayload J
      → (ws_tx ws_priority_tx : Sender) → World S J × GatewayResponse J
      → AppState S J × HttpResponse J
  unfolding supervised_result
  supervised_tool_call payload tx ptx
        (w, channel_routed channel account_id external_user_id session_id) =
      let (v, resp) =
        respond
          (handle_session_tool_call env m session_id payload.tool_name payload.arguments tx ptx)
          w in
      (v.app, supervised_result channel account_id external_user_id session_id resp)
  supervised_tool_call payload tx ptx (w, other) = (w.app, http_response_from_gateway other)

  unfoldable pub supervise :
      WebhookSupervisedActionPayload J
      → ChannelIngressQuery
      → (token : Option String) → (ws_tx ws_priority_tx : Sender)
      → Result String (GatewayResponse J)
      → AppState S J
      → AppState S J × HttpResponse J
  unfolding supervised_request
  supervise payload query token tx ptx (err resp) app = (app, http_response_from_gateway resp)
  supervise payload query token tx ptx (ok principal_id) app = supervised_tool_call payload tx ptx (
      respond (handle_channel_inbound env m (supervised_request payload query) none none)
        (record { app = app; conn = http_connection token principal_id }))

  unfoldable pub channel_webhook_supervised_action_handler :
      WebhookSupervisedActionPayload J
      → ChannelIngressQuery
      → (token : Option String) → (ws_tx ws_priority_tx : Sender) → AppState S J
      → AppState S J × HttpResponse J
  unfolding supervise
  channel_webhook_supervised_action_handler payload query token tx ptx app =
      supervise payload query token tx ptx (authenticate_http_principal env token app) app

  -- The handler of each route. The two senders are those of the channels that a supervised
  -- action opens.
  unfoldable pub handle_http :
      (authorization : Option String)
      → ChannelIngressQuery
      → (ws_tx ws_priority_tx : Sender) → HttpRoute J
      → AppState S J
      → AppState S J × HttpResponse J
  handle_http authorization query tx ptx (webhook payload) app = answer (
      handle_channel_http_route env m (webhook_request payload query)
        (extract_channel_token authorization query) app)
  handle_http authorization query tx ptx (slack_events payload) app =
      ingest env m (slack_request payload query) (extract_channel_token authorization query) app
  handle_http authorization query tx ptx (telegram_update payload) app =
      ingest env m (telegram_request payload query) (extract_channel_token authorization query) app
  handle_http authorization query tx ptx (discord_events payload) app =
      ingest env m (discord_request payload query) (extract_channel_token authorization query) app
  handle_http authorization query tx ptx (matrix_events payload) app =
      ingest env m (matrix_request payload query) (extract_channel_token authorization query) app
  handle_http authorization query tx ptx (teams_events payload) app =
      ingest env m (teams_request payload query) (extract_channel_token authorization query) app
  handle_http authorization query tx ptx (outbound_poll payload) app = answer (
      handle_channel_http_outbound_poll env payload (extract_channel_token authorization query) app)
  handle_http authorization query tx ptx (jobs_create payload) app = answer (
      handle_channel_http_create_job env m (job_create_request payload)
        (extract_channel_token authorization query) app)
  handle_http authorization query tx ptx (jobs_cancel job_id) app =
      answer
        (handle_channel_http_cancel_job env job_id (extract_channel_token authorization query) app)
  handle_http authorization query tx ptx jobs_list app =
      answer (handle_channel_http_list_jobs env (extract_channel_token authorization query) app)
  handle_http authorization query tx ptx (supervised_action payload) app =
      channel_webhook_supervised_action_handler payload query
        (extract_channel_token authorization query) tx ptx app
