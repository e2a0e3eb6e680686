-- ===== src/Gateway/Dispatch.antt =====
-- `handle_message` of liveclaw-gateway/src/server.rs with the operational messages, and the frame of
-- a connection around it: what `handle_ws` does when it opens, handles a message, and closes.
pub mod Guards
use liveclaw.Prelude.{
  ℕ, ◌-◌, ◌/◌, Bool, true, false, not, Option, none, some, List, [], ◌∷◌, ◌++◌, String, string_Key,
  str_eq, if◌then◌else◌, unwrap_or,
}
use liveclaw.Prelude.Lists.{length, get_last?}
use liveclaw.Prelude.Map.{Map, get, remove}
use liveclaw.Gateway.Pairing.{is_authenticated, nanos}
use liveclaw.Gateway.Protocol.{
  GatewayMessage, pair, authenticate, create_session, terminate_session, session_audio,
  session_audio_commit, session_response_create, session_response_interrupt, session_prompt,
  channel_inbound, get_channel_outbound, create_channel_job, cancel_channel_job, list_channel_jobs,
  session_tool_call, priority_probe, get_gateway_health, get_diagnostics, ping, GatewayResponse,
  transcript_update, audio_output, priority_probe_accepted, priority_notice, gateway_health, pong,
  protocol_version,
}
use liveclaw.Gateway.State.{
  AppState, ConnectionState, World, Linked, Moment, Sender, auth_required_error, new_connection,
}
use liveclaw.Gateway.Handler.{
  Action, ◌>>=◌, ◌>>◌, pure, read_app, read_conn, change_app, unless_stop, respond,
}
use liveclaw.Gateway.Base64.{base64_encode}
use liveclaw.Gateway.Access.{handle_pair, handle_authenticate}
use liveclaw.Gateway.Sessions.{
  handle_create_session_internal, handle_terminate_session, handle_session_audio,
  handle_session_audio_commit, handle_session_response_create, handle_session_response_interrupt,
  handle_session_tool_call, handle_get_diagnostics, handle_session_prompt,
}
use liveclaw.Gateway.Channels.{
  ChannelInboundRequest, SessionTranscriptOutput, queue_channel_outbound_transcript,
  handle_channel_inbound, handle_get_channel_outbound,
}
use liveclaw.Gateway.Jobs.{
  ChannelJobCreateRequest, handle_create_channel_job, handle_cancel_channel_job,
  handle_list_channel_jobs,
}

module _ {S J : Type 0} where
  -- `tx.send(resp).await.is_ok()`: the response waits in the channel, if it has a receiver.
  abbrev pub send : Moment → Sender → GatewayResponse J → Action S J Bool
  send m tx resp = do
    change_app (λ app. record app {
      sent = if m.is_open tx then app.sent ++ (tx, resp) ∷ [] else app.sent;
    })
    pure (m.is_open tx)

  -- The guard of every message but four.
  abbrev pub authenticated_only : Action S J (GatewayResponse J) → Action S J (GatewayResponse J)
  authenticated_only handler = do
    conn ← read_conn
    unless_stop conn.authenticated auth_required_error
    handler

module _ {S J : Type 0} (env : Linked S J) (m : Moment) where
  unfoldable pub handle_get_gateway_health : Action S J (GatewayResponse J)
  handle_get_gateway_health = do
    app ← read_app
    pure (
        gateway_health (record {
          protocol_version = protocol_version;
          uptime_seconds = (m.now - app.started_at) / nanos;
          require_pairing = not (is_authenticated env.sha256 app.pairing "");
          active_sessions = length app.session_owners;
          active_ws_bindings = length app.ws_response_senders;
          active_priority_bindings = length app.ws_priority_senders;
          active_channel_jobs = length app.channel_jobs;
        }))

  unfoldable pub handle_priority_probe :
      (ws_tx ws_priority_tx : Sender) → Action S J (GatewayResponse J)
  handle_priority_probe ws_tx ws_priority_tx = do
    conn ← read_conn
    let session_id = unwrap_or (get_last? conn.owned_sessions) "priority-probe"
    queued_standard ← send m ws_tx (transcript_update session_id "priority_probe_standard" false)
    queued_priority ← send m ws_priority_tx (
        priority_notice (record {
          level = "info";
          code = "priority_probe";
          message = "Priority channel is active";
          session_id = some session_id;
        }))
    pure (priority_probe_accepted queued_standard queued_priority)

  unfoldable pub route_message :
      (ws_tx ws_priority_tx : Sender) → GatewayMessage J → Action S J (GatewayResponse J)
  route_message tx ptx ping = pure pong
  route_message tx ptx (pair given) = handle_pair env m given
  route_message tx ptx (authenticate token) = handle_authenticate env m token
  route_message tx ptx priority_probe = authenticated_only (handle_priority_probe tx ptx)
  route_message tx ptx get_gateway_health = handle_get_gateway_health
  route_message tx ptx (create_session config) =
      authenticated_only (handle_create_session_internal env m config (some tx) (some ptx))
  route_message tx ptx (terminate_session session_id) =
      authenticated_only (handle_terminate_session env m session_id)
  route_message tx ptx (session_audio session_id audio) =
      authenticated_only (handle_session_audio env m session_id audio tx ptx)
  route_message tx ptx (session_audio_commit session_id) =
      authenticated_only (handle_session_audio_commit env m session_id tx ptx)
  route_message tx ptx (session_response_create session_id) =
      authenticated_only (handle_session_response_create env m session_id tx ptx)
  route_message tx ptx (session_response_interrupt session_id) =
      authenticated_only (handle_session_response_interrupt env m session_id tx ptx)
  route_message tx ptx (session_prompt session_id prompt create_response) =
      authenticated_only
        (handle_session_prompt env m session_id prompt (unwrap_or create_response true) tx ptx)
  route_message tx ptx (channel_inbound channel account_id external_user_id text create_response) =
      authenticated_only (
        handle_channel_inbound env m
          (record {
            channel = channel;
            account_id = account_id;
            external_user_id = external_user_id;
            text = text;
            create_response = unwrap_or create_response true;
            session_config_on_create = none;
            force_session_recreate = false;
          })
          (some tx) (some ptx))
  route_message tx ptx (get_channel_outbound channel account_id external_user_id max_items) =
      authenticated_only (handle_get_channel_outbound channel account_id external_user_id max_items)
  route_message tx ptx
        (create_channel_job channel account_id external_user_id text interval_seconds
          create_response) =
      authenticated_only (
        handle_create_channel_job m (record {
          channel = channel;
          account_id = account_id;
          external_user_id = external_user_id;
          text = text;
          interval_seconds = interval_seconds;
          create_response = unwrap_or create_response true;
        }))
  route_message tx ptx (cancel_channel_job job_id) =
      authenticated_only (handle_cancel_channel_job job_id)
  route_message tx ptx list_channel_jobs = authenticated_only handle_list_channel_jobs
  route_message tx ptx (session_tool_call session_id tool_name arguments) =
      authenticated_only (handle_session_tool_call env m session_id tool_name arguments tx ptx)
  route_message tx ptx get_diagnostics = authenticated_only (handle_get_diagnostics env m)

  unfoldable pub handle_message :
      (ws_tx ws_priority_tx : Sender) → GatewayMessage J → World S J → World S J × GatewayResponse J
  handle_message tx ptx msg w = respond (route_message tx ptx msg) w

-- The state of a connection when it opens.
unfoldable pub open_connection : {S J : Type 0} → Linked S J → AppState S J → ConnectionState
open_connection env app =
    if is_authenticated env.sha256 app.pairing ""
    then record new_connection { authenticated = true; principal_id = some "anonymous" }
    else new_connection

-- Both kinds of senders of the listed sessions.
unfoldable pub remove_senders : List String → Map String Sender → Map String Sender
remove_senders [] senders = senders
remove_senders (session_id ∷ ids) senders = remove_senders ids (remove session_id senders)

-- What is left of a connection when it closes.
unfoldable pub close_connection : {S J : Type 0} → ConnectionState → AppState S J → AppState S J
unfolding remove_senders
close_connection conn app = record app {
  ws_response_senders = remove_senders conn.owned_sessions app.ws_response_senders;
  ws_priority_senders = remove_senders conn.owned_sessions app.ws_priority_senders;
}

-- The loops of `Gateway::start`: what the runner produces goes to the channel that the session is
-- bound to, if it has one, and a transcript waits in the outbox of its route too.
abbrev pub pushed :
    {S J : Type 0}
    → Moment
    → String
    → GatewayResponse J
    → AppState S J
    → List (Sender × GatewayResponse J)
pushed m session_id resp app = elim (get session_id app.ws_response_senders) [
  | none ↦ app.sent
  | some tx ↦ if m.is_open tx then app.sent ++ (tx, resp) ∷ [] else app.sent
]

pub record SessionAudioOutput : Type 0 where
  pub session_id : String
  pub audio_bytes : List ℕ

unfoldable pub handle_audio_output :
    {S J : Type 0} → Moment → SessionAudioOutput → AppState S J → AppState S J
handle_audio_output m output app = record app {
  sent =
      pushed m output.session_id (audio_output output.session_id (base64_encode output.audio_bytes))
        app;
}

unfoldable pub handle_transcript_output :
    {S J : Type 0} → Moment → SessionTranscriptOutput → AppState S J → AppState S J
handle_transcript_output m output app = queue_channel_outbound_transcript m output (record app {
  sent =
      pushed m output.session_id (transcript_update output.session_id output.text output.is_final)
        app;
})
