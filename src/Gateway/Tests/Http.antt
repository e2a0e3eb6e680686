-- ===== src/Gateway/Tests/Http.antt =====
-- Concrete HTTP requests.
use liveclaw.Prelude.{none, some, String, ◌≡◌, refl}
use liveclaw.Gateway.Protocol.{list_channel_jobs}
use liveclaw.Gateway.Pairing.{is_authenticated}
use liveclaw.Gateway.Tests.Setting.{linked, moment, busy}
use liveclaw.Text.{trim, show_hex}
use liveclaw.Gateway.Http.Ingress.{slack_request}
use liveclaw.Gateway.Http.Payloads.{ChannelIngressQuery, extract_channel_token, strip_prefix}
use liveclaw.Gateway.Http.Handlers.{answer}
use liveclaw.Gateway.Http.Router.{HttpRoute, jobs_list, slack_events, handle_http}
use liveclaw.Gateway.Http.Parity.{handle_http-over_websocket, over_websocket}
use liveclaw.Gateway.Http.Refusals.{handle_http-refuses, unauthorized}

abbrev pub no_query : ChannelIngressQuery
no_query = record { token = none; create_response = none }

handle_http-over_websocket_example :
    handle_http linked moment (some "Bearer tok") no_query 7 8 jobs_list busy
    ≡ answer (over_websocket linked moment 7 8 "tok" list_channel_jobs busy)
unfolding extract_channel_token strip_prefix trim is_authenticated show_hex
handle_http-over_websocket_example =
    handle_http-over_websocket linked moment 7 8 no_query jobs_list list_channel_jobs
      (some "Bearer tok") "tok" busy refl refl refl

-- A message of a Slack channel.
abbrev pub slack_message : HttpRoute String
slack_message = slack_events (record {
  envelope_type = some "event_callback";
  challenge = none;
  team_id = some "team";
  event = some (record {
    event_type = some "message";
    user = some "u1";
    text = some "hello";
    bot_id = none;
  });
})

handle_http-refuses_example :
    handle_http linked moment (some "Bearer other") no_query 7 8 slack_message busy
    ≡ (busy, unauthorized (some "other"))
unfolding extract_channel_token strip_prefix trim is_authenticated show_hex slack_request
handle_http-refuses_example =
    handle_http-refuses linked moment 7 8 (some "Bearer other") no_query slack_message busy
      (refl, refl)
