-- ===== src/Gateway/Http/Ingress.antt =====
-- The webhooks of the chat platforms of liveclaw-gateway/src/server.rs: what each handler makes of an
-- event before it reaches the gateway. An event is turned into an inbound request, or answered at
-- once.
use liveclaw.Prelude.{
  Bool, true, false, not, ◌&&◌, Option, none, some, String, str_eq, Result, ok, err, unwrap_or,
}
use liveclaw.Text.{trim, is_empty, to_ascii_lowercase}
use liveclaw.Gateway.Channels.{ChannelInboundRequest}
use liveclaw.Gateway.Http.Payloads.{
  ChannelIngressQuery, WebhookInboundPayload, SlackEnvelope, TelegramUpdate, DiscordMessageEvent,
  MatrixEventPayload, TeamsActivityEvent, HttpResponse, http_json_error, ignored, ok_200,
  bad_request_400, challenge_body, or_else, show_int,
}

-- The value of an adapter, or the response that it returns early.
abbrev pub Ingress : Type 0 → Type 0 → Type 0
Ingress J A = Result A (HttpResponse J)

-- `str::eq_ignore_ascii_case`.
unfoldable pub eq_ignore_ascii_case : String → String → Bool
eq_ignore_ascii_case s t = str_eq (to_ascii_lowercase s) (to_ascii_lowercase t)

-- The request of a platform's handler: no configuration, and no forced replacement.
unfoldable pub platform_request :
    (channel account_id external_user_id text : String)
    → ChannelIngressQuery
    → ChannelInboundRequest
platform_request channel account_id external_user_id text query = record {
  channel = channel;
  account_id = account_id;
  external_user_id = external_user_id;
  text = text;
  create_response = unwrap_or query.create_response true;
  session_config_on_create = none;
  force_session_recreate = false;
}

unfoldable pub webhook_request : WebhookInboundPayload → ChannelIngressQuery → ChannelInboundRequest
webhook_request payload query = record {
  channel = unwrap_or payload.channel "webhook";
  account_id = payload.account_id;
  external_user_id = payload.external_user_id;
  text = payload.text;
  create_response = unwrap_or (or_else payload.create_response query.create_response) true;
  session_config_on_create = none;
  force_session_recreate = false;
}

abbrev pub is_type : Option String → String → Bool
is_type none t = false
is_type (some s) t = str_eq s t

abbrev pub is_some : {A : Type 0} → Option A → Bool
is_some none = false
is_some (some a) = true

module _ {J : Type 0} where
  infixl 5 ◌>>=◌ ◌>>◌
  abbrev pub ◌>>=◌ : {A B : Type 0} → Ingress J A → (A → Ingress J B) → Ingress J B
  ok a >>= f = f a
  err resp >>= f = err resp

  abbrev pub ◌>>◌ : {B : Type 0} → Ingress J (Unit {0}) → Ingress J B → Ingress J B
  m >> k = m >>= λ _. k

  -- `let Some(a) = o else { return resp; }`
  abbrev pub or_return : {A : Type 0} → Option A → HttpResponse J → Ingress J A
  or_return none resp = err resp
  or_return (some a) resp = ok a

  -- `if b { return resp; }`
  abbrev pub return_if : Bool → HttpResponse J → Ingress J (Unit {0})
  return_if true resp = err resp
  return_if false resp = ok tt

  -- The text of a message: trimmed, and answered as ignored if there is none.
  unfoldable pub message_text : Option String → Ingress J String
  message_text content = do
    text_raw ← or_return content (ignored "no_text")
    return_if (is_empty (trim text_raw)) (ignored "no_text")
    ok (trim text_raw)

  -- An event type, if it is given, has to be this one.
  unfoldable pub expect_type : Option String → String → Ingress J (Unit {0})
  expect_type none expected = ok tt
  expect_type (some event_type) expected =
      return_if (not (eq_ignore_ascii_case event_type expected)) (ignored "unsupported_event_type")

  abbrev pub invalid_slack : String → HttpResponse J
  invalid_slack message = http_json_error bad_request_400 "invalid_slack_payload" message

  unfoldable pub slack_request :
      SlackEnvelope → ChannelIngressQuery → Ingress J ChannelInboundRequest
  unfolding platform_request
  slack_request payload query = do
    return_if (is_type payload.envelope_type "url_verification")
        (ok_200, challenge_body (unwrap_or payload.challenge ""))
    event ← or_return payload.event (invalid_slack "Slack event payload is missing 'event'")
    return_if (not (is_type event.event_type "message")) (ignored "unsupported_event_type")
    return_if (is_some event.bot_id) (ignored "bot_message")
    account_id ←
        or_return payload.team_id (invalid_slack "Slack event payload is missing 'team_id'")
    external_user_id ←
        or_return event.user (invalid_slack "Slack message payload is missing 'event.user'")
    text ← or_return event.text (invalid_slack "Slack message payload is missing 'event.text'")
    ok (platform_request "slack" account_id external_user_id text query)

  abbrev pub invalid_telegram : String → HttpResponse J
  invalid_telegram message = http_json_error bad_request_400 "invalid_telegram_payload" message

  unfoldable pub telegram_request :
      TelegramUpdate → ChannelIngressQuery → Ingress J ChannelInboundRequest
  unfolding platform_request
  telegram_request payload query = do
    msg ←
        or_return (or_else (or_else payload.message payload.edited_message) payload.channel_post)
          (ignored "no_message")
    text ← or_return msg.text (ignored "no_text")
    chat ← or_return msg.chat (invalid_telegram "Telegram payload is missing 'message.chat.id'")
    sender ← or_return msg.sender (invalid_telegram "Telegram payload is missing 'message.from.id'")
    ok (platform_request "telegram" (show_int chat) (show_int sender) text query)

  abbrev pub invalid_discord : String → HttpResponse J
  invalid_discord message = http_json_error bad_request_400 "invalid_discord_payload" message

  unfoldable pub discord_request :
      DiscordMessageEvent → ChannelIngressQuery → Ingress J ChannelInboundRequest
  unfolding platform_request message_text expect_type
  discord_request payload query = do
    expect_type payload.event_type "MESSAGE_CREATE"
    author ← or_return payload.author (invalid_discord "Discord payload is missing 'author'")
    return_if (unwrap_or author.bot false) (ignored "bot_message")
    external_user_id ←
        or_return author.id (invalid_discord "Discord payload is missing 'author.id'")
    text ← message_text payload.content
    account_id ←
        or_return (or_else payload.guild_id payload.channel_id)
          (invalid_discord "Discord payload is missing 'guild_id' or 'channel_id'")
    ok (platform_request "discord" account_id external_user_id text query)

  abbrev pub invalid_matrix : String → HttpResponse J
  invalid_matrix message = http_json_error bad_request_400 "invalid_matrix_payload" message

  -- A message type of Matrix, if it is given, has to be a text or a notice.
  unfoldable pub expect_text_type : Option String → Ingress J (Unit {0})
  expect_text_type none = ok tt
  expect_text_type (some msg_type) =
      return_if
        (not (eq_ignore_ascii_case msg_type "m.text")
          && not (eq_ignore_ascii_case msg_type "m.notice"))
        (ignored "unsupported_message_type")

  unfoldable pub matrix_request :
      MatrixEventPayload → ChannelIngressQuery → Ingress J ChannelInboundRequest
  unfolding platform_request message_text expect_type expect_text_type
  matrix_request payload query = do
    expect_type payload.event_type "m.room.message"
    account_id ← or_return payload.room_id (invalid_matrix "Matrix payload is missing 'room_id'")
    external_user_id ←
        or_return payload.sender (invalid_matrix "Matrix payload is missing 'sender'")
    content ← or_return payload.content (ignored "no_text")
    expect_text_type content.msgtype
    text ← message_text content.body
    ok (platform_request "matrix" account_id external_user_id text query)

  abbrev pub invalid_teams : String → HttpResponse J
  invalid_teams message = http_json_error bad_request_400 "invalid_teams_payload" message

  unfoldable pub teams_request :
      TeamsActivityEvent → ChannelIngressQuery → Ingress J ChannelInboundRequest
  unfolding platform_request message_text expect_type
  teams_request payload query = do
    expect_type payload.activity_type "message"
    conversation ←
        or_return payload.conversation (invalid_teams "Teams payload is missing 'conversation'")
    account_id ← or_return conversation (invalid_teams "Teams payload is missing 'conversation.id'")
    sender ← or_return payload.sender (invalid_teams "Teams payload is missing 'from'")
    external_user_id ← or_return sender (invalid_teams "Teams payload is missing 'from.id'")
    text ← message_text payload.text
    ok (platform_request "teams" account_id external_user_id text query)
