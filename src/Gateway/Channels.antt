-- ===== src/Gateway/Channels.antt =====
-- Channel routing of liveclaw-gateway/src/server.rs: inbound messages of an external user go to a
-- session of the authenticated principal, and final transcripts wait in an outbox.
pub mod Outbox
pub mod Route
use liveclaw.Prelude.{
  ℕ, min, max, Bool, true, false, not, Option, none, some, List, [], ◌∷◌, ◌++◌, String, Result, ok,
  err, str_eq, string_Key, if◌then◌else◌, unwrap_or,
}
use liveclaw.Prelude.Lists.{length, take, drop, is_empty as is_empty_list}
use liveclaw.Prelude.Map.{Map, get, insert, remove, contains_key}
use liveclaw.Text.{trim, is_empty, to_ascii_lowercase}
use liveclaw.Gateway.Protocol.{
  SessionConfig, ChannelOutboundItem, GatewayResponse, error, session_created, channel_routed,
  channel_outbound_batch,
}
use liveclaw.Gateway.State.{
  AppState, ConnectionState, World, Linked, Moment, Sender, ChannelRouteKey, route_Key, failure,
  auth_required_error,
}
use liveclaw.Gateway.Handler.{
  Action, ◌>>=◌, ◌>>◌, pure, stop, read_app, read_conn, change_app, change_conn, call, or_stop,
  unless_stop, choose, require,
}
use liveclaw.Gateway.Access.{authorize_session_access}
use liveclaw.Gateway.Sessions.{handle_create_session_internal}

abbrev pub supported_channels_message : String
supported_channels_message =
    "Supported channels are telegram, slack, webhook, discord, matrix, and teams"

abbrev pub known_channel : String → Option String
known_channel name =
    if str_eq name "telegram"
    then some "telegram"
    else if str_eq name "slack"
    then some "slack"
    else if str_eq name "webhook"
    then some "webhook"
    else if str_eq name "discord"
    then some "discord"
    else if str_eq name "matrix"
    then some "matrix"
    else if str_eq name "teams"
    then some "teams"
    else none

unfoldable pub normalize_channel : String → Option String
normalize_channel channel = known_channel (to_ascii_lowercase (trim channel))

unfoldable pub normalize_channel_component : String → Option String
normalize_channel_component value =
    let trimmed = trim value in if is_empty trimmed then none else some trimmed

-- `clamp(1, 500)`
unfoldable pub bounded_max_items : Option ℕ → ℕ
bounded_max_items value = max 1 (min (unwrap_or value 50) 500)

pub record ChannelInboundRequest : Type 0 where
  pub channel : String
  pub account_id : String
  pub external_user_id : String
  pub text : String
  pub create_response : Bool
  pub session_config_on_create : Option SessionConfig
  pub force_session_recreate : Bool

abbrev pub account_missing : {J : Type 0} → GatewayResponse J
account_missing = error "invalid_channel_route" "account_id is required"

abbrev pub user_missing : {J : Type 0} → GatewayResponse J
user_missing = error "invalid_channel_route" "external_user_id is required"

abbrev pub text_missing : {J : Type 0} → GatewayResponse J
text_missing = error "invalid_channel_message" "text is empty"

module _ {S J : Type 0} where
  -- The three components of a route, or the response that refuses them.
  unfoldable pub route_key :
      (principal_id channel account_id external_user_id : String) → Action S J ChannelRouteKey
  route_key principal_id channel account_id external_user_id = do
    channel ←
        or_stop (normalize_channel channel) (error "invalid_channel" supported_channels_message)
    account_id ← or_stop (normalize_channel_component account_id) account_missing
    external_user_id ← or_stop (normalize_channel_component external_user_id) user_missing
    pure (record {
      principal_id = principal_id;
      channel = channel;
      account_id = account_id;
      external_user_id = external_user_id;
    })

  -- The queue of a route after its first `n` items were taken; an empty queue goes.
  unfoldable pub drop_items : ChannelRouteKey → ℕ → AppState S J → AppState S J
  drop_items key n app = elim (get key app.channel_outbox) [
    | none ↦ app
    | some queue ↦
        let left = drop n queue in
        record app {
          channel_outbox =
              if is_empty_list left
              then remove key app.channel_outbox
              else insert key left app.channel_outbox;
        }
  ]

  unfoldable pub drain_channel_outbox :
      (principal_id channel account_id external_user_id : String)
      → Option ℕ
      → Action S J (ChannelRouteKey × List ChannelOutboundItem)
  drain_channel_outbox principal_id channel account_id external_user_id max_items = do
    key ← route_key principal_id channel account_id external_user_id
    let take_n = bounded_max_items max_items
    app ← read_app
    let queue = unwrap_or (get key app.channel_outbox) []
    let split = min take_n (length queue)
    change_app (drop_items key split)
    pure (key, take split queue)

  unfoldable pub handle_get_channel_outbound :
      (channel account_id external_user_id : String) → Option ℕ → Action S J (GatewayResponse J)
  handle_get_channel_outbound channel account_id external_user_id max_items = do
    conn ← read_conn
    principal_id ← or_stop conn.principal_id auth_required_error
    (key, items) ← drain_channel_outbox principal_id channel account_id external_user_id max_items
    pure (channel_outbound_batch key.channel key.account_id key.external_user_id items)

  -- `match handle_create_session_internal(..) { SessionCreated { session_id } => .., other => return }`
  abbrev pub created_or_stop : GatewayResponse J → Action S J String
  created_or_stop (session_created session_id) = pure session_id
  created_or_stop other = stop other

  -- The entries of a session that `force_session_recreate` replaces.
  unfoldable pub replace_session : ChannelRouteKey → String → AppState S J → AppState S J
  replace_session key existing app = record app {
    channel_routes = remove key app.channel_routes;
    session_channel_routes = remove existing app.session_channel_routes;
    channel_outbox = remove key app.channel_outbox;
    ws_response_senders = remove existing app.ws_response_senders;
    ws_priority_senders = remove existing app.ws_priority_senders;
    audio_senders = remove existing app.audio_senders;
    session_owners = remove existing app.session_owners;
  }

module _ {S J : Type 0} (env : Linked S J) (m : Moment) where
  unfoldable pub force_recreate : ChannelRouteKey → Option String → Action S J (Unit {0})
  force_recreate key none = pure tt
  force_recreate key (some existing) = do
    change_app (replace_session key existing)
    _ ← call (env.runner.terminate_session existing)
    pure tt

  -- A new session for the route.
  unfoldable pub create_for_route :
      ChannelRouteKey
      → Option SessionConfig
      → (ws_tx ws_priority_tx : Option Sender) → Action S J String
  create_for_route key config ws_tx ws_priority_tx = do
    resp ← handle_create_session_internal env m config ws_tx ws_priority_tx
    created ← created_or_stop resp
    change_app (λ app. record app { channel_routes = insert key created app.channel_routes })
    pure created

  -- The session that the route leads to: the mapped one if it is still registered, else a new one.
  unfoldable pub session_for_route :
      ChannelRouteKey
      → Option String
      → Option SessionConfig
      → (ws_tx ws_priority_tx : Option Sender) → Action S J String
  session_for_route key none config ws_tx ws_priority_tx =
      create_for_route key config ws_tx ws_priority_tx
  session_for_route key (some existing) config ws_tx ws_priority_tx = do
    app ← read_app
    choose (contains_key existing app.session_owners) (pure existing) (do
      change_app (λ app. record app {
        channel_routes = remove key app.channel_routes;
        session_channel_routes = remove existing app.session_channel_routes;
      })
      create_for_route key config ws_tx ws_priority_tx)

  -- From the session on: the reverse entry, authorisation, and the calls of the runner.
  unfoldable pub deliver :
      ChannelRouteKey
      → (session_id text : String) → (create_response : Bool)
      → (ws_tx ws_priority_tx : Option Sender) → Action S J (GatewayResponse J)
  deliver key session_id text create_response ws_tx ws_priority_tx = do
    change_app (λ app. record app {
      session_channel_routes = insert session_id key app.session_channel_routes;
    })
    authorize_session_access session_id ws_tx ws_priority_tx
    require (env.runner.send_text session_id text) "channel_inbound_failed"
        "Failed to forward channel message: "
    choose create_response
        (require (env.runner.create_response session_id) "channel_response_failed"
          "Channel message routed, but response creation failed: ")
        (pure tt)
    pure (channel_routed key.channel key.account_id key.external_user_id session_id)

  -- The rest of the handler once the message is checked: `key` and `text` are what was given, trimmed.
  unfoldable pub route_inbound :
      ChannelInboundRequest
      → ChannelRouteKey
      → (text : String) → (ws_tx ws_priority_tx : Option Sender) → Action S J (GatewayResponse J)
  route_inbound request key text ws_tx ws_priority_tx = do
    app ← read_app
    let mapped = get key app.channel_routes
    choose request.force_session_recreate (force_recreate key mapped) (pure tt)
    session_id ←
        session_for_route key (if request.force_session_recreate then none else mapped)
          request.session_config_on_create ws_tx ws_priority_tx
    deliver key session_id text request.create_response ws_tx ws_priority_tx

  unfoldable pub handle_channel_inbound :
      ChannelInboundRequest
      → (ws_tx ws_priority_tx : Option Sender) → Action S J (GatewayResponse J)
  handle_channel_inbound request ws_tx ws_priority_tx = do
    conn ← read_conn
    principal_id ← or_stop conn.principal_id auth_required_error
    key ← route_key principal_id request.channel request.account_id request.external_user_id
    text ← or_stop (normalize_channel_component request.text) text_missing
    route_inbound request key text ws_tx ws_priority_tx

-- `SessionTranscriptOutput`
pub record SessionTranscriptOutput : Type 0 where
  pub session_id : String
  pub text : String
  pub is_final : Bool

abbrev pub outbound_item : Moment → SessionTranscriptOutput → ChannelOutboundItem
outbound_item m output = record {
  id = m.uuid;
  session_id = output.session_id;
  text = trim output.text;
  created_at_unix_ms = m.unix_ms;
}

-- `entry(key).or_default().push(item)`
abbrev pub push_item :
    ChannelRouteKey
    → ChannelOutboundItem
    → Map ChannelRouteKey (List ChannelOutboundItem)
    → Map ChannelRouteKey (List ChannelOutboundItem)
push_item key item outbox = insert key (unwrap_or (get key outbox) [] ++ item ∷ []) outbox

unfoldable pub queue_channel_outbound_transcript :
    {S J : Type 0} → Moment → SessionTranscriptOutput → AppState S J → AppState S J
queue_channel_outbound_transcript m output app =
    if output.is_final
    then (if is_empty (trim output.text)
        then app
        else elim (get output.session_id app.session_channel_routes) [
          | none ↦ app
          | some key ↦ record app {
            channel_outbox = push_item key (outbound_item m output) app.channel_outbox;
          }
        ])
    else app
