-- ===== src/Gateway/Http/Payloads.antt =====
-- What the HTTP routes of liveclaw-gateway/src/server.rs take and give: the parsed bodies, the query,
-- the token, and the response as a status with the fields of its JSON body.
use Prim.Native.String
use liveclaw.Prelude.{
  ℕ, suc, Bool, Option, none, some, List, String, str_eq, nat_eq, code, if◌then◌else◌,
}
use liveclaw.Prelude.Int.{ℤ, pos, negsuc}
use liveclaw.Text.{trim, is_empty, show}
use liveclaw.Gateway.Protocol.{
  ChannelJob, ChannelOutboundItem, GraphExecutionReport, GatewayResponse, error, channel_routed,
  channel_outbound_batch, channel_job_created, channel_job_canceled, channel_jobs,
}

pub record ChannelIngressQuery : Type 0 where
  pub token : Option String
  pub create_response : Option Bool

pub record WebhookInboundPayload : Type 0 where
  pub channel : Option String
  pub account_id : String
  pub external_user_id : String
  pub text : String
  pub create_response : Option Bool

pub record ChannelOutboundPollPayload : Type 0 where
  pub channel : String
  pub account_id : String
  pub external_user_id : String
  pub max_items : Option ℕ

pub record ChannelJobCreatePayload : Type 0 where
  pub channel : String
  pub account_id : String
  pub external_user_id : String
  pub text : String
  pub interval_seconds : ℕ
  pub create_response : Option Bool

pub record WebhookSupervisedActionPayload (J : Type 0) : Type 0 where
  pub channel : Option String
  pub account_id : String
  pub external_user_id : String
  pub text : Option String
  pub tool_name : String
  pub arguments : J
  pub create_response : Option Bool
  pub force_session_recreate : Option Bool

pub record SlackEvent : Type 0 where
  pub event_type : Option String
  pub user : Option String
  pub text : Option String
  pub bot_id : Option String

pub record SlackEnvelope : Type 0 where
  pub envelope_type : Option String
  pub challenge : Option String
  pub team_id : Option String
  pub event : Option SlackEvent

-- A chat and a user of Telegram are their `id`, an `i64`.
pub record TelegramMessage : Type 0 where
  pub text : Option String
  pub chat : Option ℤ
  pub sender : Option ℤ

pub record TelegramUpdate : Type 0 where
  pub message : Option TelegramMessage
  pub edited_message : Option TelegramMessage
  pub channel_post : Option TelegramMessage

pub record DiscordAuthor : Type 0 where
  pub id : Option String
  pub bot : Option Bool

pub record DiscordMessageEvent : Type 0 where
  pub event_type : Option String
  pub guild_id : Option String
  pub channel_id : Option String
  pub author : Option DiscordAuthor
  pub content : Option String

pub record MatrixEventContent : Type 0 where
  pub msgtype : Option String
  pub body : Option String

pub record MatrixEventPayload : Type 0 where
  pub event_type : Option String
  pub room_id : Option String
  pub sender : Option String
  pub content : Option MatrixEventContent

-- A conversation and a user of Teams are their `id`.
pub record TeamsActivityEvent : Type 0 where
  pub activity_type : Option String
  pub conversation : Option (Option String)
  pub sender : Option (Option String)
  pub text : Option String

pub data StatusCode : Type 0 where
  ok_200 accepted_202 bad_request_400 unauthorized_401 forbidden_403 not_found_404
        internal_server_error_500 :
      StatusCode

-- The JSON bodies that the routes write.
pub data HttpBody (J : Type 0) : Type 0 where
  challenge_body : String → HttpBody J
  ignored_body : (reason : String) → HttpBody J
  error_body : (code message : String) → HttpBody J
  channel_routed_body : (channel account_id external_user_id session_id : String) → HttpBody J
  channel_outbound_batch_body :
      (channel account_id external_user_id : String) → List ChannelOutboundItem → HttpBody J
  channel_job_created_body : ChannelJob → HttpBody J
  channel_job_canceled_body : String → HttpBody J
  channel_jobs_body : List ChannelJob → HttpBody J
  unexpected_response_body : GatewayResponse J → HttpBody J
  supervised_action_body :
      (channel account_id external_user_id session_id tool_name : String)
      → J
      → GraphExecutionReport J
      → HttpBody J

abbrev pub HttpResponse : Type 0 → Type 0
HttpResponse J = StatusCode × HttpBody J

unfoldable pub http_json_error :
    {J : Type 0} → StatusCode → (code message : String) → HttpResponse J
http_json_error status code message = (status, error_body code message)

-- `(ACCEPTED, {"status": "ignored", "reason": …})`
abbrev pub ignored : {J : Type 0} → String → HttpResponse J
ignored reason = (accepted_202, ignored_body reason)

-- The status of an error code.
unfoldable pub error_status : String → StatusCode
error_status code =
    if str_eq code "auth_required"
    then unauthorized_401
    else if str_eq code "invalid_token"
    then unauthorized_401
    else if str_eq code "invalid_channel"
    then bad_request_400
    else if str_eq code "invalid_channel_route"
    then bad_request_400
    else if str_eq code "invalid_channel_message"
    then bad_request_400
    else if str_eq code "invalid_channel_job"
    then bad_request_400
    else if str_eq code "forbidden_channel_job"
    then forbidden_403
    else if str_eq code "channel_job_not_found"
    then not_found_404
    else internal_server_error_500

unfoldable pub http_response_from_gateway : {J : Type 0} → GatewayResponse J → HttpResponse J
unfolding error_status http_json_error
http_response_from_gateway (error code message) = http_json_error (error_status code) code message
http_response_from_gateway (channel_routed channel account_id external_user_id session_id) =
    (ok_200, channel_routed_body channel account_id external_user_id session_id)
http_response_from_gateway (channel_outbound_batch channel account_id external_user_id items) =
    (ok_200, channel_outbound_batch_body channel account_id external_user_id items)
http_response_from_gateway (channel_job_created job) = (ok_200, channel_job_created_body job)
http_response_from_gateway (channel_job_canceled job_id) =
    (ok_200, channel_job_canceled_body job_id)
http_response_from_gateway (channel_jobs jobs) = (ok_200, channel_jobs_body jobs)
http_response_from_gateway other = (ok_200, unexpected_response_body other)

-- `str::strip_prefix`.
unfoldable pub strip_prefix : String → String → Option String
strip_prefix String.[] s = some s
strip_prefix (String.◌∷◌ d p) String.[] = none
strip_prefix (String.◌∷◌ d p) (String.◌∷◌ c s) =
    let rest = strip_prefix p s in if nat_eq (code c) (code d) then rest else none

-- `.map(trim).filter(|v| !v.is_empty())`
abbrev pub trimmed_token : Option String → Option String
trimmed_token none = none
trimmed_token (some raw) = if is_empty (trim raw) then none else some (trim raw)

abbrev pub or_else {ℓ} : {A : Type ℓ} → Option A → Option A → Option A
or_else none other = other
or_else (some a) other = some a

-- `authorization` is the header's value, if there is one that is a text.
unfoldable pub extract_channel_token :
    (authorization : Option String) → ChannelIngressQuery → Option String
extract_channel_token authorization query =
    let from_header = trimmed_token (elim authorization [
      | none ↦ none
      | some raw ↦ or_else (strip_prefix "Bearer " raw) (strip_prefix "bearer " raw)
    ]) in
    or_else from_header (trimmed_token query.token)

-- `i64::to_string`.
unfoldable pub show_int : ℤ → String
show_int (pos n) = show n
show_int (negsuc n) = String.◌++◌ "-" (show (suc n))
