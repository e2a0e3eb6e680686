-- ===== src/Gateway/State.antt =====
-- The state of the server, liveclaw-gateway/src/server.rs: `AppState` behind its locks, the state
-- of one connection, and what the server calls. A lock is held within one handler step, so the
-- maps are plain values. A channel sender is the number of its channel; what is sent is kept in
-- `sent`, newest last.
use Prim.Native.String
use liveclaw.Prelude.{
  ℕ, ◌≡◌, ◌↔◌, Bool, true, false, ◌&&◌, Option, none, List, [], String, Result, str_eq, eq_iff, Key,
  arith, ap,
}
use liveclaw.Prelude.Map.{Map}
use liveclaw.Gateway.Protocol.{
  SessionConfig, GatewayResponse, error, GraphExecutionReport, RuntimeDiagnostics, ChannelJob,
  ChannelOutboundItem,
}
use liveclaw.Gateway.Pairing.{PairingGuard}

abbrev pub Sender : Type 0
Sender = ℕ

-- The trait `RunnerHandle` with a state `S` of the runner: an operation answers and returns the
-- runner's next state. An error is its text.
pub record RunnerHandle (S J : Type 0) : Type 0 where
  pub create_session :
      (principal_id session_id : String) → Option SessionConfig → S → Result String String × S
  pub terminate_session : (session_id : String) → S → Result (Unit {0}) String × S
  pub send_audio : (session_id : String) → List ℕ → S → Result (Unit {0}) String × S
  pub commit_audio : (session_id : String) → S → Result (Unit {0}) String × S
  pub create_response : (session_id : String) → S → Result (Unit {0}) String × S
  pub interrupt_response : (session_id : String) → S → Result (Unit {0}) String × S
  pub send_text : (session_id prompt : String) → S → Result (Unit {0}) String × S
  pub session_tool_call :
      (session_id tool_name : String) → J → S → Result (J × GraphExecutionReport J) String × S
  pub diagnostics : S → Result RuntimeDiagnostics String × S

-- What the server does with values of `serde_json`: `Value::get`, `as_str`, `as_bool`, and the
-- literal `json!({"path": …, "max_bytes": …})`.
pub record JsonApi (J : Type 0) : Type 0 where
  pub get_field : J → String → Option J
  pub as_str : J → Option String
  pub as_bool : J → Option Bool
  pub read_arguments : (path : String) → (max_bytes : ℕ) → J

-- What the server links against: the runner, `serde_json` and the digest of `sha2`.
pub record Linked (S J : Type 0) : Type 0 where
  pub runner : RunnerHandle S J
  pub json : JsonApi J
  pub sha256 : String → List ℕ

-- What the surroundings answer while one message is handled: two readings of the monotonic clock,
-- the Unix time, the UUIDs that are generated, and which channels still have a receiver.
pub record Moment : Type 0 where
  pub now : ℕ
  pub later : ℕ
  pub unix_ms : ℕ
  pub uuid : String
  pub is_open : Sender → Bool

pub record ChannelRouteKey : Type 0 where
  pub principal_id : String
  pub channel : String
  pub account_id : String
  pub external_user_id : String

abbrev pub same_key : ChannelRouteKey → ChannelRouteKey → Bool
same_key a b =
    str_eq a.principal_id b.principal_id
    && str_eq a.channel b.channel
    && str_eq a.account_id b.account_id
    && str_eq a.external_user_id b.external_user_id

pub same_key_iff : (a b : ChannelRouteKey) → (same_key a b ≡ true) ↔ (a ≡ b)
same_key_iff a b = (
  λ h. ground (
    arith,
    eq_iff a.principal_id b.principal_id,
    eq_iff a.channel b.channel,
    eq_iff a.account_id b.account_id,
    eq_iff a.external_user_id b.external_user_id,
  ),
  λ e. ground (
    arith,
    eq_iff a.principal_id b.principal_id,
    eq_iff a.channel b.channel,
    eq_iff a.account_id b.account_id,
    eq_iff a.external_user_id b.external_user_id,
    ap (λ (k : ChannelRouteKey). k.principal_id) e,
    ap (λ (k : ChannelRouteKey). k.channel) e,
    ap (λ (k : ChannelRouteKey). k.account_id) e,
    ap (λ (k : ChannelRouteKey). k.external_user_id) e,
  ),
)

instance abbrev pub route_Key : Key ChannelRouteKey
route_Key = record { equals = same_key; equals_iff = same_key_iff }

pub record ChannelJobRuntime : Type 0 where
  pub owner_principal_id : String
  pub job : ChannelJob
  pub cancel_tx : Bool

-- A spawned task that runs `run_channel_job`, and whether it was sent the cancel signal.
pub record JobTask : Type 0 where
  pub job : ChannelJob
  pub owner_principal_id : String
  pub cancelled : Bool

pub record AppState (S J : Type 0) : Type 0 where
  pub pairing : PairingGuard
  pub runner_state : S
  pub started_at : ℕ
  pub audio_senders : Map String Sender
  pub session_owners : Map String String
  pub ws_response_senders : Map String Sender
  pub ws_priority_senders : Map String Sender
  pub channel_routes : Map ChannelRouteKey String
  pub session_channel_routes : Map String ChannelRouteKey
  pub channel_outbox : Map ChannelRouteKey (List ChannelOutboundItem)
  pub channel_jobs : Map String ChannelJobRuntime
  pub tasks : List JobTask
  pub sent : List (Sender × GatewayResponse J)

pub record ConnectionState : Type 0 where
  pub authenticated : Bool
  pub token : Option String
  pub principal_id : Option String
  pub owned_sessions : List String

abbrev pub new_connection : ConnectionState
new_connection = record {
  authenticated = false;
  token = none;
  principal_id = none;
  owned_sessions = [];
}

-- What a handler may change: the server's state and its connection's.
pub record World (S J : Type 0) : Type 0 where
  pub app : AppState S J
  pub conn : ConnectionState

unfoldable pub auth_required_error : {J : Type 0} → GatewayResponse J
auth_required_error =
    error "auth_required" "Authentication required. Send Pair or Authenticate first."

-- `format!("…{}", e)`
abbrev pub failure : {J : Type 0} → String → String → String → GatewayResponse J
failure code text e = error code (String.◌++◌ text e)
