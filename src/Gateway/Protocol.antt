-- ===== src/Gateway/Protocol.antt =====
-- liveclaw-gateway/src/protocol.rs: the messages, the responses and the data that they carry. A
-- value of `serde_json`, which the program passes on, is of the parameter type `J`.
use liveclaw.Prelude.{ℕ, Bool, Option, List, [], ◌∷◌, String}

abbrev pub protocol_version : String
protocol_version = "2026-02-20"

pub record SessionConfig : Type 0 where
  pub model : Option String
  pub voice : Option String
  pub instructions : Option String
  pub role : Option String
  pub enable_graph : Option Bool

pub data GatewayMessage (J : Type 0) : Type 0 where
  pair : (code : String) → GatewayMessage J
  authenticate : (token : String) → GatewayMessage J
  create_session : Option SessionConfig → GatewayMessage J
  terminate_session : (session_id : String) → GatewayMessage J
  session_audio : (session_id audio : String) → GatewayMessage J
  session_audio_commit : (session_id : String) → GatewayMessage J
  session_response_create : (session_id : String) → GatewayMessage J
  session_response_interrupt : (session_id : String) → GatewayMessage J
  session_prompt : (session_id prompt : String) → Option Bool → GatewayMessage J
  channel_inbound :
      (channel account_id external_user_id text : String) → Option Bool → GatewayMessage J
  get_channel_outbound :
      (channel account_id external_user_id : String) → Option ℕ → GatewayMessage J
  create_channel_job :
      (channel account_id external_user_id text : String)
      → (interval_seconds : ℕ) → Option Bool
      → GatewayMessage J
  cancel_channel_job : (job_id : String) → GatewayMessage J
  list_channel_jobs : GatewayMessage J
  session_tool_call : (session_id tool_name : String) → J → GatewayMessage J
  priority_probe : GatewayMessage J
  get_gateway_health : GatewayMessage J
  get_diagnostics : GatewayMessage J
  ping : GatewayMessage J

pub record ChannelOutboundItem : Type 0 where
  pub id : String
  pub session_id : String
  pub text : String
  pub created_at_unix_ms : ℕ

pub record ChannelJob : Type 0 where
  pub job_id : String
  pub channel : String
  pub account_id : String
  pub external_user_id : String
  pub text : String
  pub interval_seconds : ℕ
  pub create_response : Bool
  pub created_at_unix_ms : ℕ

pub record GraphExecutionEvent : Type 0 where
  pub step : ℕ
  pub node : String
  pub action : String
  pub detail : String

pub record GraphExecutionReport (J : Type 0) : Type 0 where
  pub thread_id : String
  pub completed : Bool
  pub interrupted : Bool
  pub events : List GraphExecutionEvent
  pub final_state : J

pub record RuntimeDiagnostics : Type 0 where
  pub protocol_version : String
  pub supported_client_messages : List String
  pub supported_server_responses : List String
  pub runtime_kind : String
  pub provider_profile : String
  pub provider_kind : String
  pub provider_model : String
  pub provider_base_url : Option String
  pub reconnect_enabled : Bool
  pub reconnect_max_attempts : ℕ
  pub reconnect_attempts_total : ℕ
  pub reconnect_successes_total : ℕ
  pub reconnect_failures_total : ℕ
  pub compaction_enabled : Bool
  pub compaction_max_events_threshold : ℕ
  pub compactions_applied_total : ℕ
  pub security_workspace_root : String
  pub security_forbidden_tool_paths : List String
  pub security_deny_by_default_principal_allowlist : Bool
  pub security_principal_allowlist_size : ℕ
  pub security_allow_public_bind : Bool
  pub active_sessions : ℕ

pub record GatewayHealth : Type 0 where
  pub protocol_version : String
  pub uptime_seconds : ℕ
  pub require_pairing : Bool
  pub active_sessions : ℕ
  pub active_ws_bindings : ℕ
  pub active_priority_bindings : ℕ
  pub active_channel_jobs : ℕ

pub record PriorityNotice : Type 0 where
  pub level : String
  pub code : String
  pub message : String
  pub session_id : Option String

pub data GatewayResponse (J : Type 0) : Type 0 where
  pair_success : (token : String) → GatewayResponse J
  authenticated : (principal_id : String) → GatewayResponse J
  pair_failure : (reason : String) → GatewayResponse J
  session_created : (session_id : String) → GatewayResponse J
  session_terminated : (session_id : String) → GatewayResponse J
  audio_accepted : (session_id : String) → GatewayResponse J
  audio_committed : (session_id : String) → GatewayResponse J
  response_create_accepted : (session_id : String) → GatewayResponse J
  response_interrupt_accepted : (session_id : String) → GatewayResponse J
  prompt_accepted : (session_id : String) → GatewayResponse J
  channel_routed : (channel account_id external_user_id session_id : String) → GatewayResponse J
  channel_outbound_batch :
      (channel account_id external_user_id : String) → List ChannelOutboundItem → GatewayResponse J
  channel_job_created : ChannelJob → GatewayResponse J
  channel_job_canceled : (job_id : String) → GatewayResponse J
  channel_jobs : List ChannelJob → GatewayResponse J
  session_tool_result :
      (session_id tool_name : String) → J → GraphExecutionReport J → GatewayResponse J
  audio_output : (session_id audio : String) → GatewayResponse J
  transcript_update : (session_id text : String) → (is_final : Bool) → GatewayResponse J
  priority_probe_accepted : (queued_standard queued_priority : Bool) → GatewayResponse J
  priority_notice : PriorityNotice → GatewayResponse J
  gateway_health : GatewayHealth → GatewayResponse J
  diagnostics : RuntimeDiagnostics → GatewayResponse J
  error : (code message : String) → GatewayResponse J
  pong : GatewayResponse J

-- The tags under which `serde` writes the messages, in the order of the list.
unfoldable pub supported_client_message_types : List String
supported_client_message_types =
    "Pair" ∷ "Authenticate" ∷ "CreateSession" ∷ "TerminateSession" ∷ "SessionAudio"
    ∷ "SessionAudioCommit" ∷ "SessionResponseCreate" ∷ "SessionResponseInterrupt" ∷ "SessionPrompt"
    ∷ "ChannelInbound" ∷ "GetChannelOutbound" ∷ "CreateChannelJob" ∷ "CancelChannelJob"
    ∷ "ListChannelJobs" ∷ "SessionToolCall" ∷ "PriorityProbe" ∷ "GetGatewayHealth"
    ∷ "GetDiagnostics" ∷ "Ping" ∷ []

unfoldable pub supported_server_response_types : List String
supported_server_response_types =
    "PairSuccess" ∷ "Authenticated" ∷ "PairFailure" ∷ "SessionCreated" ∷ "SessionTerminated"
    ∷ "AudioAccepted" ∷ "AudioCommitted" ∷ "ResponseCreateAccepted" ∷ "ResponseInterruptAccepted"
    ∷ "PromptAccepted" ∷ "ChannelRouted" ∷ "ChannelOutboundBatch" ∷ "ChannelJobCreated"
    ∷ "ChannelJobCanceled" ∷ "ChannelJobs" ∷ "SessionToolResult" ∷ "AudioOutput"
    ∷ "TranscriptUpdate" ∷ "PriorityProbeAccepted" ∷ "PriorityNotice" ∷ "GatewayHealth"
    ∷ "Diagnostics" ∷ "Error" ∷ "Pong" ∷ []
