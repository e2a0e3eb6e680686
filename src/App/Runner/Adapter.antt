-- ===== src/App/Runner/Adapter.antt =====
-- The operations of `RunnerAdapter` on a session that is there, liveclaw-app/src/main.rs, its
-- diagnostics, and the whole adapter as the gateway's `RunnerHandle`. Its `base64_encode` is the same
-- function as the gateway's.
use Prim.Native.String
use liveclaw.Prelude.{ℕ, List, String, ok, string_Key, if◌then◌else◌}
use liveclaw.Prelude.Lists as lists
use liveclaw.Prelude.Map.{get}
use liveclaw.Text.{trim, is_empty}
use liveclaw.Gateway.Protocol.{
  GraphExecutionReport, RuntimeDiagnostics, supported_client_message_types,
  supported_server_response_types, protocol_version,
}
use liveclaw.Gateway.State.{RunnerHandle}
use liveclaw.Gateway.Base64.{base64_encode}
use liveclaw.App.Config.{RuntimeKind, native, docker}
use liveclaw.App.Provider.{ProviderKind, open_ai, open_ai_compatible}
use liveclaw.App.Operation.{Operation, ◌>>=◌, ◌>>◌, pure, bail_if, read, or_bail}
use liveclaw.App.Runner.{RunnerAdapter, RealtimeSession, AdapterState, Outside}
use liveclaw.App.Runner.Sessions.{outside, create_session, terminate_session}
use liveclaw.App.Runner.ToolGraph.{JsonValues, GraphEngine}
use liveclaw.App.Runner.ToolCall.{execute_session_tool_call_graph, execute_session_tool_call_direct}

abbrev pub provider_kind_label : ProviderKind → String
provider_kind_label open_ai = "openai"
provider_kind_label open_ai_compatible = "openai_compatible"

abbrev pub runtime_kind_label : RuntimeKind → String
runtime_kind_label native = "native"
runtime_kind_label docker = "docker"

module _ {W H T J : Type 0} (env : Outside W H T J) (adapter : RunnerAdapter) where
  -- The session at an identifier, or the error that it is not there.
  abbrev pub find_session :
      (session_id : String) → Operation (AdapterState W H T) (RealtimeSession H T)
  find_session session_id = do
    s ← read
    or_bail (get session_id s.sessions)
        (String.◌++◌ "Session '" (String.◌++◌ session_id "' not found"))

  unfoldable pub runtime_for_session : (session_id : String) → Operation (AdapterState W H T) H
  runtime_for_session session_id = do session ← find_session session_id; pure session.runtime

  -- A call of the runtime of a session.
  abbrev pub with_runtime :
      (H → Operation W (Unit {0}))
      → (session_id : String) → Operation (AdapterState W H T) (Unit {0})
  with_runtime op session_id = do
    runtime ← runtime_for_session session_id
    outside env adapter (op runtime)

  unfoldable pub send_audio :
      (session_id : String) → List ℕ → Operation (AdapterState W H T) (Unit {0})
  unfolding runtime_for_session
  send_audio session_id audio = do
    bail_if (lists.is_empty audio) "Audio payload is empty"
    with_runtime (λ h. env.send_audio_base64 h (base64_encode audio)) session_id

  unfoldable pub send_text :
      (session_id prompt : String) → Operation (AdapterState W H T) (Unit {0})
  unfolding runtime_for_session
  send_text session_id prompt = do
    bail_if (is_empty (trim prompt)) "Prompt is empty"
    with_runtime (λ h. env.send_text h (trim prompt)) session_id

  unfoldable pub session_tool_call :
      JsonValues J
      → GraphEngine W J
      → (session_id tool_name : String) → J
      → Operation (AdapterState W H T) (J × GraphExecutionReport J)
  session_tool_call json engine session_id tool_name arguments = do
    session ← find_session session_id
    outside env adapter (
        if session.graph_enabled
        then execute_session_tool_call_graph env json session.tools engine session_id
            session.user_id session.role tool_name arguments session.graph_recursion_limit
        else execute_session_tool_call_direct env json session.tools session_id session.user_id
            tool_name arguments)

  unfoldable pub diagnostics : AdapterState W H T → RuntimeDiagnostics
  diagnostics s = record {
    protocol_version = protocol_version;
    supported_client_messages = supported_client_message_types;
    supported_server_responses = supported_server_response_types;
    runtime_kind = runtime_kind_label adapter.runtime_kind;
    provider_profile = adapter.provider.profile_name;
    provider_kind = provider_kind_label adapter.provider.kind;
    provider_model = adapter.provider.default_model;
    provider_base_url = adapter.provider.base_url;
    reconnect_enabled = adapter.reconnect_policy.enable_reconnect;
    reconnect_max_attempts = adapter.reconnect_policy.max_attempts;
    reconnect_attempts_total = s.counters.reconnects.reconnect_attempts_total;
    reconnect_successes_total = s.counters.reconnects.reconnect_successes_total;
    reconnect_failures_total = s.counters.reconnects.reconnect_failures_total;
    compaction_enabled = adapter.memory_compaction_policy.enabled;
    compaction_max_events_threshold = adapter.memory_compaction_policy.max_events_threshold;
    compactions_applied_total = s.counters.compactions_applied_total;
    security_workspace_root = adapter.tool_security.workspace_root;
    security_forbidden_tool_paths = adapter.tool_security.forbidden_tool_paths;
    security_deny_by_default_principal_allowlist =
        adapter.tool_security.deny_by_default_principal_allowlist;
    security_principal_allowlist_size = lists.length adapter.tool_security.principal_allowlist;
    security_allow_public_bind = adapter.tool_security.allow_public_bind;
    active_sessions = lists.length s.sessions;
  }

  -- `impl RunnerHandle for RunnerAdapter`.
  abbrev pub runner_handle : JsonValues J → GraphEngine W J → RunnerHandle (AdapterState W H T) J
  runner_handle json engine = record {
    create_session = create_session env adapter;
    terminate_session = terminate_session env adapter;
    send_audio = send_audio;
    commit_audio = with_runtime env.commit_audio;
    create_response = with_runtime env.create_response;
    interrupt_response = with_runtime env.interrupt_response;
    send_text = send_text;
    session_tool_call = session_tool_call json engine;
    diagnostics = λ s. (ok (diagnostics s), s);
  }
