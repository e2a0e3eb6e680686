-- ===== src/App/Runner.antt =====
-- `RunnerAdapter` of liveclaw-app/src/main.rs, which implements the gateway's trait `RunnerHandle`:
-- what it is configured with, the state that it keeps, and what it calls. A session's event loop is a
-- task, which the session names by its number; its shutdown flag is shared with the session. What
-- other crates do is a parameter, with a state `W` of the surroundings; `H` are the runtimes, `T`
-- the tools behind the authorization of adk-auth, `J` the values of `serde_json`.
pub mod Settings
pub mod ToolGraph
pub mod ToolCall
pub mod Sessions
pub mod Adapter
pub mod Effects
pub mod Ending
pub mod Registry
pub mod Calls
pub mod Refinement
pub mod Poll
pub mod Tasks
pub mod Loops
pub mod Supervised
pub mod Invariant
use liveclaw.Prelude.{ℕ, max, Bool, Option, List, String, Result}
use liveclaw.Prelude.Map.{Map}
use liveclaw.App.Config.{SecurityConfig, RuntimeKind}
use liveclaw.App.Provider.{ProviderSelection}
use liveclaw.App.Compaction.{MemoryEntry}
use liveclaw.App.Reconnect.{ReconnectPolicy, RuntimeCounters}
use liveclaw.App.Operation.{Operation}
use liveclaw.App.Lifecycle.{SessionService, Tracking}

pub record ToolSecurityConfig : Type 0 where
  pub default_role : String
  pub tool_allowlist : List String
  pub audit_log_path : String
  pub workspace_root : String
  pub forbidden_tool_paths : List String
  pub principal_allowlist : List String
  pub deny_by_default_principal_allowlist : Bool
  pub allow_public_bind : Bool

-- `ToolSecurityConfig::from`.
abbrev pub tool_security_from : SecurityConfig → ToolSecurityConfig
tool_security_from value = record {
  default_role = value.default_role;
  tool_allowlist = value.tool_allowlist;
  audit_log_path = value.audit_log_path;
  workspace_root = value.workspace_root;
  forbidden_tool_paths = value.forbidden_tool_paths;
  principal_allowlist = value.principal_allowlist;
  deny_by_default_principal_allowlist = value.deny_by_default_principal_allowlist;
  allow_public_bind = value.allow_public_bind;
}

pub record MemoryCompactionPolicy : Type 0 where
  pub enabled : Bool
  pub max_events_threshold : ℕ

-- `RuntimeDiagnosticsCounters`: those of the reconnections, and one more.
pub record DiagnosticsCounters : Type 0 where
  pub reconnects : RuntimeCounters
  pub compactions_applied_total : ℕ

-- The fields that stay as they are; `has_lifecycle` and `has_artifacts` say whether the optional
-- managers are there.
pub record RunnerAdapter : Type 0 where
  pub runtime_kind : RuntimeKind
  pub runtime_docker_image : String
  pub provider : ProviderSelection
  pub default_voice : Option String
  pub default_instructions : Option String
  pub tool_security : ToolSecurityConfig
  pub has_artifacts : Bool
  pub reconnect_policy : ReconnectPolicy
  pub memory_compaction_policy : MemoryCompactionPolicy
  pub has_lifecycle : Bool
  pub graph_default_enabled : Bool
  pub graph_recursion_limit : ℕ

pub record RealtimeSession (H T : Type 0) : Type 0 where
  pub runtime : H
  pub run_task : ℕ
  pub user_id : String
  pub role : String
  pub tools : Map String T
  pub graph_enabled : Bool
  pub graph_recursion_limit : ℕ

-- A task that `spawn_runtime_loop` started: its flag, and whether it was aborted.
pub record RuntimeTask (H : Type 0) : Type 0 where
  pub session_id : String
  pub runtime : H
  pub shutdown : Bool
  pub aborted : Bool

pub record AdapterState (W H T : Type 0) : Type 0 where
  pub sessions : Map String (RealtimeSession H T)
  pub session_memory_entries : Map String (List MemoryEntry)
  pub tracking : Tracking W
  pub counters : DiagnosticsCounters
  pub tasks : List (RuntimeTask H)

-- The roles and the permissions of adk-auth.
pub data Permission : Type 0 where
  tool : String → Permission
  all_tools : Permission

pub record Role : Type 0 where
  pub name : String
  pub permissions : List Permission

pub record AccessControl : Type 0 where
  pub roles : List Role
  pub principal_id : String
  pub role : String

pub record WorkspaceToolPolicy : Type 0 where
  pub workspace_root : String
  pub forbidden_paths : List String
  pub max_read_bytes : ℕ

-- The tools of liveclaw-app/src/tools.rs.
pub data BaselineTool : Type 0 where
  echo_text : BaselineTool
  add_numbers : BaselineTool
  utc_time : BaselineTool
  read_workspace_file : WorkspaceToolPolicy → BaselineTool

pub record DockerRuntimeConfig : Type 0 where
  pub session_id : String
  pub image : String
  pub api_key : String
  pub model : String
  pub voice : String
  pub instructions : Option String
  pub base_url : Option String

-- What `RealtimeRunner::builder()` is given, with the owner of the event handler.
pub record RealtimeSetup (T : Type 0) : Type 0 where
  pub api_key : String
  pub model : String
  pub base_url : Option String
  pub voice : String
  pub instruction : Option String
  pub session_id : String
  pub user_id : String
  pub tools : List T

pub record ToolInvocationContext : Type 0 where
  pub function_call_id : String
  pub user_id : String
  pub session_id : String

pub record Outside (W H T J : Type 0) : Type 0 where
  pub to_lowercase : String → String
  pub now_millis : W → ℕ
  pub service : SessionService W
  -- adk-memory, for the application "liveclaw".
  pub add_session : (user_id session_id : String) → List MemoryEntry → Operation W (Unit {0})
  -- adk-auth: the check of the access control, the file of the audit log, and the wrapped tools.
  pub build_access_control : AccessControl → Result (Unit {0}) String
  pub open_audit_sink : String → Operation W ℕ
  pub protect_all : AccessControl → ℕ → List BaselineTool → List T
  pub tool_name : T → String
  pub execute : T → ToolInvocationContext → J → Operation W J
  -- The runtimes: their construction, and the trait `SessionRuntime`.
  pub build_realtime : RealtimeSetup T → Operation W H
  pub docker_runtime : DockerRuntimeConfig → (user_id : String) → W → H × W
  pub connect : H → Operation W (Unit {0})
  pub close : H → Operation W (Unit {0})
  pub send_audio_base64 : H → String → Operation W (Unit {0})
  pub send_text : H → String → Operation W (Unit {0})
  pub commit_audio : H → Operation W (Unit {0})
  pub create_response : H → Operation W (Unit {0})
  pub interrupt_response : H → Operation W (Unit {0})

-- `RunnerAdapter::new` bounds the recursion.
abbrev pub bounded_adapter : RunnerAdapter → RunnerAdapter
bounded_adapter adapter = record adapter {
  graph_recursion_limit = max adapter.graph_recursion_limit 1;
}
