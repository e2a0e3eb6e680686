-- ===== src/App/Runner/Settings.antt =====
-- The settings of a new session of `RunnerAdapter`: the model, the voice and the instructions, the
-- role, the protected tools and the runtime.
use Prim.Native.String
use liveclaw.Prelude.{
  code, Bool, true, false, ◌&&◌, ◌||◌, Option, none, some, List, [], ◌∷◌, String, Result, ok, err,
  str_eq, ltb, nat_eq, unwrap_or, if◌then◌else◌, map, string_Key,
}
use liveclaw.Prelude.Lists as lists
use liveclaw.Prelude.Map.{Map, insert}
use liveclaw.Text.{trim, is_empty}
use liveclaw.Gateway.Protocol.{SessionConfig}
use liveclaw.App.Config.{RuntimeKind, native, docker}
use liveclaw.App.Provider.{
  ProviderKind, open_ai, open_ai_compatible, non_empty, or_else, default_model,
}
use liveclaw.App.Operation.{Operation, ◌>>=◌, pure, propagate, attempt, map_err}
use liveclaw.App.Runner.{
  RunnerAdapter, ToolSecurityConfig, tool, all_tools, AccessControl, WorkspaceToolPolicy,
  BaselineTool, echo_text, add_numbers, utc_time, read_workspace_file, Outside,
}

-- `cfg.and_then(|c| c.model.clone())` and its like.
abbrev pub setting : (SessionConfig → Option String) → Option SessionConfig → Option String
setting field none = none
setting field (some c) = field c

pub record SessionSettings : Type 0 where
  pub model : String
  pub voice : String
  pub instructions : Option String

unfoldable pub resolve_session_settings : RunnerAdapter → Option SessionConfig → SessionSettings
unfolding non_empty
resolve_session_settings adapter cfg = record {
  model =
      unwrap_or
        (or_else (non_empty (setting (λ c. c.model) cfg))
          (non_empty (some adapter.provider.default_model)))
        default_model;
  voice =
      unwrap_or (or_else (non_empty (setting (λ c. c.voice) cfg)) (non_empty adapter.default_voice))
        "alloy";
  instructions =
      or_else (non_empty (setting (λ c. c.instructions) cfg))
        (non_empty adapter.default_instructions);
}

abbrev pub is_role : String → Bool
is_role role = str_eq role "readonly" || str_eq role "supervised" || str_eq role "full"

unfoldable pub resolve_role :
    (to_lowercase : String → String) → RunnerAdapter → Option SessionConfig → Result String String
unfolding non_empty
resolve_role to_lowercase adapter cfg =
    let role =
      to_lowercase
        (unwrap_or (non_empty (setting (λ c. c.role) cfg)) adapter.tool_security.default_role) in
    if is_role role
    then ok role
    else err (
        String.◌++◌ "Unsupported role '"
          (String.◌++◌ role "'. Expected one of: readonly, supervised, full."))

unfoldable pub session_access_control :
    ToolSecurityConfig → (principal_id role : String) → AccessControl
session_access_control security principal_id role = record {
  roles =
      record { name = "readonly"; permissions = [] }
      ∷ record { name = "supervised"; permissions = map tool security.tool_allowlist }
      ∷ record { name = "full"; permissions = all_tools ∷ [] }
      ∷ [];
  principal_id = principal_id;
  role = role;
}

abbrev pub build_baseline_tools_with_workspace : WorkspaceToolPolicy → List BaselineTool
build_baseline_tools_with_workspace policy =
    echo_text ∷ add_numbers ∷ utc_time ∷ read_workspace_file policy ∷ []

abbrev pub workspace_policy : ToolSecurityConfig → WorkspaceToolPolicy
workspace_policy security = record {
  workspace_root = security.workspace_root;
  forbidden_paths = security.forbidden_tool_paths;
  max_read_bytes = 16384;
}

-- The order of texts by their characters, which is that of their bytes, and `sort`.
abbrev pub str_leb : String → String → Bool
str_leb String.[] t = true
str_leb (String.◌∷◌ c s) String.[] = false
str_leb (String.◌∷◌ c s) (String.◌∷◌ d t) =
    ltb (code c) (code d) || (nat_eq (code c) (code d) && str_leb s t)

abbrev pub insert_sorted : String → List String → List String
insert_sorted s [] = s ∷ []
insert_sorted s (t ∷ ts) = if str_leb s t then s ∷ t ∷ ts else t ∷ insert_sorted s ts

abbrev pub sort : List String → List String
sort [] = []
sort (s ∷ ss) = insert_sorted s (sort ss)

abbrev pub join_comma : List String → String
join_comma [] = ""
join_comma (s ∷ []) = s
join_comma (s ∷ t ∷ ts) = String.◌++◌ s (String.◌++◌ ", " (join_comma (t ∷ ts)))

abbrev pub tool_guidance : List String → String
tool_guidance tool_names = String.◌++◌ "You can call these tools: " (
    String.◌++◌ (join_comma tool_names)
      ". When the user asks for math, current time/date, or workspace file content, call the relevant tool before answering.")

abbrev pub with_guidance : Option String → String → String
with_guidance none guidance = guidance
with_guidance (some instr) guidance =
    if is_empty (trim instr)
    then guidance
    else String.◌++◌ (trim instr) (String.◌++◌ "\n\n" guidance)

unfoldable pub merged_instruction : RuntimeKind → List String → Option String → Option String
merged_instruction native tool_names instructions =
    if lists.is_empty tool_names
    then instructions
    else some (with_guidance instructions (tool_guidance tool_names))
merged_instruction docker tool_names instructions = instructions

module _ {W H T J : Type 0} (env : Outside W H T J) (adapter : RunnerAdapter) where
  -- The tools and the access control that they ask.
  unfoldable pub build_protected_tools : (principal_id role : String) → Operation W (List T)
  unfolding session_access_control
  build_protected_tools principal_id role = do
    let access_control = session_access_control adapter.tool_security principal_id role
    _ ← propagate (
        map_err (String.◌++◌ "Failed to build session access control: ")
          (env.build_access_control access_control))
    r ← attempt (env.open_audit_sink adapter.tool_security.audit_log_path)
    audit_sink ← propagate (map_err (String.◌++◌ "Failed to create audit sink: ") r)
    pure (
        env.protect_all access_control audit_sink
          (build_baseline_tools_with_workspace (workspace_policy adapter.tool_security)))

  abbrev pub tool_map : List T → Map String T → Map String T
  tool_map [] tools = tools
  tool_map (t ∷ ts) tools = tool_map ts (insert (env.tool_name t) t tools)

  -- The base URL of a native runtime.
  unfoldable pub native_base_url : ProviderKind → Option String → Result (Option String) String
  native_base_url open_ai base_url = ok base_url
  native_base_url open_ai_compatible (some base_url) = ok (some base_url)
  native_base_url open_ai_compatible none = err (
      String.◌++◌ "Provider profile '"
        (String.◌++◌ adapter.provider.profile_name "' requires a non-empty WebSocket base_url"))

  abbrev native_runtime :
      (user_id session_id : String) → SessionSettings → Option String → List T → Operation W H
  native_runtime user_id session_id settings instruction tools = do
    base_url ← propagate (native_base_url adapter.provider.kind adapter.provider.base_url)
    r ← attempt (
        env.build_realtime (record {
          api_key = adapter.provider.api_key;
          model = settings.model;
          base_url = base_url;
          voice = settings.voice;
          instruction = instruction;
          session_id = session_id;
          user_id = user_id;
          tools = tools;
        }))
    propagate (map_err (String.◌++◌ "Failed to build realtime runner: ") r)

  abbrev docker_session :
      (user_id session_id : String) → SessionSettings → Option String → Operation W H
  docker_session user_id session_id settings instruction w =
      let (h, v) =
        env.docker_runtime
          (record {
            session_id = session_id;
            image = adapter.runtime_docker_image;
            api_key = adapter.provider.api_key;
            model = settings.model;
            voice = settings.voice;
            instructions = instruction;
            base_url = adapter.provider.base_url;
          })
          user_id w in
      (ok h, v)

  -- The `match &self.runtime_kind` of `create_session`.
  unfoldable pub new_runtime :
      (user_id session_id : String) → SessionSettings → List T → Operation W H
  unfolding merged_instruction native_base_url ◌>>=◌
  new_runtime user_id session_id settings tools =
      let instruction =
        merged_instruction adapter.runtime_kind (sort (map env.tool_name tools))
          settings.instructions in
      elim adapter.runtime_kind [
        | native ↦ native_runtime user_id session_id settings instruction tools
        | docker ↦ docker_session user_id session_id settings instruction
      ]
