-- ===== src/Gateway/Sessions.antt =====
-- The session handlers of liveclaw-gateway/src/server.rs.
pub mod Termination
use liveclaw.Prelude.{
  ℕ, Bool, true, false, not, Option, none, some, List, [], ◌∷◌, ◌++◌, String, Result, ok, err,
  str_eq, string_Key, if◌then◌else◌, unwrap_or,
}
use liveclaw.Prelude.Lists.{retain}
use liveclaw.Prelude.Map.{Map, get, insert, remove}
use liveclaw.Text.{trim, is_empty}
use liveclaw.Gateway.Base64.{base64_decode}
use liveclaw.Gateway.Prompt.{maybe_extract_workspace_read_path, build_workspace_summary_prompt}
use liveclaw.Gateway.Protocol.{
  SessionConfig, GatewayResponse, error, session_created, session_terminated, audio_accepted,
  audio_committed, response_create_accepted, response_interrupt_accepted, prompt_accepted,
  session_tool_result, diagnostics, GraphExecutionReport, RuntimeDiagnostics,
}
use liveclaw.Gateway.State.{
  AppState, ConnectionState, World, Linked, Moment, Sender, ChannelRouteKey, route_Key, failure,
  JsonApi,
}
use liveclaw.Gateway.Handler.{
  Action, ◌>>=◌, ◌>>◌, pure, stop, read_app, read_conn, change_app, change_conn, call, or_stop,
  unless_stop, choose, forward, require,
}
use liveclaw.Gateway.Access.{authorize_session_access, insert_if, push_owned, owns}

-- The keys of the routes that lead to a session.
unfoldable pub keys_to : String → Map ChannelRouteKey String → List ChannelRouteKey
keys_to session_id [] = []
keys_to session_id ((key, sid) ∷ routes) =
    let rest = keys_to session_id routes in if str_eq sid session_id then key ∷ rest else rest

unfoldable pub remove_all {ℓ} :
    {V : Type ℓ} → List ChannelRouteKey → Map ChannelRouteKey V → Map ChannelRouteKey V
remove_all [] outbox = outbox
remove_all (key ∷ keys) outbox = remove_all keys (remove key outbox)

module _ {S J : Type 0} where
  -- The entries that a created session gets.
  unfoldable pub register_session :
      (sid principal_id : String)
      → (ws_tx ws_priority_tx : Option Sender) → AppState S J
      → AppState S J
  register_session sid principal_id ws_tx ws_priority_tx app = record app {
    session_owners = insert sid principal_id app.session_owners;
    ws_response_senders = insert_if ws_tx sid app.ws_response_senders;
    ws_priority_senders = insert_if ws_priority_tx sid app.ws_priority_senders;
  }

  -- The `match` on what the runner answered.
  unfoldable pub created_session :
      String
      → (ws_tx ws_priority_tx : Option Sender) → Result String String
      → Action S J (GatewayResponse J)
  created_session principal_id ws_tx ws_priority_tx (ok sid) = do
    change_app (register_session sid principal_id ws_tx ws_priority_tx)
    change_conn (λ conn. if owns conn sid then conn else push_owned sid conn)
    pure (session_created sid)
  created_session principal_id ws_tx ws_priority_tx (err e) =
      pure (failure "session_create_failed" "Failed to create session: " e)

  -- What `handle_terminate_session` takes out of the maps.
  unfoldable pub forget_session : String → AppState S J → AppState S J
  unfolding keys_to remove_all
  forget_session session_id app = record app {
    audio_senders = remove session_id app.audio_senders;
    ws_response_senders = remove session_id app.ws_response_senders;
    ws_priority_senders = remove session_id app.ws_priority_senders;
    session_owners = remove session_id app.session_owners;
    channel_routes = retain (λ b. not (str_eq b.1 session_id)) app.channel_routes;
    session_channel_routes = remove session_id app.session_channel_routes;
    channel_outbox = remove_all (keys_to session_id app.channel_routes) app.channel_outbox;
  }

  unfoldable pub tool_response :
      (session_id tool_name : String)
      → Result (J × GraphExecutionReport J) String
      → Action S J (GatewayResponse J)
  tool_response session_id tool_name (ok (result, graph)) =
      pure (session_tool_result session_id tool_name result graph)
  tool_response session_id tool_name (err e) =
      pure (failure "session_tool_call_failed" "Failed to execute tool call: " e)

  unfoldable pub diagnostics_response :
      Result RuntimeDiagnostics String → Action S J (GatewayResponse J)
  diagnostics_response (ok report) = pure (diagnostics report)
  diagnostics_response (err e) =
      pure (failure "diagnostics_failed" "Failed to fetch diagnostics: " e)

module _ {S J : Type 0} (env : Linked S J) (m : Moment) where
  unfoldable pub handle_create_session_internal :
      Option SessionConfig → (ws_tx ws_priority_tx : Option Sender) → Action S J (GatewayResponse J)
  handle_create_session_internal config ws_tx ws_priority_tx = do
    conn ← read_conn
    let principal_id = unwrap_or conn.principal_id "unknown"
    created ← call (env.runner.create_session principal_id m.uuid config)
    created_session principal_id ws_tx ws_priority_tx created

  unfoldable pub handle_terminate_session : String → Action S J (GatewayResponse J)
  handle_terminate_session session_id = do
    authorize_session_access session_id none none
    change_app (forget_session session_id)
    change_conn (λ conn. record conn {
      owned_sessions = retain (λ s. not (str_eq s session_id)) conn.owned_sessions;
    })
    forward (env.runner.terminate_session session_id) (session_terminated session_id)
        "session_terminate_failed" "Failed to terminate session: "

  unfoldable pub handle_session_audio :
      (session_id audio_b64 : String)
      → (ws_tx ws_priority_tx : Sender) → Action S J (GatewayResponse J)
  handle_session_audio session_id audio_b64 ws_tx ws_priority_tx = do
    authorize_session_access session_id (some ws_tx) (some ws_priority_tx)
    audio_bytes ←
        or_stop (base64_decode audio_b64)
          (error "invalid_audio" "Failed to decode base64 audio data")
    forward (env.runner.send_audio session_id audio_bytes) (audio_accepted session_id)
        "audio_send_failed" "Failed to forward audio: "

  unfoldable pub handle_session_audio_commit :
      String → (ws_tx ws_priority_tx : Sender) → Action S J (GatewayResponse J)
  handle_session_audio_commit session_id ws_tx ws_priority_tx = do
    authorize_session_access session_id (some ws_tx) (some ws_priority_tx)
    forward (env.runner.commit_audio session_id) (audio_committed session_id) "audio_commit_failed"
        "Failed to commit audio: "

  unfoldable pub handle_session_response_create :
      String → (ws_tx ws_priority_tx : Sender) → Action S J (GatewayResponse J)
  handle_session_response_create session_id ws_tx ws_priority_tx = do
    authorize_session_access session_id (some ws_tx) (some ws_priority_tx)
    forward (env.runner.create_response session_id) (response_create_accepted session_id)
        "response_create_failed" "Failed to create response: "

  unfoldable pub handle_session_response_interrupt :
      String → (ws_tx ws_priority_tx : Sender) → Action S J (GatewayResponse J)
  handle_session_response_interrupt session_id ws_tx ws_priority_tx = do
    authorize_session_access session_id (some ws_tx) (some ws_priority_tx)
    forward (env.runner.interrupt_response session_id) (response_interrupt_accepted session_id)
        "response_interrupt_failed" "Failed to interrupt response: "

  unfoldable pub handle_session_tool_call :
      (session_id tool_name : String)
      → J
      → (ws_tx ws_priority_tx : Sender) → Action S J (GatewayResponse J)
  handle_session_tool_call session_id tool_name arguments ws_tx ws_priority_tx = do
    authorize_session_access session_id (some ws_tx) (some ws_priority_tx)
    r ← call (env.runner.session_tool_call session_id tool_name arguments)
    tool_response session_id tool_name r

  unfoldable pub handle_get_diagnostics : Action S J (GatewayResponse J)
  handle_get_diagnostics = do r ← call env.runner.diagnostics; diagnostics_response r

  -- `tool_result.get("result").and_then(|v| v.get(name))`
  abbrev pub result_field : J → String → Option J
  result_field tool_result name = elim (env.json.get_field tool_result "result") [
    | none ↦ none
    | some v ↦ env.json.get_field v name
  ]

  abbrev pub and_then {ℓ} : {A B : Type ℓ} → Option A → (A → Option B) → Option B
  and_then none f = none
  and_then (some a) f = f a

  -- The text that is sent on for a prompt whose tool call answered `tool_result`.
  unfoldable pub outbound_prompt : String → J → String
  outbound_prompt trimmed tool_result =
      let content = unwrap_or (and_then (result_field tool_result "content") env.json.as_str) "" in
      let resolved_path =
        unwrap_or (and_then (result_field tool_result "path") env.json.as_str) "README.md" in
      let truncated =
        unwrap_or (and_then (result_field tool_result "truncated") env.json.as_bool) false in
      if is_empty content
      then trimmed
      else build_workspace_summary_prompt trimmed resolved_path content truncated

  -- What the detour through `read_workspace_file` does with the answer of the tool: the result
  -- goes to the client too.
  unfoldable pub bridge_result :
      (session_id trimmed : String)
      → Sender
      → Result (J × GraphExecutionReport J) String
      → Action S J String
  bridge_result session_id trimmed ws_tx (ok (tool_result, graph)) = do
    change_app (λ app. record app {
      sent =
          if m.is_open ws_tx
          then app.sent
            ++ (ws_tx, session_tool_result session_id "read_workspace_file" tool_result graph) ∷ []
          else app.sent;
    })
    pure (outbound_prompt trimmed tool_result)
  bridge_result session_id trimmed ws_tx (err e) = stop (
      failure "session_prompt_tool_bridge_failed"
        "Failed to execute prompt-driven read_workspace_file call: " e)

  unfoldable pub bridge_prompt :
      (session_id trimmed : String) → Sender → Option String → Action S J String
  bridge_prompt session_id trimmed ws_tx none = pure trimmed
  bridge_prompt session_id trimmed ws_tx (some path) = do
    r ← call (
        env.runner.session_tool_call session_id "read_workspace_file"
          (env.json.read_arguments path 32768))
    bridge_result session_id trimmed ws_tx r

  unfoldable pub handle_session_prompt :
      (session_id prompt : String)
      → Bool
      → (ws_tx ws_priority_tx : Sender) → Action S J (GatewayResponse J)
  handle_session_prompt session_id prompt create_response ws_tx ws_priority_tx = do
    authorize_session_access session_id (some ws_tx) (some ws_priority_tx)
    let trimmed = trim prompt
    unless_stop (not (is_empty trimmed)) (error "invalid_prompt" "Prompt is empty")
    outbound ← bridge_prompt session_id trimmed ws_tx (maybe_extract_workspace_read_path trimmed)
    require (env.runner.send_text session_id outbound) "session_prompt_failed"
        "Failed to send prompt: "
    choose create_response
        (require (env.runner.create_response session_id) "session_prompt_response_failed"
          "Prompt queued, but create_response failed: ")
        (pure tt)
    pure (prompt_accepted session_id)
