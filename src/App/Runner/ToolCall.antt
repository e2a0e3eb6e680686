-- ===== src/App/Runner/ToolCall.antt =====
-- The calls of tools outside the realtime stream, of liveclaw-app/src/main.rs: the node of the tools,
-- `execute_session_tool_call_graph` and `execute_session_tool_call_direct`.
use Prim.Native.String
use liveclaw.Prelude.{
  ℕ, suc, max, true, false, none, some, List, [], ◌∷◌, ◌++◌, String, Result, ok, err, str_eq,
  unwrap_or, if◌then◌else◌, string_Key, map,
}
use liveclaw.Prelude.Lists as lists
use liveclaw.Prelude.Map.{Map, get}
use liveclaw.Text.{trim, is_empty, show}
use liveclaw.Gateway.Protocol.{GraphExecutionReport}
use liveclaw.App.Operation.{Operation}
use liveclaw.App.Runner.{Outside}
use liveclaw.App.Runner.Settings.{sort}
use liveclaw.App.Runner.ToolGraph.{
  JsonValues, State, NodeContext, ToolGraph, GraphOutcome, finished, interrupted, failed,
  GraphEngine, graph_end, array_at, append_graph_trace, graph_trace_from_state, node_end,
  tool_result, not_registered, resolve_node, resolve_edge,
}

module _ {W H T J : Type 0} (env : Outside W H T J) (json : JsonValues J)
    (tools : Map String T) where
  abbrev pub available_tools : List String
  available_tools = sort (map (λ entry. entry.0) tools)

  abbrev pub executed : (tool_name : String) → Result J String → J
  executed tool_name (ok output) = tool_result json tool_name "ok" "result" output
  executed tool_name (err e) = tool_result json tool_name "error" "message" (json.string e)

  -- One pending call of the node "tools".
  unfoldable pub pending_call : (user_id session_id : String) → (step idx : ℕ) → J → W → J × W
  pending_call user_id session_id step idx call w =
      let called_tool_name = trim (elim (json.get_field call "name") [
        | none ↦ ""
        | some name ↦ unwrap_or (json.as_str name) ""
      ]) in
      let call_arguments = unwrap_or (json.get_field call "arguments") (json.object []) in
      if is_empty called_tool_name
      then (tool_result json "" "error" "message" (json.string "Tool call missing 'name'"), w)
      else elim (get called_tool_name tools) [
        | none ↦ (not_registered json called_tool_name available_tools, w)
        | some tool ↦
            let invocation_id =
              String.◌++◌ "graph-tool-" (String.◌++◌ (show step) (String.◌++◌ "-" (show idx))) in
            let (r, v) =
              env.execute tool
                (record {
                  function_call_id = invocation_id;
                  user_id = user_id;
                  session_id = session_id;
                })
                call_arguments w in
            (executed called_tool_name r, v)
      ]

  unfoldable pub pending_calls :
      (user_id session_id : String) → (step idx : ℕ) → List J → W → List J × W
  unfolding pending_call
  pending_calls user_id session_id step idx [] w = ([], w)
  pending_calls user_id session_id step idx (call ∷ calls) w =
      let (result, v) = pending_call user_id session_id step idx call w in
      let (results, u) = pending_calls user_id session_id step (suc idx) calls v in
      (result ∷ results, u)

  -- The node "tools".
  unfoldable pub tools_node :
      (user_id session_id : String) → NodeContext J → W → List (String × J) × W
  unfolding pending_calls
  tools_node user_id session_id ctx w =
      let (results, v) =
        pending_calls user_id session_id ctx.step 0 (array_at json ctx.state "pending_tool_calls")
          w in
      let detail =
        String.◌++◌ "executed " (String.◌++◌ (show (lists.length results)) " tool call(s)") in
      (
        ("pending_tool_calls", json.array [])
            ∷ ("tool_results", json.array results)
            ∷ ("tools_executed_count", json.number (lists.length results))
            ∷ (
              "graph_trace",
              append_graph_trace json ctx.state (node_end json ctx.step "tools" detail),
            )
            ∷ [],
        v,
      )

  unfoldable pub tool_graph :
      (user_id session_id role : String) → (recursion_limit : ℕ) → ToolGraph W J
  unfolding resolve_node resolve_edge tools_node
  tool_graph user_id session_id role recursion_limit = record {
    start = "resolve_tool_call";
    node = λ name ctx w.
        if str_eq name "resolve_tool_call"
        then (resolve_node json ctx, w)
        else tools_node user_id session_id ctx w;
    edge = λ name state.
        if str_eq name "resolve_tool_call" then resolve_edge json state else graph_end;
    interrupt_before = if str_eq role "supervised" then "tools" ∷ [] else [];
    recursion_limit = max recursion_limit 1;
  }

  abbrev pub no_tool_result : String → J
  no_tool_result tool_name =
      tool_result json tool_name "error" "message"
        (json.string "Graph execution produced no tool result")

  abbrev pub first_result : String → State J → J
  first_result tool_name state = elim (array_at json state "tool_results") [
    | [] ↦ no_tool_result tool_name
    | item ∷ items ↦ item
  ]

  -- The match on what `invoke` answers.
  abbrev pub graph_report :
      (thread_id tool_name : String) → GraphOutcome J → Result (J × GraphExecutionReport J) String
  graph_report thread_id tool_name (finished state) = ok (
    first_result tool_name state,
    record {
      thread_id = thread_id;
      completed = true;
      interrupted = false;
      events = graph_trace_from_state json state;
      final_state = json.object state;
    },
  )
  graph_report thread_id tool_name (interrupted state step) = ok (
    tool_result json tool_name "interrupted" "message" (
        json.string "Graph interrupted before tool execution. Resume flow is not implemented yet."),
    record {
      thread_id = thread_id;
      completed = false;
      interrupted = true;
      events =
          graph_trace_from_state json state
          ++ record {
            step = step;
            node = "tools";
            action = "interrupted";
            detail = "Execution paused before tools node (supervised role)";
          }
            ∷ [];
      final_state = json.object state;
    },
  )
  graph_report thread_id tool_name (failed e) = err (String.◌++◌ "Graph tool execution failed: " e)

  abbrev pub graph_input : (tool_name : String) → J → State J
  graph_input tool_name arguments =
      (
        "tool_request",
        json.object (("name", json.string tool_name) ∷ ("arguments", arguments) ∷ []),
      )
      ∷ ("graph_trace", json.array [])
      ∷ []

  unfoldable pub execute_session_tool_call_graph :
      GraphEngine W J
      → (session_id user_id role tool_name : String) → J
      → (recursion_limit : ℕ) → Operation W (J × GraphExecutionReport J)
  unfolding tool_graph
  execute_session_tool_call_graph engine session_id user_id role tool_name arguments limit w =
      let thread_id = String.◌++◌ session_id (String.◌++◌ "-graph-" (show (env.now_millis w))) in
      let graph = tool_graph user_id session_id role limit in
      elim (engine.build graph) [
        | err e ↦ (err (String.◌++◌ "Failed to build graph tool runtime: " e), w)
        | ok _ ↦
            let (outcome, v) =
              engine.invoke graph (graph_input tool_name arguments) thread_id limit w in
            (graph_report thread_id tool_name outcome, v)
      ]

  abbrev pub direct_report : (thread_id detail : String) → J → J × GraphExecutionReport J
  direct_report thread_id detail result = (
    result,
    record {
      thread_id = thread_id;
      completed = true;
      interrupted = false;
      events = node_end json 0 "direct_tool" detail ∷ [];
      final_state =
          json.object (("execution_mode", json.string "direct") ∷ ("tool_result", result) ∷ []);
    },
  )

  unfoldable pub execute_session_tool_call_direct :
      (session_id user_id tool_name : String) → J → Operation W (J × GraphExecutionReport J)
  execute_session_tool_call_direct session_id user_id tool_name arguments w =
      let thread_id = String.◌++◌ session_id (String.◌++◌ "-direct-" (show (env.now_millis w))) in
      elim (get tool_name tools) [
        | none ↦ (
          ok (
              direct_report thread_id "tool not registered for session"
                (not_registered json tool_name available_tools)),
          w,
        )
        | some tool ↦
            let (r, v) =
              env.execute tool
                (record {
                  function_call_id = String.◌++◌ "direct-tool-" (show (env.now_millis w));
                  user_id = user_id;
                  session_id = session_id;
                })
                arguments w in
            (
              ok (direct_report thread_id "direct tool execution completed" (executed tool_name r)),
              v,
            )
      ]
