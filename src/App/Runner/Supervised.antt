-- ===== src/App/Runner/Supervised.antt =====
-- The calls of tools of a session whose role is "supervised", liveclaw-app/src/main.rs.
use Prim.Native.String
use mathlib.Core.List.{mem-cons_self}
use liveclaw.Text.{show}
use liveclaw.Prelude.{
  ℕ, true, false, some, List, [], ◌∷◌, String, Result, ok, err, ◌≡◌, refl, Mem, string_Key,
}
use liveclaw.Prelude.Map.{Map, get, insert, remove}
use liveclaw.Gateway.Protocol.{GraphExecutionReport}
use liveclaw.App.Operation.Rules.{Ends, Ends-ok, Ends-err}
use liveclaw.App.Runner.{Outside}
use liveclaw.App.Runner.ToolGraph.{
  JsonValues, State, ToolGraph, GraphOutcome, interrupted, GraphEngine, resolve_node, resolve_edge,
}
use liveclaw.App.Runner.ToolCall.{
  tool_graph, graph_input, graph_report, execute_session_tool_call_graph,
}

-- The updates of a node written into the state.
abbrev pub written : {J : Type 0} → List (String × J) → State J → State J
written [] state = state
written ((key, value) ∷ updates) state = written updates (insert key value state)

module _ {W J : Type 0} where
  abbrev pub at_start : ToolGraph W J → State J → (step : ℕ) → W → List (String × J) × W
  at_start graph input step w = graph.node graph.start (record { state = input; step = step }) w

  -- adk-graph runs the node at the start of a graph in some step, writes its updates, and stops
  -- there, if the edge leads to a node that waits for an approval.
  abbrev pub StopsBefore : GraphEngine W J → Type 0
  StopsBefore engine =
      (graph : ToolGraph W J) (input : State J) (thread_id : String) (limit : ℕ) (w : W)
      → (first : ℕ) × ((next : String)
          → graph.edge graph.start (written (at_start graph input first w).0 input) ≡ next
          → Mem next graph.interrupt_before
          → (step : ℕ) × (engine.invoke graph input thread_id limit w ≡ (
            interrupted (written (at_start graph input first w).0 input) step,
            (at_start graph input first w).1,
          )))

-- What the code relies on of `serde_json`: an array is read back, and an object is not null.
pub record IsJson {J : Type 0} (json : JsonValues J) : Type 0 where
  pub as_array-array : (items : List J) → json.as_array (json.array items) ≡ some items
  pub is_null-object : (fields : List (String × J)) → json.is_null (json.object fields) ≡ false

module _ {W H T J : Type 0} (env : Outside W H T J) (json : JsonValues J) (tools : Map String T)
    (engine : GraphEngine W J) where
  -- The graph leads from the resolved call to its tool.
  to_tools :
      (tool_name : String) (arguments : J) (step : ℕ)
      → IsJson json
      → resolve_edge json (
          written
            (resolve_node json
              (record { state = graph_input env json tools tool_name arguments; step = step }))
            (graph_input env json tools tool_name arguments))
        ≡ "tools"
  unfolding resolve_edge resolve_node get insert remove
  to_tools tool_name arguments step laws = rw laws.as_array-array (rw laws.is_null-object refl)

  -- A report of a call that waits: nothing happened outside.
  abbrev pub Waits : W → J × GraphExecutionReport J → W → Type 0
  Waits w x v = (v ≡ w) × (x.1.completed ≡ false) × (x.1.interrupted ≡ true)

  -- A call of a tool in a graph session of the role "supervised" runs no tool and changes nothing
  -- outside: it fails, or its report says that it is not completed but interrupted. It assumes of
  -- `serde_json` that arrays are read back and objects are not null, and of adk-graph that it stops
  -- before a node that waits for an approval.
  pub supervised-Waits :
      (session_id user_id tool_name : String) (arguments : J) (limit : ℕ) (w : W)
      → IsJson json
      → StopsBefore engine
      → Ends
          (Waits w)
          (λ v. v ≡ w)
          (execute_session_tool_call_graph env json tools engine session_id user_id "supervised"
            tool_name arguments limit w)
  unfolding execute_session_tool_call_graph
  supervised-Waits session_id user_id tool_name arguments limit w laws stops =
      let thread_id = String.◌++◌ session_id (String.◌++◌ "-graph-" (show (env.now_millis w))) in
      let graph = tool_graph env json tools user_id session_id "supervised" limit in
      let input = graph_input env json tools tool_name arguments in
      let (first, stop) = stops graph input thread_id limit w in
      let (step, e) = stop "tools" (to_tools tool_name arguments first laws) (mem-cons_self) in
      built (engine.build graph) thread_id (engine.invoke graph input thread_id limit w) _ step e
    where
      graph : ToolGraph W J
      graph = tool_graph env json tools user_id session_id "supervised" limit

      built :
          (r : Result (Unit {0}) String) (thread_id : String) (x : GraphOutcome J × W)
          (state : State J) (step : ℕ)
          → x ≡ (interrupted state step, w)
          → Ends
              (Waits w)
              (λ v. v ≡ w)
              (elim r as (λ _. Result (J × GraphExecutionReport J) String × W) [
                | err e ↦ (err (String.◌++◌ "Failed to build graph tool runtime: " e), w)
                | ok _ ↦ (graph_report env json tools thread_id tool_name x.0, x.1)
              ])
      built (err e) thread_id x state step h = Ends-err _ _ _ _ refl
      built (ok _) thread_id x state step h =
          rw h (Ends-ok (Waits w) (λ v. v ≡ w) _ _ (refl, refl, refl))
