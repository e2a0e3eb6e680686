-- ===== src/App/Runner/ToolGraph.antt =====
-- The graph of `execute_session_tool_call_graph` of liveclaw-app/src/main.rs up to its node of the
-- tools: the trace, and the node and the edge that resolve the call. The engine of adk-graph and the
-- values of `serde_json` are parameters.
use Prim.Native.String
use liveclaw.Prelude.{
  ℕ, Bool, Option, none, some, List, [], ◌∷◌, ◌++◌, String, Result, unwrap_or, if◌then◌else◌,
  string_Key,
}
use liveclaw.Prelude.Lists as lists
use liveclaw.Prelude.Map.{Map, get}
use liveclaw.Text.{show}
use liveclaw.Gateway.Protocol.{GraphExecutionEvent}

pub record JsonValues (J : Type 0) : Type 0 where
  pub object : List (String × J) → J
  pub array : List J → J
  pub string : String → J
  pub number : ℕ → J
  pub is_null : J → Bool
  pub get_field : J → String → Option J
  pub as_str : J → Option String
  pub as_array : J → Option (List J)
  -- `serde_json::from_value::<GraphExecutionEvent>`
  pub to_event : J → Option GraphExecutionEvent

abbrev pub State : Type 0 → Type 0
State J = Map String J

pub record NodeContext (J : Type 0) : Type 0 where
  pub state : State J
  pub step : ℕ

-- A graph of adk-graph: where it starts, what its nodes write into the state, where their edges
-- lead, which nodes wait for an approval, and the limit.
pub record ToolGraph (W J : Type 0) : Type 0 where
  pub start : String
  pub node : String → NodeContext J → W → List (String × J) × W
  pub edge : String → State J → String
  pub interrupt_before : List String
  pub recursion_limit : ℕ

pub data GraphOutcome (J : Type 0) : Type 0 where
  finished : State J → GraphOutcome J
  interrupted : State J → (step : ℕ) → GraphOutcome J
  failed : String → GraphOutcome J

pub record GraphEngine (W J : Type 0) : Type 0 where
  pub build : ToolGraph W J → Result (Unit {0}) String
  pub invoke :
      ToolGraph W J
      → State J
      → (thread_id : String) → (recursion_limit : ℕ) → W
      → GraphOutcome J × W

abbrev pub graph_end : String
graph_end = "__end__"

module _ {J : Type 0} (json : JsonValues J) where
  abbrev pub graph_event_json : GraphExecutionEvent → J
  graph_event_json event = json.object (
      ("step", json.number event.step)
      ∷ ("node", json.string event.node)
      ∷ ("action", json.string event.action)
      ∷ ("detail", json.string event.detail)
      ∷ [])

  abbrev pub array_at : State J → String → List J
  array_at state key = elim (get key state) [
    | none ↦ []
    | some value ↦ unwrap_or (json.as_array value) []
  ]

  abbrev pub append_graph_trace : State J → GraphExecutionEvent → J
  append_graph_trace state event =
      json.array (array_at state "graph_trace" ++ graph_event_json event ∷ [])

  abbrev pub events_of : List J → List GraphExecutionEvent
  events_of [] = []
  events_of (item ∷ items) = elim (json.to_event item) [
    | none ↦ events_of items
    | some e ↦ e ∷ events_of items
  ]

  abbrev pub graph_trace_from_state : State J → List GraphExecutionEvent
  graph_trace_from_state state = events_of (array_at state "graph_trace")

  abbrev pub node_end : (step : ℕ) → (node detail : String) → GraphExecutionEvent
  node_end step node detail = record {
    step = step;
    node = node;
    action = "node_end";
    detail = detail;
  }

  abbrev pub tool_result : (tool_name status key : String) → J → J
  tool_result tool_name status key value =
      json.object
        (("tool", json.string tool_name) ∷ ("status", json.string status) ∷ (key, value) ∷ [])

  abbrev pub strings : List String → List J
  strings [] = []
  strings (s ∷ ss) = json.string s ∷ strings ss

  abbrev pub not_registered : (tool_name : String) → (available_tools : List String) → J
  not_registered tool_name available_tools = json.object (
      ("tool", json.string tool_name)
      ∷ ("status", json.string "error")
      ∷ ("message", json.string "Tool is not registered for this session")
      ∷ ("available_tools", json.array (strings available_tools))
      ∷ [])

  abbrev pub pending_of : State J → List J
  pending_of state =
      let tool_request = unwrap_or (get "tool_request" state) (json.object []) in
      if json.is_null tool_request then [] else tool_request ∷ []

  -- The node "resolve_tool_call".
  unfoldable pub resolve_node : NodeContext J → List (String × J)
  resolve_node ctx =
      let pending = pending_of ctx.state in
      let detail =
        if lists.is_empty pending
        then "no tool call queued"
        else String.◌++◌ "queued " (String.◌++◌ (show (lists.length pending)) " tool call(s)") in
      ("pending_tool_calls", json.array pending)
      ∷ ("graph_trace", append_graph_trace ctx.state (node_end ctx.step "resolve_tool_call" detail))
      ∷ []

  unfoldable pub resolve_edge : State J → String
  resolve_edge state =
      if lists.is_empty (array_at state "pending_tool_calls") then graph_end else "tools"
