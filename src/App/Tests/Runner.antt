-- ===== src/App/Tests/Runner.antt =====
-- Runs of the runner adapter over a concrete world: a counter of the calls.
use mathlib.Core.List.{not-mem-nil}
use liveclaw.Prelude.{
  Bool, map, ℕ, suc, true, false, Option, none, some, List, [], ◌∷◌, String, ok, ◌≡◌, refl, ap, Mem,
  string_Key, nat_Key,
}
use liveclaw.Prelude.Lists.{All}
use liveclaw.Prelude.Map.{get, insert, remove}
use liveclaw.Gateway.Protocol.{create_session}
use liveclaw.Gateway.State.{Linked, JsonApi, RunnerHandle}
use liveclaw.Gateway.Handler.Rules.{Ensures}
use liveclaw.Gateway.Isolation.{OwnedBy, Isolated, Fresh}
use liveclaw.Gateway.Channels.{drain_channel_outbox}
use liveclaw.Gateway.Dispatch.{open_connection}
use liveclaw.Gateway.System.{
  Server, Reachable, started, on_open, on_message, here, next, opened, handled,
}
use liveclaw.Gateway.Tests.Setting as setting
use liveclaw.App.Config.{native}
use liveclaw.App.Provider.{open_ai}
use liveclaw.App.Operation.Rules.{Ends}
use liveclaw.App.Runner.{RunnerAdapter, AdapterState, Outside}
use liveclaw.App.Runner.Adapter.{runner_handle}
use liveclaw.App.Runner.ToolGraph.{JsonValues, ToolGraph, GraphOutcome, interrupted, GraphEngine}
use liveclaw.App.Runner.ToolCall.{execute_session_tool_call_graph}
use liveclaw.Text.{trim, show}
use liveclaw.App.Operation.{operations}
use liveclaw.App.Lifecycle as lifecycle
use liveclaw.App.Runner.Sessions as sessions
use liveclaw.App.Runner.Settings.{build_protected_tools, new_runtime, resolve_role}
use liveclaw.App.Runner.{RuntimeTask}
use liveclaw.App.Runner.Adapter.{send_text, session_tool_call}
use liveclaw.App.Runner.Registry.{
  Request, create, terminate, prompt, tool_call, perform_all, Follows, registry,
}
use liveclaw.App.Runner.Refinement.{perform_all-Follows}
use liveclaw.App.Runner.Invariant.{IsMatched, perform_all-IsMatched}
use liveclaw.App.Runner.Poll.{deployed, deployed-poll}
use liveclaw.App.Runner.Supervised.{at_start, written, StopsBefore, IsJson, Waits, supervised-Waits}

mutual
  data Json : Type 0 where
    null : Json
    text : String → Json
    number : ℕ → Json
    array : Items → Json
    object : Fields → Json

  data Items : Type 0 where
    no_items : Items
    item : Json → Items → Items

  data Fields : Type 0 where
    no_fields : Fields
    field : String → Json → Fields → Fields

abbrev items_of : List Json → Items
items_of [] = no_items
items_of (x ∷ xs) = item x (items_of xs)

abbrev items_list : Items → List Json
items_list no_items = []
items_list (item x xs) = x ∷ items_list xs

abbrev fields_of : List (String × Json) → Fields
fields_of [] = no_fields
fields_of ((name, x) ∷ xs) = field name x (fields_of xs)

items_list-items_of : (xs : List Json) → items_list (items_of xs) ≡ xs
items_list-items_of [] = refl
items_list-items_of (x ∷ xs) = ap (λ l. x ∷ l) (items_list-items_of xs)

abbrev read_array : Json → Option (List Json)
read_array (array items) = some (items_list items)
read_array other = none

abbrev values : JsonValues Json
values = record {
  object = λ fields. object (fields_of fields);
  array = λ items. array (items_of items);
  string = text;
  number = number;
  is_null = λ value. elim value [ null ↦ true | _ ↦ false ];
  get_field = λ value name. none;
  as_str = λ value. elim value [ text s ↦ some s | _ ↦ none ];
  as_array = read_array;
  to_event = λ value. none;
}

values-IsJson : IsJson values
values-IsJson = record {
  as_array-array = λ items. ap some (items_list-items_of items);
  is_null-object = λ fields. refl;
}

abbrev halted : List String → ToolGraph ℕ Json → List (String × Json) → ℕ → GraphOutcome Json × ℕ
halted [] graph input w = (GraphOutcome.finished input, w)
halted (node ∷ nodes) graph input w =
    let (updates, v) = at_start graph input 0 w in (interrupted (written updates input) 1, v)

-- An engine that stops before any node that waits, and else ends at once.
abbrev engine : GraphEngine ℕ Json
engine = record {
  build = λ graph. ok tt;
  invoke = λ graph input thread_id limit w. halted graph.interrupt_before graph input w;
}

engine-StopsBefore : StopsBefore engine
engine-StopsBefore graph input thread_id limit w =
    (0, λ next e waits. (1, stops graph.interrupt_before waits))
  where
    stops :
        {name : String} (nodes : List String)
        → Mem name nodes
        → halted nodes graph input w ≡ (
          interrupted (written (at_start graph input 0 w).0 input) 1,
          (at_start graph input 0 w).1,
        )
    stops [] waits = elim (not-mem-nil waits) [ ]
    stops (node ∷ nodes) waits = refl

abbrev outside : Outside ℕ ℕ String Json
outside = record {
  to_lowercase = λ s. s;
  now_millis = λ w. w;
  service = record {
    get_session = λ user_id session_id w. ok [];
    create_session = λ user_id session_id w. (ok tt, suc w);
    run = λ user_id session_id content w. (ok [], suc w);
  };
  add_session = λ user_id session_id entries w. (ok tt, suc w);
  build_access_control = λ access. ok tt;
  open_audit_sink = λ path w. (ok 0, suc w);
  protect_all = λ access sink tools. "echo_text" ∷ [];
  tool_name = λ tool. tool;
  execute = λ tool ctx arguments w. (ok arguments, suc w);
  build_realtime = λ setup w. (ok w, suc w);
  docker_runtime = λ config user_id w. (w, suc w);
  connect = λ runtime w. (ok tt, suc w);
  close = λ runtime w. (ok tt, suc w);
  send_audio_base64 = λ runtime audio w. (ok tt, suc w);
  send_text = λ runtime prompt w. (ok tt, suc w);
  commit_audio = λ runtime w. (ok tt, suc w);
  create_response = λ runtime w. (ok tt, suc w);
  interrupt_response = λ runtime w. (ok tt, suc w);
}

abbrev adapter : RunnerAdapter
adapter = record {
  runtime_kind = native;
  runtime_docker_image = "";
  provider = record {
    kind = open_ai;
    profile_name = "legacy";
    provider_label = "openai";
    api_key = "key";
    default_model = "model";
    base_url = none;
  };
  default_voice = none;
  default_instructions = none;
  tool_security = record {
    default_role = "supervised";
    tool_allowlist = "echo_text" ∷ [];
    audit_log_path = "audit.log";
    workspace_root = ".";
    forbidden_tool_paths = [];
    principal_allowlist = "alice" ∷ [];
    deny_by_default_principal_allowlist = true;
    allow_public_bind = false;
  };
  has_artifacts = false;
  reconnect_policy = record {
    enable_reconnect = true;
    max_attempts = 5;
    initial_backoff = 100;
    max_backoff = 1000;
  };
  memory_compaction_policy = record { enabled = false; max_events_threshold = 500 };
  has_lifecycle = true;
  graph_default_enabled = true;
  graph_recursion_limit = 25;
}

abbrev fresh : AdapterState ℕ ℕ String
fresh = record {
  sessions = [];
  session_memory_entries = [];
  tracking = record { compaction_counts = []; world = 0 };
  counters = record {
    reconnects = record {
      reconnect_attempts_total = 0;
      reconnect_successes_total = 0;
      reconnect_failures_total = 0;
    };
    compactions_applied_total = 0;
  };
  tasks = [];
}

abbrev requests : List (Request Json)
requests =
    create "alice" "s1" none
    ∷ create "alice" "s1" none
    ∷ create "bob" "s2" none
    ∷ prompt "s1" "hello"
    ∷ tool_call "s1" "echo_text" null
    ∷ terminate "s1"
    ∷ terminate "s1"
    ∷ []

abbrev handle : RunnerHandle (AdapterState ℕ ℕ String) Json
handle = runner_handle outside adapter values engine

perform_all-Follows_example :
    Follows
      (registry fresh.sessions)
      (perform_all handle requests fresh).0
      (registry (perform_all handle requests fresh).1.sessions)
perform_all-Follows_example = perform_all-Follows outside adapter values engine requests fresh

fresh-IsMatched : IsMatched fresh
unfolding get
fresh-IsMatched = record { served = λ sid session h. cc; owned = λ n task h live. cc }

perform_all-IsMatched_example : IsMatched (perform_all handle requests fresh).1
perform_all-IsMatched_example =
    perform_all-IsMatched outside adapter values engine requests fresh fresh-IsMatched

supervised-Waits_example :
    Ends
      (Waits outside values [] engine 4)
      (λ v. v ≡ 4)
      (execute_session_tool_call_graph outside values [] engine "s1" "alice" "supervised"
        "echo_text" null 25 4)
supervised-Waits_example =
    supervised-Waits outside values [] engine "s1" "alice" "echo_text" null 25 4 values-IsJson
      engine-StopsBefore

-- The deployed server opens connection 0, which creates a session.
abbrev api : JsonApi Json
api = record {
  get_field = λ value name. none;
  as_str = λ value. none;
  as_bool = λ value. none;
  read_arguments = λ path max_bytes. null;
}

abbrev digest : String → List ℕ
digest s = []

abbrev linked : Linked (AdapterState ℕ ℕ String) Json
linked = deployed outside adapter values engine api digest

abbrev beginning : Server (AdapterState ℕ ℕ String) Json
beginning = started setting.open_guard fresh 0 []

abbrev opened_server : Server (AdapterState ℕ ℕ String) Json
opened_server = on_open linked 0 beginning

anonymous_client : get 0 opened_server.clients ≡ some (open_connection linked beginning.app)
unfolding get insert
anonymous_client = refl

nothing_yet : Fresh setting.moment.uuid opened_server.app
unfolding started
nothing_yet = record { unrouted = tt; unreversed = tt; unqueued = tt }

abbrev with_session : Server (AdapterState ℕ ℕ String) Json
with_session =
    on_message linked setting.moment 0 1 2 (create_session none)
      (open_connection linked beginning.app) opened_server

with_session_reached : Reachable linked beginning with_session
with_session_reached = next opened_server _ (next beginning _ here (opened 0 beginning)) (
    handled setting.moment 0 1 2 (create_session none) (open_connection linked beginning.app)
      opened_server anonymous_client nothing_yet)

deployed-poll_example :
    Isolated with_session.app
    × Ensures
        (λ found v. All (λ i. OwnedBy with_session.app.session_owners i.session_id "alice") found.1)
        (λ v. v ≡ record { app = with_session.app; conn = open_connection linked beginning.app })
        (drain_channel_outbox "alice" "slack" "team" "u1" none
          (record { app = with_session.app; conn = open_connection linked beginning.app }))
deployed-poll_example =
    deployed-poll outside adapter values engine api digest setting.open_guard fresh 0 []
      with_session (open_connection linked beginning.app) "alice" "slack" "team" "u1" none
      with_session_reached

-- The second creation is a duplicate, Bob is not on the allowlist, and a session ends once.
requests_test :
    map (λ (outcome : Request Json × Bool). outcome.1) (perform_all handle requests fresh).0
    ≡ true ∷ false ∷ false ∷ true ∷ true ∷ true ∷ false ∷ []
unfolding sessions.create_session sessions.terminate_session sessions.outside operations send_text
    session_tool_call get insert remove trim lifecycle.initialize_session build_protected_tools
    new_runtime resolve_role show execute_session_tool_call_graph
requests_test = refl

-- Of the two loops that were started, both are aborted in the end, and one was told to stop.
loops_test :
    map {B = Bool × Bool}
      (λ (task : RuntimeTask ℕ). (task.shutdown, task.aborted))
      (perform_all handle requests fresh).1.tasks
    ≡ (true, true) ∷ (false, true) ∷ []
unfolding sessions.create_session sessions.terminate_session sessions.outside operations send_text
    session_tool_call get insert remove trim lifecycle.initialize_session build_protected_tools
    new_runtime resolve_role show execute_session_tool_call_graph
loops_test = refl
