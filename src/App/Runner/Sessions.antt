-- ===== src/App/Runner/Sessions.antt =====
-- `create_session` and `terminate_session` of `RunnerAdapter`, liveclaw-app/src/main.rs.
use Prim.Native.String
use liveclaw.Prelude.{
  ℕ, suc, zero, Bool, true, false, ◌&&◌, not, Option, none, some, List, [], ◌∷◌, ◌++◌, String,
  str_eq, unwrap_or, if◌then◌else◌, string_Key, max,
}
use liveclaw.Prelude.Lists.{length, any}
use liveclaw.Prelude.Map.{get, insert, remove, contains_key}
use liveclaw.Text.{trim, is_empty}
use liveclaw.Gateway.Protocol.{SessionConfig}
use liveclaw.App.Compaction.{MemoryEntry, join}
use liveclaw.App.Operation.{
  Operation, ◌>>=◌, ◌>>◌, pure, bail, bail_if, read, change, propagate, or_bail, attempt, map_err,
  choose,
}
use liveclaw.App.Lifecycle as lifecycle
use liveclaw.App.Lifecycle.{Tracking}
use liveclaw.App.Runner.{
  RunnerAdapter, RealtimeSession, RuntimeTask, AdapterState, Outside, ToolSecurityConfig,
}
use liveclaw.App.Runner.Settings.{
  resolve_session_settings, resolve_role, build_protected_tools, new_runtime, tool_map,
}

-- What a session is created with, once it is connected.
pub record Prepared (H T : Type 0) : Type 0 where
  pub runtime : H
  pub role : String
  pub tools : List T

abbrev pub is_refused : ToolSecurityConfig → (user_id : String) → Bool
is_refused security user_id =
    security.deny_by_default_principal_allowlist
    && not (any (λ allowed. str_eq allowed user_id) security.principal_allowlist)

-- `task.abort()`, and the store of the flag that a task shares with its session.
abbrev pub at_task :
    {H : Type 0} → (RuntimeTask H → RuntimeTask H) → ℕ → List (RuntimeTask H) → List (RuntimeTask H)
at_task f n [] = []
at_task f zero (task ∷ tasks) = f task ∷ tasks
at_task f (suc n) (task ∷ tasks) = task ∷ at_task f n tasks

abbrev pub abort_task : {H : Type 0} → RuntimeTask H → RuntimeTask H
abort_task task = record task { aborted = true }

abbrev pub shut_task : {H : Type 0} → RuntimeTask H → RuntimeTask H
shut_task task = record task { shutdown = true }

-- The first text of an entry, and those of all entries that have one.
unfoldable pub first_text : List (Option String) → Option String
first_text [] = none
first_text (none ∷ parts) = first_text parts
first_text (some text ∷ parts) = some text

unfoldable pub first_texts : List MemoryEntry → List String
unfolding first_text
first_texts [] = []
first_texts (entry ∷ entries) =
    let rest = first_texts entries in
    elim (first_text entry.parts) [ none ↦ rest | some text ↦ text ∷ rest ]

abbrev pub session_summary : (now : ℕ) → String → MemoryEntry
session_summary now summary = record {
  role = "assistant";
  parts = some (String.◌++◌ "session_summary: " summary) ∷ [];
  author = "system";
  timestamp = now;
}

-- The entries with the summary, unless it is blank.
unfoldable pub summarized : (now : ℕ) → List MemoryEntry → List MemoryEntry
unfolding first_texts join
summarized now entries =
    let summary = join (first_texts entries) in
    if is_empty (trim summary) then entries else entries ++ session_summary now summary ∷ []

module _ {W H T J : Type 0} (env : Outside W H T J) (adapter : RunnerAdapter) where
  abbrev pub Adapter : Type 0
  Adapter = AdapterState W H T

  -- What happens outside of the adapter.
  -- Shut, like `◌>>=◌`.
  unfoldable pub outside : {A : Type 0} → Operation W A → Operation Adapter A
  outside m s =
      let (r, w) = m s.tracking.world in
      (r, record s { tracking = record (s.tracking) { world = w } })

  abbrev pub in_lifecycle : {A : Type 0} → Operation (Tracking W) A → Operation Adapter A
  in_lifecycle m s = let (r, t) = m s.tracking in (r, record s { tracking = t })

  abbrev pub lifecycle_session : (user_id session_id : String) → Operation Adapter (Unit {0})
  lifecycle_session user_id session_id = do
    r ← attempt (in_lifecycle (lifecycle.initialize_session env.service user_id session_id))
    propagate (
        map_err
          (λ e.
            String.◌++◌ "Failed to initialize adk-runner lifecycle session '"
              (String.◌++◌ session_id "'"))
          r)

  unfoldable pub start_lifecycle : (user_id session_id : String) → Operation Adapter (Unit {0})
  start_lifecycle user_id session_id =
      choose adapter.has_lifecycle (lifecycle_session user_id session_id) (pure tt)

  -- Up to the connection: the checks, the settings, the tools and the runtime.
  unfoldable pub prepare :
      (user_id session_id : String) → Option SessionConfig → Operation Adapter (Prepared H T)
  unfolding start_lifecycle
  prepare user_id session_id config = do
    bail_if (is_refused adapter.tool_security user_id) (
        String.◌++◌ "Principal '" (
          String.◌++◌ user_id
            "' is not in security.principal_allowlist and deny-by-default mode is enabled"))
    start_lifecycle user_id session_id
    bail_if (is_empty (trim adapter.provider.api_key))
        "Missing API key. Set [voice].api_key or LIVECLAW_API_KEY / OPENAI_API_KEY."
    let settings = resolve_session_settings adapter config
    role ← propagate (resolve_role env.to_lowercase adapter config)
    tools ← outside (build_protected_tools env adapter user_id role)
    runtime ← outside (new_runtime env adapter user_id session_id settings tools)
    _ ← outside (env.connect runtime)
    pure (record { runtime = runtime; role = role; tools = tools })

  abbrev pub new_task : (session_id : String) → H → RuntimeTask H
  new_task session_id runtime = record {
    session_id = session_id;
    runtime = runtime;
    shutdown = false;
    aborted = false;
  }

  abbrev pub graph_setting : Option SessionConfig → Bool
  graph_setting none = adapter.graph_default_enabled
  graph_setting (some cfg) = unwrap_or cfg.enable_graph adapter.graph_default_enabled

  abbrev pub new_session :
      (user_id : String)
      → Option SessionConfig
      → Prepared H T
      → (run_task : ℕ) → RealtimeSession H T
  new_session user_id config prepared run_task = record {
    runtime = prepared.runtime;
    run_task = run_task;
    user_id = user_id;
    role = prepared.role;
    tools = tool_map env adapter prepared.tools [];
    graph_enabled = graph_setting config;
    graph_recursion_limit = max adapter.graph_recursion_limit 1;
  }

  unfoldable pub refuse_duplicate :
      (session_id : String) → Prepared H T → (run_task : ℕ) → Operation Adapter String
  refuse_duplicate session_id prepared run_task = do
    _ ← attempt (outside (env.close prepared.runtime))
    change λ s. record s { tasks = at_task abort_task run_task s.tasks }
    bail (String.◌++◌ "Session '" (String.◌++◌ session_id "' already exists"))

  unfoldable pub register :
      (user_id session_id : String)
      → Option SessionConfig
      → Prepared H T
      → (run_task : ℕ) → Operation Adapter String
  register user_id session_id config prepared run_task = do
    change λ s. record s {
      sessions = insert session_id (new_session user_id config prepared run_task) s.sessions;
    }
    pure session_id

  -- The loop is started, and stopped again if the session is there already.
  unfoldable pub admit :
      (user_id session_id : String) → Option SessionConfig → Prepared H T → Operation Adapter String
  unfolding refuse_duplicate register
  admit user_id session_id config prepared = do
    s ← read
    change λ s. record s { tasks = s.tasks ++ new_task session_id prepared.runtime ∷ [] }
    choose (contains_key session_id s.sessions)
        (refuse_duplicate session_id prepared (length s.tasks))
        (register user_id session_id config prepared (length s.tasks))

  unfoldable pub create_session :
      (user_id session_id : String) → Option SessionConfig → Operation Adapter String
  unfolding prepare admit
  create_session user_id session_id config = do
    prepared ← prepare user_id session_id config
    admit user_id session_id config prepared

  abbrev pub hand_over :
      (user_id session_id : String) → Option (List MemoryEntry) → Adapter → Adapter
  hand_over user_id session_id none s = s
  hand_over user_id session_id (some entries) s =
      let taken = record s {
        session_memory_entries = remove session_id s.session_memory_entries;
      } in
      let now = env.now_millis s.tracking.world in
      (outside (env.add_session user_id session_id (summarized now entries)) taken).1

  -- The memory of a session that ends: it is taken, summarized and handed over; an error of the
  -- store is only logged.
  unfoldable pub hand_over_memory : (user_id session_id : String) → Adapter → Adapter
  unfolding summarized
  hand_over_memory user_id session_id s =
      hand_over user_id session_id (get session_id s.session_memory_entries) s

  unfoldable pub forget_tracking : (session_id : String) → Adapter → Adapter
  forget_tracking session_id s =
      if adapter.has_lifecycle
      then record s { tracking = lifecycle.clear_tracking env.service session_id s.tracking }
      else s

  -- The session is taken out of the map first.
  unfoldable pub terminate_session : (session_id : String) → Operation Adapter (Unit {0})
  unfolding hand_over_memory forget_tracking
  terminate_session session_id = do
    s ← read
    session ←
        or_bail (get session_id s.sessions)
          (String.◌++◌ "Session '" (String.◌++◌ session_id "' not found"))
    change λ s. record s {
      sessions = remove session_id s.sessions;
      tasks = at_task shut_task session.run_task s.tasks;
    }
    change (forget_tracking session_id)
    _ ← attempt (outside (env.close session.runtime))
    change (hand_over_memory session.user_id session_id)
    change λ s. record s { tasks = at_task abort_task session.run_task s.tasks }
