-- ===== src/App/Tests/Storage.antt =====
-- Runs of the forwarder, of the workspace's tool and of the memory's file.
use liveclaw.Prelude.{
  ℕ, suc, true, false, none, some, List, [], ◌∷◌, ◌++◌, ok, ◌≡◌, refl, sym, string_Key,
}
use liveclaw.Prelude.Lists.{All}
use liveclaw.Prelude.Map.{get}
use liveclaw.App.Compaction.{MemoryEntry}
use liveclaw.App.Operation.Rules.{Ends}
use liveclaw.App.Forwarder.{Storage, GatewayEventForwarder, ForwarderState}
use liveclaw.App.Forwarder.Events.{
  RuntimeEvent, audio_delta, text_delta, transcript_delta, on_events, said, Holds,
}
use liveclaw.App.Forwarder.Outputs.{NeverQueued, Panicked, on_events-said}
use liveclaw.App.Runner.{WorkspaceToolPolicy}
use liveclaw.App.Tools.{
  root_dir, normal, FileSystem, path_results, resolve_workspace_file_path, read_workspace_file,
}
use liveclaw.App.Tools.Confined.{Passes, Previewed, read_workspace_file-Previewed}
use liveclaw.App.Memory.{
  PersistedSessionMemory, Surroundings, FileMemoryService, MemoryState, add_session,
}
use liveclaw.App.Memory.Durable.{ReadsBack, Reopens, with_session, add_session-Reopens}

abbrev storage : Storage ℕ
storage = record {
  service = record {
    get_session = λ user_id session_id w. ok [];
    create_session = λ user_id session_id w. (ok tt, suc w);
    run = λ user_id session_id content w. (ok [], suc w);
  };
  now_millis = λ w. w;
  add_session = λ user_id session_id entries w. (ok tt, suc w);
  save_artifact = λ user_id session_id file_name part w. (ok 1, suc w);
}

abbrev forwarder : GatewayEventForwarder
forwarder = record {
  session_id = "s1";
  user_id = "alice";
  has_lifecycle = false;
  has_artifacts = true;
  memory_compaction = record { enabled = true; max_events_threshold = 2 };
}

abbrev quiet : ForwarderState ℕ
quiet = record {
  session_memory_entries = [];
  tracking = record { compaction_counts = []; world = 0 };
  compactions_applied_total = 0;
  audio_sequence = 0;
  transcript_sequence = 0;
  audio_open = true;
  transcript_open = true;
  audio_tx = [];
  transcript_tx = [];
}

abbrev spoken : List RuntimeEvent
spoken =
    text_delta "good"
    ∷ audio_delta (1 ∷ 2 ∷ [])
    ∷ transcript_delta "morning"
    ∷ transcript_delta "Alice"
    ∷ []

on_events-said_example :
    Holds storage forwarder
      (Panicked storage forwarder spoken quiet)
      (quiet.transcript_tx ++ said storage forwarder spoken)
      (on_events storage forwarder spoken quiet)
    × All NeverQueued (said storage forwarder spoken)
on_events-said_example = on_events-said storage forwarder spoken quiet refl

-- A workspace at /ws whose canonical paths are the paths themselves.
abbrev files : FileSystem
files = record {
  canonicalize = λ path. ok path;
  read = λ path. ok (104 ∷ 105 ∷ []);
  from_utf8_lossy = λ bytes. "hi";
}

abbrev policy : WorkspaceToolPolicy
policy = record {
  workspace_root = "/ws";
  forbidden_paths = ".git" ∷ "target" ∷ [];
  max_read_bytes = 16384;
}

resolve_test :
    resolve_workspace_file_path files policy " docs/./a.txt "
    ≡ ok (root_dir ∷ normal "ws" ∷ normal "docs" ∷ normal "a.txt" ∷ [])
unfolding resolve_workspace_file_path path_results liveclaw.Text.trim
resolve_test = refl

read_workspace_file-Previewed_example :
    Passes
      (Previewed files policy "docs/a.txt")
      (read_workspace_file files policy "docs/a.txt" (some 1))
read_workspace_file-Previewed_example =
    read_workspace_file-Previewed files policy "docs/a.txt" (some 1)

abbrev the_entry : MemoryEntry
the_entry = record {
  role = "assistant";
  parts = some "hello" ∷ [];
  author = "assistant";
  timestamp = 7;
}

-- A disk that holds the sessions as they are, and never fails.
abbrev surroundings : Surroundings (List PersistedSessionMemory)
surroundings = record {
  serde = record {
    to_vec_pretty = λ sessions. ok sessions;
    from_slice = λ sessions. ok sessions;
    is_empty = λ sessions. false;
  };
  to_lowercase = λ s. s;
  failure = λ call. none;
}

surroundings-ReadsBack : ReadsBack surroundings
surroundings-ReadsBack sessions bytes e = (sym e, refl)

abbrev service : FileMemoryService
service = record { path = "memory_store.json"; tmp_path = "memory_store.tmp" }

abbrev empty_store : MemoryState (List PersistedSessionMemory)
empty_store = record { store = []; disk = [] }

add_session-Reopens_example :
    Ends
      (λ _ t. Reopens surroundings service t.disk (
        with_session
          (record { app_name = "liveclaw"; user_id = "alice" })
          "s1"
          (the_entry ∷ [])
          []))
      (λ t. get service.path t.disk ≡ get service.path [])
      (add_session surroundings service "liveclaw" "alice" "s1" (the_entry ∷ []) empty_store)
add_session-Reopens_example =
    add_session-Reopens surroundings service "liveclaw" "alice" "s1" (the_entry ∷ []) empty_store
      surroundings-ReadsBack refl refl (tt, tt)
