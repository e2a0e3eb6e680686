-- ===== src/App/Memory.antt =====
-- `FileMemoryService` of liveclaw-app/src/storage.rs. Times are in milliseconds. `serde_json` is a
-- parameter, and so is which calls of `std::fs` fail; a file system maps paths to contents. An
-- error is its reason, without the path and the cause that its text quotes. The order of a search's
-- answers, which follows that of a `HashMap`, is that of the association lists.
pub mod Search
pub mod Loading
pub mod Durable
use Prim.Native.String
use liveclaw.Prelude.{
  ℕ, Bool, true, false, ◌&&◌, ◌↔◌, Option, none, some, List, [], ◌∷◌, ◌++◌, String, Result, ok, err,
  ◌≡◌, ap, arith, str_eq, eq_iff, unwrap_or, if◌then◌else◌, string_Key, map, Key,
}
use liveclaw.Prelude.Lists as lists
use liveclaw.Prelude.Map.{Map, get, insert, remove, contains_key}
use liveclaw.Text.{is_empty, split_whitespace}
use liveclaw.App.Compaction.{MemoryEntry}
use liveclaw.App.Lifecycle.Events.{Content, memory_entry}
use liveclaw.App.Operation.{Operation, ◌>>=◌, ◌>>◌, pure, bail_if, read, change, propagate, map_err}

pub record MemoryKey : Type 0 where
  pub app_name : String
  pub user_id : String

abbrev pub same_key : MemoryKey → MemoryKey → Bool
same_key a b = str_eq a.app_name b.app_name && str_eq a.user_id b.user_id

pub same_key_iff : (a b : MemoryKey) → (same_key a b ≡ true) ↔ (a ≡ b)
same_key_iff a b = (
  λ h. ground (arith, eq_iff a.app_name b.app_name, eq_iff a.user_id b.user_id),
  λ e. ground (
    arith,
    eq_iff a.app_name b.app_name,
    eq_iff a.user_id b.user_id,
    ap (λ (k : MemoryKey). k.app_name) e,
    ap (λ (k : MemoryKey). k.user_id) e,
  ),
)

instance abbrev pub memory_Key : Key MemoryKey
memory_Key = record { equals = same_key; equals_iff = same_key_iff }

pub record PersistedMemoryEntry : Type 0 where
  pub content : Content
  pub author : String
  pub timestamp_millis : ℕ

pub record PersistedSessionMemory : Type 0 where
  pub app_name : String
  pub user_id : String
  pub session_id : String
  pub entries : List PersistedMemoryEntry

abbrev pub BySession : Type 0
BySession = Map String (List PersistedMemoryEntry)

abbrev pub MemoryStore : Type 0
MemoryStore = Map MemoryKey BySession

-- `store.entry(key).or_default().insert(session_id, entries)`
unfoldable pub insert_session :
    MemoryKey → (session_id : String) → List PersistedMemoryEntry → MemoryStore → MemoryStore
insert_session key session_id entries store =
    insert key (insert session_id entries (unwrap_or (get key store) [])) store

abbrev pub key_of : PersistedSessionMemory → MemoryKey
key_of session = record { app_name = session.app_name; user_id = session.user_id }

-- The loop of `load_store`.
unfoldable pub load_sessions : List PersistedSessionMemory → MemoryStore → MemoryStore
unfolding insert_session
load_sessions [] store = store
load_sessions (session ∷ sessions) store =
    load_sessions sessions
      (insert_session (key_of session) session.session_id session.entries store)

abbrev pub persisted :
    MemoryKey → (session_id : String) → List PersistedMemoryEntry → PersistedSessionMemory
persisted key session_id entries = record {
  app_name = key.app_name;
  user_id = key.user_id;
  session_id = session_id;
  entries = entries;
}

-- The loops of `persist_store`.
unfoldable pub sessions_of : MemoryKey → BySession → List PersistedSessionMemory
sessions_of key [] = []
sessions_of key ((session_id, entries) ∷ by_session) =
    persisted key session_id entries ∷ sessions_of key by_session

unfoldable pub all_sessions : MemoryStore → List PersistedSessionMemory
unfolding sessions_of
all_sessions [] = []
all_sessions ((key, by_session) ∷ store) = sessions_of key by_session ++ all_sessions store

-- `B` are the bytes of a file.
pub record Serde (B : Type 0) : Type 0 where
  pub to_vec_pretty : List PersistedSessionMemory → Result B String
  pub from_slice : B → Result (List PersistedSessionMemory) String
  pub is_empty : B → Bool

pub data Call : Type 0 where
  create_dir_all : Call
  write_file : Call
  rename_file : Call
  read_file : Call

pub record Surroundings (B : Type 0) : Type 0 where
  pub serde : Serde B
  pub to_lowercase : String → String
  -- The error of a call of `std::fs`, if it fails.
  pub failure : Call → Option String

abbrev pub Disk : Type 0 → Type 0
Disk B = Map String B

-- The paths of the store and of its temporary file, `path.with_extension("tmp")`.
pub record FileMemoryService : Type 0 where
  pub path : String
  pub tmp_path : String

pub record MemoryState (B : Type 0) : Type 0 where
  pub store : MemoryStore
  pub disk : Disk B

abbrev pub or_failure : Option String → Result (Unit {0}) String
or_failure none = ok tt
or_failure (some e) = err e

abbrev pub persisted_entry : MemoryEntry → PersistedMemoryEntry
persisted_entry entry = record {
  content = record { role = entry.role; parts = entry.parts };
  author = entry.author;
  timestamp_millis = entry.timestamp;
}

module _ {B : Type 0} (env : Surroundings B) (service : FileMemoryService) where
  abbrev pub loaded : Result (List PersistedSessionMemory) String → Result MemoryStore String
  loaded (ok sessions) = ok (load_sessions sessions [])
  loaded (err e) = err "Failed to parse memory store"

  abbrev pub read_store : Option String → B → Result MemoryStore String
  read_store (some e) bytes = err "Failed to read memory store file"
  read_store none bytes =
      if env.serde.is_empty bytes then ok [] else loaded (env.serde.from_slice bytes)

  unfoldable pub load_store : Disk B → Result MemoryStore String
  unfolding load_sessions
  load_store disk = elim (get service.path disk) [
    | none ↦ ok []
    | some bytes ↦ read_store (env.failure read_file) bytes
  ]

  unfoldable pub persist_store : Operation (MemoryState B) (Unit {0})
  unfolding all_sessions
  persist_store = do
    propagate (
        map_err (λ e. "Failed to create memory store directory")
          (or_failure (env.failure create_dir_all)))
    s ← read
    serialized ← propagate (
        map_err (λ e. "Failed to serialize memory store")
          (env.serde.to_vec_pretty (all_sessions s.store)))
    propagate (
        map_err (λ e. "Failed to write temporary memory store")
          (or_failure (env.failure write_file)))
    change λ s. record s { disk = insert service.tmp_path serialized s.disk }
    propagate (
        map_err (λ e. "Failed to atomically replace memory store")
          (or_failure (env.failure rename_file)))
    change λ s. record s { disk = insert service.path serialized (remove service.tmp_path s.disk) }

  unfoldable pub add_session :
      (app_name user_id session_id : String)
      → List MemoryEntry
      → Operation (MemoryState B) (Unit {0})
  unfolding insert_session persist_store
  add_session app_name user_id session_id entries = do
    change λ s. record s {
      store =
          insert_session (record { app_name = app_name; user_id = user_id }) session_id
            (map persisted_entry entries) s.store;
    }
    persist_store
