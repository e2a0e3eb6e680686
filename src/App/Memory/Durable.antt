-- ===== src/App/Memory/Durable.antt =====
-- What `FileMemoryService` of liveclaw-app/src/storage.rs finds again after a restart.
use liveclaw.Prelude.{
  true, false, Option, none, some, List, [], ◌∷◌, String, ok, ◌≡◌, refl, ◌∙◌, arith, eq_iff,
  unwrap_or, if◌then◌else◌, string_Key, Key, ◌==◌, map, str_eq,
}
use liveclaw.Prelude.Lists.{All}
use liveclaw.Prelude.Map.{
  Map, get, insert, remove, get-insert, get-insert_self, All-remove, All-remove_ne, All-insert,
  get-All,
}
use liveclaw.App.Memory.{
  MemoryKey, memory_Key, PersistedMemoryEntry, PersistedSessionMemory, BySession, MemoryStore,
  insert_session, load_sessions, all_sessions, Surroundings, FileMemoryService, MemoryState,
  read_file, persisted_entry, load_store, persist_store, add_session,
}
use liveclaw.App.Compaction.{MemoryEntry}
use liveclaw.App.Operation.Rules.{
  Ends, Ends-ok, map_err-ok, weaken, propagate_rule, read_rule, change_rule,
}
use liveclaw.App.Memory.Loading.{Distinct, lookup, lookup-insert_session, lookup-reload}

remove-Distinct :
    {K V : Type 0} ⦃e : Key K⦄ (k : K) (m : Map K V) → Distinct m → Distinct (remove k m)
unfolding remove
remove-Distinct k [] d = tt
remove-Distinct k ((j, v) ∷ m) d =
    elim (j == k) as (λ b. Distinct (elim b [ true ↦ remove k m | false ↦ (j, v) ∷ remove k m ])) [
      | true ↦ remove-Distinct k m d.1
      | false ↦ (All-remove (λ b. ¬ (b.0 ≡ j)) k m d.0, remove-Distinct k m d.1)
    ]

insert-Distinct :
    {K V : Type 0} ⦃e : Key K⦄ (k : K) (v : V) (m : Map K V) → Distinct m → Distinct (insert k v m)
unfolding insert
insert-Distinct k v m d = (All-remove_ne k m, remove-Distinct k m d)

-- Every key of the store is held once, and so is every session of a key.
abbrev pub IsStore : MemoryStore → Type 0
IsStore store = Distinct store × All (λ b. Distinct b.1) store

insert_session-IsStore :
    (key : MemoryKey) (sid : String) (entries : List PersistedMemoryEntry) (store : MemoryStore)
    → IsStore store
    → IsStore (insert_session key sid entries store)
unfolding insert_session
insert_session-IsStore key sid entries store (d, ds) = (
  insert-Distinct key _ store d,
  All-insert (λ b. Distinct b.1) key _ store
      (insert-Distinct sid entries _ (or_default (get key store) refl)) ds,
)
  where
    or_default : (o : Option BySession) → get key store ≡ o → Distinct (unwrap_or o [])
    or_default none e = tt
    or_default (some by_session) e = get-All (λ b. Distinct b.1) key by_session store ds e

-- What the code relies on of `serde_json`: what was written is read back, and is not empty.
abbrev pub ReadsBack : {B : Type 0} → Surroundings B → Type 0
ReadsBack {B} env =
    (sessions : List PersistedSessionMemory) (bytes : B)
    → env.serde.to_vec_pretty sessions ≡ ok bytes
    → (env.serde.from_slice bytes ≡ ok sessions) × (env.serde.is_empty bytes ≡ false)

-- What is found at each session after entries were added to one.
abbrev pub with_session :
    MemoryKey
    → String
    → List MemoryEntry
    → MemoryStore
    → MemoryKey
    → String
    → Option (List PersistedMemoryEntry)
with_session key session_id entries store k sid =
    if key == k
    then (if session_id == sid then some (map persisted_entry entries) else lookup k sid store)
    else lookup k sid store

module _ {B : Type 0} (env : Surroundings B) (service : FileMemoryService) where
  -- A store that is opened from the disk and finds these entries.
  pub record Reopens (disk : Map String B)
      (entries_at : MemoryKey → String → Option (List PersistedMemoryEntry)) : Type 0 where
    pub reopened : MemoryStore
    pub is_loaded : load_store env service disk ≡ ok reopened
    pub finds :
        (key : MemoryKey) (session_id : String)
        → lookup key session_id reopened ≡ entries_at key session_id

  reopen :
      (store : MemoryStore) (bytes : B) (disk : Map String B)
      → ReadsBack env
      → env.failure read_file ≡ none
      → IsStore store
      → env.serde.to_vec_pretty (all_sessions store) ≡ ok bytes
      → get service.path disk ≡ some bytes
      → Reopens disk (λ k s. lookup k s store)
  unfolding load_store
  reopen store bytes disk reads_back readable is_store written there =
      let (back, filled) = reads_back _ _ written in
      record {
        reopened = load_sessions (all_sessions store) [];
        is_loaded = rw (there, load_store) (rw readable (rw filled (rw back refl)));
        finds = λ k s. lookup-reload k s store is_store.0 is_store.1;
      }

  -- The store is written whole, or the file stays as it was.
  persist_store-Reopens :
      (s : MemoryState B)
      → ReadsBack env
      → env.failure read_file ≡ none
      → str_eq service.path service.tmp_path ≡ false
      → IsStore s.store
      → Ends
          (λ _ t. Reopens t.disk (λ k sid. lookup k sid s.store))
          (λ t. get service.path t.disk ≡ get service.path s.disk)
          (persist_store env service s)
  unfolding persist_store
  persist_store-Reopens s reads_back readable apart is_store =
      let E : MemoryState B → Type 0 = λ t. get service.path t.disk ≡ get service.path s.disk in
      let Q : Unit {0} → MemoryState B → Type 0 =
        λ _ t. Reopens t.disk (λ k sid. lookup k sid s.store) in
      propagate_rule E Q _ _ s refl λ _ _. read_rule E Q _ s (
        propagate_rule E Q _ _ s refl λ bytes written. propagate_rule E Q _ _ s refl λ _ _.
          change_rule E Q _ _ _ (
            propagate_rule E Q _ _ _
              (ground (
                arith,
                get-insert service.tmp_path service.path bytes s.disk,
                apart,
                eq_iff service.path service.tmp_path,
                eq_iff service.tmp_path service.path,
              ))
              λ _ _. Ends-ok Q E tt _ (
                reopen s.store bytes _ reads_back readable is_store (map_err-ok _ _ bytes written)
                  (get-insert_self _ _ _))))

  -- When `add_session` of the file memory succeeds, a service that is opened on the file afterwards
  -- finds the given entries at that session and at every other session what was stored before; when
  -- it fails, the file is as it was. It assumes that the keys of the store are distinct, that the
  -- file can be read, that the temporary file is another one, and that `serde_json` reads back what
  -- it wrote, which is not empty.
  pub add_session-Reopens :
      (app_name user_id session_id : String) (entries : List MemoryEntry) (s : MemoryState B)
      → ReadsBack env
      → env.failure read_file ≡ none
      → str_eq service.path service.tmp_path ≡ false
      → IsStore s.store
      → Ends
          (λ _ t. Reopens t.disk (
            with_session
              (record { app_name = app_name; user_id = user_id })
              session_id
              entries
              s.store))
          (λ t. get service.path t.disk ≡ get service.path s.disk)
          (add_session env service app_name user_id session_id entries s)
  unfolding add_session
  add_session-Reopens app_name user_id session_id entries s reads_back readable apart is_store =
      let key : MemoryKey = record { app_name = app_name; user_id = user_id } in
      let kept = map persisted_entry entries in
      change_rule _ _ _ _ s (
        weaken _ _ _ _ _
          (persist_store-Reopens (record s { store = insert_session key session_id kept s.store })
            reads_back readable apart (insert_session-IsStore key session_id kept s.store is_store))
          (λ _ t found. record {
            reopened = found.reopened;
            is_loaded = found.is_loaded;
            finds = λ k sid.
                found.finds k sid ∙ lookup-insert_session key k session_id sid kept s.store;
          })
          (λ t same. same))
