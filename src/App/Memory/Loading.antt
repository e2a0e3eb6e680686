-- ===== src/App/Memory/Loading.antt =====
-- What loading makes of the sessions of a store of `FileMemoryService`, liveclaw-app/src/storage.rs.
use liveclaw.Prelude.{
  Bool, true, false, Option, none, some, List, [], ◌∷◌, ◌++◌, String, ◌≡◌, refl, ap, subst, ◌∙◌,
  arith, eq_iff, unwrap_or, if◌then◌else◌, string_Key, Key, ◌==◌,
}
use liveclaw.Prelude.Lists.{All}
use liveclaw.Prelude.Map.{Map, get, insert, get-insert}
use liveclaw.App.Memory.{
  MemoryKey, memory_Key, same_key_iff, PersistedMemoryEntry, PersistedSessionMemory, BySession,
  MemoryStore, insert_session, load_sessions, sessions_of, all_sessions,
}

-- A key is held once, as in any `HashMap`.
abbrev pub Distinct : {K V : Type 0} → Map K V → Type 0
Distinct [] = Unit {0}
Distinct ((k, v) ∷ m) = All (λ b. ¬ (b.0 ≡ k)) m × Distinct m

-- The entries of a session.
abbrev pub in_sessions : String → Option BySession → Option (List PersistedMemoryEntry)
in_sessions session_id none = none
in_sessions session_id (some by_session) = get session_id by_session

abbrev pub lookup : MemoryKey → String → MemoryStore → Option (List PersistedMemoryEntry)
lookup key session_id store = in_sessions session_id (get key store)

abbrev or_else : {A : Type 0} → Option A → Option A → Option A
or_else none other = other
or_else (some a) other = some a

absent-get :
    {K V : Type 0} ⦃e : Key K⦄ (k : K) (m : Map K V) → All (λ b. ¬ (b.0 ≡ k)) m → get k m ≡ none
unfolding get
absent-get k [] h = refl
absent-get ⦃e⦄ k ((j, v) ∷ m) h = ground (arith, absent-get k m h.1, e.equals_iff j k, h.0)

get-insert_or_default :
    (sid s : String) (entries : List PersistedMemoryEntry) (o : Option BySession)
    → get s (insert sid entries (unwrap_or o []))
      ≡ (if sid == s then some entries else in_sessions s o)
unfolding get
get-insert_or_default sid s entries none = get-insert sid s entries []
get-insert_or_default sid s entries (some by_session) = get-insert sid s entries by_session

pub lookup-insert_session :
    (key k : MemoryKey) (sid s : String) (entries : List PersistedMemoryEntry) (store : MemoryStore)
    → lookup k s (insert_session key sid entries store) ≡ (
        if key == k
        then (if sid == s then some entries else lookup k s store)
        else lookup k s store)
unfolding insert_session
lookup-insert_session key k sid s entries store =
    let found = insert sid entries (unwrap_or (get key store) []) in
    ap (in_sessions s) (get-insert key k found store) ∙ at_key (key == k) refl
  where
    at_key :
        (b : Bool)
        → (key == k) ≡ b
        → in_sessions s
            (if b then some (insert sid entries (unwrap_or (get key store) [])) else get k store)
          ≡ (if b then (if sid == s then some entries else lookup k s store) else lookup k s store)
    at_key true same =
        subst
          (λ j.
            get s (insert sid entries (unwrap_or (get key store) []))
            ≡ (if sid == s then some entries else lookup j s store))
          ((same_key_iff key k).0 same) (get-insert_or_default sid s entries (get key store))
    at_key false other = refl

load-append :
    (xs ys : List PersistedSessionMemory) (store : MemoryStore)
    → load_sessions (xs ++ ys) store ≡ load_sessions ys (load_sessions xs store)
unfolding load_sessions
load-append [] ys store = refl
load-append (x ∷ xs) ys store = load-append xs ys _

-- The sessions of one key, loaded on top of a store.
lookup-load_key :
    (key k : MemoryKey) (s : String) (by_session : BySession) (store : MemoryStore)
    → Distinct by_session
    → lookup k s (load_sessions (sessions_of key by_session) store)
      ≡ (if key == k then or_else (get s by_session) (lookup k s store) else lookup k s store)
unfolding load_sessions sessions_of get
lookup-load_key key k s [] store d = ground arith
lookup-load_key key k s ((sid, entries) ∷ by_session) store d = ground (
  arith,
  lookup-load_key key k s by_session (insert_session key sid entries store) d.1,
  lookup-insert_session key k sid s entries store,
  absent-get sid by_session d.0,
  eq_iff sid s,
)

lookup-load_store :
    (k : MemoryKey) (s : String) (m store : MemoryStore)
    → Distinct m
    → All (λ b. Distinct b.1) m
    → lookup k s (load_sessions (all_sessions m) store) ≡ or_else (lookup k s m) (lookup k s store)
unfolding all_sessions get load_sessions
lookup-load_store k s [] store d ds = refl
lookup-load_store k s ((key, by_session) ∷ m) store d ds =
    ap (lookup k s) (load-append (sessions_of key by_session) (all_sessions m) store)
    ∙ lookup-load_store k s m (load_sessions (sessions_of key by_session) store) d.1 ds.1
    ∙ ap (or_else (lookup k s m)) (lookup-load_key key k s by_session store ds.0)
    ∙ at_key (key == k) refl
  where
    at_key :
        (b : Bool)
        → (key == k) ≡ b
        → or_else
            (lookup k s m)
            (if b then or_else (get s by_session) (lookup k s store) else lookup k s store)
          ≡ or_else (in_sessions s (if b then some by_session else get k m)) (lookup k s store)
    at_key true same =
        let absent : get k m ≡ none =
          subst (λ j. get j m ≡ none) ((same_key_iff key k).0 same) (absent-get key m d.0) in
        rw absent refl
    at_key false other = refl

-- What was written is found again.
pub lookup-reload :
    (k : MemoryKey) (s : String) (m : MemoryStore)
    → Distinct m
    → All (λ b. Distinct b.1) m
    → lookup k s (load_sessions (all_sessions m) []) ≡ lookup k s m
unfolding get
lookup-reload k s m d ds = lookup-load_store k s m [] d ds ∙ or_none (lookup k s m)
  where
    or_none : (o : Option (List PersistedMemoryEntry)) → or_else o none ≡ o
    or_none none = refl
    or_none (some a) = refl
