-- ===== src/App/Lifecycle.antt =====
-- `SessionLifecycleManager` of liveclaw-app/src/main.rs: transcripts go through the runner of
-- adk-runner into the sessions of adk-session, whose events are then read as memory. Both crates
-- are parameters, with a state `W` of the surroundings.
pub mod Events
use Prim.Native.String
use liveclaw.Prelude.{
  ℕ, ◌+◌, ◌-◌, Bool, true, false, not, Option, none, some, List, [], ◌∷◌, String, Result, ok, err,
  leb, unwrap_or, if◌then◌else◌, string_Key,
}
use liveclaw.Prelude.Lists.{length, any}
use liveclaw.Prelude.Map.{Map, get, insert, remove}
use liveclaw.Text.{trim, is_empty, show}
use liveclaw.App.Compaction.{MemoryEntry, entry_text, join, bounded_text}
use liveclaw.App.Operation.{
  Operation, ◌>>=◌, pure, read, change, propagate, attempt, map_err, is_err,
}
use liveclaw.App.Lifecycle.Events.{Content, text_content, Event, memory_entries_from_session_events}

-- adk-session and adk-runner, for one application name.
pub record SessionService (W : Type 0) : Type 0 where
  pub get_session : (user_id session_id : String) → W → Result (List Event) String
  pub create_session : (user_id session_id : String) → Operation W (Unit {0})
  pub run : (user_id session_id : String) → Content → Operation W (List (Result (Unit {0}) String))

-- What the manager changes: its counts, and the surroundings.
pub record Tracking (W : Type 0) : Type 0 where
  pub compaction_counts : Map String ℕ
  pub world : W

-- The stream of events up to its first error.
unfoldable pub drain : List (Result (Unit {0}) String) → Result (Unit {0}) String
drain [] = ok tt
drain (ok _ ∷ events) = drain events
drain (err e ∷ events) = err e

abbrev pub compactions : List Event → ℕ
compactions [] = 0
compactions (event ∷ events) = elim event.compaction [
  | none ↦ compactions events
  | some c ↦ compactions events + 1
]

-- `entry(session_id).or_insert(0)`
unfoldable pub or_insert_zero : String → Map String ℕ → Map String ℕ
or_insert_zero session_id counts = elim (get session_id counts) [
  | none ↦ insert session_id 0 counts
  | some n ↦ counts
]

module _ {W : Type 0} (service : SessionService W) where
  abbrev pub outside : {A : Type 0} → Operation W A → Operation (Tracking W) A
  outside m s = let (r, w) = m s.world in (r, record s { world = w })

  unfoldable pub initialize_session :
      (user_id session_id : String) → Operation (Tracking W) (Unit {0})
  unfolding or_insert_zero
  initialize_session user_id session_id = do
    s ← read
    _ ←
        (if is_err (service.get_session user_id session_id s.world)
          then outside (service.create_session user_id session_id)
          else pure tt)
    change λ s. record s { compaction_counts = or_insert_zero session_id s.compaction_counts }

  abbrev pub current_compaction_count : (user_id session_id : String) → W → Result ℕ String
  current_compaction_count user_id session_id w = elim (service.get_session user_id session_id w) [
    | ok events ↦ ok (compactions events)
    | err e ↦ err e
  ]

  -- The count is stored; what is new since the last one is the answer.
  unfoldable pub new_compactions : (session_id : String) → (current : ℕ) → Operation (Tracking W) ℕ
  new_compactions session_id current s = (
    ok (current - unwrap_or (get session_id s.compaction_counts) 0),
    record s { compaction_counts = insert session_id current s.compaction_counts },
  )

  abbrev pub ingest : (user_id session_id trimmed : String) → Operation (Tracking W) ℕ
  ingest user_id session_id trimmed = do
    _ ← initialize_session user_id session_id
    r ← attempt (outside (service.run user_id session_id (text_content "user" trimmed)))
    events ← propagate (
        map_err
          (String.◌++◌
            (String.◌++◌ "Failed to run lifecycle ingest session '" (String.◌++◌ session_id "': ")))
          r)
    _ ← propagate (
        map_err
          (String.◌++◌ (
            String.◌++◌ "Lifecycle ingest stream failed for session '"
              (String.◌++◌ session_id "': ")))
          (drain events))
    s ← read
    current ← propagate (current_compaction_count user_id session_id s.world)
    new_compactions session_id current

  unfoldable pub record_transcript :
      (user_id session_id transcript : String) → Operation (Tracking W) ℕ
  unfolding initialize_session drain new_compactions
  record_transcript user_id session_id transcript =
      if is_empty (trim transcript) then pure 0 else ingest user_id session_id (trim transcript)

  unfoldable pub snapshot_memory_entries :
      (user_id session_id : String) → W → Result (List MemoryEntry) String
  unfolding memory_entries_from_session_events
  snapshot_memory_entries user_id session_id w = elim (service.get_session user_id session_id w) [
    | ok events ↦ ok (memory_entries_from_session_events events)
    | err e ↦ err e
  ]

  unfoldable pub clear_tracking : (session_id : String) → Tracking W → Tracking W
  clear_tracking session_id s = record s {
    compaction_counts = remove session_id s.compaction_counts;
  }
