-- ===== src/App/Forwarder.antt =====
-- `GatewayEventForwarder` of liveclaw-app/src/main.rs, which hands what a session's runtime says to
-- the gateway, and keeps it as memory and as artifacts. A channel keeps what was sent, newest last.
-- None stands for the panic of `compact_memory_entries`.
pub mod Events
pub mod Keeps
pub mod Outputs
use Prim.Native.String
use liveclaw.Prelude.{
  ℕ, ◌+◌, ◌-◌, ◌%◌, ◌^◌, zero, suc, Bool, true, false, ◌&&◌, Option, none, some, List, [], ◌∷◌,
  ◌++◌, String, Result, ok, err, ltb, unwrap_or, if◌then◌else◌, string_Key,
}
use liveclaw.Prelude.Map.{Map, get, insert}
use liveclaw.Text.{show}
use liveclaw.Gateway.Channels.{SessionTranscriptOutput}
use liveclaw.Gateway.Dispatch.{SessionAudioOutput}
use liveclaw.App.Compaction.{MemoryEntry, byte_length, compact_memory_entries}
use liveclaw.App.Operation.{Operation}
use liveclaw.App.Lifecycle as lifecycle
use liveclaw.App.Lifecycle.{SessionService, Tracking}
use liveclaw.App.Runner.{MemoryCompactionPolicy}

pub data Part : Type 0 where
  text : String → Part
  inline_data : (mime_type : String) → List ℕ → Part

-- What adk-session, adk-memory and the artifact service do, and the clock.
pub record Storage (W : Type 0) : Type 0 where
  pub service : SessionService W
  pub now_millis : W → ℕ
  pub add_session : (user_id session_id : String) → List MemoryEntry → Operation W (Unit {0})
  pub save_artifact : (user_id session_id file_name : String) → Part → Operation W ℕ

-- The fields that stay as they are; the flags say whether the optional services are there.
pub record GatewayEventForwarder : Type 0 where
  pub session_id : String
  pub user_id : String
  pub has_lifecycle : Bool
  pub has_artifacts : Bool
  pub memory_compaction : MemoryCompactionPolicy

pub record ForwarderState (W : Type 0) : Type 0 where
  pub session_memory_entries : Map String (List MemoryEntry)
  pub tracking : Tracking W
  pub compactions_applied_total : ℕ
  pub audio_sequence : ℕ
  pub transcript_sequence : ℕ
  pub audio_open : Bool
  pub transcript_open : Bool
  pub audio_tx : List SessionAudioOutput
  pub transcript_tx : List SessionTranscriptOutput

-- `format!("{index:06}")`
unfoldable pub zeros : ℕ → String
zeros zero = ""
zeros (suc n) = String.◌∷◌ "0" (zeros n)

abbrev pub six_digits : ℕ → String
six_digits index = String.◌++◌ (zeros (6 - byte_length (show index))) (show index)

module _ {W : Type 0} (storage : Storage W) (forwarder : GatewayEventForwarder) where
  abbrev pub in_world : {A : Type 0} → Operation W A → ForwarderState W → ForwarderState W
  in_world m s = record s { tracking = record (s.tracking) { world = (m s.tracking.world).1 } }

  abbrev pub entry_of : String → ForwarderState W → MemoryEntry
  entry_of transcript s = record {
    role = "assistant";
    parts = some transcript ∷ [];
    author = "assistant";
    timestamp = storage.now_millis s.tracking.world;
  }

  -- The entries of the session, stored in the map and handed to the memory store, whose error is
  -- only logged.
  abbrev pub store_entries : List MemoryEntry → ForwarderState W → ForwarderState W
  store_entries entries s =
      in_world (storage.add_session forwarder.user_id forwarder.session_id entries) (record s {
        session_memory_entries = insert forwarder.session_id entries s.session_memory_entries;
      })

  abbrev pub count_compactions : ℕ → ForwarderState W → ForwarderState W
  count_compactions n s = record s {
    compactions_applied_total = (s.compactions_applied_total + n) % 2 ^ 64;
  }

  -- The entries after the compaction, and whether there was one.
  abbrev pub after_compaction :
      Option (List MemoryEntry × Bool) → ForwarderState W → Option (ForwarderState W)
  after_compaction none s = none
  after_compaction (some (entries, true)) s = some (store_entries entries (count_compactions 1 s))
  after_compaction (some (entries, false)) s = some (store_entries entries s)

  -- Without the lifecycle, or where its snapshot fails.
  unfoldable pub persist_locally : MemoryEntry → ForwarderState W → Option (ForwarderState W)
  persist_locally entry s =
      let entries = unwrap_or (get forwarder.session_id s.session_memory_entries) [] in
      let longer = entries ++ entry ∷ [] in
      after_compaction
        (if forwarder.memory_compaction.enabled
          then compact_memory_entries (storage.now_millis s.tracking.world)
              forwarder.memory_compaction.max_events_threshold longer
          else some (longer, false))
        s

  -- What was recorded, and the snapshot that replaces the session's entries.
  abbrev pub count_new : Result ℕ String → ForwarderState W → ForwarderState W
  count_new (ok new_compactions) s =
      if ltb 0 new_compactions then count_compactions new_compactions s else s
  count_new (err e) s = s

  unfoldable pub record_in_lifecycle : String → ForwarderState W → ForwarderState W
  record_in_lifecycle transcript s =
      let (r, tracking) =
        lifecycle.record_transcript storage.service forwarder.user_id forwarder.session_id
          transcript s.tracking in
      count_new r (record s { tracking = tracking })

  unfoldable pub persist_snapshot :
      MemoryEntry → Result (List MemoryEntry) String → ForwarderState W → Option (ForwarderState W)
  unfolding persist_locally
  persist_snapshot entry (ok session_entries) s = some (store_entries session_entries s)
  persist_snapshot entry (err e) s = persist_locally entry s

  unfoldable pub persist_transcript_memory : String → ForwarderState W → Option (ForwarderState W)
  unfolding persist_snapshot record_in_lifecycle
  persist_transcript_memory transcript s =
      if forwarder.has_lifecycle
      then (let t = record_in_lifecycle transcript s in
          persist_snapshot (entry_of transcript s)
            (lifecycle.snapshot_memory_entries storage.service forwarder.user_id
              forwarder.session_id t.tracking.world)
            t)
      else persist_locally (entry_of transcript s) s

  unfoldable pub persist_transcript_artifact : String → ForwarderState W → ForwarderState W
  persist_transcript_artifact transcript s =
      if forwarder.has_artifacts
      then in_world
          (storage.save_artifact forwarder.user_id forwarder.session_id
            (String.◌++◌ "transcript-"
              (String.◌++◌ (six_digits (s.transcript_sequence + 1)) ".txt"))
            (text transcript))
          (record s { transcript_sequence = (s.transcript_sequence + 1) % 2 ^ 64 })
      else s

  unfoldable pub persist_audio_artifact : List ℕ → ForwarderState W → ForwarderState W
  persist_audio_artifact audio s =
      if forwarder.has_artifacts
      then in_world
          (storage.save_artifact forwarder.user_id forwarder.session_id
            (String.◌++◌ "audio-" (String.◌++◌ (six_digits (s.audio_sequence + 1)) ".pcm"))
            (inline_data "audio/pcm" audio))
          (record s { audio_sequence = (s.audio_sequence + 1) % 2 ^ 64 })
      else s

  unfoldable pub on_audio : List ℕ → ForwarderState W → Option (ForwarderState W)
  unfolding persist_audio_artifact
  on_audio audio s =
      let output : SessionAudioOutput = record {
        session_id = forwarder.session_id;
        audio_bytes = audio;
      } in
      some (
        persist_audio_artifact audio
          (if s.audio_open then record s { audio_tx = s.audio_tx ++ output ∷ [] } else s))

  abbrev pub transcript_output : String → SessionTranscriptOutput
  transcript_output said = record {
    session_id = forwarder.session_id;
    text = said;
    is_final = false;
  }

  abbrev pub send_transcript : String → ForwarderState W → ForwarderState W
  send_transcript said s =
      if s.transcript_open
      then record s { transcript_tx = s.transcript_tx ++ transcript_output said ∷ [] }
      else s

  abbrev pub keep_artifact : String → Option (ForwarderState W) → Option (ForwarderState W)
  keep_artifact said none = none
  keep_artifact said (some s) = some (persist_transcript_artifact said s)

  unfoldable pub on_text : String → ForwarderState W → Option (ForwarderState W)
  unfolding persist_transcript_memory persist_transcript_artifact
  on_text said s = keep_artifact said (persist_transcript_memory said (send_transcript said s))

  unfoldable pub on_transcript : String → ForwarderState W → Option (ForwarderState W)
  unfolding persist_transcript_memory persist_transcript_artifact
  on_transcript transcript s =
      keep_artifact transcript (persist_transcript_memory transcript (send_transcript transcript s))
