-- ===== src/App/Forwarder/Keeps.antt =====
-- The channel of the transcripts along the events of `GatewayEventForwarder`, liveclaw-app/src/main.rs.
use liveclaw.Prelude.{
  ℕ, Bool, true, false, Option, none, some, List, [], ◌∷◌, ◌++◌, String, Result, ok, err, ◌≡◌, refl,
  ap, arith, if◌then◌else◌, sym, subst, unwrap_or, string_Key, Bool-cases, inl, inr,
}
use liveclaw.Prelude.Map.{get}
use liveclaw.Gateway.Channels.{SessionTranscriptOutput}
use liveclaw.App.Compaction.{MemoryEntry, compact_memory_entries}
use liveclaw.App.Lifecycle as lifecycle
use liveclaw.App.Forwarder.{
  Storage, GatewayEventForwarder, ForwarderState, count_new, persist_locally, persist_snapshot,
  persist_transcript_memory, persist_transcript_artifact, persist_audio_artifact,
  record_in_lifecycle, send_transcript, keep_artifact, entry_of, on_audio, after_compaction,
}
use liveclaw.App.Forwarder.Events.{heard, CannotCompact, HoldsNow, Holds}

module _ {W : Type 0} (storage : Storage W) (forwarder : GatewayEventForwarder) where
  abbrev entries_with : MemoryEntry → ForwarderState W → List MemoryEntry
  entries_with entry s =
      unwrap_or (get forwarder.session_id s.session_memory_entries) [] ++ entry ∷ []

  -- What a panic on these entries gives.
  abbrev Explains : (Panicked : Type 0) → List MemoryEntry → Type 0
  Explains Panicked entries =
      (now : ℕ)
      → forwarder.memory_compaction.enabled ≡ true
      → compact_memory_entries now forwarder.memory_compaction.max_events_threshold entries ≡ none
      → Panicked

  compaction_keeps :
      (P : Type 0) (r : Option (List MemoryEntry × Bool)) (outputs : List SessionTranscriptOutput)
      (s : ForwarderState W)
      → (r ≡ none → P)
      → HoldsNow storage forwarder outputs s
      → Holds storage forwarder P outputs (after_compaction storage forwarder r s)
  compaction_keeps P none outputs s p h = p refl
  compaction_keeps P (some (entries, true)) outputs s p h = h
  compaction_keeps P (some (entries, false)) outputs s p h = h

  locally_keeps :
      (P : Type 0) (entry : MemoryEntry) (outputs : List SessionTranscriptOutput)
      (s : ForwarderState W)
      → Explains P (entries_with entry s)
      → HoldsNow storage forwarder outputs s
      → Holds storage forwarder P outputs (persist_locally storage forwarder entry s)
  unfolding persist_locally
  locally_keeps P entry outputs s explains h =
      compaction_keeps P _ outputs s (panics _ forwarder.memory_compaction.enabled refl) h
    where
      panics :
          (now : ℕ) (b : Bool)
          → forwarder.memory_compaction.enabled ≡ b
          → (if b
              then compact_memory_entries now forwarder.memory_compaction.max_events_threshold
                  (entries_with entry s)
              else some (entries_with entry s, false))
            ≡ none
          → P
      panics now true on e = explains now on e
      panics now false on e = cc

  snapshot_keeps :
      (P : Type 0) (entry : MemoryEntry) (r : Result (List MemoryEntry) String)
      (outputs : List SessionTranscriptOutput) (s : ForwarderState W)
      → Explains P (entries_with entry s)
      → HoldsNow storage forwarder outputs s
      → Holds storage forwarder P outputs (persist_snapshot storage forwarder entry r s)
  unfolding persist_snapshot
  snapshot_keeps P entry (ok session_entries) outputs s explains h = h
  snapshot_keeps P entry (err e) outputs s explains h = locally_keeps P entry outputs s explains h

  count_keeps :
      (r : Result ℕ String) (outputs : List SessionTranscriptOutput) (s : ForwarderState W)
      → HoldsNow storage forwarder outputs s
      → HoldsNow storage forwarder outputs (count_new storage forwarder r s)
  count_keeps (ok n) outputs s h = ground (arith, h)
  count_keeps (err e) outputs s h = h

  record_keeps :
      (transcript : String) (outputs : List SessionTranscriptOutput) (s : ForwarderState W)
      → HoldsNow storage forwarder outputs s
      → HoldsNow storage forwarder outputs (record_in_lifecycle storage forwarder transcript s)
  unfolding record_in_lifecycle
  record_keeps transcript outputs s h =
      let x =
        lifecycle.record_transcript storage.service forwarder.user_id forwarder.session_id
          transcript s.tracking in
      count_keeps x.0 outputs (record s { tracking = x.1 }) h

  count_entries :
      (r : Result ℕ String) (s : ForwarderState W)
      → (count_new storage forwarder r s).session_memory_entries ≡ s.session_memory_entries
  count_entries (ok n) s = ground arith
  count_entries (err e) s = refl

  -- The lifecycle's record leaves the entries of the sessions.
  record_entries :
      (transcript : String) (s : ForwarderState W)
      → (record_in_lifecycle storage forwarder transcript s).session_memory_entries
        ≡ s.session_memory_entries
  unfolding record_in_lifecycle
  record_entries transcript s =
      let x =
        lifecycle.record_transcript storage.service forwarder.user_id forwarder.session_id
          transcript s.tracking in
      count_entries x.0 (record s { tracking = x.1 })

  choose_keeps :
      (P : Type 0) (b : Bool) (outputs : List SessionTranscriptOutput)
      (r q : Option (ForwarderState W))
      → Holds storage forwarder P outputs r
      → Holds storage forwarder P outputs q
      → Holds storage forwarder P outputs (if b then r else q)
  choose_keeps P true outputs r q h k = h
  choose_keeps P false outputs r q h k = k

  memory_keeps :
      (P : Type 0) (transcript : String) (outputs : List SessionTranscriptOutput)
      (s : ForwarderState W)
      → Explains P (entries_with (entry_of storage forwarder transcript s) s)
      → HoldsNow storage forwarder outputs s
      → Holds storage forwarder P outputs (persist_transcript_memory storage forwarder transcript s)
  unfolding persist_transcript_memory
  memory_keeps P transcript outputs s explains h =
      choose_keeps P forwarder.has_lifecycle outputs _ _
        (snapshot_keeps P _ _ outputs (record_in_lifecycle storage forwarder transcript s)
          (subst
            (λ m. Explains P (
              unwrap_or (get forwarder.session_id m) []
              ++ entry_of storage forwarder transcript s ∷ []))
            (sym (record_entries transcript s)) explains)
          (record_keeps transcript outputs s h))
        (locally_keeps P _ outputs s explains h)

  artifact_keeps :
      (P : Type 0) (text : String) (outputs : List SessionTranscriptOutput)
      (r : Option (ForwarderState W))
      → Holds storage forwarder P outputs r
      → Holds storage forwarder P outputs (keep_artifact storage forwarder text r)
  unfolding persist_transcript_artifact
  artifact_keeps P text outputs none h = h
  artifact_keeps P text outputs (some s) h = ground (arith, h)

  send_keeps :
      (text : String) (outputs : List SessionTranscriptOutput) (s : ForwarderState W)
      → HoldsNow storage forwarder outputs s
      → HoldsNow storage forwarder
          (outputs ++ heard storage forwarder text ∷ [])
          (send_transcript storage forwarder text s)
  send_keeps text outputs s h =
      rw h.1 (ap (λ sent. sent ++ heard storage forwarder text ∷ []) h.0, refl)

  send_entries :
      (text : String) (s : ForwarderState W)
      → (send_transcript storage forwarder text s).session_memory_entries ≡ s.session_memory_entries
  send_entries text s = elim (Bool-cases s.transcript_open) [
    | inl open_now ↦ rw open_now refl
    | inr closed ↦ rw closed refl
  ]

  pub transcript_keeps :
      (text : String) (outputs : List SessionTranscriptOutput) (s : ForwarderState W)
      → HoldsNow storage forwarder outputs s
      → Holds storage forwarder
          (CannotCompact storage forwarder text s)
          (outputs ++ heard storage forwarder text ∷ [])
          (keep_artifact storage forwarder text (
            persist_transcript_memory storage forwarder text
              (send_transcript storage forwarder text s)))
  transcript_keeps text outputs s h =
      let P = CannotCompact storage forwarder text s in
      let sent = send_transcript storage forwarder text s in
      artifact_keeps P text _ _ (
        memory_keeps P text _ sent
          (subst
            (λ m. Explains P (
              unwrap_or (get forwarder.session_id m) []
              ++ entry_of storage forwarder text sent ∷ []))
            (sym (send_entries text s))
            (λ now on e. (on, (now, (entry_of storage forwarder text sent).timestamp, e))))
          (send_keeps text outputs s h))

  pub audio_keeps :
      (audio : List ℕ) (outputs : List SessionTranscriptOutput) (s : ForwarderState W)
      → HoldsNow storage forwarder outputs s
      → Holds storage forwarder ⊥ outputs (on_audio storage forwarder audio s)
  unfolding on_audio persist_audio_artifact
  audio_keeps audio outputs s h = ground (arith, h)
