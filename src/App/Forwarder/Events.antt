-- ===== src/App/Forwarder/Events.antt =====
-- The events of a session that `GatewayEventForwarder` of liveclaw-app/src/main.rs gets, and what the
-- gateway should hear of them.
use liveclaw.Prelude.{
  ℕ, true, false, Option, none, some, List, [], ◌∷◌, ◌++◌, String, ◌≡◌, unwrap_or, string_Key,
}
use liveclaw.Prelude.Map.{get}
use liveclaw.Gateway.Channels.{SessionTranscriptOutput}
use liveclaw.App.Compaction.{compact_memory_entries}
use liveclaw.App.Forwarder.{
  Storage, GatewayEventForwarder, ForwarderState, on_audio, on_text, on_transcript,
}

pub data RuntimeEvent : Type 0 where
  audio_delta : List ℕ → RuntimeEvent
  text_delta : String → RuntimeEvent
  transcript_delta : String → RuntimeEvent

module _ {W : Type 0} (storage : Storage W) (forwarder : GatewayEventForwarder) where
  abbrev pub on_event : RuntimeEvent → ForwarderState W → Option (ForwarderState W)
  on_event (audio_delta audio) s = on_audio storage forwarder audio s
  on_event (text_delta said) s = on_text storage forwarder said s
  on_event (transcript_delta said) s = on_transcript storage forwarder said s

  abbrev pub and_then :
      Option (ForwarderState W)
      → (ForwarderState W → Option (ForwarderState W))
      → Option (ForwarderState W)
  and_then none f = none
  and_then (some s) f = f s

  -- The events of a session in their order, up to a panic.
  abbrev pub on_events : List RuntimeEvent → ForwarderState W → Option (ForwarderState W)
  on_events [] s = some s
  on_events (event ∷ events) s = and_then (on_event event s) (on_events events)

  -- What the gateway hears of a text: it is of the session of the forwarder, and not final.
  abbrev pub heard : String → SessionTranscriptOutput
  heard t = record { session_id = forwarder.session_id; text = t; is_final = false }

  -- What the gateway should hear: each text and each transcript, in order.
  abbrev pub said : List RuntimeEvent → List SessionTranscriptOutput
  said [] = []
  said (audio_delta audio ∷ events) = said events
  said (text_delta t ∷ events) = heard t ∷ said events
  said (transcript_delta t ∷ events) = heard t ∷ said events

  -- The entries of the session and one more for the text, with the time it came, cannot be
  -- compacted: the call panics.
  abbrev pub CannotCompact : (text : String) → ForwarderState W → Type 0
  CannotCompact text s =
      (forwarder.memory_compaction.enabled ≡ true)
      × ((now : ℕ) × (stamp : ℕ) × (compact_memory_entries now
              forwarder.memory_compaction.max_events_threshold
              (unwrap_or (get forwarder.session_id s.session_memory_entries) []
                ++ record {
                  role = "assistant";
                  parts = some text ∷ [];
                  author = "assistant";
                  timestamp = stamp;
                }
                  ∷ [])
            ≡ none))

  abbrev pub HoldsNow : List SessionTranscriptOutput → ForwarderState W → Type 0
  HoldsNow outputs s = (s.transcript_tx ≡ outputs) × (s.transcript_open ≡ true)

  -- The channel of the transcripts is open and holds these outputs, or there was a panic, and then
  -- `Panicked` holds.
  abbrev pub Holds :
      (Panicked : Type 0) → List SessionTranscriptOutput → Option (ForwarderState W) → Type 0
  Holds Panicked outputs none = Panicked
  Holds Panicked outputs (some s) = HoldsNow outputs s
