-- ===== src/App/Lifecycle/Events.antt =====
-- The events of a session of adk-session, as liveclaw-app/src/main.rs reads them: the summary of
-- `TranscriptCompactionSummarizer`, and the memory of `memory_entries_from_session_events`.
use Prim.Native.String
use liveclaw.Prelude.{
  ℕ, Bool, true, false, not, Option, none, some, List, [], ◌∷◌, String, leb, if◌then◌else◌,
  string_Key,
}
use liveclaw.Prelude.Lists.{length, any}
use liveclaw.Text.{trim, is_empty, show}
use liveclaw.App.Compaction.{MemoryEntry, entry_text, join, bounded_text}

pub record Content : Type 0 where
  pub role : String
  pub parts : List (Option String)

abbrev pub text_content : String → String → Content
text_content role text = record { role = role; parts = some text ∷ [] }

pub record EventCompaction : Type 0 where
  pub start_timestamp : ℕ
  pub end_timestamp : ℕ
  pub compacted_content : Content

-- What the code reads of an `adk_core::Event`.
pub record Event : Type 0 where
  pub author : String
  pub timestamp : ℕ
  pub content : Option Content
  pub compaction : Option EventCompaction

abbrev pub memory_entry : Content → String → ℕ → MemoryEntry
memory_entry content author timestamp = record {
  role = content.role;
  parts = content.parts;
  author = author;
  timestamp = timestamp;
}

-- The chunks of `TranscriptCompactionSummarizer::summarize_events`.
unfoldable pub event_chunks : List Event → List String
unfolding entry_text
event_chunks [] = []
event_chunks (event ∷ events) =
    let rest = event_chunks events in
    elim event.content [
      | none ↦ rest
      | some content ↦ elim (entry_text content.parts) [ none ↦ rest | some text ↦ text ∷ rest ]
    ]

abbrev pub summary_event : (now start_timestamp end_timestamp : ℕ) → String → Event
summary_event now start_timestamp end_timestamp text = record {
  author = "system";
  timestamp = now;
  content = some (text_content "system" text);
  compaction = some (record {
    start_timestamp = start_timestamp;
    end_timestamp = end_timestamp;
    compacted_content = text_content "system" text;
  });
}

abbrev pub last_event : Event → List Event → Event
last_event event [] = event
last_event event (next ∷ events) = last_event next events

unfoldable pub events_text : List Event → String
unfolding event_chunks join
events_text events = elim (event_chunks events) [
  | [] ↦ String.◌++◌ "compaction_summary: compacted " (String.◌++◌ (show (length events)) " events")
  | s ∷ ss ↦ String.◌++◌ "compaction_summary: " (join (s ∷ ss))
]

-- None where `truncate` panics; no event for no events.
unfoldable pub summarize_events : (now : ℕ) → List Event → Option (Option Event)
unfolding bounded_text events_text
summarize_events now [] = some none
summarize_events now (event ∷ events) = elim (bounded_text (events_text (event ∷ events))) [
  | none ↦ none
  | some text ↦
      some (some (summary_event now event.timestamp (last_event event events).timestamp text))
]

-- The compaction of the last event that has one.
unfoldable pub latest_compaction : List Event → Option EventCompaction
latest_compaction [] = none
latest_compaction (event ∷ events) = elim (latest_compaction events) [
  | none ↦ event.compaction
  | some compaction ↦ some compaction
]

abbrev pub has_text : List (Option String) → Bool
has_text = any λ part. elim part [ none ↦ false | some text ↦ not (is_empty (trim text)) ]

abbrev pub is_old : Option ℕ → ℕ → Bool
is_old none timestamp = false
is_old (some boundary_ts) timestamp = leb timestamp boundary_ts

-- The entry of one event: none where the loop goes on to the next.
unfoldable pub event_entry : Option ℕ → Event → Option MemoryEntry
event_entry boundary event =
    if elim event.compaction [ none ↦ false | some c ↦ true ]
    then none
    else if is_old boundary event.timestamp
    then none
    else elim event.content [
      | none ↦ none
      | some content ↦
          if has_text content.parts
          then some (
              memory_entry content
                (if is_empty (trim event.author) then "assistant" else event.author)
                event.timestamp)
          else none
    ]

unfoldable pub event_entries : Option ℕ → List Event → List MemoryEntry
unfolding event_entry
event_entries boundary [] = []
event_entries boundary (event ∷ events) =
    let rest = event_entries boundary events in
    elim (event_entry boundary event) [ none ↦ rest | some entry ↦ entry ∷ rest ]

unfoldable pub memory_entries_from_session_events : List Event → List MemoryEntry
unfolding event_entries latest_compaction
memory_entries_from_session_events events = elim (latest_compaction events) [
  | none ↦ event_entries none events
  | some compaction ↦
      memory_entry compaction.compacted_content "system" compaction.end_timestamp
      ∷ event_entries (some compaction.end_timestamp) events
]
