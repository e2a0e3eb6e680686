-- ===== src/App/Tests/Compaction.antt =====
-- A compaction of three entries to two.
use liveclaw.Prelude.{ℕ, true, false, some, none, List, [], ◌∷◌, String, ◌≡◌, refl}
use liveclaw.Text.{trim}
use liveclaw.App.Compaction.{MemoryEntry, summary_entry, compact_memory_entries}
use liveclaw.App.Compaction.Kept.{
  Outcome, compact_memory_entries-Outcome, compact_memory_entries-idle,
}

abbrev said : String → ℕ → MemoryEntry
said text time = record {
  role = "user";
  parts = none ∷ some text ∷ [];
  author = "alice";
  timestamp = time;
}

abbrev three : List MemoryEntry
three = said " hello " 1 ∷ said "again" 2 ∷ said "goodbye" 3 ∷ []

abbrev two : List MemoryEntry
two = summary_entry 9 "compaction_summary: hello again" ∷ said "goodbye" 3 ∷ []

compact_memory_entries-Outcome_example : Outcome 9 2 three (compact_memory_entries 9 2 three)
compact_memory_entries-Outcome_example = compact_memory_entries-Outcome 9 2 three

compact_memory_entries-idle_example : compact_memory_entries 10 2 two ≡ some (two, false)
unfolding compact_memory_entries trim
compact_memory_entries-idle_example = compact_memory_entries-idle 2 9 10 three two true refl
