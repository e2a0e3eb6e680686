-- ===== src/App/Compaction.antt =====
-- `compact_memory_entries` of liveclaw-app/src/main.rs. A text is a list of Unicode scalar values, whose
-- length in bytes is that of its UTF-8 encoding.
pub mod Kept
use Prim.Native.String
use liveclaw.Prelude.{
  ℕ, zero, suc, ◌+◌, ◌-◌, ◌/◌, max, code, Char, Bool, true, false, ◌||◌, Option, none, some, List,
  [], ◌∷◌, String, leb, ltb, nat_eq, if◌then◌else◌,
}
use liveclaw.Prelude.Lists.{length, drop}
use liveclaw.Text.{trim, is_empty, show}

-- An entry's content is a role and the texts of its parts, none for a part that has no text.
pub record MemoryEntry : Type 0 where
  pub role : String
  pub parts : List (Option String)
  pub author : String
  pub timestamp : ℕ

abbrev pub utf8_length : Char → ℕ
utf8_length c =
    if ltb (code c) 0x80
    then 1
    else if ltb (code c) 0x800
    then 2
    else if ltb (code c) 0x10000
    then 3
    else 4

-- `str::len`.
unfoldable pub byte_length : String → ℕ
byte_length String.[] = 0
byte_length (String.◌∷◌ c s) = utf8_length c + byte_length s

-- `String::truncate`: none where it panics, since the place is inside a character.
unfoldable pub truncate : ℕ → String → Option String
truncate n String.[] = some String.[]
truncate zero (String.◌∷◌ c s) = some String.[]
truncate (suc n) (String.◌∷◌ c s) =
    let rest = truncate (suc n - utf8_length c) s in
    if leb (utf8_length c) (suc n)
    then elim rest [ none ↦ none | some t ↦ some (String.◌∷◌ c t) ]
    else none

-- `parts.iter().find_map(|part| part.text().map(str::trim)).filter(|text| !text.is_empty())`
unfoldable pub entry_text : List (Option String) → Option String
entry_text [] = none
entry_text (none ∷ parts) = entry_text parts
entry_text (some text ∷ parts) = if is_empty (trim text) then none else some (trim text)

-- The summary of the first entries.
unfoldable pub summary_chunks : ℕ → List MemoryEntry → List String
unfolding entry_text
summary_chunks n [] = []
summary_chunks zero (entry ∷ entries) = []
summary_chunks (suc n) (entry ∷ entries) =
    let rest = summary_chunks n entries in
    elim (entry_text entry.parts) [ none ↦ rest | some text ↦ text ∷ rest ]

-- `join(" ")`.
unfoldable pub join : List String → String
join [] = ""
join (s ∷ []) = s
join (s ∷ t ∷ ts) = String.◌++◌ s (String.◌++◌ " " (join (t ∷ ts)))

unfoldable pub summary_text : ℕ → List MemoryEntry → String
unfolding summary_chunks join
summary_text compact_count entries = elim (summary_chunks compact_count entries) [
  | [] ↦ String.◌++◌ "compaction_summary: compacted " (String.◌++◌ (show compact_count) " events")
  | s ∷ ss ↦ String.◌++◌ "compaction_summary: " (join (s ∷ ss))
]

-- `if summary_text.len() > 4_096 { summary_text.truncate(4_096); }`
unfoldable pub bounded_text : String → Option String
unfolding byte_length truncate
bounded_text text = if ltb 4096 (byte_length text) then truncate 4096 text else some text

abbrev pub summary_entry : (now : ℕ) → String → MemoryEntry
summary_entry now text = record {
  role = "system";
  parts = some text ∷ [];
  author = "system";
  timestamp = now;
}

-- `iter().skip(n)` is `drop`. The entries after the call and its answer; none where it panics.
unfoldable pub compact_memory_entries :
    (now max_events_threshold : ℕ) → List MemoryEntry → Option (List MemoryEntry × Bool)
unfolding summary_text bounded_text
compact_memory_entries now max_events_threshold entries =
    let keep_recent = max 1 (max_events_threshold / 2) in
    let compact_count = length entries - keep_recent in
    if ltb max_events_threshold 2 || leb (length entries) max_events_threshold
    then some (entries, false)
    else if nat_eq compact_count 0
    then some (entries, false)
    else elim (bounded_text (summary_text compact_count entries)) [
      | none ↦ none
      | some text ↦ some (summary_entry now text ∷ drop compact_count entries, true)
    ]
