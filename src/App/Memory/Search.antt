-- ===== src/App/Memory/Search.antt =====
-- `FileMemoryService::search` of liveclaw-app/src/storage.rs: the entries that share a word with the
-- query.
use liveclaw.Prelude.{
  Bool, Option, none, some, List, [], ◌∷◌, ◌++◌, String, str_eq, unwrap_or, if◌then◌else◌,
  string_Key, map,
}
use liveclaw.Prelude.Lists as lists
use liveclaw.Prelude.Map.{get}
use liveclaw.Text.{split_whitespace}
use liveclaw.App.Compaction.{MemoryEntry}
use liveclaw.App.Lifecycle.Events.{memory_entry}
use liveclaw.App.Memory.{memory_Key, PersistedMemoryEntry, BySession, MemoryStore}

-- `extract_words`: the words of a text in lower case; a set is a list.
abbrev pub extract_words : (String → String) → String → List String
extract_words to_lowercase text = map to_lowercase (split_whitespace text)

unfoldable pub words_of_parts : (String → String) → List (Option String) → List String
words_of_parts to_lowercase [] = []
words_of_parts to_lowercase (none ∷ parts) = words_of_parts to_lowercase parts
words_of_parts to_lowercase (some text ∷ parts) =
    extract_words to_lowercase text ++ words_of_parts to_lowercase parts

abbrev pub has_word : List String → String → Bool
has_word words word = lists.any (λ w. str_eq w word) words

unfoldable pub matching :
    (String → String) → List String → List PersistedMemoryEntry → List MemoryEntry
unfolding words_of_parts
matching to_lowercase query_words [] = []
matching to_lowercase query_words (entry ∷ entries) =
    let rest = matching to_lowercase query_words entries in
    if lists.any (has_word (words_of_parts to_lowercase entry.content.parts)) query_words
    then memory_entry entry.content entry.author entry.timestamp_millis ∷ rest
    else rest

unfoldable pub search_sessions : (String → String) → List String → BySession → List MemoryEntry
unfolding matching
search_sessions to_lowercase query_words [] = []
search_sessions to_lowercase query_words ((session_id, entries) ∷ sessions) =
    matching to_lowercase query_words entries ++ search_sessions to_lowercase query_words sessions

unfoldable pub search :
    (String → String) → (app_name user_id query : String) → MemoryStore → List MemoryEntry
unfolding search_sessions
search to_lowercase app_name user_id query store =
    let query_words = extract_words to_lowercase query in
    if lists.is_empty query_words
    then []
    else search_sessions to_lowercase query_words
        (unwrap_or (get (record { app_name = app_name; user_id = user_id }) store) [])
