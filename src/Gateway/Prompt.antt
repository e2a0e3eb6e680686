-- ===== src/Gateway/Prompt.antt =====
-- The prompt bridge of liveclaw-gateway/src/server.rs: when a prompt asks for a file of the
-- workspace, and the text that is sent in its place.
use Prim.Native.String
use liveclaw.Prelude.{
  Bool, ◌&&◌, ◌||◌, Char, code, Option, none, some, List, [], ◌∷◌, String, nat_eq, if◌then◌else◌,
}
use liveclaw.Prelude.Lists.{any}
use liveclaw.Text.{
  codes, is_empty, contains, has_suffix, to_ascii_lowercase, split_whitespace, trim_by,
  trim_dot_slash,
}

-- The characters that `trim_matches` takes off a word.
unfoldable pub is_quote : Char → Bool
is_quote c = any (nat_eq (code c)) (codes "\"'`,;:()[]{}")

abbrev pub known_extensions : List String
known_extensions =
    ".md" ∷ ".txt" ∷ ".toml" ∷ ".json" ∷ ".yaml" ∷ ".yml" ∷ ".rs" ∷ ".ts" ∷ ".js" ∷ ".py" ∷ ".sh"
    ∷ []

unfoldable pub is_file_name : String → Bool
is_file_name candidate =
    let lower = to_ascii_lowercase (trim_dot_slash candidate) in
    (contains candidate "/" || contains candidate ".") && any (has_suffix lower) known_extensions

-- The loop over the words: the first that looks like a file.
unfoldable pub first_file : List String → Option String
unfolding is_quote is_file_name trim_by trim_dot_slash
first_file [] = none
first_file (token ∷ tokens) =
    let candidate = trim_by is_quote token in
    let rest = first_file tokens in
    if is_empty candidate
    then rest
    else if is_file_name candidate
    then some (trim_dot_slash candidate)
    else rest

unfoldable pub has_read_intent : String → Bool
has_read_intent lower =
    contains lower "read_workspace_file"
    || contains lower "read file"
    || contains lower "read the file"
    || contains lower "readme"

unfoldable pub maybe_extract_workspace_read_path : String → Option String
unfolding first_file has_read_intent
maybe_extract_workspace_read_path prompt =
    let lower = to_ascii_lowercase prompt in
    if has_read_intent lower
    then elim (first_file (split_whitespace prompt)) [
      | some path ↦ some path
      | none ↦ if contains lower "readme" then some "README.md" else none
    ]
    else none

abbrev join : List String → String
join [] = ""
join (s ∷ ss) = String.◌++◌ s (join ss)

unfoldable pub build_workspace_summary_prompt : (user_prompt path content : String) → Bool → String
build_workspace_summary_prompt user_prompt path content truncated = join (
    "User request:\n"
    ∷ user_prompt
    ∷ "\n\nContext from read_workspace_file(path=\""
    ∷ path
    ∷ "\"):\n"
    ∷ content
    ∷ "\n\n"
    ∷ (if truncated
        then "The file content was truncated for safety. If needed, ask for a narrower section."
        else "The file content is complete for this read.")
    ∷ "\n\nNow answer the user request directly."
    ∷ [])
