-- ===== src/App/Tools.antt =====
-- The workspace's files of liveclaw-app/src/tools.rs: `resolve_workspace_file_path` and the tool
-- `read_workspace_file`. A path is the list of its `Component`s, as on Unix. The file system is a
-- parameter, and `String::from_utf8_lossy`.
pub mod Confined
pub mod Paths
use Prim.Native.String
use liveclaw.Prelude.{
  ℕ, min, max, code, Bool, true, false, ◌&&◌, ◌||◌, Option, none, some, List, [], ◌∷◌, ◌++◌, String,
  Result, ok, err, str_eq, ltb, nat_eq, unwrap_or, if◌then◌else◌,
}
use liveclaw.Prelude.Lists.{length, take, any}
use liveclaw.Text.{trim, is_empty}
use liveclaw.App.Runner.{WorkspaceToolPolicy}

pub data Component : Type 0 where
  root_dir : Component
  cur_dir : Component
  parent_dir : Component
  normal : String → Component

abbrev pub FilePath : Type 0
FilePath = List Component

-- The parts between the slashes, with the one read so far.
unfoldable pub segments : String → String → List String
segments part String.[] = part ∷ []
segments part (String.◌∷◌ c s) =
    let next = segments "" s in
    let longer = segments (String.◌++◌ part (String.◌∷◌ c "")) s in
    if nat_eq (code c) b'/' then part ∷ next else longer

unfoldable pub component_of : String → List Component
component_of part =
    if is_empty part || str_eq part "."
    then []
    else if str_eq part ".."
    then parent_dir ∷ []
    else normal part ∷ []

abbrev pub inner_components : List String → FilePath
inner_components [] = []
inner_components (part ∷ parts) = component_of part ++ inner_components parts

-- A leading `.` is a component, one further on is none.
abbrev pub path_components : List String → FilePath
path_components [] = []
path_components (part ∷ []) = if str_eq part "." then cur_dir ∷ [] else component_of part
path_components (part ∷ next ∷ parts) =
    let rest = inner_components (next ∷ parts) in
    if is_empty part
    then root_dir ∷ rest
    else if str_eq part "."
    then cur_dir ∷ rest
    else component_of part ++ rest

unfoldable pub components : String → FilePath
unfolding segments component_of
components s = path_components (segments "" s)

abbrev pub is_absolute : FilePath → Bool
is_absolute (root_dir ∷ path) = true
is_absolute path = false

abbrev pub is_parent : Component → Bool
is_parent parent_dir = true
is_parent other = false

abbrev pub same_component : Component → Component → Bool
same_component root_dir root_dir = true
same_component cur_dir cur_dir = true
same_component parent_dir parent_dir = true
same_component (normal a) (normal b) = str_eq a b
same_component a b = false

-- `Path::starts_with`, by components.
unfoldable pub starts_with : FilePath → FilePath → Bool
starts_with path [] = true
starts_with [] (b ∷ base) = false
starts_with (a ∷ path) (b ∷ base) = same_component a b && starts_with path base

-- `strip_prefix(base).unwrap_or(Path::new(""))`
unfoldable pub strip_prefix : FilePath → FilePath → FilePath
strip_prefix path [] = path
strip_prefix [] (b ∷ base) = []
strip_prefix (a ∷ path) (b ∷ base) =
    let rest = strip_prefix path base in if same_component a b then rest else []

-- `Path::join`.
abbrev pub join_path : FilePath → FilePath → FilePath
join_path base path = if is_absolute path then path else base ++ path

pub data PathError : Type 0 where
  path_is_empty : PathError
  absolute_path : PathError
  parent_traversal : PathError
  root_not_accessible : String → PathError
  not_accessible : FilePath → String → PathError
  escapes_root : PathError
  forbidden_by : String → PathError
  not_read : FilePath → String → PathError

pub record FileSystem : Type 0 where
  pub canonicalize : FilePath → Result FilePath String
  pub read : FilePath → Result (List ℕ) String
  pub from_utf8_lossy : List ℕ → String

infixl 5 ◌>>=◌ ◌>>◌
unfoldable pub ◌>>=◌ :
    {A B : Type 0} → Result A PathError → (A → Result B PathError) → Result B PathError
ok a >>= f = f a
err e >>= f = err e

abbrev pub ◌>>◌ :
    {B : Type 0} → Result (Unit {0}) PathError → Result B PathError → Result B PathError
m >> k = m >>= λ _. k

unfoldable pub fail_if : Bool → PathError → Result (Unit {0}) PathError
fail_if b e = if b then err e else ok tt

unfoldable pub map_err : {A : Type 0} → (String → PathError) → Result A String → Result A PathError
map_err f (ok a) = ok a
map_err f (err e) = err (f e)

-- Whether a forbidden path of the policy covers the resolved one.
unfoldable pub is_blocked : (root resolved : FilePath) → (forbidden : String) → Bool
unfolding starts_with strip_prefix components
is_blocked root resolved forbidden =
    let forbidden_path = components (trim forbidden) in
    if is_empty (trim forbidden)
    then false
    else if is_absolute forbidden_path
    then starts_with resolved forbidden_path
    else starts_with (strip_prefix resolved root) forbidden_path

unfoldable pub check_forbidden :
    (root resolved : FilePath) → List String → Result (Unit {0}) PathError
unfolding is_blocked
check_forbidden root resolved [] = ok tt
check_forbidden root resolved (forbidden ∷ rest) =
    let others = check_forbidden root resolved rest in
    if is_blocked root resolved forbidden then err (forbidden_by (trim forbidden)) else others

pub record ReadWorkspaceFileResponse : Type 0 where
  pub path : String
  pub bytes_read : ℕ
  pub truncated : Bool
  pub content : String

module _ (fs : FileSystem) (policy : WorkspaceToolPolicy) where
  unfoldable pub resolve_workspace_file_path : (requested_path : String) → Result FilePath PathError
  unfolding check_forbidden components
  resolve_workspace_file_path requested_path = do
    let trimmed = trim requested_path
    fail_if (is_empty trimmed) path_is_empty
    let requested = components trimmed
    fail_if (is_absolute requested) absolute_path
    fail_if (any is_parent requested) parent_traversal
    root ← map_err root_not_accessible (fs.canonicalize (components policy.workspace_root))
    let candidate = join_path root requested
    resolved ← map_err (not_accessible candidate) (fs.canonicalize candidate)
    fail_if (if starts_with resolved root then false else true) escapes_root
    check_forbidden root resolved policy.forbidden_paths
    ok resolved

  abbrev pub byte_limit : Option ℕ → ℕ
  byte_limit max_bytes =
      min (max (unwrap_or max_bytes policy.max_read_bytes) 1) policy.max_read_bytes

  abbrev pub preview : (path : String) → Option ℕ → List ℕ → ReadWorkspaceFileResponse
  preview path max_bytes bytes =
      let take_len = min (length bytes) (byte_limit max_bytes) in
      record {
        path = path;
        bytes_read = take_len;
        truncated = ltb take_len (length bytes);
        content = fs.from_utf8_lossy (take take_len bytes);
      }

  unfoldable pub read_workspace_file :
      (path : String) → (max_bytes : Option ℕ) → Result ReadWorkspaceFileResponse PathError
  unfolding resolve_workspace_file_path
  read_workspace_file path max_bytes = do
    resolved_path ← resolve_workspace_file_path path
    bytes ← map_err (not_read resolved_path) (fs.read resolved_path)
    ok (preview path max_bytes bytes)

unfoldable pub path_results : Unit {0}
unfolding ◌>>=◌ fail_if map_err
path_results = tt
