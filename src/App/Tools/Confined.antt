-- ===== src/App/Tools/Confined.antt =====
-- The files that the tool `read_workspace_file` of liveclaw-app/src/tools.rs reads.
use liveclaw.Prelude.{
  ℕ, ◌≤◌, Bool, true, false, Option, List, [], ◌∷◌, String, Result, ok, err, ◌≡◌, ◌≢◌, ◌↔◌, refl,
  arith, if◌then◌else◌,
}
use liveclaw.Prelude.Lists.{length, take, All}
use liveclaw.Text.{trim}
use liveclaw.App.Runner.{WorkspaceToolPolicy}
use liveclaw.App.Tools.{
  parent_dir, FilePath, PathError, forbidden_by, FileSystem, ◌>>=◌, ◌>>◌, fail_if, map_err,
  components, join_path, is_blocked, check_forbidden, resolve_workspace_file_path,
  read_workspace_file, ReadWorkspaceFileResponse,
}
use liveclaw.App.Tools.Paths.{
  IsRelative, IsRelative-is_absolute, no_parent_among, IsUnder, IsAllowed, starts_with-IsUnder,
  is_blocked-IsAllowed,
}

abbrev pub Passes : {A : Type 0} → (A → Type 0) → Result A PathError → Type 0
Passes P (ok a) = P a
Passes P (err e) = Unit {0}

module _ {B : Type 0} (P : B → Type 0) where
  fail_if-Passes :
      (b : Bool) (e : PathError) (r : Result B PathError)
      → (b ≡ false → Passes P r)
      → Passes P (fail_if b e >> r)
  unfolding fail_if ◌>>=◌
  fail_if-Passes true e r h = tt
  fail_if-Passes false e r h = h refl

  map_err-Passes :
      {A : Type 0} (f : String → PathError) (x : Result A String) (k : A → Result B PathError)
      → ((a : A) → x ≡ ok a → Passes P (k a))
      → Passes P (map_err f x >>= k)
  unfolding map_err ◌>>=◌
  map_err-Passes f (ok a) k h = h a refl
  map_err-Passes f (err e) k h = tt

  bind-Passes :
      {A : Type 0} (Q : A → Type 0) (x : Result A PathError) (k : A → Result B PathError)
      → Passes Q x
      → ((a : A) → Q a → Passes P (k a))
      → Passes P (x >>= k)
  unfolding ◌>>=◌
  bind-Passes Q (ok a) k h j = j a h
  bind-Passes Q (err e) k h j = tt

check_forbidden-Passes :
    (root resolved : FilePath) (forbidden : List String)
    → Passes
        (λ _. All (IsAllowed root resolved) forbidden)
        (check_forbidden root resolved forbidden)
unfolding check_forbidden
check_forbidden-Passes root resolved [] = tt
check_forbidden-Passes root resolved (f ∷ fs) =
    blocked (is_blocked root resolved f) refl (check_forbidden-Passes root resolved fs)
  where
    blocked :
        (b : Bool)
        → is_blocked root resolved f ≡ b
        → Passes (λ _. All (IsAllowed root resolved) fs) (check_forbidden root resolved fs)
        → Passes
            (λ _. All (IsAllowed root resolved) (f ∷ fs))
            (if b then err (forbidden_by (trim f)) else check_forbidden root resolved fs)
    blocked true e h = tt
    blocked false e h = more (check_forbidden root resolved fs) h
      where
        more :
            (r : Result (Unit {0}) PathError)
            → Passes (λ _. All (IsAllowed root resolved) fs) r
            → Passes (λ _. All (IsAllowed root resolved) (f ∷ fs)) r
        more (ok _) k = (is_blocked-IsAllowed root resolved f e, k)
        more (err _) k = tt

-- A resolved path is canonical, inside the canonical workspace root and under no forbidden path, as
-- the components of that are written.
pub record InWorkspace (fs : FileSystem) (policy : WorkspaceToolPolicy) (requested_path : String)
    (resolved : FilePath) : Type 0 where
  pub root : FilePath
  pub is_root : fs.canonicalize (components policy.workspace_root) ≡ ok root
  pub is_file : fs.canonicalize (join_path root (components (trim requested_path))) ≡ ok resolved
  pub is_inside : IsUnder resolved root
  pub is_allowed : All (IsAllowed root resolved) policy.forbidden_paths
  pub no_parent : All (λ c. c ≢ parent_dir) (components (trim requested_path))
  pub is_relative : IsRelative (components (trim requested_path))

module _ (fs : FileSystem) (policy : WorkspaceToolPolicy) where
  pub resolve-InWorkspace :
      (requested_path : String)
      → Passes
          (InWorkspace fs policy requested_path)
          (resolve_workspace_file_path fs policy requested_path)
  unfolding resolve_workspace_file_path
  resolve-InWorkspace requested_path =
      let P : FilePath → Type 0 = InWorkspace fs policy requested_path in
      fail_if-Passes P _ _ _ λ not_empty. fail_if-Passes P _ _ _ λ relative.
        fail_if-Passes P _ _ _ λ no_parent. map_err-Passes P _ _ _ λ root at_root.
          map_err-Passes P _ _ _ λ resolved at_file. fail_if-Passes P _ _ _ λ inside.
            bind-Passes P _ _ _ (check_forbidden-Passes root resolved policy.forbidden_paths)
              λ _ clear. record {
                root = root;
                is_root = at_root;
                is_file = at_file;
                is_inside = starts_with-IsUnder resolved root (ground (arith, inside));
                is_allowed = clear;
                no_parent = no_parent_among (components (trim requested_path)) no_parent;
                is_relative = IsRelative-is_absolute (components (trim requested_path)) relative;
              }

  -- What the tool answers comes from a file of the workspace, within the limit of the policy.
  pub record Previewed (path : String) (response : ReadWorkspaceFileResponse) : Type 0 where
    pub resolved : FilePath
    pub in_workspace : InWorkspace fs policy path resolved
    pub bytes : List ℕ
    pub is_read : fs.read resolved ≡ ok bytes
    pub is_preview : response.content ≡ fs.from_utf8_lossy (take response.bytes_read bytes)
    pub is_bounded : response.bytes_read ≤ policy.max_read_bytes
    pub is_truncated : (response.truncated ≡ false) ↔ (response.bytes_read ≡ length bytes)

  -- A file that the tool `read_workspace_file` reads has a canonical path that continues the
  -- canonical workspace root, and that continues no forbidden path of the policy, as the components
  -- of that are written after a trim, joined to the root if it is relative, unless it is blank; it
  -- was asked for by a relative path without `..`; the answer is the decoding of its first bytes,
  -- at most as many as the policy allows, and says that it is truncated exactly when it is not the
  -- whole file.
  pub read_workspace_file-Previewed :
      (path : String) (max_bytes : Option ℕ)
      → Passes (Previewed path) (read_workspace_file fs policy path max_bytes)
  unfolding read_workspace_file
  read_workspace_file-Previewed path max_bytes =
      let P : ReadWorkspaceFileResponse → Type 0 = Previewed path in
      bind-Passes P _ _ _ (resolve-InWorkspace path) λ resolved inside.
        map_err-Passes P _ _ _ λ bytes at_bytes. record {
          resolved = resolved;
          in_workspace = inside;
          bytes = bytes;
          is_read = at_bytes;
          is_preview = refl;
          is_bounded = omega arith;
          is_truncated = (λ h. ground (arith, h), λ h. ground (arith, h));
        }
