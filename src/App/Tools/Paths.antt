-- ===== src/App/Tools/Paths.antt =====
-- Paths under one another, and what the test for a forbidden path of liveclaw-app/src/tools.rs means.
use liveclaw.Prelude.{
  true, false, [], ◌∷◌, ◌++◌, String, ◌≡◌, ◌≢◌, ◌⊎◌, inl, inr, refl, sym, ap, ap₂, ◌∙◌, subst,
  arith, Bool-cases, eq_iff,
}
use liveclaw.Prelude.Lists.{any, All}
use liveclaw.Text.{trim, is_empty}
use liveclaw.App.Tools.{
  Component, root_dir, cur_dir, parent_dir, normal, same_component, strip_prefix, FilePath,
  components, is_absolute, starts_with, is_blocked, is_parent,
}

same_component_refl : (a : Component) → same_component a a ≡ true
same_component_refl root_dir = refl
same_component_refl cur_dir = refl
same_component_refl parent_dir = refl
same_component_refl (normal s) = (eq_iff s s).1 refl

same_component_sound : (a b : Component) → same_component a b ≡ true → a ≡ b
same_component_sound root_dir root_dir h = refl
same_component_sound root_dir cur_dir h = cc
same_component_sound root_dir parent_dir h = cc
same_component_sound root_dir (normal t) h = cc
same_component_sound cur_dir root_dir h = cc
same_component_sound cur_dir cur_dir h = refl
same_component_sound cur_dir parent_dir h = cc
same_component_sound cur_dir (normal t) h = cc
same_component_sound parent_dir root_dir h = cc
same_component_sound parent_dir cur_dir h = cc
same_component_sound parent_dir parent_dir h = refl
same_component_sound parent_dir (normal t) h = cc
same_component_sound (normal s) root_dir h = cc
same_component_sound (normal s) cur_dir h = cc
same_component_sound (normal s) parent_dir h = cc
same_component_sound (normal s) (normal t) h = ap normal ((eq_iff s t).0 h)

starts_with-append : (base rest : FilePath) → starts_with (base ++ rest) base ≡ true
unfolding starts_with
starts_with-append [] rest = refl
starts_with-append (b ∷ base) rest = rw (same_component_refl b) (starts_with-append base rest)

strip_prefix-append :
    (root path rest : FilePath) → strip_prefix ((root ++ path) ++ rest) root ≡ path ++ rest
unfolding strip_prefix
strip_prefix-append [] path rest = refl
strip_prefix-append (b ∷ root) path rest =
    rw (same_component_refl b) (strip_prefix-append root path rest)

-- A path is another one and what follows it.
abbrev pub IsUnder : (path base : FilePath) → Type 0
IsUnder path base = (rest : FilePath) × (path ≡ base ++ rest)

pub starts_with-IsUnder : (path base : FilePath) → starts_with path base ≡ true → IsUnder path base
unfolding starts_with
starts_with-IsUnder path [] h = (path, refl)
starts_with-IsUnder [] (b ∷ base) h = cc
starts_with-IsUnder (a ∷ path) (b ∷ base) h =
    let (rest, e) = starts_with-IsUnder path base (ground (arith, h)) in
    (rest, ap₂ (λ x xs. x ∷ xs) (same_component_sound a b (ground (arith, h))) e)

empty_text : (s : String) → is_empty s ≡ true → s ≡ ""
empty_text String.[] h = refl
empty_text (String.◌∷◌ c s) h = cc

-- Where a path of the policy is: from the root of the file system, or else from the workspace's.
abbrev pub placed_in : (root path : FilePath) → FilePath
placed_in root (root_dir ∷ path) = root_dir ∷ path
placed_in root path = root ++ path

placed_in-absolute : (root path : FilePath) → is_absolute path ≡ true → placed_in root path ≡ path
placed_in-absolute root [] h = cc
placed_in-absolute root (root_dir ∷ path) h = refl
placed_in-absolute root (cur_dir ∷ path) h = cc
placed_in-absolute root (parent_dir ∷ path) h = cc
placed_in-absolute root (normal s ∷ path) h = cc

placed_in-relative :
    (root path : FilePath) → is_absolute path ≡ false → placed_in root path ≡ root ++ path
placed_in-relative root [] h = refl
placed_in-relative root (root_dir ∷ path) h = cc
placed_in-relative root (cur_dir ∷ path) h = refl
placed_in-relative root (parent_dir ∷ path) h = refl
placed_in-relative root (normal s ∷ path) h = refl

-- A path that does not begin at the root of the file system.
abbrev pub IsRelative : FilePath → Type 0
IsRelative path = (rest : FilePath) → path ≢ root_dir ∷ rest

pub IsRelative-is_absolute : (path : FilePath) → is_absolute path ≡ false → IsRelative path
IsRelative-is_absolute path h rest e = absurd (ground (arith, ap is_absolute e, h))

pub no_parent_among :
    (path : FilePath) → any is_parent path ≡ false → All (λ c. c ≢ parent_dir) path
no_parent_among [] h = tt
no_parent_among (c ∷ path) h =
    (λ e. absurd (ground (arith, ap is_parent e, h)), no_parent_among path (ground (arith, h)))

-- A path is not under a forbidden one, which is taken from the root if it is relative; a blank one
-- forbids nothing.
abbrev pub IsAllowed : (root resolved : FilePath) → (forbidden : String) → Type 0
IsAllowed root resolved forbidden =
    (trim forbidden ≡ "") ⊎ (¬ IsUnder resolved (placed_in root (components (trim forbidden))))

not_absolute-IsUnder :
    (resolved path : FilePath) → starts_with resolved path ≡ false → ¬ IsUnder resolved path
not_absolute-IsUnder resolved path h (rest, e) = absurd (
    ground
      (arith, subst (λ x. starts_with x path ≡ true) (sym e) (starts_with-append path rest), h))

not_relative-IsUnder :
    (root resolved path : FilePath)
    → starts_with (strip_prefix resolved root) path ≡ false
    → ¬ IsUnder resolved (root ++ path)
not_relative-IsUnder root resolved path h (rest, e) =
    not_absolute-IsUnder (strip_prefix resolved root) path h
      (rest, ap (λ x. strip_prefix x root) e ∙ strip_prefix-append root path rest)

pub is_blocked-IsAllowed :
    (root resolved : FilePath) (forbidden : String)
    → is_blocked root resolved forbidden ≡ false
    → IsAllowed root resolved forbidden
unfolding is_blocked
is_blocked-IsAllowed root resolved forbidden h =
    let path = components (trim forbidden) in
    elim (Bool-cases (is_empty (trim forbidden))) [
      | inl blank ↦ inl (empty_text (trim forbidden) blank)
      | inr named ↦ elim (Bool-cases (is_absolute path)) [
        | inl absolute ↦ inr (
            rw (placed_in-absolute root path absolute)
              (not_absolute-IsUnder resolved path (ground (arith, h, named, absolute))))
        | inr relative ↦ inr (
            rw (placed_in-relative root path relative)
              (not_relative-IsUnder root resolved path (ground (arith, h, named, relative))))
      ]
    ]
