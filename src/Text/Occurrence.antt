-- ===== src/Text/Occurrence.antt =====
-- `str::starts_with` and `str::contains` as statements on the parts of a text.
use Prim.Native.String.{String, [], ◌∷◌, ◌++◌}
use text.Mathlib.TextEquality.{Char-path}
use text.Mathlib.TextLemmas.{nil-append, cons-append}
use liveclaw.Prelude.{
  code, Char, Bool, true, false, ◌||◌, ◌≡◌, refl, sym, ap, ap₂, ◌∙◌, subst, arith, nat_eq,
  nat_eq_iff, Bool-cases, inl, inr,
}
use liveclaw.Text.{has_prefix, contains}

same_char : (c d : Char) → nat_eq (code c) (code d) ≡ true → c ≡ d
same_char c d h = Char-path c d ((nat_eq_iff (code c) (code d)).0 h)

pub has_prefix-append : (t after : String) → has_prefix (t ++ after) t ≡ true
unfolding has_prefix
has_prefix-append [] after = refl
has_prefix-append (d ∷ t) after =
    subst (λ x. has_prefix x (d ∷ t) ≡ true) (sym (cons-append d t after))
      (rw ((nat_eq_iff (code d) (code d)).1 refl) (has_prefix-append t after))

pub rest_of_prefix : (s t : String) → has_prefix s t ≡ true → (after : String) × (s ≡ t ++ after)
unfolding has_prefix
rest_of_prefix s [] h = (s, sym (nil-append s))
rest_of_prefix [] (d ∷ t) h = cc
rest_of_prefix (c ∷ s) (d ∷ t) h =
    let (after, e) = rest_of_prefix s t (ground (arith, h)) in
    (after, ap₂ (λ x y. x ∷ y) (same_char c d (ground (arith, h))) e ∙ sym (cons-append d t after))

contains_of_prefix : (s t : String) → has_prefix s t ≡ true → contains s t ≡ true
unfolding contains
contains_of_prefix [] t h = h
contains_of_prefix (c ∷ s) t h = rw h refl

pub or_true : (a b : Bool) → b ≡ true → a || b ≡ true
or_true true b h = refl
or_true false b h = h

pub contains-append : (before t after : String) → contains (before ++ (t ++ after)) t ≡ true
unfolding contains
contains-append [] t after =
    subst (λ x. contains x t ≡ true) (sym (nil-append (t ++ after)))
      (contains_of_prefix (t ++ after) t (has_prefix-append t after))
contains-append (c ∷ before) t after =
    subst (λ x. contains x t ≡ true) (sym (cons-append c before (t ++ after)))
      (or_true (has_prefix (c ∷ (before ++ (t ++ after))) t) _ (contains-append before t after))

pub place_of :
    (s t : String)
    → contains s t ≡ true
    → (before : String) × (after : String) × (s ≡ before ++ (t ++ after))
unfolding contains
place_of [] t h =
    let (after, e) = rest_of_prefix [] t h in ([], after, e ∙ sym (nil-append (t ++ after)))
place_of (c ∷ s) t h = elim (Bool-cases (has_prefix (c ∷ s) t)) [
  | inl here ↦
      let (after, e) = rest_of_prefix (c ∷ s) t here in
      ([], after, e ∙ sym (nil-append (t ++ after)))
  | inr later ↦
      let (before, after, e) = place_of s t (ground (arith, h, later)) in
      (c ∷ before, after, ap (λ x. c ∷ x) e ∙ sym (cons-append c before (t ++ after)))
]
