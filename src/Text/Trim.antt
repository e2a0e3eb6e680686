-- ===== src/Text/Trim.antt =====
-- `trim` at both ends of a text, and once more.
use Prim.Native.String.{String, [], ◌∷◌}
use liveclaw.Prelude.{◌≡◌, refl, Char, Bool, false, arith, Bool-cases, inl, inr}
use liveclaw.Text.{is_empty, trim_start_by, trim_end_by, trim_by, trim, is_whitespace}

abbrev pub StartsClean : (Char → Bool) → String → Type 0
StartsClean p [] = Unit
StartsClean p (c ∷ s) = p c ≡ false

module _ (p : Char → Bool) where
  trim_start_by-StartsClean : (s : String) → StartsClean p (trim_start_by p s)
  unfolding trim_start_by
  trim_start_by-StartsClean [] = tt
  trim_start_by-StartsClean (c ∷ s) = elim (Bool-cases (p c)) [
    | inl e ↦ rw (e, trim_start_by) (trim_start_by-StartsClean s)
    | inr e ↦ rw (e, trim_start_by) e
  ]

  trim_start_by_of_StartsClean : (s : String) → StartsClean p s → trim_start_by p s ≡ s
  unfolding trim_start_by
  trim_start_by_of_StartsClean [] h = refl
  trim_start_by_of_StartsClean (c ∷ s) h = rw h

  trim_end_by-StartsClean : (s : String) → StartsClean p s → StartsClean p (trim_end_by p s)
  unfolding trim_end_by
  trim_end_by-StartsClean [] h = tt
  trim_end_by-StartsClean (c ∷ s) h = elim (Bool-cases (is_empty (trim_end_by p s))) [
    | inl e ↦ rw (e, h) h
    | inr e ↦ rw e h
  ]

  trim_end_by_idem : (s : String) → trim_end_by p (trim_end_by p s) ≡ trim_end_by p s
  unfolding trim_end_by
  trim_end_by_idem [] = refl
  trim_end_by_idem (c ∷ s) = ground (arith, trim_end_by_idem s)

  pub trim_by_idem : (s : String) → trim_by p (trim_by p s) ≡ trim_by p s
  unfolding trim_by
  trim_by_idem s =
      rw
        (trim_start_by_of_StartsClean (trim_end_by p (trim_start_by p s))
          (trim_end_by-StartsClean (trim_start_by p s) (trim_start_by-StartsClean s)))
        (trim_end_by_idem (trim_start_by p s))

pub trim_idem : (s : String) → trim (trim s) ≡ trim s
unfolding trim
trim_idem s = trim_by_idem is_whitespace s
