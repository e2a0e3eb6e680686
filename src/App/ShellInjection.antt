-- ===== src/App/ShellInjection.antt =====
-- `contains_shell_injection` of liveclaw-app/src/security.rs.
use Prim.Native.String
use text.Mathlib.TextLemmas.{nil-append, cons-append}
use liveclaw.Prelude.{
  Bool, true, false, ◌||◌, List, [], ◌∷◌, String, ◌≡◌, ◌↔◌, ◌⊎◌, refl, sym, subst, Bool-cases, inl,
  inr, arith, ap, ◌∙◌,
}
use liveclaw.Text.{contains}
use liveclaw.Text.Occurrence.{contains-append, place_of, or_true}

abbrev pub shell_patterns : List String
shell_patterns = ";" ∷ "`" ∷ "$(" ∷ "|" ∷ "&&" ∷ "||" ∷ ">" ∷ "<" ∷ "\n" ∷ []

-- `iter().any(|pattern| input.contains(pattern))`
unfoldable pub contains_any : List String → String → Bool
contains_any [] input = false
contains_any (p ∷ patterns) input = contains input p || contains_any patterns input

unfoldable pub contains_shell_injection : String → Bool
unfolding contains_any
contains_shell_injection input = contains_any shell_patterns input

-- A text stands somewhere in another; and one of several does.
abbrev pub OccursIn : (input found : String) → Type 0
OccursIn input found =
    (before : String) × (after : String) × (input ≡ String.◌++◌ before (String.◌++◌ found after))

abbrev AnyOccursIn : String → List String → Type 0
AnyOccursIn input [] = ⊥
AnyOccursIn input (found ∷ rest) = OccursIn input found ⊎ AnyOccursIn input rest

detected :
    (patterns : List String) (input : String)
    → AnyOccursIn input patterns
    → contains_any patterns input ≡ true
unfolding contains_any
detected [] input h = absurd h
detected (p ∷ patterns) input (inl (before, after, e)) =
    rw (subst (λ x. contains x p ≡ true) (sym e) (contains-append before p after)) refl
detected (p ∷ patterns) input (inr h) = or_true (contains input p) _ (detected patterns input h)

located :
    (patterns : List String) (input : String)
    → contains_any patterns input ≡ true
    → AnyOccursIn input patterns
unfolding contains_any
located [] input h = cc
located (p ∷ patterns) input h = elim (Bool-cases (contains input p)) [
  | inl here ↦ inl (place_of input p here)
  | inr absent ↦ inr (located patterns input (ground (arith, h, absent)))
]

-- A text can chain, pipe, redirect or substitute commands: it has a semicolon, a backquote, a pipe,
-- an angle bracket, a line break, a dollar sign before a parenthesis, or two ampersands.
abbrev pub CanInject : String → Type 0
CanInject input =
    OccursIn input ";"
    ⊎ (OccursIn input "`"
        ⊎ (OccursIn input "|"
            ⊎ (OccursIn input ">"
                ⊎ (OccursIn input "<"
                    ⊎ (OccursIn input "\n" ⊎ (OccursIn input "$(" ⊎ OccursIn input "&&"))))))

-- Two pipes are a pipe with a pipe after it.
one_pipe : (input : String) → OccursIn input "||" → OccursIn input "|"
one_pipe input (before, after, e) =
    let pipes : String.◌++◌ "||" after ≡ String.◌++◌ "|" (String.◌++◌ "|" after) =
      cons-append "|" "|" after
      ∙ sym (
          cons-append "|" "" (String.◌++◌ "|" after)
          ∙ ap (λ x. String.◌∷◌ "|" x) (nil-append (String.◌++◌ "|" after))) in
    (before, String.◌++◌ "|" after, e ∙ ap (λ x. String.◌++◌ before x) pipes)

found_pattern : (input : String) → AnyOccursIn input shell_patterns → CanInject input
found_pattern input (inl h) = inl h
found_pattern input (inr (inl h)) = inr (inl h)
found_pattern input (inr (inr (inl h))) = inr (inr (inr (inr (inr (inr (inl h))))))
found_pattern input (inr (inr (inr (inl h)))) = inr (inr (inl h))
found_pattern input (inr (inr (inr (inr (inl h))))) = inr (inr (inr (inr (inr (inr (inr h))))))
found_pattern input (inr (inr (inr (inr (inr (inl h)))))) = inr (inr (inl (one_pipe input h)))
found_pattern input (inr (inr (inr (inr (inr (inr (inl h))))))) = inr (inr (inr (inl h)))
found_pattern input (inr (inr (inr (inr (inr (inr (inr (inl h)))))))) =
    inr (inr (inr (inr (inl h))))
found_pattern input (inr (inr (inr (inr (inr (inr (inr (inr (inl h))))))))) =
    inr (inr (inr (inr (inr (inl h)))))
found_pattern input (inr (inr (inr (inr (inr (inr (inr (inr (inr h))))))))) = absurd h

is_pattern : (input : String) → CanInject input → AnyOccursIn input shell_patterns
is_pattern input (inl h) = inl h
is_pattern input (inr (inl h)) = inr (inl h)
is_pattern input (inr (inr (inl h))) = inr (inr (inr (inl h)))
is_pattern input (inr (inr (inr (inl h)))) = inr (inr (inr (inr (inr (inr (inl h))))))
is_pattern input (inr (inr (inr (inr (inl h))))) = inr (inr (inr (inr (inr (inr (inr (inl h)))))))
is_pattern input (inr (inr (inr (inr (inr (inl h)))))) =
    inr (inr (inr (inr (inr (inr (inr (inr (inl h))))))))
is_pattern input (inr (inr (inr (inr (inr (inr (inl h))))))) = inr (inr (inl h))
is_pattern input (inr (inr (inr (inr (inr (inr (inr h))))))) = inr (inr (inr (inr (inl h))))

-- A text is flagged as a shell injection if and only if somewhere in it there is a semicolon, a
-- backquote, a pipe, an angle bracket, a line break, a dollar sign before a parenthesis, or two
-- ampersands.
pub contains_shell_injection_iff :
    (input : String) → (contains_shell_injection input ≡ true) ↔ CanInject input
unfolding contains_shell_injection
contains_shell_injection_iff input = (
  λ flagged. found_pattern input (located shell_patterns input flagged),
  λ can. detected shell_patterns input (is_pattern input can),
)
