-- ===== src/App/Operation.antt =====
-- Operations of liveclaw-app that may fail and change a state: `anyhow::Result` with `?` and
-- `bail!`. An error is its text; the changes that came before it stay.
pub mod Rules
use liveclaw.Prelude.{Bool, Option, none, some, String, Result, ok, err, if◌then◌else◌}

abbrev pub Operation : Type 0 → Type 0 → Type 0
Operation S A = S → Result A String × S

module _ {S : Type 0} where
  infixl 5 ◌>>=◌ ◌>>◌
  -- Shut, so that a proof goes by the rules of the child module; `operations` opens it.
  unfoldable pub ◌>>=◌ : {A B : Type 0} → Operation S A → (A → Operation S B) → Operation S B
  ◌>>=◌ m f s = let (r, t) = m s in elim r [ ok a ↦ f a t | err e ↦ (err e, t) ]

  abbrev pub ◌>>◌ : {B : Type 0} → Operation S (Unit {0}) → Operation S B → Operation S B
  m >> k = m >>= λ _. k

  abbrev pub pure : {A : Type 0} → A → Operation S A
  pure a s = (ok a, s)

  abbrev pub bail : {A : Type 0} → String → Operation S A
  bail e s = (err e, s)

  unfoldable pub bail_if : Bool → String → Operation S (Unit {0})
  bail_if b e s = if b then (err e, s) else (ok tt, s)

  -- A test between two operations.
  unfoldable pub choose : {A : Type 0} → Bool → Operation S A → Operation S A → Operation S A
  choose Bool.true m n = m
  choose Bool.false m n = n

  abbrev pub read : Operation S S
  read s = (ok s, s)

  abbrev pub change : (S → S) → Operation S (Unit {0})
  change f s = (ok tt, f s)

  -- `r?` for a result that is known.
  abbrev pub propagate : {A : Type 0} → Result A String → Operation S A
  propagate r s = (r, s)

  -- `let Some(a) = o else { bail!(e) }`
  abbrev pub or_bail : {A : Type 0} → Option A → String → Operation S A
  or_bail none e s = (err e, s)
  or_bail (some a) e s = (ok a, s)

  -- The result of an operation, whose error is looked at or ignored.
  abbrev pub attempt : {A : Type 0} → Operation S A → Operation S (Result A String)
  attempt m s = let (r, t) = m s in (ok r, t)

-- `map_err(|e| format!("…{}", e))`
abbrev pub map_err : {A : Type 0} → (String → String) → Result A String → Result A String
map_err f (ok a) = ok a
map_err f (err e) = err (f e)

-- `opt`, without the error.
abbrev pub is_err : {A : Type 0} → Result A String → Bool
is_err (ok a) = Bool.false
is_err (err e) = Bool.true

unfoldable pub operations : Unit {0}
unfolding ◌>>=◌ bail_if choose
operations = tt
