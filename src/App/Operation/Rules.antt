-- ===== src/App/Operation/Rules.antt =====
-- Rules for what an operation ends in: `Ends Q E (m s)` says that it answers a value in a state that
-- satisfy `Q`, or an error in a state that satisfies `E`.
use liveclaw.Prelude.{
  Bool, true, false, Option, none, some, String, Result, ok, err, ◌≡◌, refl, sym,
}
use liveclaw.App.Operation.{
  Operation, ◌>>=◌, bail_if, choose, read, change, propagate, or_bail, attempt, map_err,
}

pub map_err-ok :
    {A : Type 0} (f : String → String) (r : Result A String) (a : A) → map_err f r ≡ ok a → r ≡ ok a
map_err-ok f (ok b) a h = h
map_err-ok f (err e) a h = cc

module _ {S : Type 0} where
  pub Ends : {A : Type 0} → (A → S → Type 0) → (S → Type 0) → Result A String × S → Type 0
  Ends Q E (ok a, s) = Q a s
  Ends Q E (err e, s) = E s

  module _ {A : Type 0} (Q : A → S → Type 0) (E : S → Type 0) where
    pub Ends-ok : (a : A) (s : S) → Q a s → Ends Q E (ok a, s)
    unfolding Ends
    Ends-ok a s h = h

    pub Ends-err : (e : String) (s : S) → E s → Ends Q E (err e, s)
    unfolding Ends
    Ends-err e s h = h

    pub Ends-both :
        (r : Result A String) (s : S)
        → ((a : A) → r ≡ ok a → Q a s)
        → ((e : String) → r ≡ err e → E s)
        → Ends Q E (r, s)
    unfolding Ends
    Ends-both (ok a) s h k = h a refl
    Ends-both (err e) s h k = k e refl

    pub Ends-option :
        (o : Option A) (e : String) (s : S)
        → ((a : A) → o ≡ some a → Q a s)
        → E s
        → Ends Q E (or_bail o e s)
    unfolding Ends
    Ends-option none e s h k = k
    Ends-option (some a) e s h k = h a refl

    -- What an answer or an error says of the state.
    pub of_ok : (x : Result A String × S) (a : A) → Ends Q E x → x.0 ≡ ok a → Q a x.1
    unfolding Ends
    of_ok (ok b, s) a h e = let same : b ≡ a = cc in rw (sym same) h
    of_ok (err b, s) a h e = cc

    pub of_err : (x : Result A String × S) (b : String) → Ends Q E x → x.0 ≡ err b → E x.1
    unfolding Ends
    of_err (ok a, s) b h e = cc
    of_err (err c, s) b h e = h

    weaken_result :
        (R : A → S → Type 0) (F : S → Type 0) (r : Result A String) (s : S)
        → Ends Q E (r, s)
        → ((a : A) (t : S) → Q a t → R a t)
        → ((t : S) → E t → F t)
        → Ends R F (r, s)
    unfolding Ends
    weaken_result R F (ok a) s h k j = k a s h
    weaken_result R F (err e) s h k j = j s h

    pub weaken :
        (R : A → S → Type 0) (F : S → Type 0) (x : Result A String × S)
        → Ends Q E x
        → ((a : A) (t : S) → Q a t → R a t)
        → ((t : S) → E t → F t)
        → Ends R F x
    weaken R F x h k j = weaken_result R F x.0 x.1 h k j

  module _ {A B : Type 0} (E : S → Type 0) (R : B → S → Type 0) where
    bind_result :
        (Q : A → S → Type 0) (f : A → Operation S B) (r : Result A String) (s : S)
        → Ends Q E (r, s)
        → ((a : A) (t : S) → Q a t → Ends R E (f a t))
        → Ends R E (elim r [ ok a ↦ f a s | err e ↦ (err e, s) ])
    unfolding Ends
    bind_result Q f (ok a) s h k = k a s h
    bind_result Q f (err e) s h k = h

    pub bind_rule :
        (Q : A → S → Type 0) (m : Operation S A) (f : A → Operation S B) (s : S)
        → Ends Q E (m s)
        → ((a : A) (t : S) → Q a t → Ends R E (f a t))
        → Ends R E ((m >>= f) s)
    unfolding ◌>>=◌
    bind_rule Q m f s h k = bind_result Q f (m s).0 (m s).1 h k

    pub propagate_rule :
        (r : Result A String) (f : A → Operation S B) (s : S)
        → E s
        → ((a : A) → r ≡ ok a → Ends R E (f a s))
        → Ends R E ((propagate r >>= f) s)
    unfolding ◌>>=◌ Ends
    propagate_rule (ok a) f s h k = k a refl
    propagate_rule (err e) f s h k = h

    pub or_bail_rule :
        (o : Option A) (e : String) (f : A → Operation S B) (s : S)
        → (o ≡ none → E s)
        → ((a : A) → o ≡ some a → Ends R E (f a s))
        → Ends R E ((or_bail o e >>= f) s)
    unfolding ◌>>=◌ Ends
    or_bail_rule none e f s h k = h refl
    or_bail_rule (some a) e f s h k = k a refl

    pub attempt_rule :
        (m : Operation S A) (f : Result A String → Operation S B) (s : S)
        → Ends R E (f (m s).0 (m s).1)
        → Ends R E ((attempt m >>= f) s)
    unfolding ◌>>=◌
    attempt_rule m f s h = h

  module _ {B : Type 0} (E : S → Type 0) (R : B → S → Type 0) where
    pub bail_if_rule :
        (b : Bool) (e : String) (f : Unit {0} → Operation S B) (s : S)
        → (b ≡ true → E s)
        → (b ≡ false → Ends R E (f tt s))
        → Ends R E ((bail_if b e >>= f) s)
    unfolding ◌>>=◌ bail_if Ends
    bail_if_rule true e f s h k = h refl
    bail_if_rule false e f s h k = k refl

    pub choose_rule :
        (b : Bool) (m n : Operation S B) (s : S)
        → (b ≡ true → Ends R E (m s))
        → (b ≡ false → Ends R E (n s))
        → Ends R E (choose b m n s)
    unfolding choose
    choose_rule true m n s h k = h refl
    choose_rule false m n s h k = k refl

    pub read_rule : (f : S → Operation S B) (s : S) → Ends R E (f s s) → Ends R E ((read >>= f) s)
    unfolding ◌>>=◌
    read_rule f s h = h

    pub change_rule :
        (g : S → S) (f : Unit {0} → Operation S B) (s : S)
        → Ends R E (f tt (g s))
        → Ends R E ((change g >>= f) s)
    unfolding ◌>>=◌
    change_rule g f s h = h
