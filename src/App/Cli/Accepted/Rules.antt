-- ===== src/App/Cli/Accepted/Rules.antt =====
-- Rules for what the parsers of liveclaw-app/src/main.rs accept.
use liveclaw.Prelude.{
  Bool, true, false, Option, none, some, List, [], ◌∷◌, String, ◌≡◌, refl, Result, ok, err,
  if◌then◌else◌,
}
use liveclaw.App.Cli.{CliError, Round, with_parsed, with_value, option_loop, first, AppCommand}
use liveclaw.App.Cli.Options.{finish}

-- A result that is an error, or satisfies a predicate.
abbrev pub Accepts : {A : Type 0} → (A → Type 0) → Result A CliError → Type 0
Accepts P (ok a) = P a
Accepts P (err e) = Unit {0}

pub if_rule :
    {A : Type 0} (P : A → Type 0) (b : Bool) (r s : Result A CliError)
    → (b ≡ true → Accepts P r)
    → (b ≡ false → Accepts P s)
    → Accepts P (if b then r else s)
if_rule P true r s h k = h refl
if_rule P false r s h k = k refl

-- A rule for a conditional whose test does not matter, and application for a chain of them.
pub given :
    {A : Type 0} (P : A → Type 0) (b : Bool) (r s : Result A CliError)
    → Accepts P r
    → Accepts P s
    → Accepts P (if b then r else s)
given P true r s h k = h
given P false r s h k = k

infixr 1 ◌$◌
abbrev pub ◌$◌ : {A B : Type 0} → (A → B) → A → B
f $ a = f a

module _ {A : Type 0} (P : A → Type 0) where
  abbrev pub Keeps : Round A → Type 0
  Keeps r = Accepts (λ x. P x.0) r

  pub with_value-Keeps :
      (flag : String) (next : Option String) (set : String → A)
      → ((v : String) → P (set v))
      → Keeps (with_value flag next set)
  with_value-Keeps flag none set h = tt
  with_value-Keeps flag (some v) set h = h v

  pub with_parsed-Keeps :
      {B : Type 0} (Q : B → Type 0) (flag : String) (next : Option String)
      (parse : String → Result B CliError) (set : B → A)
      → ((v : String) → Accepts Q (parse v))
      → ((b : B) → Q b → P (set b))
      → Keeps (with_parsed flag next parse set)
  with_parsed-Keeps Q flag none parse set h k = tt
  with_parsed-Keeps Q flag (some v) parse set h k = parsed (parse v) (h v)
    where
      parsed :
          (r : Result _ CliError)
          → Accepts Q r
          → Keeps (elim r [ ok b ↦ ok (set b, true) | err e ↦ err e ])
      parsed (ok b) q = k b q
      parsed (err e) q = tt

  loop_rule :
      (round : String → Option String → A → Round A) (args : List String) (r : Round A)
      → Keeps r
      → ((skip : Bool) (a : A) → P a → Accepts P (option_loop round skip args a))
      → Accepts P (elim r as (λ _. Result A CliError) [
        | ok (a', skip) ↦ option_loop round skip args a'
        | err e ↦ err e
      ])
  loop_rule round args (ok (a', skip)) h k = k skip a' h
  loop_rule round args (err e) h k = tt

  pub option_loop-Accepts :
      (round : String → Option String → A → Round A)
      → ((arg : String) (next : Option String) (a : A) → P a → Keeps (round arg next a))
      → (skip : Bool) (args : List String) (a : A) → P a
      → Accepts P (option_loop round skip args a)
  unfolding option_loop
  option_loop-Accepts round keeps skip [] a h = h
  option_loop-Accepts round keeps true (arg ∷ args) a h =
      option_loop-Accepts round keeps false args a h
  option_loop-Accepts round keeps false (arg ∷ args) a h =
      loop_rule round args (round arg (first args) a) (keeps arg (first args) a h)
        (λ skip a'. option_loop-Accepts round keeps skip args a')

  pub finish-Accepts :
      (Q : AppCommand → Type 0) (r : Result A CliError) (build : A → AppCommand)
      → Accepts P r
      → ((a : A) → P a → Q (build a))
      → Accepts Q (finish r build)
  finish-Accepts Q (ok a) build h k = k a h
  finish-Accepts Q (err e) build h k = tt
