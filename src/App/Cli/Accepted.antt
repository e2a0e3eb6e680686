-- ===== src/App/Cli/Accepted.antt =====
-- What `parse_command` of liveclaw-app/src/main.rs accepts.
pub mod Rules
use liveclaw.Prelude.{
  ℕ, ◌^◌, ◌≤◌, ◌<◌, Bool, true, false, Option, none, some, List, [], ◌∷◌, String, str_eq, ◌≡◌, refl,
  Result, ok, err, if◌then◌else◌, arith, nat_eq,
}
use liveclaw.Text.{has_prefix}
use liveclaw.Text.Decimal.{parse_unsigned, parse_unsigned-below}
use liveclaw.App.Cli.{
  CliError, invalid_number, no_lines, Round, with_parsed, with_value, option_loop, first,
  OnboardOptions, AppCommand, onboard, default_options, parse_bool_flag, parse_service_log_stream,
  both, one_of, default_config_path, service, install, doctor,
}
use liveclaw.App.Cli.Options.{
  Onboarding, LogOptions, onboard_round, parse_port, parse_lines, install_round, logs_round,
  doctor_round, parse_onboard_args, parse_service_args, parse_command, finish,
}
use liveclaw.App.Cli.Print.{Valid, PortFits}
use liveclaw.App.Cli.Accepted.Rules.{
  Accepts, if_rule, given, ◌$◌, Keeps, with_value-Keeps, with_parsed-Keeps, option_loop-Accepts,
  finish-Accepts,
}

port_rule :
    (v : String) (r : Option ℕ)
    → ((n : ℕ) → r ≡ some n → n < 2 ^ 16)
    → Accepts
        (λ n. n < 2 ^ 16)
        (elim r as (λ _. Result ℕ CliError) [
          | none ↦ err (invalid_number "--gateway-port" v)
          | some port ↦ ok port
        ])
port_rule v none h = tt
port_rule v (some n) h = h n refl

parse_port-Accepts : (v : String) → Accepts (λ n. n < 2 ^ 16) (parse_port v)
unfolding parse_port
parse_port-Accepts v =
    port_rule v (parse_unsigned (2 ^ 16) v) (λ n. parse_unsigned-below (2 ^ 16) n v (omega arith))

lines_rule :
    (v : String) (r : Option ℕ)
    → ((n : ℕ) → r ≡ some n → n < 2 ^ 64)
    → Accepts
        (λ n. (1 ≤ n) × (n < 2 ^ 64))
        (elim r as (λ _. Result ℕ CliError) [
          | none ↦ err (invalid_number "--lines" v)
          | some lines ↦ if nat_eq lines 0 then err no_lines else ok lines
        ])
lines_rule v none h = tt
lines_rule v (some n) h =
    if_rule (λ n. (1 ≤ n) × (n < 2 ^ 64)) (nat_eq n 0) _ _ (λ _. tt)
      (λ positive. (ground (arith, positive), h n refl))

parse_lines-Accepts : (v : String) → Accepts (λ n. (1 ≤ n) × (n < 2 ^ 64)) (parse_lines v)
unfolding parse_lines
parse_lines-Accepts v =
    lines_rule v (parse_unsigned (2 ^ 64) v) (λ n. parse_unsigned-below (2 ^ 64) n v (omega arith))

-- What the onboarding options promise at every round.
abbrev Sound : OnboardOptions → Type 0
Sound o = PortFits o.gateway_port × (o.start_service ≡ true → o.install_service ≡ true)

abbrev SoundState : Onboarding → Type 0
SoundState x = Sound x.0

anything : {B : Type 0} (r : Result B CliError) → Accepts (λ _. Unit {0}) r
anything (ok b) = tt
anything (err e) = tt

onboard_round-Keeps :
    (arg : String) (next : Option String) (o : Onboarding)
    → SoundState o
    → Keeps SoundState (onboard_round arg next o)
unfolding onboard_round
onboard_round-Keeps arg next (o, set) (fits, started) =
    let R : Onboarding × Bool → Type 0 = λ x. SoundState x.0 in
    given R (str_eq arg "--force") _ _ (fits, started)
    $ given R (str_eq arg "--non-interactive") _ _ (fits, started)
    $ given R (str_eq arg "--install-service") _ _ (fits, λ _. refl)
    $ given R (str_eq arg "--start-service") _ _ (fits, λ _. refl)
    $ given R (str_eq arg "--no-pairing") _ _ (fits, started)
    $ given R (str_eq arg "--config") _ _
        (with_value-Keeps SoundState arg next _ (λ _. (fits, started)))
    $ given R (str_eq arg "--api-key") _ _
        (with_value-Keeps SoundState arg next _ (λ _. (fits, started)))
    $ given R (str_eq arg "--model") _ _
        (with_value-Keeps SoundState arg next _ (λ _. (fits, started)))
    $ given R (str_eq arg "--provider-profile") _ _
        (with_value-Keeps SoundState arg next _ (λ _. (fits, started)))
    $ given R (str_eq arg "--base-url") _ _
        (with_value-Keeps SoundState arg next _ (λ _. (fits, started)))
    $ given R (str_eq arg "--gateway-host") _ _
        (with_value-Keeps SoundState arg next _ (λ _. (fits, started)))
    $ given R (str_eq arg "--gateway-port") _ _ (
        with_parsed-Keeps SoundState (λ n. n < 2 ^ 16) arg next parse_port _ parse_port-Accepts
          (λ _ below. (below, started)))
    $ given R (str_eq arg "--require-pairing") _ _ (
        with_parsed-Keeps SoundState (λ _. Unit {0}) arg next _ _
          (λ v. anything (parse_bool_flag v "--require-pairing")) (λ _ _. (fits, started)))
    $ given R (has_prefix arg "-") _ _ tt
    $ given R set _ _ tt (fits, started)

always :
    {A : Type 0} (r : Result A CliError) (build : A → AppCommand)
    → ((a : A) → Valid (build a))
    → Accepts Valid (finish r build)
always (ok a) build h = h a
always (err e) build h = tt

parse_onboard_args-Accepts : (args : List String) → Accepts Valid (parse_onboard_args args)
unfolding parse_onboard_args
parse_onboard_args-Accepts args =
    finish-Accepts SoundState Valid _ (λ x. onboard x.0)
      (option_loop-Accepts SoundState onboard_round onboard_round-Keeps false args
        (default_options, false) (tt, λ started. started))
      (λ x sound. sound)

abbrev SoundLogs : LogOptions → Type 0
SoundLogs x = (1 ≤ x.0) × (x.0 < 2 ^ 64)

logs_round-Keeps :
    (arg : String) (next : Option String) (o : LogOptions)
    → SoundLogs o
    → Keeps SoundLogs (logs_round arg next o)
unfolding logs_round
logs_round-Keeps arg next o h =
    let R : LogOptions × Bool → Type 0 = λ x. SoundLogs x.0 in
    given R (str_eq arg "--lines") _ _ (
      with_parsed-Keeps SoundLogs (λ n. (1 ≤ n) × (n < 2 ^ 64)) arg next parse_lines _
        parse_lines-Accepts (λ _ k. k))
    $ given R (str_eq arg "--follow") _ _ h
    $ given R (str_eq arg "--stream") _ _ (
        with_parsed-Keeps SoundLogs (λ _. Unit {0}) arg next _ _
          (λ v. anything (parse_service_log_stream v)) (λ _ _. h))
    $ given R (str_eq arg "--stdout") _ _ h
    $ given R (str_eq arg "--stderr") _ _ h tt

parse_service_args-Accepts : (args : List String) → Accepts Valid (parse_service_args args)
unfolding parse_service_args
parse_service_args-Accepts [] = tt
parse_service_args-Accepts (action ∷ args) =
    given Valid (str_eq action "install") _ _ (
      always (option_loop install_round false args (default_config_path, false))
        (λ o. service (install o.0 o.1)) (λ _. tt))
    $ given Valid (str_eq action "start") _ _ tt
    $ given Valid (str_eq action "stop") _ _ tt
    $ given Valid (str_eq action "restart") _ _ tt
    $ given Valid (str_eq action "status") _ _ tt
    $ given Valid (str_eq action "logs") _ _ (
        finish-Accepts SoundLogs Valid _ _
          (option_loop-Accepts SoundLogs logs_round logs_round-Keeps false args (80, false, both)
            (omega arith, omega arith))
          (λ _ sound. sound))
    $ given Valid (str_eq action "doctor") _ _
        (always (option_loop doctor_round false args default_config_path) doctor (λ _. tt))
    $ given Valid (str_eq action "uninstall") _ _ tt tt

-- Whatever the arguments, a command that the parser accepts has a port below 2 ^ 16, a line count
-- that is positive and below 2 ^ 64, and installs the service that it starts; and the path of a
-- plain run is no word or option of the command line.
pub parse_command-Accepts : (args : List String) → Accepts Valid (parse_command args)
unfolding parse_command has_prefix
parse_command-Accepts [] = (refl, refl)
parse_command-Accepts (arg ∷ args) =
    if_rule Valid (str_eq arg "--runtime-worker") _ _ (λ _. tt)
      (λ a.
        if_rule Valid (one_of arg ("--doctor" ∷ "doctor" ∷ [])) _ _ (λ _. tt)
          (λ b.
            if_rule Valid (one_of arg ("onboard" ∷ "--onboard" ∷ [])) _ _
              (λ _. parse_onboard_args-Accepts args)
              (λ c.
                if_rule Valid (str_eq arg "service") _ _ (λ _. parse_service_args-Accepts args)
                  (λ d.
                    if_rule Valid (one_of arg ("--help" ∷ "-h" ∷ "help" ∷ [])) _ _ (λ _. tt)
                      (λ e.
                        if_rule Valid (has_prefix arg "-") _ _ (λ _. tt)
                          (λ f. (ground (arith, a, b, c, d, e), f)))))))
