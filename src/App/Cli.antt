-- ===== src/App/Cli.antt =====
-- The command line of liveclaw-app/src/main.rs: `parse_command` and the parsers below it. The
-- arguments are those after the program's name. An error is the reason that a message gives, with the
-- texts that it quotes.
pub mod Options
pub mod Print
pub mod RoundTrip
pub mod Accepted
use liveclaw.Prelude.{
  ℕ, ◌^◌, Bool, true, false, ◌||◌, Option, none, some, List, [], ◌∷◌, String, str_eq, nat_eq,
  Result, ok, err, if◌then◌else◌, unwrap_or,
}
use liveclaw.Text.{trim, to_ascii_lowercase, has_prefix}
use liveclaw.Text.Decimal.{parse_unsigned}

pub data ServiceLogStream : Type 0 where
  stdout : ServiceLogStream
  stderr : ServiceLogStream
  both : ServiceLogStream

pub data ServiceCommand : Type 0 where
  install : (config_path : String) (force : Bool) → ServiceCommand
  start : ServiceCommand
  stop : ServiceCommand
  restart : ServiceCommand
  status : ServiceCommand
  logs : (lines : ℕ) (follow : Bool) (stream : ServiceLogStream) → ServiceCommand
  uninstall : ServiceCommand

pub record OnboardOptions : Type 0 where
  pub config_path : String
  pub force : Bool
  pub non_interactive : Bool
  pub install_service : Bool
  pub start_service : Bool
  pub api_key : Option String
  pub model : Option String
  pub provider_profile : Option String
  pub base_url : Option String
  pub gateway_host : Option String
  pub gateway_port : Option ℕ
  pub require_pairing : Option Bool

abbrev pub default_config_path : String
default_config_path = "liveclaw.toml"

-- `OnboardOptions::default`.
abbrev pub default_options : OnboardOptions
default_options = record {
  config_path = default_config_path;
  force = false;
  non_interactive = false;
  install_service = false;
  start_service = false;
  api_key = none;
  model = none;
  provider_profile = none;
  base_url = none;
  gateway_host = none;
  gateway_port = none;
  require_pairing = none;
}

pub data AppCommand : Type 0 where
  run : (config_path : String) → AppCommand
  doctor : (config_path : String) → AppCommand
  runtime_worker : AppCommand
  onboard : OnboardOptions → AppCommand
  service : ServiceCommand → AppCommand
  help : AppCommand

-- The errors of the parsers.
pub data CliError : Type 0 where
  missing_value : (flag : String) → CliError
  invalid_bool : (raw flag : String) → CliError
  invalid_number : (flag value : String) → CliError
  invalid_stream : (raw : String) → CliError
  no_lines : CliError
  unknown_option : (command option : String) → CliError
  unexpected_positional : String → CliError
  no_subcommand : CliError
  unknown_subcommand : String → CliError

-- `match raw.trim().to_ascii_lowercase().as_str()`
abbrev pub one_of : String → List String → Bool
one_of s [] = false
one_of s (t ∷ ts) = str_eq s t || one_of s ts

unfoldable pub parse_bool_flag : (raw flag_name : String) → Result Bool CliError
parse_bool_flag raw flag_name =
    let word = to_ascii_lowercase (trim raw) in
    if one_of word ("true" ∷ "1" ∷ "yes" ∷ "y" ∷ "on" ∷ [])
    then ok true
    else if one_of word ("false" ∷ "0" ∷ "no" ∷ "n" ∷ "off" ∷ [])
    then ok false
    else err (invalid_bool raw flag_name)

unfoldable pub parse_service_log_stream : String → Result ServiceLogStream CliError
parse_service_log_stream raw =
    let word = to_ascii_lowercase (trim raw) in
    if one_of word ("stdout" ∷ "out" ∷ [])
    then ok stdout
    else if one_of word ("stderr" ∷ "err" ∷ [])
    then ok stderr
    else if one_of word ("both" ∷ "all" ∷ [])
    then ok both
    else err (invalid_stream raw)

-- What one round of an option loop leaves: the new state, and whether it took the next argument as a
-- value (`idx += 2`).
abbrev pub Round : Type 0 → Type 0
Round A = Result (A × Bool) CliError

abbrev pub first : List String → Option String
first [] = none
first (a ∷ args) = some a

-- `while idx < args.len()`: a round sees its argument and `args.get(idx + 1)`. With `skip` the loop
-- stands at a value that was taken already.
unfoldable pub option_loop :
    {A : Type 0}
    → (round : String → Option String → A → Round A) → (skip : Bool) → List String
    → A
    → Result A CliError
option_loop round skip [] a = ok a
option_loop round true (arg ∷ args) a = option_loop round false args a
option_loop round false (arg ∷ args) a = elim (round arg (first args) a) [
  | ok (a', skip) ↦ option_loop round skip args a'
  | err e ↦ err e
]

-- An option without a value, one with a value that is taken as it is, and one whose value is parsed.
abbrev pub switch : {A : Type 0} → A → Round A
switch a = ok (a, false)

abbrev pub with_value : {A : Type 0} → (flag : String) → Option String → (String → A) → Round A
with_value flag none set = err (missing_value flag)
with_value flag (some value) set = ok (set value, true)

abbrev pub with_parsed :
    {A B : Type 0}
    → (flag : String) → Option String
    → (String → Result B CliError)
    → (B → A)
    → Round A
with_parsed flag none parse set = err (missing_value flag)
with_parsed flag (some value) parse set = elim (parse value) [
  | ok b ↦ ok (set b, true)
  | err e ↦ err e
]
