-- ===== src/App/Cli/Options.antt =====
-- The commands of liveclaw-app/src/main.rs with their options: `parse_onboard_args`,
-- `parse_service_args` and `parse_command`.
use liveclaw.Prelude.{
  ℕ, ◌^◌, Bool, true, false, Option, none, some, List, [], ◌∷◌, String, str_eq, nat_eq, Result, ok,
  err, if◌then◌else◌, unwrap_or,
}
use liveclaw.Text.{has_prefix}
use liveclaw.Text.Decimal.{parse_unsigned}
use liveclaw.App.Cli.{
  ServiceLogStream, stdout, stderr, both, install, start, stop, restart, status, logs, uninstall,
  OnboardOptions, default_config_path, default_options, AppCommand, run, doctor, runtime_worker,
  onboard, service, help, CliError, invalid_number, no_lines, unknown_option, unexpected_positional,
  no_subcommand, unknown_subcommand, one_of, parse_bool_flag, parse_service_log_stream, Round,
  first, option_loop, switch, with_value, with_parsed,
}

-- `parse::<u16>`, and `parse::<usize>` with the check of `--lines`.
unfoldable pub parse_port : String → Result ℕ CliError
parse_port value = elim (parse_unsigned (2 ^ 16) value) [
  | none ↦ err (invalid_number "--gateway-port" value)
  | some port ↦ ok port
]

unfoldable pub parse_lines : String → Result ℕ CliError
parse_lines value = elim (parse_unsigned (2 ^ 64) value) [
  | none ↦ err (invalid_number "--lines" value)
  | some lines ↦ if nat_eq lines 0 then err no_lines else ok lines
]

-- The options read so far, and `config_set`.
abbrev pub Onboarding : Type 0
Onboarding = OnboardOptions × Bool

unfoldable pub onboard_round : String → Option String → Onboarding → Round Onboarding
onboard_round arg next (opts, config_set) =
    if str_eq arg "--force"
    then switch (record opts { force = true }, config_set)
    else if str_eq arg "--non-interactive"
    then switch (record opts { non_interactive = true }, config_set)
    else if str_eq arg "--install-service"
    then switch (record opts { install_service = true }, config_set)
    else if str_eq arg "--start-service"
    then switch (record opts { start_service = true; install_service = true }, config_set)
    else if str_eq arg "--no-pairing"
    then switch (record opts { require_pairing = some false }, config_set)
    else if str_eq arg "--config"
    then with_value arg next (λ value. (record opts { config_path = value }, true))
    else if str_eq arg "--api-key"
    then with_value arg next (λ value. (record opts { api_key = some value }, config_set))
    else if str_eq arg "--model"
    then with_value arg next (λ value. (record opts { model = some value }, config_set))
    else if str_eq arg "--provider-profile"
    then with_value arg next (λ value. (record opts { provider_profile = some value }, config_set))
    else if str_eq arg "--base-url"
    then with_value arg next (λ value. (record opts { base_url = some value }, config_set))
    else if str_eq arg "--gateway-host"
    then with_value arg next (λ value. (record opts { gateway_host = some value }, config_set))
    else if str_eq arg "--gateway-port"
    then with_parsed arg next parse_port
        (λ port. (record opts { gateway_port = some port }, config_set))
    else if str_eq arg "--require-pairing"
    then with_parsed arg next (λ value. parse_bool_flag value "--require-pairing")
        (λ b. (record opts { require_pairing = some b }, config_set))
    else if has_prefix arg "-"
    then err (unknown_option "onboard" arg)
    else if config_set
    then err (unexpected_positional arg)
    else switch (record opts { config_path = arg }, true)

-- The command that a loop's result stands for.
abbrev pub finish : {A : Type 0} → Result A CliError → (A → AppCommand) → Result AppCommand CliError
finish (ok a) build = ok (build a)
finish (err e) build = err e

unfoldable pub parse_onboard_args : List String → Result AppCommand CliError
unfolding option_loop onboard_round
parse_onboard_args args =
    finish (option_loop onboard_round false args (default_options, false)) (λ o. onboard o.0)

-- `config_path` and `force` of `service install`.
unfoldable pub install_round : String → Option String → String × Bool → Round (String × Bool)
install_round arg next (config_path, force) =
    if str_eq arg "--config"
    then with_value arg next (λ value. (value, force))
    else if str_eq arg "--force"
    then switch (config_path, true)
    else err (unknown_option "service install" arg)

-- `lines`, `follow` and `stream` of `service logs`.
abbrev pub LogOptions : Type 0
LogOptions = ℕ × Bool × ServiceLogStream

unfoldable pub logs_round : String → Option String → LogOptions → Round LogOptions
logs_round arg next (lines, follow, stream) =
    if str_eq arg "--lines"
    then with_parsed arg next parse_lines (λ n. (n, follow, stream))
    else if str_eq arg "--follow"
    then switch (lines, true, stream)
    else if str_eq arg "--stream"
    then with_parsed arg next parse_service_log_stream (λ s. (lines, follow, s))
    else if str_eq arg "--stdout"
    then switch (lines, follow, stdout)
    else if str_eq arg "--stderr"
    then switch (lines, follow, stderr)
    else err (unknown_option "service logs" arg)

unfoldable pub doctor_round : String → Option String → String → Round String
doctor_round arg next config_path =
    if str_eq arg "--config"
    then with_value arg next (λ value. value)
    else err (unknown_option "service doctor" arg)

unfoldable pub parse_service_args : List String → Result AppCommand CliError
unfolding option_loop install_round logs_round doctor_round
parse_service_args [] = err no_subcommand
parse_service_args (action ∷ args) =
    if str_eq action "install"
    then finish (option_loop install_round false args (default_config_path, false))
        (λ o. service (install o.0 o.1))
    else if str_eq action "start"
    then ok (service start)
    else if str_eq action "stop"
    then ok (service stop)
    else if str_eq action "restart"
    then ok (service restart)
    else if str_eq action "status"
    then ok (service status)
    else if str_eq action "logs"
    then finish (option_loop logs_round false args (80, false, both))
        (λ o. service (logs o.0 o.1 o.2))
    else if str_eq action "doctor"
    then finish (option_loop doctor_round false args default_config_path) doctor
    else if str_eq action "uninstall"
    then ok (service uninstall)
    else err (unknown_subcommand action)

unfoldable pub parse_command : List String → Result AppCommand CliError
unfolding parse_onboard_args parse_service_args
parse_command [] = ok (run default_config_path)
parse_command (arg ∷ args) =
    if str_eq arg "--runtime-worker"
    then ok runtime_worker
    else if one_of arg ("--doctor" ∷ "doctor" ∷ [])
    then ok (doctor (unwrap_or (first args) default_config_path))
    else if one_of arg ("onboard" ∷ "--onboard" ∷ [])
    then parse_onboard_args args
    else if str_eq arg "service"
    then parse_service_args args
    else if one_of arg ("--help" ∷ "-h" ∷ "help" ∷ [])
    then ok help
    else if has_prefix arg "-"
    then err (unknown_option "liveclaw-app" arg)
    else ok (run arg)
