-- ===== src/App/Cli/RoundTrip.antt =====
-- The printed command lines, parsed by `parse_command` of liveclaw-app/src/main.rs.
mod Onboard
use liveclaw.Prelude.{
  ℕ, ◌^◌, ◌≤◌, ◌<◌, Bool, true, false, Option, none, some, List, [], ◌∷◌, ◌++◌, String, ◌≡◌, refl,
  sym, ap, ◌∙◌, Result, ok, err, if◌then◌else◌, arith, nat_eq,
}
use liveclaw.Text.{show, trim, to_ascii_lowercase}
use liveclaw.Text.Decimal.{parse_unsigned-show}
use liveclaw.App.Cli.{
  ServiceLogStream, stdout, stderr, both, install, start, stop, restart, status, logs, uninstall,
  OnboardOptions, AppCommand, run, doctor, runtime_worker, onboard, service, help, CliError, Round,
  with_parsed, invalid_number, no_lines, option_loop, default_options, parse_bool_flag,
  parse_service_log_stream,
}
use liveclaw.App.Cli.Options.{
  onboard_round, parse_onboard_args, parse_port, parse_lines, install_round, logs_round,
  parse_service_args, parse_command, finish,
}
use liveclaw.App.Cli.Print.{
  Valid, PortFits, print_switch, print_value, print_port, print_pairing, print_stream,
  print_options, print_service, print_command,
}
use liveclaw.App.Cli.RoundTrip.Onboard.{value_round, with_parsed-ok, onboard_options-print}

install-print :
    (path : String) (force : Bool)
    → parse_command (print_command (service (install path force)))
      ≡ ok (service (install path force))
unfolding parse_command parse_service_args option_loop install_round print_command print_service
install-print path true = refl
install-print path false = refl

parse_lines-show : (lines : ℕ) → 1 ≤ lines → lines < 2 ^ 64 → parse_lines (show lines) ≡ ok lines
unfolding parse_lines
parse_lines-show lines h k =
    ap
      (λ r. elim r as (λ _. Result ℕ CliError) [
        | none ↦ err (invalid_number "--lines" (show lines))
        | some n ↦ if nat_eq n 0 then err no_lines else ok n
      ])
      (parse_unsigned-show (2 ^ 64) lines k)
    ∙ ground arith

log_options-print :
    (lines : ℕ) (follow : Bool) (stream : ServiceLogStream)
    → option_loop logs_round false
        ("--stream" ∷ print_stream stream ∷ print_switch "--follow" follow)
        (lines, false, both)
      ≡ ok (lines, follow, stream)
unfolding option_loop logs_round parse_service_log_stream trim to_ascii_lowercase
log_options-print lines true stdout = refl
log_options-print lines true stderr = refl
log_options-print lines true both = refl
log_options-print lines false stdout = refl
log_options-print lines false stderr = refl
log_options-print lines false both = refl

logs-print :
    (lines : ℕ) (follow : Bool) (stream : ServiceLogStream)
    → Valid (service (logs lines follow stream))
    → parse_command (print_command (service (logs lines follow stream)))
      ≡ ok (service (logs lines follow stream))
unfolding parse_command parse_service_args logs_round print_command print_service
logs-print lines follow stream (h, k) =
    ap (λ r. finish r (λ x. service (logs x.0 x.1 x.2)))
      (value_round logs_round "--lines" (show lines)
          ("--stream" ∷ print_stream stream ∷ print_switch "--follow" follow) (80, false, both) _
          (with_parsed-ok "--lines" (show lines) parse_lines _ lines (parse_lines-show lines h k))
        ∙ log_options-print lines follow stream)

-- Each command whose port and line count are in their ranges, whose service is installed if it is
-- started, and whose path, for a plain run, is no word or option of the command line, is parsed
-- back from the command line that prints it.
pub parse_command-print_command :
    (command : AppCommand) → Valid command → parse_command (print_command command) ≡ ok command
unfolding parse_command parse_onboard_args parse_service_args print_command print_service
parse_command-print_command (run path) (fresh, plain) = ground (arith, fresh, plain)
parse_command-print_command (doctor path) v = refl
parse_command-print_command runtime_worker v = refl
parse_command-print_command (onboard o) v =
    ap (λ r. finish r (λ x. onboard x.0)) (onboard_options-print o v)
parse_command-print_command (service (install path force)) v = install-print path force
parse_command-print_command (service start) v = refl
parse_command-print_command (service stop) v = refl
parse_command-print_command (service restart) v = refl
parse_command-print_command (service status) v = refl
parse_command-print_command (service (logs lines follow stream)) v =
    logs-print lines follow stream v
parse_command-print_command (service uninstall) v = refl
parse_command-print_command help v = refl
