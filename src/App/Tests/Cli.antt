-- ===== src/App/Tests/Cli.antt =====
-- Concrete command lines.
use liveclaw.Prelude.{true, false, some, List, [], ◌∷◌, String, ◌≡◌, refl, ok, arith}
use liveclaw.App.Cli.{AppCommand, onboard, default_options}
use liveclaw.App.Cli.Options.{parse_command}
use liveclaw.App.Cli.Print.{print_command, Valid}
use liveclaw.App.Cli.RoundTrip.{parse_command-print_command}
use liveclaw.App.Cli.Accepted.Rules.{Accepts}
use liveclaw.App.Cli.Accepted.{parse_command-Accepts}

abbrev remote : AppCommand
remote = onboard (record default_options {
  config_path = "gateway.toml";
  install_service = true;
  start_service = true;
  model = some "gpt-realtime";
  gateway_port = some 8420;
  require_pairing = some false;
})

parse_command-print_command_example : parse_command (print_command remote) ≡ ok remote
parse_command-print_command_example = parse_command-print_command remote (omega arith, λ _. refl)

abbrev words : List String
words = "service" ∷ "logs" ∷ "--lines" ∷ "+20" ∷ "--stderr" ∷ []

parse_command-Accepts_example : Accepts Valid (parse_command words)
parse_command-Accepts_example = parse_command-Accepts words
