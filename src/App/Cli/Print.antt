-- ===== src/App/Cli/Print.antt =====
-- A command line for each command of liveclaw-app/src/main.rs, in the form that the usage text shows.
use liveclaw.Prelude.{
  ℕ, ◌^◌, ◌≤◌, ◌<◌, Bool, true, false, Option, none, some, List, [], ◌∷◌, ◌++◌, String, ◌≡◌,
}
use liveclaw.Text.{show, has_prefix}
use liveclaw.App.Cli.{
  ServiceLogStream, stdout, stderr, both, ServiceCommand, install, start, stop, restart, status,
  logs, uninstall, OnboardOptions, AppCommand, run, doctor, runtime_worker, onboard, service, help,
  one_of,
}

abbrev pub print_switch : (flag : String) → Bool → List String
print_switch flag false = []
print_switch flag true = flag ∷ []

abbrev pub print_value : (flag : String) → Option String → List String
print_value flag none = []
print_value flag (some value) = flag ∷ value ∷ []

abbrev pub print_port : Option ℕ → List String
print_port none = []
print_port (some port) = "--gateway-port" ∷ show port ∷ []

abbrev pub print_pairing : Option Bool → List String
print_pairing none = []
print_pairing (some true) = "--require-pairing" ∷ "true" ∷ []
print_pairing (some false) = "--require-pairing" ∷ "false" ∷ []

abbrev pub print_stream : ServiceLogStream → String
print_stream stdout = "stdout"
print_stream stderr = "stderr"
print_stream both = "both"

unfoldable pub print_options : OnboardOptions → List String
print_options o =
    "--config" ∷ o.config_path ∷ print_switch "--force" o.force
    ++ (print_switch "--non-interactive" o.non_interactive
        ++ (print_switch "--start-service" o.start_service
            ++ (print_switch "--install-service" o.install_service
                ++ (print_value "--api-key" o.api_key
                    ++ (print_value "--model" o.model
                        ++ (print_value "--provider-profile" o.provider_profile
                            ++ (print_value "--base-url" o.base_url
                                ++ (print_value "--gateway-host" o.gateway_host
                                    ++ (print_port o.gateway_port
                                        ++ (print_pairing o.require_pairing ++ []))))))))))

unfoldable pub print_service : ServiceCommand → List String
print_service (install config_path force) =
    "install" ∷ "--config" ∷ config_path ∷ print_switch "--force" force
print_service start = "start" ∷ []
print_service stop = "stop" ∷ []
print_service restart = "restart" ∷ []
print_service status = "status" ∷ []
print_service (logs lines follow stream) =
    "logs"
    ∷ "--lines"
    ∷ show lines
    ∷ "--stream"
    ∷ print_stream stream
    ∷ print_switch "--follow" follow
print_service uninstall = "uninstall" ∷ []

unfoldable pub print_command : AppCommand → List String
unfolding print_options print_service
print_command (run config_path) = config_path ∷ []
print_command (doctor config_path) = "doctor" ∷ config_path ∷ []
print_command runtime_worker = "--runtime-worker" ∷ []
print_command (onboard options) = "onboard" ∷ print_options options
print_command (service command) = "service" ∷ print_service command
print_command help = "help" ∷ []

-- The words that the first argument is compared with.
abbrev pub command_words : List String
command_words =
    "--runtime-worker" ∷ "--doctor" ∷ "doctor" ∷ "onboard" ∷ "--onboard" ∷ "service" ∷ "--help"
    ∷ "-h" ∷ "help" ∷ []

-- What the parser guarantees of a command: the numbers are in their ranges, a service that is started
-- is installed, and the path of a plain run is no word or option.
abbrev pub PortFits : Option ℕ → Type 0
PortFits none = Unit {0}
PortFits (some port) = port < 2 ^ 16

abbrev pub Valid : AppCommand → Type 0
Valid (run path) = (one_of path command_words ≡ false) × (has_prefix path "-" ≡ false)
Valid (onboard o) = PortFits o.gateway_port × (o.start_service ≡ true → o.install_service ≡ true)
Valid (service (logs lines follow stream)) = (1 ≤ lines) × (lines < 2 ^ 64)
Valid other = Unit {0}
