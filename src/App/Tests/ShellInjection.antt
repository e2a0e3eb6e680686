-- ===== src/App/Tests/ShellInjection.antt =====
-- A text with a command substitution.
use liveclaw.Prelude.{true, ◌≡◌, ◌↔◌}
use liveclaw.App.ShellInjection.{contains_shell_injection, CanInject, contains_shell_injection_iff}

contains_shell_injection_iff_example :
    (contains_shell_injection "echo $(id)" ≡ true) ↔ CanInject "echo $(id)"
contains_shell_injection_iff_example = contains_shell_injection_iff "echo $(id)"
