-- ===== src/App/Tests.antt =====
-- A run of the rate limiter.
mod Reconnect
mod Cli
mod Provider
mod ShellInjection
mod Compaction
mod Runner
mod Storage
use liveclaw.Prelude.{min, max, ◌≡◌, List, [], ◌∷◌, String, arith}
use liveclaw.App.RateLimiter.{new_limiter}
use liveclaw.App.RateLimiter.Limit.{allowed, calls_of, check_and_increment-allows}

abbrev callers : List String
callers = "a" ∷ "b" ∷ "a" ∷ "a" ∷ []

check_and_increment-allows_example :
    allowed "a" (new_limiter 2) callers ≡ min (calls_of "a" callers) (max 2 1)
check_and_increment-allows_example = check_and_increment-allows 2 "a" callers (omega arith)
