-- ===== src/App/Tests/Reconnect.antt =====
-- Runs of the reconnection with a runtime that fails a few times.
use liveclaw.Prelude.{
  ℕ, zero, suc, ◌≤◌, ◌*◌, ◌≡◌, refl, true, some, String, Result, ok, err, arith, nat_eq, leb,
  if◌then◌else◌,
}
use liveclaw.App.Reconnect.{
  ResilienceConfig, RuntimeCounters, SessionRuntime, policy_from, backoff_for_attempt,
  reconnect_with_backoff, runtime_loop,
}
use liveclaw.App.Reconnect.Backoff.{backoff_for_attempt-bounds}
use liveclaw.App.Reconnect.Account.{Accounted, reconnect_with_backoff-Accounted}
use liveclaw.App.Reconnect.Trace.{Ended, connected, refused, none_yet, attempts_allowed}
use liveclaw.App.Reconnect.Ending.{runtime_loop-reconnects, runtime_loop-stops}

abbrev config : ResilienceConfig
config = record {
  enable_reconnect = true;
  max_reconnect_attempts = 5;
  initial_backoff_ms = 250;
  max_backoff_ms = 5000;
}

-- A run that fails uses up one failure, and so does a connection while there are more than three.
abbrev run_once : ℕ → Result (Unit {0}) String × ℕ
run_once zero = (ok tt, 0)
run_once (suc n) = (err "connection lost", n)

abbrev connect_once : ℕ → Result (Unit {0}) String × ℕ
connect_once zero = (ok tt, 0)
connect_once (suc n) = if leb 3 n then (err "refused", n) else (ok tt, suc n)

-- The flag is set when no failure is left.
abbrev flaky : SessionRuntime ℕ
flaky = record {
  shutdown = λ n. nat_eq n 0;
  sleep = λ ms n. n;
  connect = connect_once;
  run = run_once;
}

abbrev counters : RuntimeCounters
counters = record {
  reconnect_attempts_total = 0;
  reconnect_successes_total = 0;
  reconnect_failures_total = 0;
}

backoff_for_attempt-bounds_example :
    (250 ≤ backoff_for_attempt (policy_from config) 5)
    × (backoff_for_attempt (policy_from config) 5 ≤ 5000)
    × (backoff_for_attempt (policy_from config) 5 ≤ backoff_for_attempt (policy_from config) 6)
    × (backoff_for_attempt (policy_from config) 6 ≤ 2 * backoff_for_attempt (policy_from config) 5)
unfolding policy_from
backoff_for_attempt-bounds_example = backoff_for_attempt-bounds config 4 (omega arith, omega arith)

reconnect_with_backoff-Accounted_example :
    let (s', c', recovered) = reconnect_with_backoff flaky (policy_from config) 6 counters in
    Accounted flaky
      (policy_from config)
      1
      (attempts_allowed (policy_from config))
      counters
      c'
      6
      s'
      recovered
reconnect_with_backoff-Accounted_example =
    reconnect_with_backoff-Accounted flaky (policy_from config) 6 counters

-- After a run that fails, two connections are refused and the third is not.
third_connects : Ended flaky (policy_from config) 1 5 5 3 2 1 3 true
third_connects =
    connected 2 3 3 (omega arith) refl
      (refused "refused" (refl, refl) refl (refused "refused" (refl, refl) refl none_yet))
      (refl, refl) refl

runtime_loop-reconnects_example :
    runtime_loop flaky (policy_from config) 9 6 counters
    ≡ runtime_loop flaky (policy_from config) 8 3 (record {
      reconnect_attempts_total = 3;
      reconnect_successes_total = 1;
      reconnect_failures_total = 2;
    })
unfolding policy_from
runtime_loop-reconnects_example =
    runtime_loop-reconnects flaky (policy_from config) 8 6 counters "connection lost" refl refl
      third_connects

runtime_loop-stops_example :
    runtime_loop flaky (policy_from config) 3 1 counters ≡ some (0, counters)
runtime_loop-stops_example = runtime_loop-stops flaky (policy_from config) 2 1 counters refl refl
