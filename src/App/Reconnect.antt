-- ===== src/App/Reconnect.antt =====
-- `ReconnectPolicy`, `reconnect_with_backoff` and `spawn_runtime_loop` of liveclaw-app/src/main.rs.
-- Times are in milliseconds. The three counters of `RuntimeDiagnosticsCounters` are `u64`s, so that
-- `fetch_add` wraps. What the runtime does, and what other tasks do to the shutdown flag meanwhile, is
-- a parameter.
pub mod Backoff
pub mod Account
pub mod Trace
pub mod Ending
use liveclaw.Prelude.{
  ℕ, zero, suc, ◌+◌, ◌-◌, ◌*◌, ◌%◌, ◌^◌, min, max, Bool, true, false, Option, none, some, String,
  Result, ok, err, if◌then◌else◌,
}

pub record ResilienceConfig : Type 0 where
  pub enable_reconnect : Bool
  pub max_reconnect_attempts : ℕ
  pub initial_backoff_ms : ℕ
  pub max_backoff_ms : ℕ

pub record ReconnectPolicy : Type 0 where
  pub enable_reconnect : Bool
  pub max_attempts : ℕ
  pub initial_backoff : ℕ
  pub max_backoff : ℕ

-- `ReconnectPolicy::from`.
unfoldable pub policy_from : ResilienceConfig → ReconnectPolicy
policy_from value =
    let initial_backoff_ms = max value.initial_backoff_ms 1 in
    record {
      enable_reconnect = value.enable_reconnect;
      max_attempts = value.max_reconnect_attempts;
      initial_backoff = initial_backoff_ms;
      max_backoff = max value.max_backoff_ms initial_backoff_ms;
    }

unfoldable pub backoff_for_attempt : ReconnectPolicy → ℕ → ℕ
backoff_for_attempt policy zero = 0
backoff_for_attempt policy (suc before) =
    let multiplier = 2 ^ min before 16 in
    let backoff_ms = min (policy.initial_backoff * multiplier) (2 ^ 128 - 1) in
    min backoff_ms policy.max_backoff % 2 ^ 64

pub record RuntimeCounters : Type 0 where
  pub reconnect_attempts_total : ℕ
  pub reconnect_successes_total : ℕ
  pub reconnect_failures_total : ℕ

abbrev pub fetch_add64 : ℕ → ℕ
fetch_add64 counter = (counter + 1) % 2 ^ 64

-- A session's runtime with the world it runs in: `S` holds the connection, the time and the flag.
pub record SessionRuntime (S : Type 0) : Type 0 where
  pub shutdown : S → Bool
  pub sleep : ℕ → S → S
  pub connect : S → Result (Unit {0}) String × S
  pub run : S → Result (Unit {0}) String × S

module _ {S : Type 0} (runtime : SessionRuntime S) (policy : ReconnectPolicy) where
  -- The rounds of the `for` loop from one attempt on.
  unfoldable pub attempt_rounds :
      (left attempt : ℕ) → S → RuntimeCounters → S × RuntimeCounters × Bool
  attempt_rounds zero attempt s c = (s, c, false)
  attempt_rounds (suc left) attempt s c = elim (runtime.shutdown s) [
    | true ↦ (s, c, false)
    | false ↦
        let c1 = record c { reconnect_attempts_total = fetch_add64 c.reconnect_attempts_total } in
        let s1 = runtime.sleep (backoff_for_attempt policy attempt) s in
        elim (runtime.shutdown s1) [
          | true ↦ (s1, c1, false)
          | false ↦
              let (r, s2) = runtime.connect s1 in
              elim r [
                | ok _ ↦ (
                  s2,
                  record c1 {
                    reconnect_successes_total = fetch_add64 c1.reconnect_successes_total;
                  },
                  true,
                )
                | err e ↦ attempt_rounds left (suc attempt) s2 (record c1 {
                  reconnect_failures_total = fetch_add64 c1.reconnect_failures_total;
                })
              ]
        ]
  ]

  unfoldable pub reconnect_with_backoff : S → RuntimeCounters → S × RuntimeCounters × Bool
  reconnect_with_backoff s c =
      if policy.enable_reconnect then attempt_rounds policy.max_attempts 1 s c else (s, c, false)

  -- The task of `spawn_runtime_loop`: none if its rounds are not over within the fuel.
  unfoldable pub runtime_loop : (fuel : ℕ) → S → RuntimeCounters → Option (S × RuntimeCounters)
  runtime_loop zero s c = none
  runtime_loop (suc fuel) s c = elim (runtime.shutdown s) [
    | true ↦ some (s, c)
    | false ↦
        let (r, s1) = runtime.run s in
        elim r [
          | ok _ ↦ some (s1, c)
          | err e ↦
              let (s2, c2, recovered) = reconnect_with_backoff s1 c in
              elim recovered [ true ↦ runtime_loop fuel s2 c2 | false ↦ some (s2, c2) ]
        ]
  ]
