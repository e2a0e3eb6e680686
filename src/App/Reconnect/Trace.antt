-- ===== src/App/Reconnect/Trace.antt =====
-- What can happen in `reconnect_with_backoff` of liveclaw-app/src/main.rs, in terms of what the runtime
-- answers and when the shutdown flag is set.
use liveclaw.Prelude.{
  ℕ, zero, suc, ◌+◌, ◌<◌, ◌≡◌, Bool, true, false, String, ok, err, if◌then◌else◌,
}
use liveclaw.App.Reconnect.{ReconnectPolicy, SessionRuntime, fetch_add64, backoff_for_attempt}

-- A counter after some more counts.
abbrev pub counted : ℕ → ℕ → ℕ
counted zero c = c
counted (suc n) c = counted n (fetch_add64 c)

-- How many attempts a policy allows.
abbrev pub attempts_allowed : ReconnectPolicy → ℕ
attempts_allowed policy = if policy.enable_reconnect then policy.max_attempts else 0

module _ {S : Type 0} (runtime : SessionRuntime S) (policy : ReconnectPolicy) where
  -- The state after the delay before an attempt.
  abbrev pub delayed : (attempt : ℕ) → S → S
  delayed attempt s = runtime.sleep (backoff_for_attempt policy attempt) s

  -- The flag is clear before and after the delay.
  abbrev pub IsClear : (attempt : ℕ) → S → Type 0
  IsClear attempt s = (runtime.shutdown s ≡ false) × (runtime.shutdown (delayed attempt s) ≡ false)

  -- Attempts in a row, from the given one on, whose connections fail.
  pub data Failures : (attempt failed : ℕ) → S → S → Type 0 where
    none_yet : {attempt : ℕ} {s : S} → Failures attempt 0 s s
    refused :
        {attempt failed : ℕ} {s s' : S} (e : String)
        → IsClear attempt s
        → (runtime.connect (delayed attempt s)).0 ≡ err e
        → Failures (suc attempt) failed (runtime.connect (delayed attempt s)).1 s'
        → Failures attempt (suc failed) s s'

  -- How the attempts end after some failures: the next one connects; or none is left; or the flag
  -- is set; or it is set during the delay of the next one, which is counted and not made.
  pub data Ended (attempt allowed : ℕ) (start : S)
      : (tried failed won : ℕ) → S → Bool → Type 0 where
    connected :
        (failed last : ℕ) (s : S)
        → failed < allowed
        → last ≡ attempt + failed
        → Failures attempt failed start s
        → IsClear last s
        → (runtime.connect (delayed last s)).0 ≡ ok tt
        → Ended attempt allowed start
            (suc failed)
            failed
            1
            (runtime.connect (delayed last s)).1
            true
    exhausted :
        (s : S)
        → Failures attempt allowed start s
        → Ended attempt allowed start allowed allowed 0 s false
    stopped :
        (failed : ℕ) (s : S)
        → failed < allowed
        → Failures attempt failed start s
        → runtime.shutdown s ≡ true
        → Ended attempt allowed start failed failed 0 s false
    interrupted :
        (failed last : ℕ) (s : S)
        → failed < allowed
        → last ≡ attempt + failed
        → Failures attempt failed start s
        → runtime.shutdown s ≡ false
        → runtime.shutdown (delayed last s) ≡ true
        → Ended attempt allowed start (suc failed) failed 0 (delayed last s) false
