-- ===== src/App/Reconnect/Account.antt =====
-- What `reconnect_with_backoff` of liveclaw-app/src/main.rs counts.
use liveclaw.Prelude.{
  ℕ, zero, suc, ◌≡◌, refl, Bool, true, false, String, Result, ok, err, arith, inl, inr, Bool-cases,
}
use liveclaw.App.Reconnect.{
  ReconnectPolicy, RuntimeCounters, SessionRuntime, fetch_add64, attempt_rounds,
  reconnect_with_backoff,
}
use liveclaw.App.Reconnect.Trace.{
  counted, attempts_allowed, delayed, IsClear, none_yet, refused, Ended, connected, exhausted,
  stopped, interrupted,
}

abbrev tried_once : RuntimeCounters → RuntimeCounters
tried_once c = record c { reconnect_attempts_total = fetch_add64 c.reconnect_attempts_total }

abbrev failed_once : RuntimeCounters → RuntimeCounters
failed_once c = record (tried_once c) {
  reconnect_failures_total = fetch_add64 c.reconnect_failures_total;
}

module _ {S : Type 0} (runtime : SessionRuntime S) (policy : ReconnectPolicy) where
  -- The counts of one reconnection, from the counters before it to those after it.
  pub record Accounted (attempt allowed : ℕ) (c c' : RuntimeCounters) (start s : S)
      (recovered : Bool) : Type 0 where
    pub tried : ℕ
    pub failed : ℕ
    pub won : ℕ
    pub attempts_counted : c'.reconnect_attempts_total ≡ counted tried c.reconnect_attempts_total
    pub failures_counted : c'.reconnect_failures_total ≡ counted failed c.reconnect_failures_total
    pub successes_counted : c'.reconnect_successes_total ≡ counted won c.reconnect_successes_total
    pub ended : Ended runtime policy attempt allowed start tried failed won s recovered

  one_more :
      (attempt : ℕ) {allowed tried failed won : ℕ} {start s : S} {recovered : Bool} (e : String)
      → IsClear runtime policy attempt start
      → (runtime.connect (delayed runtime policy attempt start)).0 ≡ err e
      → Ended runtime policy
          (suc attempt)
          allowed
          (runtime.connect (delayed runtime policy attempt start)).1
          tried
          failed
          won
          s
          recovered
      → Ended runtime policy attempt (suc allowed) start (suc tried) (suc failed) won s recovered
  one_more attempt e clear fails (connected failed last s h l f k y) =
      connected (suc failed) last s (omega (arith, h)) (omega (arith, l)) (refused e clear fails f)
        k y
  one_more attempt e clear fails (exhausted s f) = exhausted s (refused e clear fails f)
  one_more attempt e clear fails (stopped failed s h f k) =
      stopped (suc failed) s (omega (arith, h)) (refused e clear fails f) k
  one_more attempt e clear fails (interrupted failed last s h l f k k') =
      interrupted (suc failed) last s (omega (arith, h)) (omega (arith, l))
        (refused e clear fails f) k k'

  one_failed :
      (attempt : ℕ) {allowed : ℕ} {c c' : RuntimeCounters} {start s : S} {recovered : Bool}
      (e : String)
      → IsClear runtime policy attempt start
      → (runtime.connect (delayed runtime policy attempt start)).0 ≡ err e
      → Accounted
          (suc attempt)
          allowed
          (failed_once c)
          c'
          (runtime.connect (delayed runtime policy attempt start)).1
          s
          recovered
      → Accounted attempt (suc allowed) c c' start s recovered
  one_failed attempt e clear fails a = record {
    tried = suc a.tried;
    failed = suc a.failed;
    won = a.won;
    attempts_counted = a.attempts_counted;
    failures_counted = a.failures_counted;
    successes_counted = a.successes_counted;
    ended = one_more attempt e clear fails a.ended;
  }

  -- A reconnection that ends before it connects.
  unconnected :
      {attempt allowed tried : ℕ} {start s : S} (c : RuntimeCounters)
      → Ended runtime policy attempt allowed start tried 0 0 s false
      → Accounted attempt allowed c
          (record c { reconnect_attempts_total = counted tried c.reconnect_attempts_total })
          start
          s
          false
  unconnected {tried = tried} c ended = record {
    tried = tried;
    failed = 0;
    won = 0;
    attempts_counted = refl;
    failures_counted = refl;
    successes_counted = refl;
    ended = ended;
  }

  abbrev Claim : (attempt allowed : ℕ) → RuntimeCounters → S → S × RuntimeCounters × Bool → Type 0
  Claim attempt allowed c start x = Accounted attempt allowed c x.1 start x.0 x.2

  after_connect :
      (left attempt : ℕ) (s : S) (c : RuntimeCounters) (r : Result (Unit {0}) String)
      → IsClear runtime policy attempt s
      → (runtime.connect (delayed runtime policy attempt s)).0 ≡ r
      → Claim
          (suc attempt)
          left
          (failed_once c)
          (runtime.connect (delayed runtime policy attempt s)).1
          (attempt_rounds runtime policy left
            (suc attempt)
            (runtime.connect (delayed runtime policy attempt s)).1
            (failed_once c))
      → Claim attempt (suc left) c s (elim r [
        | ok _ ↦ (
          (runtime.connect (delayed runtime policy attempt s)).1,
          record (tried_once c) {
            reconnect_successes_total = fetch_add64 c.reconnect_successes_total;
          },
          true,
        )
        | err e ↦
            attempt_rounds runtime policy left
              (suc attempt)
              (runtime.connect (delayed runtime policy attempt s)).1
              (failed_once c)
      ])
  after_connect left attempt s c (ok _) clear works ih = record {
    tried = 1;
    failed = 0;
    won = 1;
    attempts_counted = refl;
    failures_counted = refl;
    successes_counted = refl;
    ended = connected 0 attempt s (omega arith) (omega arith) none_yet clear works;
  }
  after_connect left attempt s c (err e) clear fails ih = one_failed attempt e clear fails ih

  rounds :
      (left attempt : ℕ) (s : S) (c : RuntimeCounters)
      → Claim attempt left c s (attempt_rounds runtime policy left attempt s c)
  unfolding attempt_rounds
  rounds zero attempt s c = unconnected c (exhausted s none_yet)
  rounds (suc left) attempt s c =
      let s1 = delayed runtime policy attempt s in
      elim (Bool-cases (runtime.shutdown s)) [
        | inl down ↦
            rw (attempt_rounds, down) (unconnected c (stopped 0 s (omega arith) none_yet down))
        | inr up ↦ elim (Bool-cases (runtime.shutdown s1)) [
          | inl down ↦
              rw (attempt_rounds, up, down)
                (unconnected c
                  (interrupted 0 attempt s (omega arith) (omega arith) none_yet up down))
          | inr up1 ↦
              rw (attempt_rounds, up, up1)
                (after_connect left attempt s c (runtime.connect s1).0 (up, up1) refl
                  (rounds left (suc attempt) (runtime.connect s1).1 (failed_once c)))
        ]
      ]

  -- A reconnection begins with attempts in a row that `connect` answers with an error, each after
  -- its delay and with the flag clear before and after that. Then the next attempt, of those that
  -- the policy allows, is answered without an error, and only so the reconnection recovers; or as
  -- many failed as the policy allows, none where it is disabled; or the flag is set, before the
  -- next attempt or during its delay, and then that attempt is counted. Each attempt, failure and
  -- success is counted once.
  pub reconnect_with_backoff-Accounted :
      (s : S) (c : RuntimeCounters)
      → let (s', c', recovered) = reconnect_with_backoff runtime policy s c in
        Accounted 1 (attempts_allowed policy) c c' s s' recovered
  unfolding reconnect_with_backoff attempt_rounds
  reconnect_with_backoff-Accounted s c = elim (Bool-cases policy.enable_reconnect) [
    | inl on ↦ simp on (rounds policy.max_attempts 1 s c)
    | inr off ↦ simp off (rounds 0 1 s c)
  ]
