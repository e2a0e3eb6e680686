-- ===== src/App/Reconnect/Ending.antt =====
-- When the task of `spawn_runtime_loop` of liveclaw-app/src/main.rs ends.
use liveclaw.Prelude.{
  ℕ, zero, suc, ◌+◌, ◌-◌, ◌≡◌, refl, sym, Bool, true, false, Option, some, String, Result, ok, err,
  arith, inl, inr, Bool-cases, ◌∙◌, ap, if◌then◌else◌,
}
use liveclaw.App.Reconnect.{
  ReconnectPolicy, RuntimeCounters, SessionRuntime, attempt_rounds, reconnect_with_backoff,
  runtime_loop, fetch_add64,
}
use liveclaw.App.Reconnect.Trace.{
  Failures, none_yet, refused, Ended, connected, exhausted, stopped, interrupted, IsClear, delayed,
  counted, attempts_allowed,
}

module _ {S : Type 0} (runtime : SessionRuntime S) (policy : ReconnectPolicy) where
  -- The counters after some more attempts, failures and successes.
  abbrev pub counted_by : (tried failed won : ℕ) → RuntimeCounters → RuntimeCounters
  counted_by tried failed won c = record {
    reconnect_attempts_total = counted tried c.reconnect_attempts_total;
    reconnect_failures_total = counted failed c.reconnect_failures_total;
    reconnect_successes_total = counted won c.reconnect_successes_total;
  }

  rounds_after :
      {attempt n : ℕ} {start s : S} (left m last : ℕ) (c : RuntimeCounters)
      → left ≡ n + m
      → last ≡ attempt + n
      → Failures runtime policy attempt n start s
      → attempt_rounds runtime policy left attempt start c
        ≡ attempt_rounds runtime policy m last s (counted_by n n 0 c)
  unfolding attempt_rounds
  rounds_after {attempt} left m last c l k none_yet =
      let same_left : left ≡ m = omega (arith, l) in
      let same_last : last ≡ attempt = omega (arith, k) in rw (same_left, same_last) refl
  rounds_after zero m last c l k (refused e clear fails f) = absurd (omega (arith, l))
  rounds_after (suc left) m last c l k (refused e clear fails f) =
      rw (attempt_rounds, clear.0, clear.1, fails)
        (rounds_after left m last (counted_by 1 1 0 c) (omega (arith, l)) (omega (arith, k)) f)

  connected_round :
      (m last : ℕ) (s : S) (c : RuntimeCounters)
      → IsClear runtime policy last s
      → (runtime.connect (delayed runtime policy last s)).0 ≡ ok tt
      → attempt_rounds runtime policy (suc m) last s c
        ≡ ((runtime.connect (delayed runtime policy last s)).1, counted_by 1 0 1 c, true)
  unfolding attempt_rounds
  connected_round m last s c clear works = rw (attempt_rounds, clear.0, clear.1, works) refl

  interrupted_round :
      (m last : ℕ) (s : S) (c : RuntimeCounters)
      → runtime.shutdown s ≡ false
      → runtime.shutdown (delayed runtime policy last s) ≡ true
      → attempt_rounds runtime policy (suc m) last s c
        ≡ (delayed runtime policy last s, counted_by 1 0 0 c, false)
  unfolding attempt_rounds
  interrupted_round m last s c up down = rw (attempt_rounds, up, down) refl

  stopped_round :
      (m last : ℕ) (s : S) (c : RuntimeCounters)
      → runtime.shutdown s ≡ true
      → attempt_rounds runtime policy m last s c ≡ (s, c, false)
  unfolding attempt_rounds
  stopped_round zero last s c down = refl
  stopped_round (suc m) last s c down = rw (attempt_rounds, down) refl

  no_round :
      (attempt : ℕ) (s : S) (c : RuntimeCounters)
      → attempt_rounds runtime policy 0 attempt s c ≡ (s, c, false)
  unfolding attempt_rounds
  no_round attempt s c = refl

  counted_more : (n c : ℕ) → counted (suc n) c ≡ counted 1 (counted n c)
  counted_more zero c = refl
  counted_more (suc n) c = counted_more n (fetch_add64 c)

  -- An end that the attempts can have is the one that they have.
  rounds_end :
      {attempt tried failed won : ℕ} {start s : S} {recovered : Bool} (allowed : ℕ)
      (c : RuntimeCounters)
      → Ended runtime policy attempt allowed start tried failed won s recovered
      → attempt_rounds runtime policy allowed attempt start c
        ≡ (s, counted_by tried failed won c, recovered)
  rounds_end allowed c (connected failed last s h l f k works) =
      rw (counted_more failed c.reconnect_attempts_total) (
        rounds_after allowed (suc (allowed - suc failed)) last c (omega (arith, h)) l f
        ∙ connected_round (allowed - suc failed) last s (counted_by failed failed 0 c) k works)
  rounds_end {attempt} allowed c (exhausted s f) =
      rounds_after allowed 0 (attempt + allowed) c (omega arith) refl f
      ∙ no_round (attempt + allowed) s (counted_by allowed allowed 0 c)
  rounds_end {attempt} allowed c (stopped failed s h f k) =
      rounds_after allowed (allowed - failed) (attempt + failed) c (omega (arith, h)) refl f
      ∙ stopped_round (allowed - failed) (attempt + failed) s (counted_by failed failed 0 c) k
  rounds_end allowed c (interrupted failed last s h l f k down) =
      rw (counted_more failed c.reconnect_attempts_total) (
        rounds_after allowed (suc (allowed - suc failed)) last c (omega (arith, h)) l f
        ∙ interrupted_round (allowed - suc failed) last s (counted_by failed failed 0 c) k down)

  reconnect_end :
      {tried failed won : ℕ} {start s : S} {recovered : Bool} (c : RuntimeCounters)
      → Ended runtime policy 1 (attempts_allowed policy) start tried failed won s recovered
      → reconnect_with_backoff runtime policy start c
        ≡ (s, counted_by tried failed won c, recovered)
  unfolding reconnect_with_backoff
  reconnect_end {start = start} c ended =
      attempts_of policy.enable_reconnect ∙ rounds_end (attempts_allowed policy) c ended
    where
      attempts_of :
          (b : Bool)
          → (if b
              then attempt_rounds runtime policy policy.max_attempts 1 start c
              else (start, c, false))
            ≡ attempt_rounds runtime policy (if b then policy.max_attempts else 0) 1 start c
      attempts_of true = refl
      attempts_of false = sym (no_round 1 start c)

  -- Where a run fails, with the flag clear before it, and after it the answers of `connect` and the
  -- flag are those of an end that a reconnection can have (an attempt connects after a number of
  -- refused ones; or all attempts that the policy allows are refused; or the flag is set before an
  -- attempt or during its delay), the task goes on exactly if an attempt connected, from the state
  -- after it, and otherwise it ends in the state there; and the counters have grown by those
  -- attempts, failures and successes.
  pub runtime_loop-reconnects :
      {tried failed won : ℕ} {s' : S} {recovered : Bool} (fuel : ℕ) (s : S) (c : RuntimeCounters)
      (e : String)
      → runtime.shutdown s ≡ false
      → (runtime.run s).0 ≡ err e
      → Ended runtime policy 1
          (attempts_allowed policy)
          (runtime.run s).1
          tried
          failed
          won
          s'
          recovered
      → runtime_loop runtime policy (suc fuel) s c ≡ (
          if recovered
          then runtime_loop runtime policy fuel s' (counted_by tried failed won c)
          else some (s', counted_by tried failed won c))
  unfolding runtime_loop
  runtime_loop-reconnects {tried} {failed} {won} {s'} {recovered} fuel s c e up lost ended =
      rw (runtime_loop, up, lost)
        (ap
            (λ x. elim x.2 as (λ _. Option (S × RuntimeCounters)) [
              | true ↦ runtime_loop runtime policy fuel x.0 x.1
              | false ↦ some (x.0, x.1)
            ])
            (reconnect_end c ended)
          ∙ branch recovered)
    where
      branch :
          (b : Bool)
          → elim b as (λ _. Option (S × RuntimeCounters)) [
            | true ↦ runtime_loop runtime policy fuel s' (counted_by tried failed won c)
            | false ↦ some (s', counted_by tried failed won c)
          ]
            ≡ (if b
                then runtime_loop runtime policy fuel s' (counted_by tried failed won c)
                else some (s', counted_by tried failed won c))
      branch true = refl
      branch false = refl

  rounds_down :
      (left attempt : ℕ) (s : S) (c : RuntimeCounters)
      → runtime.shutdown s ≡ true
      → attempt_rounds runtime policy left attempt s c ≡ (s, c, false)
  unfolding attempt_rounds
  rounds_down zero attempt s c down = refl
  rounds_down (suc left) attempt s c down = rw (attempt_rounds, down) refl

  reconnect_down :
      (s : S) (c : RuntimeCounters)
      → runtime.shutdown s ≡ true
      → reconnect_with_backoff runtime policy s c ≡ (s, c, false)
  unfolding reconnect_with_backoff
  reconnect_down s c down = elim (Bool-cases policy.enable_reconnect) [
    | inl on ↦ simp on (rounds_down policy.max_attempts 1 s c down)
    | inr off ↦ simp off refl
  ]

  after_stop :
      (fuel : ℕ) (s : S) (c : RuntimeCounters) (r : Result (Unit {0}) String)
      → runtime.shutdown s ≡ true
      → elim r as (λ _. Option (S × RuntimeCounters)) [
        | ok _ ↦ some (s, c)
        | err e ↦
            let (s2, c2, recovered) = reconnect_with_backoff runtime policy s c in
            elim recovered as (λ _. Option (S × RuntimeCounters)) [
              | true ↦ runtime_loop runtime policy fuel s2 c2
              | false ↦ some (s2, c2)
            ]
      ]
        ≡ some (s, c)
  after_stop fuel s c (ok _) down = refl
  after_stop fuel s c (err e) down =
      ap
        (λ x. elim x.2 as (λ _. Option (S × RuntimeCounters)) [
          | true ↦ runtime_loop runtime policy fuel x.0 x.1
          | false ↦ some (x.0, x.1)
        ])
        (reconnect_down s c down)

  -- Where the shutdown flag is set while the runtime runs, the task ends after that run, whether or
  -- not it failed, without an attempt to connect and without a change of the counters.
  pub runtime_loop-stops :
      (fuel : ℕ) (s : S) (c : RuntimeCounters)
      → runtime.shutdown s ≡ false
      → runtime.shutdown (runtime.run s).1 ≡ true
      → runtime_loop runtime policy (suc fuel) s c ≡ some ((runtime.run s).1, c)
  unfolding runtime_loop
  runtime_loop-stops fuel s c up down =
      rw (runtime_loop, up) (after_stop fuel (runtime.run s).1 c (runtime.run s).0 down)
