-- ===== src/App/Reconnect/Backoff.antt =====
-- The delays of liveclaw-app/src/main.rs, `ReconnectPolicy`.
use liveclaw.Prelude.{ℕ, zero, suc, ◌-◌, ◌*◌, ◌%◌, ◌^◌, ◌≤◌, ◌<◌, min, max, ◌≡◌, arith}
use liveclaw.App.Reconnect.{ResilienceConfig, policy_from, backoff_for_attempt}

scale_mono : (i a b : ℕ) → a ≤ b → i * a ≤ i * b
scale_mono zero a b h = omega arith
scale_mono (suc i) a b h = omega (arith, scale_mono i a b h)

pow_mono : (n k : ℕ) → n ≤ k → 2 ^ n ≤ 2 ^ k
pow_mono zero zero h = omega arith
pow_mono zero (suc k) h = omega (arith, pow_mono zero k (omega arith))
pow_mono (suc n) zero h = absurd (omega arith)
pow_mono (suc n) (suc k) h = omega (arith, pow_mono n k (omega arith))

-- The multipliers of two attempts in turn.
multipliers :
    (n : ℕ)
    → let p = 2 ^ min n 16 in
      let q = 2 ^ min (suc n) 16 in (1 ≤ p) × (p ≤ 2 ^ 16) × (q ≤ 2 ^ 16) × (p ≤ q) × (q ≤ 2 * p)
multipliers n = (
  pow_mono 0 (min n 16) (omega arith),
  pow_mono (min n 16) 16 (omega arith),
  pow_mono (min (suc n) 16) 16 (omega arith),
  pow_mono (min n 16) (min (suc n) 16) (omega arith),
  omega (arith, pow_mono (min (suc n) 16) (suc (min n 16)) (omega arith)),
)

-- Nothing saturates, and nothing is cut to 64 bits.
capped :
    (x cap : ℕ) → x ≤ 2 ^ 80 → cap < 2 ^ 64 → min (min x (2 ^ 128 - 1)) cap % 2 ^ 64 ≡ min x cap
capped x cap small fits = omega arith

-- A configuration's numbers fit into `u64`.
abbrev pub Fits : ResilienceConfig → Type 0
Fits config = (config.initial_backoff_ms < 2 ^ 64) × (config.max_backoff_ms < 2 ^ 64)

-- Under the policy of a configuration whose numbers are `u64`s, the delay of every attempt from the
-- first on is at least the initial and at most the maximal delay, and the next delay is neither
-- shorter nor more than twice as long: nothing saturates or is cut off.
pub backoff_for_attempt-bounds :
    (config : ResilienceConfig) (attempt : ℕ)
    → Fits config
    → let policy = policy_from config in
      let delay = backoff_for_attempt policy (suc attempt) in
      (policy.initial_backoff ≤ delay)
      × (delay ≤ policy.max_backoff)
      × (delay ≤ backoff_for_attempt policy (suc (suc attempt)))
      × (backoff_for_attempt policy (suc (suc attempt)) ≤ 2 * delay)
unfolding policy_from backoff_for_attempt
backoff_for_attempt-bounds config attempt (initial_fits, max_fits) =
    let i = max config.initial_backoff_ms 1 in
    let p = 2 ^ min attempt 16 in
    let q = 2 ^ min (suc attempt) 16 in
    let (p_pos, p_small, q_small, p_q, q_2p) = multipliers attempt in
    let cap = max config.max_backoff_ms i in
    let at_p = capped (i * p) cap (omega (arith, scale_mono i p (2 ^ 16) p_small)) (omega arith) in
    let at_q = capped (i * q) cap (omega (arith, scale_mono i q (2 ^ 16) q_small)) (omega arith) in
    rw (at_p, at_q)
      (
        omega (arith, scale_mono i 1 p p_pos),
        omega arith,
        omega (arith, scale_mono i p q p_q),
        omega (arith, scale_mono i q (2 * p) q_2p),
      )
