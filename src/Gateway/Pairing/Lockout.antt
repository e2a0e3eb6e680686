-- ===== src/Gateway/Pairing/Lockout.antt =====
-- The lockout of `try_pair`, of liveclaw-gateway/src/pairing.rs, over a sequence of attempts.
use liveclaw.Prelude.{
  ℕ, suc, ◌+◌, ◌-◌, ◌^◌, ◌%◌, ◌≤◌, ◌<◌, ◌≡◌, ◌≢◌, refl, Bool, true, false, ◌&&◌, not, Option, none,
  some, List, [], ◌∷◌, arith, String, str_eq, eq_iff, max, ◌/◌, Result, ok, err, Bool-cases,
  Option-cases, inl, inr, if◌then◌else◌, leb, leb→le,
}
use liveclaw.Prelude.Lists.{All, length}
use liveclaw.Gateway.Pairing.{
  nanos, PairingGuard, try_pair, compare_code, record_failure, record_success, locked_for,
}

-- A call of `try_pair`: the code, two readings of the clock, and the UUID it would hand out.
pub record Attempt : Type 0 where
  pub given : String
  pub now : ℕ
  pub later : ℕ
  pub uuid : String

-- A token was handed out.
abbrev issued : Result (Option String) ℕ → Bool
issued (ok (some token)) = true
issued (ok none) = false
issued (err secs) = false

module _ (sha256 : String → List ℕ) where
  pub attempt : PairingGuard → Attempt → PairingGuard × Result (Option String) ℕ
  attempt g a = try_pair sha256 g a.given a.now a.later a.uuid

  unfoldable pub run : PairingGuard → List Attempt → PairingGuard
  unfolding attempt
  run g [] = g
  run g (a ∷ as') = run (attempt g a).0 as'

  -- Whether the attempt is compared with the code and refused for it.
  is_wrong : PairingGuard → Attempt → Bool
  is_wrong g a = elim (locked_for g a.now) [
    | some secs ↦ false
    | none ↦ elim g.pairing_code [
      | none ↦ false
      | some expected ↦ g.require_pairing && not (str_eq a.given expected)
    ]
  ]

  -- Whether the guess counts: with the right code in its place a token would be handed out.
  pub is_live : PairingGuard → Attempt → Bool
  unfolding attempt
  is_live g a = elim g.pairing_code [
    | none ↦ false
    | some expected ↦ issued (attempt g (record a { given = expected })).1
  ]

  -- How many guesses of a sequence of attempts count.
  unfoldable pub live_guesses : PairingGuard → List Attempt → ℕ
  unfolding attempt is_live
  live_guesses g [] = 0
  live_guesses g (a ∷ as') = (if is_live g a then 1 else 0) + live_guesses (attempt g a).0 as'

  -- A wrong guess counts exactly when it is compared.
  is_live-wrong :
      (g : PairingGuard) (a : Attempt) → g.pairing_code ≢ some a.given → is_live g a ≡ is_wrong g a
  unfolding is_live is_wrong attempt try_pair compare_code record_success
  is_live-wrong g a miss = elim (Option-cases (locked_for g a.now)) [
    | inr (secs, e) ↦ elim (Option-cases g.pairing_code) [
      | inl e' ↦ ground arith
      | inr (c, e') ↦ ground arith
    ]
    | inl e ↦ elim (Option-cases g.pairing_code) [
      | inl e' ↦ ground arith
      | inr (c, e') ↦ ground (arith, eq_iff a.given c, eq_iff c c)
    ]
  ]

  locked_for_below :
      (g : PairingGuard) (until now : ℕ)
      → g.lockout_until ≡ some until
      → now < until
      → (secs : ℕ) × (locked_for g now ≡ some secs)
  unfolding locked_for
  locked_for_below g until now e h = (max ((until - now) / nanos) 1, ground arith)

  -- During a lockout no attempt changes the guard, whatever its code.
  attempt_locked :
      (g : PairingGuard) (a : Attempt) (secs : ℕ)
      → locked_for g a.now ≡ some secs
      → ((attempt g a).0 ≡ g) × (is_live g a ≡ false)
  unfolding attempt try_pair is_live
  attempt_locked g a secs e = (
    ground arith,
    elim (Option-cases g.pairing_code) [ inl e' ↦ ground arith | inr (c, e') ↦ ground arith ],
  )

  live_guesses_locked :
      (g : PairingGuard) (until limit : ℕ) (as' : List Attempt)
      → g.lockout_until ≡ some until
      → limit ≤ until
      → All (λ a. a.now < limit) as'
      → live_guesses g as' ≡ 0
  unfolding live_guesses
  live_guesses_locked g until limit [] e h all = refl
  live_guesses_locked g until limit (a ∷ as') e h (here, all) =
      let (secs, locked) = locked_for_below g until a.now e (omega arith) in
      let (same, silent) = attempt_locked g a secs locked in
      rw (silent, same) (omega (arith, live_guesses_locked g until limit as' e h all))

  -- What a compared attempt with a wrong code does: it counts one more failure, or it locks.
  attempt_wrong :
      (g : PairingGuard) (a : Attempt) (expected : String)
      → g.max_attempts < 2 ^ 32
      → g.failed_attempts < g.max_attempts
      → locked_for g a.now ≡ none
      → g.require_pairing ≡ true
      → g.pairing_code ≡ some expected
      → a.given ≢ expected
      → (is_wrong g a ≡ true)
        × ((attempt g a).0 ≡ (
            if leb g.max_attempts (suc g.failed_attempts)
            then record g {
              failed_attempts = 0;
              lockout_until = some (a.later + g.lockout_duration);
            }
            else record g { failed_attempts = suc g.failed_attempts }))
  unfolding attempt try_pair compare_code record_failure is_wrong
  attempt_wrong g a expected small h open_ on e miss =
      let wrap : (g.failed_attempts + 1) % 2 ^ 32 ≡ suc g.failed_attempts = omega arith in
      (ground (arith, eq_iff a.given expected), ground (arith, eq_iff a.given expected, wrap))

  -- Where nothing is compared, nothing changes.
  attempt_idle :
      (g : PairingGuard) (a : Attempt)
      → g.pairing_code ≢ some a.given
      → is_wrong g a ≡ false
      → (attempt g a).0 ≡ g
  unfolding attempt try_pair compare_code is_wrong
  attempt_idle g a miss quiet = elim (Option-cases (locked_for g a.now)) [
    | inr (secs, e) ↦ ground arith
    | inl e ↦ elim (Option-cases g.pairing_code) [
      | inl e' ↦ ground arith
      | inr (c, e') ↦ ground (arith, eq_iff a.given c)
    ]
  ]

  is_wrong_facts :
      (g : PairingGuard) (a : Attempt)
      → is_wrong g a ≡ true
      → (expected : String) × (locked_for g a.now ≡ none)
        × (g.require_pairing ≡ true)
        × (g.pairing_code ≡ some expected)
        × (a.given ≢ expected)
  unfolding is_wrong
  is_wrong_facts g a h = elim (Option-cases g.pairing_code) [
    | inl e ↦ absurd (ground arith)
    | inr (c, e) ↦ (c, ground arith, ground arith, e, ground (arith, eq_iff a.given c))
  ]

  -- The brute-force bound: among attempts that start before a time `limit`, none with the right
  -- code, of a guard that has not reached its maximum, where a lockout that one of them begins
  -- would last until `limit` at least, at most `max_attempts - failed_attempts` count, whatever
  -- their number: a guess counts if `try_pair`, given the right code in its place, would hand out a
  -- token.
  pub live_guesses_bound :
      (g : PairingGuard) (limit : ℕ) (as' : List Attempt)
      → g.max_attempts < 2 ^ 32
      → g.failed_attempts < g.max_attempts
      → All (λ a. a.now < limit) as'
      → All (λ a. limit ≤ a.later + g.lockout_duration) as'
      → All (λ a. g.pairing_code ≢ some a.given) as'
      → live_guesses g as' + g.failed_attempts ≤ g.max_attempts
  unfolding live_guesses
  live_guesses_bound g limit [] small h before long miss = omega arith
  live_guesses_bound g limit (a ∷ as') small h (b, before) (l, long) (m, miss) =
      elim (Bool-cases (is_wrong g a)) [
        | inr quiet ↦
            rw (is_live-wrong g a m, quiet, attempt_idle g a m quiet)
              (omega (arith, live_guesses_bound g limit as' small h before long miss))
        | inl wrong ↦
            let (c, free, on, e, ne) = is_wrong_facts g a wrong in
            let (_, next) = attempt_wrong g a c small h free on e ne in
            elim (Bool-cases (leb g.max_attempts (suc g.failed_attempts))) [
              | inl full ↦
                  rw (is_live-wrong g a m, wrong, next, full)
                    (omega (
                      arith,
                      leb→le _ _ full,
                      live_guesses_locked
                          (record g {
                            failed_attempts = 0;
                            lockout_until = some (a.later + g.lockout_duration);
                          })
                          (a.later + g.lockout_duration) limit as' refl l before,
                    ))
              | inr more ↦
                  rw (is_live-wrong g a m, wrong, next, more)
                    (let rest =
                        live_guesses_bound (record g { failed_attempts = suc g.failed_attempts })
                          limit as' small (ground arith) before long miss in
                      omega (arith, rest))
            ]
      ]

  -- When consecutive wrong codes make up the number of failures that is missing to the maximum, the
  -- guard, not locked before, is locked out at each time before every lockout that one of them
  -- could begin would end.
  pub run_locks :
      (g : PairingGuard) (expected : String) (a : Attempt) (as' : List Attempt) (t : ℕ)
      → g.max_attempts < 2 ^ 32
      → g.require_pairing ≡ true
      → g.pairing_code ≡ some expected
      → g.lockout_until ≡ none
      → g.failed_attempts + length (a ∷ as') ≡ g.max_attempts
      → All (λ b. b.given ≢ expected) (a ∷ as')
      → All (λ b. t < b.later + g.lockout_duration) (a ∷ as')
      → (secs : ℕ) × (locked_for (run g (a ∷ as')) t ≡ some secs)
  unfolding run
  run_locks g expected a [] t small on e none_yet count (miss, _) (b, _) =
      let free : locked_for g a.now ≡ none = unfold locked_for in ground arith in
      let (_, next) = attempt_wrong g a expected small (omega arith) free on e miss in
      let full : leb g.max_attempts (suc g.failed_attempts) ≡ true = ground arith in
      rw (next, full)
        (locked_for_below
          (record g { failed_attempts = 0; lockout_until = some (a.later + g.lockout_duration) })
          (a.later + g.lockout_duration) t refl b)
  run_locks g expected a (c ∷ as') t small on e none_yet count (miss, ms) (_, bs) =
      let free : locked_for g a.now ≡ none = unfold locked_for in ground arith in
      let (_, next) = attempt_wrong g a expected small (omega arith) free on e miss in
      let more : leb g.max_attempts (suc g.failed_attempts) ≡ false = ground arith in
      rw (next, more)
        (run_locks (record g { failed_attempts = suc g.failed_attempts }) expected c as' t small on
          e none_yet (omega arith) ms bs)
