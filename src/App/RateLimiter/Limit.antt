-- ===== src/App/RateLimiter/Limit.antt =====
-- How many calls `RateLimiter` of liveclaw-app/src/security.rs allows each session.
use liveclaw.Prelude.{
  ℕ, ◌+◌, ◌^◌, ◌≤◌, ◌<◌, min, max, Bool, true, false, ◌&&◌, Option, none, some, List, [], ◌∷◌,
  String, string_Key, str_eq, eq_iff, leb, if◌then◌else◌, ◌≡◌, refl, sym, arith, Option-cases,
  Bool-cases, inl, inr,
}
use liveclaw.Prelude.Map.{get, get-insert}
use liveclaw.App.RateLimiter.{
  RateLimiter, new_limiter, check_and_increment, count_call, fetch_add, fetch_sub,
}

-- How many of these calls, one after the other, the limiter allows the session.
unfoldable pub allowed : String → RateLimiter → List String → ℕ
allowed session_id l [] = 0
allowed session_id l (caller ∷ callers) =
    let (next, answer) = check_and_increment caller l in
    (if answer && str_eq caller session_id then 1 else 0) + allowed session_id next callers

unfoldable pub calls_of : String → List String → ℕ
calls_of session_id [] = 0
calls_of session_id (caller ∷ callers) =
    (if str_eq caller session_id then 1 else 0) + calls_of session_id callers

abbrev used : Option ℕ → ℕ
used none = 0
used (some counter) = counter

-- A counter of a session has counted a call, and no more calls than are allowed.
abbrev InUse : ℕ → Option ℕ → Type 0
InUse limit none = Unit {0}
InUse limit (some counter) = (1 ≤ counter) × (counter ≤ max limit 1)

-- What a call leaves of the counter that it finds, and what it answers.
unfoldable after : ℕ → Option ℕ → ℕ × Bool
after limit none = (1, true)
after limit (some current) = count_call limit current

check-after :
    (caller : String) (l : RateLimiter)
    → (check_and_increment caller l).1 ≡ (after l.limit (get caller l.counts)).1
unfolding check_and_increment after
check-after caller l = ground (arith)

check-limit : (caller : String) (l : RateLimiter) → (check_and_increment caller l).0.limit ≡ l.limit
unfolding check_and_increment
check-limit caller l = ground (arith)

check-get :
    (caller session_id : String) (l : RateLimiter)
    → get session_id (check_and_increment caller l).0.counts ≡ (
        if str_eq caller session_id
        then some (after l.limit (get caller l.counts)).0
        else get session_id l.counts)
unfolding check_and_increment after
check-get caller session_id l = elim (Option-cases (get caller l.counts)) [
  | inl fresh ↦ rw (check_and_increment, fresh) (get-insert caller session_id 1 l.counts)
  | inr (c, found) ↦ rw (check_and_increment, found) (get-insert caller session_id _ l.counts)
]

count_full : (limit c : ℕ) → c < 2 ^ 32 → leb limit c ≡ true → count_call limit c ≡ (c, false)
unfolding count_call
count_full limit c small full =
    let undone : fetch_sub (fetch_add c) ≡ c = omega arith in rw (full, undone) refl

count_room :
    (limit c : ℕ) → limit < 2 ^ 32 → leb limit c ≡ false → count_call limit c ≡ (c + 1, true)
unfolding count_call
count_room limit c small room =
    let counted : fetch_add c ≡ c + 1 = ground arith in rw (room, counted) refl

-- A call that is allowed uses one of the calls that are left, and one that is not uses none.
after_lem :
    (limit : ℕ) (o : Option ℕ)
    → limit < 2 ^ 32
    → InUse limit o
    → InUse limit (some (after limit o).0)
      × ((if (after limit o).1 then 1 else 0) + used o ≡ (after limit o).0)
      × ((after limit o).0 ≡ min (1 + used o) (max limit 1))
unfolding after
after_lem limit none small h = ((omega arith, omega arith), omega arith, omega arith)
after_lem limit (some c) small (low, high) = elim (Bool-cases (leb limit c)) [
  | inl full ↦ rw (count_full limit c (omega arith) full) ((low, high), omega arith, ground arith)
  | inr room ↦
      rw (count_room limit c small room) ((omega arith, ground arith), omega arith, ground arith)
]

used-le : (limit : ℕ) (o : Option ℕ) → InUse limit o → used o ≤ max limit 1
used-le limit none h = omega arith
used-le limit (some c) h = h.1

-- The counter of a session after a call of another one, and after a call of its own.
get-other :
    (caller session_id : String) (l : RateLimiter)
    → str_eq caller session_id ≡ false
    → get session_id (check_and_increment caller l).0.counts ≡ get session_id l.counts
get-other caller session_id l other = rw (check-get caller session_id l, other) refl

get-own :
    (caller session_id : String) (l : RateLimiter)
    → str_eq caller session_id ≡ true
    → (get session_id (check_and_increment caller l).0.counts
        ≡ some (after l.limit (get session_id l.counts)).0)
      × ((check_and_increment caller l).1 ≡ (after l.limit (get session_id l.counts)).1)
get-own caller session_id l own =
    let same : caller ≡ session_id = (eq_iff caller session_id).0 own in
    rw (sym same)
      (rw (check-get caller caller l, (eq_iff caller caller).1 refl) refl, check-after caller l)

counted :
    (session_id : String) (l : RateLimiter) (callers : List String)
    → l.limit < 2 ^ 32
    → InUse l.limit (get session_id l.counts)
    → allowed session_id l callers + used (get session_id l.counts)
      ≡ min (calls_of session_id callers + used (get session_id l.counts)) (max l.limit 1)
unfolding allowed calls_of
counted session_id l [] small h = omega (arith, used-le l.limit (get session_id l.counts) h)
counted session_id l (caller ∷ callers) small h =
    let limit_kept = check-limit caller l in
    elim (Bool-cases (str_eq caller session_id)) [
      | inr other ↦
          let kept = get-other caller session_id l other in
          let ih =
            counted session_id (check_and_increment caller l).0 callers (rw limit_kept small)
              (rw (kept, limit_kept) h) in
          rw other (ground (arith, rw (kept, limit_kept) at ih))
      | inl own ↦
          let (counter, answer) = get-own caller session_id l own in
          let (in_use, one, next) = after_lem l.limit (get session_id l.counts) small h in
          let ih =
            counted session_id (check_and_increment caller l).0 callers (rw limit_kept small)
              (rw (counter, limit_kept) in_use) in
          rw (own, answer) (ground (arith, one, next, rw (counter, limit_kept) at ih))
    ]

-- Of any sequence of calls by any sessions, one after the other on a new limiter, each session is
-- allowed its first calls up to the limit, but one where the limit is 0, whatever the other
-- sessions do; the limit is a `u32`.
pub check_and_increment-allows :
    (limit : ℕ) (session_id : String) (callers : List String)
    → limit < 2 ^ 32
    → allowed session_id (new_limiter limit) callers
      ≡ min (calls_of session_id callers) (max limit 1)
unfolding new_limiter get
check_and_increment-allows limit session_id callers small =
    omega (arith, counted session_id (new_limiter limit) callers small tt)
