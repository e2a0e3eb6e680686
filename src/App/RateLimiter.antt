-- ===== src/App/RateLimiter.antt =====
-- `RateLimiter` of liveclaw-app/src/security.rs: how many tool calls a session may make. A counter
-- is a `u32`, so that `fetch_add` and `fetch_sub` wrap.
pub mod Limit
use liveclaw.Prelude.{
  ℕ, ◌+◌, ◌-◌, ◌%◌, ◌^◌, Bool, true, false, Option, none, some, List, [], ◌∷◌, String, string_Key,
  leb, if◌then◌else◌,
}
use liveclaw.Prelude.Map.{Map, get, insert}

pub record RateLimiter : Type 0 where
  pub limit : ℕ
  pub counts : Map String ℕ

unfoldable pub new_limiter : ℕ → RateLimiter
new_limiter limit = record { limit = limit; counts = [] }

abbrev pub fetch_add : ℕ → ℕ
fetch_add counter = (counter + 1) % 2 ^ 32

abbrev pub fetch_sub : ℕ → ℕ
fetch_sub counter = (counter + 2 ^ 32 - 1) % 2 ^ 32

-- What a call does with a counter that is there: it counts, and undoes that over the limit.
unfoldable pub count_call : ℕ → ℕ → ℕ × Bool
count_call limit current =
    if leb limit current then (fetch_sub (fetch_add current), false) else (fetch_add current, true)

-- One call with no other in between: the counter is found, or a new one starts at 1.
unfoldable pub check_and_increment : String → RateLimiter → RateLimiter × Bool
unfolding count_call
check_and_increment session_id l = elim (get session_id l.counts) [
  | none ↦ (record l { counts = insert session_id 1 l.counts }, true)
  | some current ↦
      let (counter, allowed) = count_call l.limit current in
      (record l { counts = insert session_id counter l.counts }, allowed)
]

unfoldable pub reset : String → RateLimiter → RateLimiter
reset session_id l = elim (get session_id l.counts) [
  | none ↦ l
  | some current ↦ record l { counts = insert session_id 0 l.counts }
]
