-- ===== src/Gateway/Pairing.antt =====
-- liveclaw-gateway/src/pairing.rs. The guard behind its locks and atomics is a record, and a call
-- is one step: a method takes the guard and returns the new one. The digest of the `sha2` crate is
-- the parameter `sha256`, its result a list of bytes. What the clock and the generator of random
-- identifiers answer are arguments: instants and durations in nanoseconds, a UUID as its
-- text. A `u32` counter wraps around.
pub mod Lockout
pub mod Tokens
pub mod Compare
use Prim.Native.String
use liveclaw.Prelude.{
  ℕ, suc, zero, ◌+◌, ◌-◌, ◌*◌, ◌/◌, ◌%◌, ◌^◌, max, code, Bool, true, false, ◌&&◌, ◌||◌, Option,
  none, some, List, [], ◌∷◌, ◌++◌, map, String, str_eq, ltb, leb, nat_eq, if◌then◌else◌, Result, ok,
  err,
}
use liveclaw.Prelude.Lists.{length, any, take}
use liveclaw.Text.{codes, nth_char, show_hex}
use Prim.Native.Nat.{bit_xor, bit_or}

abbrev pub nanos : ℕ
nanos = 1000000000

pub record PairingGuard : Type 0 where
  pub require_pairing : Bool
  pub pairing_code : Option String
  pub token_hashes : List String
  pub failed_attempts : ℕ
  pub max_attempts : ℕ
  pub lockout_duration : ℕ
  pub lockout_until : Option ℕ

-- `hex_encode`, and `hash_token` for a digest function.
unfoldable pub hex_encode : List ℕ → String
hex_encode [] = ""
hex_encode (b ∷ bytes) = String.◌++◌ (show_hex b) (hex_encode bytes)

unfoldable pub hash_token : (String → List ℕ) → String → String
unfolding hex_encode
hash_token sha256 token = hex_encode (sha256 token)

-- The value of a hexadecimal digit, upper or lower case.
abbrev pub hex_value : ℕ → Option ℕ
hex_value n =
    if leb b'0' n && leb n b'9'
    then some (n - b'0')
    else if leb b'a' n && leb n b'f'
    then some (n - b'a' + 10)
    else if leb b'A' n && leb n b'F'
    then some (n - b'A' + 10)
    else none

-- The first hexadecimal digits of a text, by value: the filter of `generate_pairing_code`.
unfoldable pub hex_digits : List ℕ → List ℕ
hex_digits [] = []
hex_digits (c ∷ cs) = elim (hex_value c) [ none ↦ hex_digits cs | some d ↦ d ∷ hex_digits cs ]

-- `from_str_radix(_, 16)`: at most eight digits, so it stays below 2 ^ 32.
unfoldable pub hex_number : ℕ → List ℕ → ℕ
hex_number n [] = n
hex_number n (d ∷ ds) = hex_number (n * 16 + d) ds

abbrev digit : ℕ → String
digit n = String.◌∷◌ (nth_char "0123456789" (n % 10) "0") ""

-- `format!("{:06}", n)` of a number below a million.
unfoldable pub show_six : ℕ → String
show_six n = String.◌++◌ (digit (n / 100000)) (
    String.◌++◌ (digit (n / 10000)) (
      String.◌++◌ (digit (n / 1000))
        (String.◌++◌ (digit (n / 100)) (String.◌++◌ (digit (n / 10)) (digit n)))))

unfoldable pub generate_pairing_code : String → String
unfolding hex_digits hex_number show_six
generate_pairing_code uuid = show_six (hex_number 0 (take 8 (hex_digits (codes uuid))) % 1000000)

-- The loop of `constant_time_eq`: `diff |= x ^ y` over the zipped bytes.
unfoldable pub fold_diff : ℕ → List ℕ → List ℕ → ℕ
fold_diff diff [] bs = diff
fold_diff diff (a ∷ as') [] = diff
fold_diff diff (a ∷ as') (b ∷ bs) = fold_diff (bit_or diff (bit_xor a b)) as' bs

unfoldable pub constant_time_eq : List ℕ → List ℕ → Bool
unfolding fold_diff
constant_time_eq a b = if nat_eq (length a) (length b) then nat_eq (fold_diff 0 a b) 0 else false

-- `PairingGuard::new` and `with_lockout`; `uuid` is what the generator would answer.
unfoldable pub initial_secrets :
    (String → List ℕ) → Bool → List String → String → Option String × List String
unfolding hash_token generate_pairing_code
initial_secrets sha256 false tokens uuid = (none, [])
initial_secrets sha256 true [] uuid = (some (generate_pairing_code uuid), [])
initial_secrets sha256 true (t ∷ ts) uuid = (none, map (hash_token sha256) (t ∷ ts))

unfoldable pub new : (String → List ℕ) → Bool → List String → String → PairingGuard
unfolding initial_secrets
new sha256 require_pairing existing_tokens uuid =
    let (pairing_code, token_hashes) =
      initial_secrets sha256 require_pairing existing_tokens uuid in
    record {
      require_pairing = require_pairing;
      pairing_code = pairing_code;
      token_hashes = token_hashes;
      failed_attempts = 0;
      max_attempts = 5;
      lockout_duration = 300 * nanos;
      lockout_until = none;
    }

unfoldable pub with_lockout : (String → List ℕ) → Bool → List String → ℕ → ℕ → String → PairingGuard
unfolding new
with_lockout sha256 require_pairing existing_tokens max_attempts lockout_duration uuid =
    record (new sha256 require_pairing existing_tokens uuid) {
      max_attempts = max_attempts;
      lockout_duration = lockout_duration;
    }

-- The lockout check at the head of `try_pair`: the seconds that remain, at least one.
unfoldable pub locked_for : PairingGuard → ℕ → Option ℕ
locked_for g now = elim g.lockout_until [
  | none ↦ none
  | some until ↦ if ltb now until then some (max ((until - now) / nanos) 1) else none
]

-- The branch of `try_pair` for a wrong code. `later` is the second reading of the clock.
unfoldable pub record_failure : PairingGuard → ℕ → PairingGuard × Result (Option String) ℕ
record_failure g later =
    let attempts = (g.failed_attempts + 1) % 2 ^ 32 in
    if leb g.max_attempts attempts
    then (
      record g { failed_attempts = 0; lockout_until = some (later + g.lockout_duration) },
      err (g.lockout_duration / nanos),
    )
    else (record g { failed_attempts = attempts }, err 0)

-- The branch of `try_pair` for the right code: `uuid` becomes the token.
unfoldable pub record_success :
    (String → List ℕ) → PairingGuard → String → PairingGuard × Result (Option String) ℕ
unfolding hash_token
record_success sha256 g uuid = (
  record g { failed_attempts = 0; token_hashes = g.token_hashes ++ hash_token sha256 uuid ∷ [] },
  ok (some uuid),
)

unfoldable pub compare_code :
    (String → List ℕ) → PairingGuard → String → ℕ → String → PairingGuard × Result (Option String) ℕ
unfolding record_failure record_success
compare_code sha256 g given later uuid = elim g.pairing_code [
  | none ↦ (g, err 0)
  | some expected ↦
      if str_eq given expected then record_success sha256 g uuid else record_failure g later
]

unfoldable pub try_pair :
    (String → List ℕ)
    → PairingGuard
    → String
    → (now later : ℕ) → String
    → PairingGuard × Result (Option String) ℕ
unfolding locked_for compare_code
try_pair sha256 g given now later uuid =
    if g.require_pairing
    then elim (locked_for g now) [
      | some secs ↦ (g, err secs)
      | none ↦ compare_code sha256 g given later uuid
    ]
    else (g, ok none)

unfoldable pub is_authenticated : (String → List ℕ) → PairingGuard → String → Bool
unfolding hash_token constant_time_eq
is_authenticated sha256 g token =
    let presented_hash = hash_token sha256 token in
    if g.require_pairing
    then any (λ stored. constant_time_eq (codes stored) (codes presented_hash)) g.token_hashes
    else true
