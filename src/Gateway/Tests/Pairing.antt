-- ===== src/Gateway/Tests/Pairing.antt =====
-- Runs of the pairing guard at concrete codes.
use liveclaw.Prelude.{
  ℕ, ◌≤◌, ◌≡◌, ◌↔◌, refl, true, ◌||◌, ◌&&◌, ◌+◌, ◌%◌, none, some, List, [], ◌∷◌, String, ok, str_eq,
  arith, str_ne,
}
use liveclaw.Prelude.Lists.{All, length, take}
use liveclaw.Text.{codes}
use liveclaw.Gateway.Pairing.{
  PairingGuard, try_pair, locked_for, is_authenticated, constant_time_eq, compare_code,
  record_success, hash_token, generate_pairing_code, hex_digits, hex_number,
}
use liveclaw.Gateway.Pairing.Compare.{
  constant_time_eq_iff, generate_pairing_code_six, IsDigit, decimal,
}
use liveclaw.Gateway.Pairing.Tokens.{
  try_pair-issues_iff, is_authenticated-try_pair, try_pair-issues_again, issued,
}
use liveclaw.Gateway.Pairing.Lockout.{Attempt, run, live_guesses, live_guesses_bound, run_locks}

-- A stand-in for the digest.
abbrev digest : String → List ℕ
digest s = length (codes s) ∷ []

abbrev guard : PairingGuard
guard = record {
  require_pairing = true;
  pairing_code = some "123456";
  token_hashes = [];
  failed_attempts = 0;
  max_attempts = 2;
  lockout_duration = 300000000000;
  lockout_until = none;
}

abbrev first : Attempt
first = record { given = "000000"; now = 10; later = 11; uuid = "u1" }

abbrev second : Attempt
second = record { given = "000001"; now = 20; later = 21; uuid = "u2" }

constant_time_eq_iff_example :
    (constant_time_eq (1 ∷ 2 ∷ []) (1 ∷ 2 ∷ []) ≡ true)
    ↔ (◌≡◌ {A = List ℕ} (1 ∷ 2 ∷ []) (1 ∷ 2 ∷ []))
constant_time_eq_iff_example = constant_time_eq_iff (1 ∷ 2 ∷ []) (1 ∷ 2 ∷ [])

generate_pairing_code_six_example :
    let digits = codes (generate_pairing_code "0001e240-aaaa") in
    All IsDigit digits
    × (length digits ≡ 6)
    × (decimal 0 digits ≡ hex_number 0 (take 8 (hex_digits (codes "0001e240-aaaa"))) % 1000000)
generate_pairing_code_six_example = generate_pairing_code_six "0001e240-aaaa"

try_pair-issues_iff_example : ((try_pair digest guard "123456" 1 2 "u").1 ≡ ok (some "u")) ↔ (
    (guard.require_pairing ≡ true)
    × (locked_for guard 1 ≡ none)
    × (guard.pairing_code ≡ some "123456")
    × (◌≡◌ {A = String} "u" "u"))
try_pair-issues_iff_example = try_pair-issues_iff digest guard "123456" 1 2 "u" "u"

is_authenticated-try_pair_example :
    is_authenticated digest (try_pair digest guard "123456" 1 2 "u").0 "u" ≡ (
      is_authenticated digest guard "u"
      || (issued (try_pair digest guard "123456" 1 2 "u").1
          && str_eq (hash_token digest "u") (hash_token digest "u")))
is_authenticated-try_pair_example = is_authenticated-try_pair digest guard "123456" 1 2 "u" "u"

first_token : (try_pair digest guard "123456" 1 2 "u").1 ≡ ok (some "u")
unfolding try_pair locked_for compare_code record_success
first_token = refl

still_free : locked_for (try_pair digest guard "123456" 1 2 "u").0 5 ≡ none
unfolding try_pair locked_for compare_code record_success
still_free = refl

try_pair-issues_again_example :
    (try_pair digest (try_pair digest guard "123456" 1 2 "u").0 "123456" 5 6 "v").1 ≡ ok (some "v")
try_pair-issues_again_example =
    try_pair-issues_again digest guard "123456" 1 2 "u" "u" 5 6 "v" first_token still_free

live_guesses_bound_example : live_guesses digest guard (first ∷ second ∷ first ∷ []) + 0 ≤ 2
live_guesses_bound_example =
    live_guesses_bound digest guard 100 (first ∷ second ∷ first ∷ []) (omega arith) (omega arith)
      (omega arith, (omega arith, (omega arith, tt)))
      (omega arith, (omega arith, (omega arith, tt)))
      (
        λ e. str_ne "123456" "000000" refl cc,
        (λ e. str_ne "123456" "000001" refl cc, (λ e. str_ne "123456" "000000" refl cc, tt)),
      )

run_locks_example :
    (secs : ℕ) × (locked_for (run digest guard (first ∷ second ∷ [])) 100 ≡ some secs)
run_locks_example =
    run_locks digest guard "123456" first (second ∷ []) 100 (omega arith) refl refl refl refl
      (str_ne "000000" "123456" refl, (str_ne "000001" "123456" refl, tt))
      (omega arith, (omega arith, tt))
