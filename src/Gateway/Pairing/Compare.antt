-- ===== src/Gateway/Pairing/Compare.antt =====
-- `constant_time_eq` and `generate_pairing_code` of liveclaw-gateway/src/pairing.rs.
use Prim.Native.Nat.{bit_xor, bit_or}
use liveclaw.Prelude.{
  ℕ, ◌+◌, ◌-◌, ◌*◌, ◌/◌, ◌%◌, ◌≤◌, ◌<◌, ◌≡◌, refl, ◌↔◌, true, List, [], ◌∷◌, arith, String, nat_eq,
  nat_eq_iff, ap, code,
}
use liveclaw.Prelude.Lists.{length, All, take}
use liveclaw.Prelude.Bits.{bit_xor_self, eq_of_bit_xor, bit_or_zero}
use text.Mathlib.TextLemmas.{nil-append, cons-append}
use liveclaw.Prelude.Range.{holds_below, holds_below_lem}
use liveclaw.Text.{codes, nth_char}
use liveclaw.Gateway.Pairing.{
  fold_diff, constant_time_eq, show_six, generate_pairing_code, hex_number, hex_digits,
}

fold_diff_self : (as' : List ℕ) → fold_diff 0 as' as' ≡ 0
unfolding fold_diff
fold_diff_self [] = refl
fold_diff_self (a ∷ as') = ground (arith, bit_xor_self a, fold_diff_self as')

fold_diff_zero :
    (d : ℕ) (as' bs : List ℕ)
    → length as' ≡ length bs
    → fold_diff d as' bs ≡ 0
    → (d ≡ 0) × (as' ≡ bs)
unfolding fold_diff
fold_diff_zero d [] [] n h = (h, refl)
fold_diff_zero d [] (b ∷ bs) n h = absurd (omega arith)
fold_diff_zero d (a ∷ as') [] n h = absurd (omega arith)
fold_diff_zero d (a ∷ as') (b ∷ bs) n h =
    let (first, tails) = fold_diff_zero (bit_or d (bit_xor a b)) as' bs (omega arith) h in
    let (here, same) = bit_or_zero d (bit_xor a b) first in
    (here, ground (arith, eq_of_bit_xor a b same))

-- The comparison of byte lists without early exit answers true exactly when they are equal.
pub constant_time_eq_iff : (a b : List ℕ) → (constant_time_eq a b ≡ true) ↔ (a ≡ b)
unfolding constant_time_eq
constant_time_eq_iff a b = (
  λ h. (fold_diff_zero 0 a b (ground arith) (ground arith)).1,
  λ e. ground (arith, fold_diff_self a, ap length e),
)

digit_table : holds_below (λ d. nat_eq (code (nth_char "0123456789" d "0")) (48 + d)) 10 ≡ true
unfolding holds_below
digit_table = refl

digit_code : (n : ℕ) → code (nth_char "0123456789" (n % 10) "0") ≡ 48 + n % 10
digit_code n = (nat_eq_iff _ _).0 (holds_below_lem _ 10 (n % 10) (omega arith) digit_table)

-- The number that a list of decimal digits stands for.
abbrev pub decimal : ℕ → List ℕ → ℕ
decimal n [] = n
decimal n (c ∷ cs) = decimal (n * 10 + (c - 48)) cs

codes-show_six :
    (n : ℕ)
    → codes (show_six n)
      ≡ (48 + n / 100000 % 10)
        ∷ (48 + n / 10000 % 10)
        ∷ (48 + n / 1000 % 10)
        ∷ (48 + n / 100 % 10)
        ∷ (48 + n / 10 % 10)
        ∷ (48 + n % 10)
        ∷ []
unfolding show_six
codes-show_six n = simp (nil-append, cons-append, digit_code)

abbrev pub IsDigit : ℕ → Type 0
IsDigit c = (48 ≤ c) × (c ≤ 57)

show_six_digits :
    (n : ℕ)
    → n < 1000000
    → All IsDigit (codes (show_six n))
      × (length (codes (show_six n)) ≡ 6)
      × (decimal 0 (codes (show_six n)) ≡ n)
show_six_digits n h = rw (codes-show_six n) (omega arith, omega arith, omega arith)

-- A generated pairing code is six decimal digits, and they print the number that the first eight
-- hexadecimal digits of the UUID stand for, modulo a million.
pub generate_pairing_code_six :
    (uuid : String)
    → let digits = codes (generate_pairing_code uuid) in
      All IsDigit digits
      × (length digits ≡ 6)
      × (decimal 0 digits ≡ hex_number 0 (take 8 (hex_digits (codes uuid))) % 1000000)
unfolding generate_pairing_code
generate_pairing_code_six uuid = show_six_digits _ (omega arith)
