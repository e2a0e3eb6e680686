-- ===== src/Prelude/Bits.antt =====
-- When `bit_xor` and `bit_or` are zero, at every width: what comparing bytes needs.
use Prim.Native.Nat.add
use Prim.Native.Nat.pow
use native.Mathlib.Nat.{zero-add as add-zero_left}
use Prim.Native.Nat.{
  ℕ, zero, suc, ◌+◌, ◌-◌, ◌*◌, ◌^◌, ◌<◌, ◌/◌, ◌%◌, ◌≤◌, max, digits, differ, bit_or, bit_xor,
  bit_or-bitwise, bit_xor-bitwise,
}
use mathlib.Core.Path.{◌≡◌, refl, ap, sym, ◌∙◌}
use native.Mathlib.Omega.{arith}

differ_self : (a : ℕ) → differ a a ≡ 0
differ_self zero = refl
differ_self (suc a) = differ_self a

eq_of_differ : (a b : ℕ) → differ a b ≡ 0 → a ≡ b
eq_of_differ zero b h = sym h
eq_of_differ (suc a) zero h = h
eq_of_differ (suc a) (suc b) h = ap suc (eq_of_differ a b h)

abbrev xor_digits : ℕ → ℕ → ℕ → ℕ
xor_digits n a b = digits (λ y. y) differ n a b

xor_digits_self : (n a : ℕ) → a ≤ n → xor_digits n a a ≡ 0
xor_digits_self zero zero h = refl
xor_digits_self zero (suc a) h = absurd (omega arith)
xor_digits_self (suc n) zero h = refl
xor_digits_self (suc n) (suc a) h =
    omega (arith, xor_digits_self n (suc a / 2) (omega arith), differ_self (suc a % 2))

eq_of_xor_digits : (n a b : ℕ) → a ≤ n → xor_digits n a b ≡ 0 → a ≡ b
eq_of_xor_digits zero zero b h e = sym e
eq_of_xor_digits zero (suc a) b h e = absurd (omega arith)
eq_of_xor_digits (suc n) zero b h e = sym e
eq_of_xor_digits (suc n) (suc a) b h e =
    let high : suc a / 2 ≡ b / 2 =
      eq_of_xor_digits n (suc a / 2) (b / 2) (omega arith) (omega arith) in
    let low : suc a % 2 ≡ b % 2 = eq_of_differ (suc a % 2) (b % 2) (omega arith) in omega arith

pub bit_xor_self : (a : ℕ) → bit_xor a a ≡ 0
bit_xor_self a = bit_xor-bitwise a a ∙ xor_digits_self a a (omega arith)

pub eq_of_bit_xor : (a b : ℕ) → bit_xor a b ≡ 0 → a ≡ b
eq_of_bit_xor a b h = eq_of_xor_digits a a b (omega arith) (sym (bit_xor-bitwise a b) ∙ h)

or_digits_zero : (n a b : ℕ) → a ≤ n → digits (λ y. y) max n a b ≡ 0 → (a ≡ 0) × (b ≡ 0)
or_digits_zero zero zero b h e = (refl, e)
or_digits_zero zero (suc a) b h e = absurd (omega arith)
or_digits_zero (suc n) zero b h e = (refl, e)
or_digits_zero (suc n) (suc a) b h e =
    let high = or_digits_zero n (suc a / 2) (b / 2) (omega arith) (omega arith) in
    (omega arith, omega arith)

pub bit_or_zero : (a b : ℕ) → bit_or a b ≡ 0 → (a ≡ 0) × (b ≡ 0)
bit_or_zero a b h = or_digits_zero a a b (omega arith) (sym (bit_or-bitwise a b) ∙ h)

abbrev or_digits : ℕ → ℕ → ℕ → ℕ
or_digits n a b = digits (λ y. y) max n a b

-- More fuel than the first number changes nothing.
or_digits_more : (n d a b : ℕ) → a ≤ n → or_digits (n + d) a b ≡ or_digits n a b
or_digits_more zero d zero b h = rw add-zero_left (any_fuel d b)
  where
    any_fuel : (d b : ℕ) → or_digits d zero b ≡ b
    any_fuel zero b = refl
    any_fuel (suc d) b = refl
or_digits_more zero d (suc a) b h = absurd (omega arith)
or_digits_more (suc n) d zero b h = rw (add.suc n d) refl
or_digits_more (suc n) d (suc a) b h =
    rw (add.suc n d) (omega (arith, or_digits_more n d (suc a / 2) (b / 2) (omega arith)))

-- The lowest digit of a disjunction.
pub bit_or_halves : (a b : ℕ) → max (a % 2) (b % 2) + 2 * bit_or (a / 2) (b / 2) ≡ bit_or a b
bit_or_halves zero b = omega (arith, bit_or-bitwise 0 b, bit_or-bitwise 0 (b / 2))
bit_or_halves (suc a) b =
    let half = suc a / 2 in
    let split : half + (a - half) ≡ a = omega arith in
    let fuel : or_digits (half + (a - half)) half (b / 2) ≡ or_digits half half (b / 2) =
      or_digits_more half (a - half) half (b / 2) (omega arith) in
    omega (arith, bit_or-bitwise (suc a) b, bit_or-bitwise half (b / 2), rw split at fuel)

or_digits-zero : (n a : ℕ) → a ≤ n → or_digits n a 0 ≡ a
or_digits-zero zero zero h = refl
or_digits-zero zero (suc a) h = absurd (omega arith)
or_digits-zero (suc n) zero h = refl
or_digits-zero (suc n) (suc a) h = omega (arith, or_digits-zero n (suc a / 2) (omega arith))

-- A disjunction of a shifted number and one below the shift is their sum.
pub bit_or_shifted : (k q r : ℕ) → r < 2 ^ k → bit_or (q * 2 ^ k) r ≡ q * 2 ^ k + r
bit_or_shifted zero q r h =
    let none_left : r ≡ 0 = omega arith in
    rw none_left
      (omega (arith, bit_or-bitwise (q * 1) 0, or_digits-zero (q * 1) (q * 1) (omega arith)))
bit_or_shifted (suc k) q r h =
    let power : 2 ^ suc k ≡ 2 ^ k * 2 = pow.suc 2 k in
    let doubled : q * 2 ^ suc k ≡ q * 2 ^ k * 2 = rw power (omega arith) in
    let halved : q * 2 ^ suc k / 2 ≡ q * 2 ^ k = omega arith in
    let step = bit_or_halves (q * 2 ^ suc k) r in
    let rest = bit_or_shifted k q (r / 2) (omega arith) in
    let shorter : bit_or (q * 2 ^ suc k / 2) (r / 2) ≡ q * 2 ^ k + r / 2 = rw halved rest in
    omega arith
