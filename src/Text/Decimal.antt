-- ===== src/Text/Decimal.antt =====
-- `str::parse` for the unsigned types, and its agreement with the printed digits.
use Prim.Native.String.{String, [], ◌∷◌, ◌++◌}
use liveclaw.Prelude.{
  ℕ, suc, zero, ◌+◌, ◌-◌, ◌*◌, ◌/◌, ◌%◌, ◌<◌, ◌≤◌, Char, code, Bool, true, ◌&&◌, leb, ltb, nat_eq,
  nat_eq_iff, leb→le, if◌then◌else◌, Option, some, none, ◌≡◌, refl, ap, sym, ◌∙◌, arith, Bool-cases,
  inl, inr,
}
use liveclaw.Prelude.Range.{holds_below, holds_below_lem}
use text.Mathlib.TextLemmas.{append_assoc, nil-append, cons-append, append-nil}
use liveclaw.Text.{show, show_fuel, nth_char}

abbrev pub is_digit : Char → Bool
is_digit c = leb b'0' (code c) && leb (code c) b'9'

-- The digits of a number below `bound`, after the number read so far.
unfoldable pub parse_digits : (bound read : ℕ) → String → Option ℕ
parse_digits bound read [] = some read
parse_digits bound read (c ∷ s) =
    let next = read * 10 + (code c - b'0') in
    let rest = parse_digits bound next s in if is_digit c && ltb next bound then rest else none

-- At least one digit.
abbrev pub parse_number : ℕ → String → Option ℕ
parse_number bound [] = none
parse_number bound (c ∷ s) = parse_digits bound 0 (c ∷ s)

-- `parse::<u16>` with the bound 2 ^ 16, and so on: one `+` may stand before the digits.
unfoldable pub parse_unsigned : (bound : ℕ) → String → Option ℕ
unfolding parse_digits
parse_unsigned bound [] = none
parse_unsigned bound (c ∷ s) =
    if nat_eq (code c) b'+' then parse_number bound s else parse_number bound (c ∷ s)

digit_char : (d : ℕ) → d < 10 → code (nth_char "0123456789" d "0") ≡ b'0' + d
unfolding holds_below
digit_char d h =
    (nat_eq_iff _ _).0
      (holds_below_lem (λ d. nat_eq (code (nth_char "0123456789" d "0")) (b'0' + d)) 10 d h refl)

leb_of_le : (a b : ℕ) → a ≤ b → leb a b ≡ true
leb_of_le a b h = ground arith

ltb_of_lt : (a b : ℕ) → a < b → ltb a b ≡ true
ltb_of_lt a b h = ground arith

parse_digits-next :
    (bound read : ℕ) (c : Char) (t : String) (next : ℕ)
    → b'0' ≤ code c
    → code c ≤ b'9'
    → read * 10 + (code c - b'0') ≡ next
    → next < bound
    → parse_digits bound read (c ∷ t) ≡ parse_digits bound next t
unfolding parse_digits
parse_digits-next bound read c t next low high e k =
    rw (leb_of_le b'0' (code c) low, leb_of_le (code c) b'9' high, e, ltb_of_lt next bound k) refl

parse_digits-digit :
    (bound read next : ℕ) (t : String)
    → read * 10 + next % 10 ≡ next
    → next < bound
    → parse_digits bound read (nth_char "0123456789" (next % 10) "0" ∷ t)
      ≡ parse_digits bound next t
parse_digits-digit bound read next t h k =
    let e = digit_char (next % 10) (omega arith) in
    parse_digits-next bound read _ t next (omega (arith, e)) (omega (arith, e))
      (omega (arith, e, h)) k

parse_digits-show_fuel :
    (bound f n : ℕ) (t : String)
    → n < f
    → n < bound
    → parse_digits bound 0 (show_fuel f n ++ t) ≡ parse_digits bound n t
unfolding show_fuel
parse_digits-show_fuel bound zero n t h k = absurd (omega arith)
parse_digits-show_fuel bound (suc f) n t h k =
    let digit = nth_char "0123456789" (n % 10) "0" in
    elim (Bool-cases (leb 10 n)) [
      | inl more ↦
          simp (more, append_assoc, cons-append, nil-append)
            (parse_digits-show_fuel bound f (n / 10) (digit ∷ t) (omega (arith, leb→le 10 n more))
                (omega arith)
              ∙ parse_digits-digit bound (n / 10) n t (omega arith) k)
      | inr last ↦
          simp (last, cons-append, nil-append) (parse_digits-digit bound 0 n t (ground arith) k)
    ]

snoc_form : (s : String) (d : Char) → (c : Char) × (t : String) × (s ++ d ∷ [] ≡ c ∷ t)
snoc_form [] d = (d, [], nil-append (d ∷ []))
snoc_form (c ∷ s) d = (c, s ++ d ∷ [], cons-append c s (d ∷ []))

show_form : (n : ℕ) → (c : Char) × (t : String) × (show n ≡ c ∷ t)
unfolding show show_fuel
show_form n = snoc_form _ (nth_char "0123456789" (n % 10) "0")

-- A text of digits alone has no sign.
no_sign :
    (bound n : ℕ) (c : Char) (s : String)
    → parse_digits bound 0 (c ∷ s) ≡ some n
    → parse_unsigned bound (c ∷ s) ≡ some n
unfolding parse_unsigned parse_digits
no_sign bound n c s h = elim (Bool-cases (nat_eq (code c) b'+')) [
  | inl plus ↦ ground (arith, plus, h)
  | inr other ↦ rw other h
]

pub parse_unsigned-show : (bound n : ℕ) → n < bound → parse_unsigned bound (show n) ≡ some n
unfolding show parse_digits
parse_unsigned-show bound n h =
    let (c, t, e) = show_form n in
    let parsed = parse_digits-show_fuel bound (suc n) n [] (omega arith) h in
    rw e
      (no_sign bound n c t (ap (parse_digits bound 0) (sym e ∙ sym (append-nil (show n))) ∙ parsed))

parse_digits-below :
    (bound read n : ℕ) (s : String) → read < bound → parse_digits bound read s ≡ some n → n < bound
unfolding parse_digits
parse_digits-below bound read n [] h e = ground (arith, h, e)
parse_digits-below bound read n (c ∷ s) h e =
    ground (arith, e, parse_digits-below bound (read * 10 + (code c - b'0')) n s)

pub parse_unsigned-below :
    (bound n : ℕ) (s : String) → 0 < bound → parse_unsigned bound s ≡ some n → n < bound
unfolding parse_unsigned
parse_unsigned-below bound n [] h e = cc
parse_unsigned-below bound n (c ∷ []) h e =
    ground (arith, e, parse_digits-below bound 0 n (c ∷ []) h)
parse_unsigned-below bound n (c ∷ d ∷ s) h e =
    ground
      (arith, e, parse_digits-below bound 0 n (c ∷ d ∷ s) h, parse_digits-below bound 0 n (d ∷ s) h)
