-- ===== src/Text.antt =====
-- What the program uses of Rust's `str`: `trim`, `to_ascii_lowercase`, `contains`, `starts_with`,
-- `ends_with`, `trim_start_matches`, decimal and hexadecimal printing. Texts are native strings,
-- lists of Unicode scalar values.
pub mod Trim
pub mod Codes
pub mod Decimal
pub mod Occurrence
use Prim.Native.String.{String, [], ◌∷◌, ◌++◌}
use liveclaw.Prelude.{
  ℕ, suc, zero, ◌+◌, ◌-◌, ◌/◌, ◌%◌, Char, code, Bool, true, false, ◌&&◌, ◌||◌, leb, nat_eq,
  if◌then◌else◌, List, str_eq, map,
}
use mathlib.Core.List

-- `char::is_whitespace`: the Unicode property White_Space.
unfoldable pub is_whitespace : Char → Bool
is_whitespace c =
    let n = code c in
    (leb 9 n && leb n 13)
    || nat_eq n 32
    || nat_eq n 0x85
    || nat_eq n 0xA0
    || nat_eq n 0x1680
    || (leb 0x2000 n && leb n 0x200A)
    || nat_eq n 0x2028
    || nat_eq n 0x2029
    || nat_eq n 0x202F
    || nat_eq n 0x205F
    || nat_eq n 0x3000

abbrev pub is_empty : String → Bool
is_empty [] = true
is_empty (c ∷ s) = false

-- `trim_start_matches(p)`, `trim_end_matches(p)` and `trim_matches(p)` for a test on characters.
unfoldable pub trim_start_by : (Char → Bool) → String → String
trim_start_by p [] = []
trim_start_by p (c ∷ s) = let rest = trim_start_by p s in if p c then rest else c ∷ s

unfoldable pub trim_end_by : (Char → Bool) → String → String
trim_end_by p [] = []
trim_end_by p (c ∷ s) = let rest = trim_end_by p s in if is_empty rest && p c then [] else c ∷ rest

unfoldable pub trim_by : (Char → Bool) → String → String
unfolding trim_start_by trim_end_by
trim_by p s = trim_end_by p (trim_start_by p s)

-- `str::trim`.
unfoldable pub trim : String → String
unfolding trim_by is_whitespace
trim s = trim_by is_whitespace s

-- The character at a place of a table, or `d` past its end.
abbrev pub nth_char : String → ℕ → Char → Char
nth_char [] n d = d
nth_char (c ∷ s) zero d = c
nth_char (c ∷ s) (suc n) d = nth_char s n d

abbrev pub lower_char : Char → Char
lower_char c =
    if leb b'A' (code c) && leb (code c) b'Z'
    then nth_char "abcdefghijklmnopqrstuvwxyz" (code c - b'A') c
    else c

-- `str::to_ascii_lowercase`.
unfoldable pub to_ascii_lowercase : String → String
to_ascii_lowercase [] = []
to_ascii_lowercase (c ∷ s) = lower_char c ∷ to_ascii_lowercase s

-- `str::starts_with` for a text, by the characters.
unfoldable pub has_prefix : String → String → Bool
has_prefix s [] = true
has_prefix [] (d ∷ t) = false
has_prefix (c ∷ s) (d ∷ t) = nat_eq (code c) (code d) && has_prefix s t

-- `str::contains` for a text.
unfoldable pub contains : String → String → Bool
unfolding has_prefix
contains [] t = has_prefix [] t
contains (c ∷ s) t = has_prefix (c ∷ s) t || contains s t

-- The code points of a text: its bytes, if it is ASCII.
abbrev pub codes : String → List.List ℕ
codes [] = List.[]
codes (c ∷ s) = List.◌∷◌ (code c) (codes s)

-- The decimal digits of a number, `format!("{}", n)`: with fuel, of which `n + 1` is enough.
unfoldable pub show_fuel : ℕ → ℕ → String
show_fuel zero n = []
show_fuel (suc f) n =
    let rest = show_fuel f (n / 10) in
    (if leb 10 n then rest else []) ++ nth_char "0123456789" (n % 10) "0" ∷ []

unfoldable pub show : ℕ → String
unfolding show_fuel
show n = show_fuel (suc n) n

-- Two lowercase hexadecimal digits, `format!("{:02x}", b)` for a byte.
unfoldable pub show_hex : ℕ → String
show_hex b =
    nth_char "0123456789abcdef" (b / 16) "0" ∷ nth_char "0123456789abcdef" (b % 16) "0" ∷ []

-- `str::ends_with` for a text.
unfoldable pub has_suffix : String → String → Bool
has_suffix [] t = str_eq [] t
has_suffix (c ∷ s) t = str_eq (c ∷ s) t || has_suffix s t

-- `str::split_whitespace`, with the word read so far.
unfoldable pub words_from : String → String → List.List String
words_from word [] = if is_empty word then List.[] else List.◌∷◌ word List.[]
words_from word (c ∷ s) =
    let fresh = words_from [] s in
    let longer = words_from (word ++ c ∷ []) s in
    if is_whitespace c then (if is_empty word then fresh else List.◌∷◌ word fresh) else longer

unfoldable pub split_whitespace : String → List.List String
unfolding words_from is_whitespace
split_whitespace s = words_from [] s

-- `str::trim_start_matches("./")`: the prefix is taken off as often as it stands there.
unfoldable pub trim_dot_slash : String → String
trim_dot_slash [] = []
trim_dot_slash (c ∷ []) = c ∷ []
trim_dot_slash (c ∷ d ∷ s) =
    let rest = trim_dot_slash s in
    if nat_eq (code c) b'.' && nat_eq (code d) b'/' then rest else c ∷ d ∷ s
