-- ===== src/Gateway/Base64/Errors.antt =====
-- When `base64_decode` of liveclaw-gateway/src/server.rs answers `None`, and how many bytes it
-- answers otherwise.
use Prim.Native.Nat.{bit_or}
use liveclaw.Prelude.{
  ℕ, ◌+◌, ◌*◌, ◌/◌, ◌<◌, ◌≡◌, refl, ◌↔◌, inl, inr, String, Option, none, some, List, [], ◌∷◌, arith,
  Option-cases, ◌++◌, Bool, true, false, not, ◌||◌, ◌&&◌, leb, nat_eq, ◌∙◌,
}
use liveclaw.Prelude.Lists.{any, length, length-append}
use liveclaw.Text.{codes, trim_end_by}
use liveclaw.Gateway.Base64.{
  val, fill, bytes_of, decode_chunk, decode_chunks, base64_decode, is_pad, both, shl,
}

-- Letters, digits, `+` and `/`.
abbrev pub in_alphabet : ℕ → Bool
in_alphabet c =
    (leb b'A' c && leb c b'Z')
    || (leb b'a' c && leb c b'z')
    || (leb b'0' c && leb c b'9')
    || nat_eq c b'+'
    || nat_eq c b'/'

abbrev pub foreign : List ℕ → Bool
foreign = any (λ c. not (in_alphabet c))

abbrev is_none {ℓ} : {A : Type ℓ} → Option A → Bool
is_none none = true
is_none (some a) = false

val-is_none : (c : ℕ) → is_none (val c) ≡ not (in_alphabet c)
unfolding val
val-is_none c = ground arith

fill-is_none : (buf : ℕ) (chunk : List ℕ) → is_none (fill buf chunk) ≡ foreign chunk
unfolding fill
fill-is_none buf [] = refl
fill-is_none buf (c ∷ chunk) = elim (Option-cases (val c)) [
  | inl bad ↦ rw (bad, fill) (ground (arith, val-is_none c))
  | inr (v, good) ↦
      rw (good, fill) (ground (arith, val-is_none c, fill-is_none (bit_or (shl buf 6) v) chunk))
]

decode_chunk-is_none : (chunk : List ℕ) → is_none (decode_chunk chunk) ≡ foreign chunk
unfolding decode_chunk
decode_chunk-is_none chunk = ground (arith, fill-is_none 0 chunk)

both-is_none :
    (p q : Option (List ℕ)) (x y : Bool)
    → is_none p ≡ x
    → is_none q ≡ y
    → is_none (both p q) ≡ (x || y)
both-is_none none q x y h k = ground arith
both-is_none (some first) none x y h k = ground arith
both-is_none (some first) (some more) x y h k = ground arith

any-four :
    (p : ℕ → Bool) (a b c d : ℕ) (rest : List ℕ)
    → (any p (a ∷ b ∷ c ∷ d ∷ []) || any p rest) ≡ any p (a ∷ b ∷ c ∷ d ∷ rest)
any-four p a b c d rest = ground arith

decode_chunks-is_none : (cs : List ℕ) → is_none (decode_chunks cs) ≡ foreign cs
unfolding decode_chunks
decode_chunks-is_none [] = refl
decode_chunks-is_none (a ∷ []) = decode_chunk-is_none (a ∷ [])
decode_chunks-is_none (a ∷ b ∷ []) = decode_chunk-is_none (a ∷ b ∷ [])
decode_chunks-is_none (a ∷ b ∷ c ∷ []) = decode_chunk-is_none (a ∷ b ∷ c ∷ [])
decode_chunks-is_none (a ∷ b ∷ c ∷ d ∷ rest) =
    both-is_none _ _ _ _ (decode_chunk-is_none (a ∷ b ∷ c ∷ d ∷ [])) (decode_chunks-is_none rest)
    ∙ any-four (λ c. not (in_alphabet c)) a b c d rest

length-decode_chunk :
    (chunk out : List ℕ)
    → length chunk < 5
    → decode_chunk chunk ≡ some out
    → length out ≡ length chunk * 3 / 4
unfolding decode_chunk bytes_of
length-decode_chunk chunk out small h = ground arith

both-some :
    (p q : Option (List ℕ)) (out : List ℕ)
    → both p q ≡ some out
    → (first : List ℕ) × (more : List ℕ) × (p ≡ some first)
      × (q ≡ some more)
      × (out ≡ first ++ more)
both-some none q out h = cc
both-some (some first) none out h = cc
both-some (some first) (some more) out h = (first, more, refl, refl, ground arith)

length-decode_chunks :
    (cs out : List ℕ) → decode_chunks cs ≡ some out → length out ≡ length cs * 3 / 4
unfolding decode_chunks
length-decode_chunks [] out h = ground arith
length-decode_chunks (a ∷ []) out h = length-decode_chunk (a ∷ []) out (omega arith) h
length-decode_chunks (a ∷ b ∷ []) out h = length-decode_chunk (a ∷ b ∷ []) out (omega arith) h
length-decode_chunks (a ∷ b ∷ c ∷ []) out h =
    length-decode_chunk (a ∷ b ∷ c ∷ []) out (omega arith) h
length-decode_chunks (a ∷ b ∷ c ∷ d ∷ rest) out h =
    let (first, more, e, k, joined) = both-some _ _ _ h in
    let n = length-decode_chunk (a ∷ b ∷ c ∷ d ∷ []) first (omega arith) e in
    let m = length-decode_chunks rest more k in
    let l : length out ≡ length first + length more = rw joined (length-append first more) in
    omega arith

-- The decoder refuses a text exactly when, its padding removed, it holds a character outside the
-- alphabet; it refuses none for its length.
pub base64_decode-eq-none_iff :
    (s : String) → (base64_decode s ≡ none) ↔ (foreign (codes (trim_end_by is_pad s)) ≡ true)
unfolding base64_decode
base64_decode-eq-none_iff s =
    let e = decode_chunks-is_none (codes (trim_end_by is_pad s)) in (ground arith, ground arith)

-- What the decoder answers has three bytes for four characters of the text without its padding,
-- rounded down.
pub length-base64_decode :
    (s : String) (out : List ℕ)
    → base64_decode s ≡ some out
    → length out ≡ length (codes (trim_end_by is_pad s)) * 3 / 4
unfolding base64_decode
length-base64_decode s out h = length-decode_chunks (codes (trim_end_by is_pad s)) out h
