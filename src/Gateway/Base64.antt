-- ===== src/Gateway/Base64.antt =====
-- The Base64 helpers of liveclaw-gateway/src/server.rs (liveclaw-app/src/main.rs has the encoder
-- once more). Bytes are numbers below 256. The decoder reads the bytes of its text; the model reads
-- the code points, which agree on ASCII, and a text with any other character is refused by both.
-- A `u32` shifted to the left loses what leaves its 32 bits.
pub mod RoundTrip
pub mod Errors
use Prim.Native.Nat.{bit_or}
use Prim.Native.String
use liveclaw.Prelude.{
  ℕ, ◌+◌, ◌-◌, ◌*◌, ◌/◌, ◌%◌, ◌^◌, Char, code, String, Bool, ◌&&◌, Option, none, some, List, [],
  ◌∷◌, ◌++◌, ltb, leb, nat_eq, if◌then◌else◌,
}
use liveclaw.Prelude.Lists.{length}
use liveclaw.Text.{codes, nth_char, trim_end_by}

abbrev pub shl : ℕ → ℕ → ℕ
shl x k = x * 2 ^ k % 2 ^ 32

-- `val`
unfoldable pub val : ℕ → Option ℕ
val c =
    if leb b'A' c && leb c b'Z'
    then some (c - b'A')
    else if leb b'a' c && leb c b'z'
    then some (c - b'a' + 26)
    else if leb b'0' c && leb c b'9'
    then some (c - b'0' + 52)
    else if nat_eq c b'+'
    then some 62
    else if nat_eq c b'/'
    then some 63
    else none

abbrev pub is_pad : Char → Bool
is_pad c = nat_eq (code c) b'='

-- The loop over the characters of a chunk; the `?` on `val` leaves the function.
unfoldable pub fill : ℕ → List ℕ → Option ℕ
fill buf [] = some buf
fill buf (b ∷ chunk) = elim (val b) [ none ↦ none | some v ↦ fill (bit_or (shl buf 6) v) chunk ]

-- The bytes that a filled buffer gives for `count` characters.
unfoldable pub bytes_of : ℕ → ℕ → List ℕ
bytes_of buf count =
    let padded = shl buf ((4 - count) * 6) in
    (if leb 2 count then padded / 2 ^ 16 % 256 ∷ [] else [])
    ++ (if leb 3 count then padded / 2 ^ 8 % 256 ∷ [] else [])
    ++ (if leb 4 count then padded % 256 ∷ [] else [])

unfoldable pub decode_chunk : List ℕ → Option (List ℕ)
decode_chunk chunk = elim (fill 0 chunk) [
  | none ↦ none
  | some buf ↦ some (bytes_of buf (length chunk))
]

abbrev pub both : Option (List ℕ) → Option (List ℕ) → Option (List ℕ)
both none r = none
both (some out) none = none
both (some out) (some rest) = some (out ++ rest)

-- The loop over `chunks(4)`.
unfoldable pub decode_chunks : List ℕ → Option (List ℕ)
decode_chunks [] = some []
decode_chunks (a ∷ []) = decode_chunk (a ∷ [])
decode_chunks (a ∷ b ∷ []) = decode_chunk (a ∷ b ∷ [])
decode_chunks (a ∷ b ∷ c ∷ []) = decode_chunk (a ∷ b ∷ c ∷ [])
decode_chunks (a ∷ b ∷ c ∷ d ∷ rest) = both (decode_chunk (a ∷ b ∷ c ∷ d ∷ [])) (decode_chunks rest)

unfoldable pub base64_decode : String → Option (List ℕ)
base64_decode input = decode_chunks (codes (trim_end_by is_pad input))

-- `TABLE[(n & 0x3F) as usize]`
unfoldable pub sextet : ℕ → Char
sextet n = nth_char "ABCDEFGHIJKLMNOPQRSTUVWXYZabcdefghijklmnopqrstuvwxyz0123456789+/" (n % 64) "A"

-- One round of the loop over `chunks(3)`, for a chunk of `count` bytes.
unfoldable pub encode_chunk : (count b0 b1 b2 : ℕ) → String → String
encode_chunk count b0 b1 b2 rest =
    let triple = bit_or (bit_or (shl b0 16) (shl b1 8)) b2 in
    String.◌∷◌ (sextet (triple / 2 ^ 18)) (
      String.◌∷◌ (sextet (triple / 2 ^ 12)) (
        String.◌∷◌ (if ltb 1 count then sextet (triple / 2 ^ 6) else "=")
          (String.◌∷◌ (if ltb 2 count then sextet triple else "=") rest)))

unfoldable pub base64_encode : List ℕ → String
base64_encode [] = ""
base64_encode (a ∷ []) = encode_chunk 1 a 0 0 ""
base64_encode (a ∷ b ∷ []) = encode_chunk 2 a b 0 ""
base64_encode (a ∷ b ∷ c ∷ rest) = encode_chunk 3 a b c (base64_encode rest)

-- Named on an `unfolding` line, this lets a test run the decoder and the encoder.
unfoldable pub codec : Unit {0}
unfolding base64_decode decode_chunks decode_chunk fill bytes_of val trim_end_by base64_encode
    encode_chunk sextet
codec = tt
