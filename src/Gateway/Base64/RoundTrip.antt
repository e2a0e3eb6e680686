-- ===== src/Gateway/Base64/RoundTrip.antt =====
-- `base64_decode` after `base64_encode`, of liveclaw-gateway/src/server.rs.
use Prim.Native.Nat.{bit_or}
use liveclaw.Prelude.{
  ℕ, ◌+◌, ◌*◌, ◌/◌, ◌%◌, ◌^◌, ◌<◌, ◌≡◌, refl, ap, ap₂, ◌∙◌, code, String, true, false, ◌&&◌, none,
  some, List, [], ◌∷◌, nat_eq, if◌then◌else◌, arith,
}
use liveclaw.Prelude.Bits.{bit_or_shifted}
use liveclaw.Prelude.Lists.{length, All}
use liveclaw.Prelude.Range.{holds_below, holds_below_lem}
use liveclaw.Text.{trim_end_by}
use liveclaw.Gateway.Base64.{
  shl, val, is_pad, fill, bytes_of, decode_chunk, decode_chunks, base64_decode, sextet,
  encode_chunk, base64_encode,
}

-- `val` inverts the table, and the padding is not in it.
sextet_table :
    holds_below
      (λ n. elim (val (code (sextet n))) [
        | none ↦ false
        | some v ↦ nat_eq v n && nat_eq (if is_pad (sextet n) then 1 else 0) 0
      ])
      64
    ≡ true
unfolding holds_below val sextet
sextet_table = refl

sextet_mod : (n : ℕ) → sextet (n % 64) ≡ sextet n
unfolding sextet
sextet_mod n = let same : n % 64 % 64 ≡ n % 64 = omega arith in rw same

val-sextet : (n : ℕ) → val (code (sextet n)) ≡ some (n % 64)
val-sextet n =
    rw (← sextet_mod n) (ground (arith, holds_below_lem _ 64 (n % 64) (omega arith) sextet_table))

is_pad-sextet : (n : ℕ) → is_pad (sextet n) ≡ false
is_pad-sextet n =
    rw (← sextet_mod n) (ground (arith, holds_below_lem _ 64 (n % 64) (omega arith) sextet_table))

or_six : (buf v : ℕ) → buf < 2 ^ 26 → v < 64 → bit_or (shl buf 6) v ≡ buf * 64 + v
or_six buf v h k =
    let whole : shl buf 6 ≡ buf * 2 ^ 6 = omega arith in
    rw whole (omega (arith, bit_or_shifted 6 buf v k))

fill-sextet :
    (buf n : ℕ) (chunk : List ℕ)
    → buf < 2 ^ 26
    → fill buf (code (sextet n) ∷ chunk) ≡ fill (buf * 64 + n % 64) chunk
unfolding fill
fill-sextet buf n chunk h = rw (val-sextet n, fill) (rw (or_six buf (n % 64) h (omega arith)))

or_bytes :
    (a b c : ℕ)
    → a < 256
    → b < 256
    → c < 256
    → bit_or (bit_or (shl a 16) (shl b 8)) c ≡ a * 65536 + b * 256 + c
or_bytes a b c ha hb hc =
    let high : shl a 16 ≡ a * 2 ^ 16 = omega arith in
    let middle : shl b 8 ≡ b * 256 = omega arith in
    let joined : bit_or (a * 2 ^ 16) (b * 256) ≡ (a * 256 + b) * 2 ^ 8 =
      omega (arith, bit_or_shifted 16 a (b * 256) (omega arith)) in
    rw (high, middle, joined) (omega (arith, bit_or_shifted 8 (a * 256 + b) c hc))

abbrev pub word : List ℕ → List ℕ
word [] = []
word (n ∷ ns) = code (sextet n) ∷ word ns

abbrev pub value : ℕ → List ℕ → ℕ
value buf [] = buf
value buf (n ∷ ns) = value (buf * 64 + n % 64) ns

fill_two : (m n : ℕ) → fill 0 (word (m ∷ n ∷ [])) ≡ some (value 0 (m ∷ n ∷ []))
unfolding fill
fill_two m n =
    fill-sextet 0 m (word (n ∷ [])) (omega arith) ∙ fill-sextet (0 * 64 + m % 64) n [] (omega arith)

fill_three : (m n o : ℕ) → fill 0 (word (m ∷ n ∷ o ∷ [])) ≡ some (value 0 (m ∷ n ∷ o ∷ []))
unfolding fill
fill_three m n o =
    fill-sextet 0 m (word (n ∷ o ∷ [])) (omega arith)
    ∙ fill-sextet (0 * 64 + m % 64) n (word (o ∷ [])) (omega arith)
    ∙ fill-sextet ((0 * 64 + m % 64) * 64 + n % 64) o [] (omega arith)

fill_four : (m n o p : ℕ) → fill 0 (word (m ∷ n ∷ o ∷ p ∷ [])) ≡ some (value 0 (m ∷ n ∷ o ∷ p ∷ []))
unfolding fill
fill_four m n o p =
    fill-sextet 0 m (word (n ∷ o ∷ p ∷ [])) (omega arith)
    ∙ fill-sextet (0 * 64 + m % 64) n (word (o ∷ p ∷ [])) (omega arith)
    ∙ fill-sextet ((0 * 64 + m % 64) * 64 + n % 64) o (word (p ∷ [])) (omega arith)
    ∙ fill-sextet (((0 * 64 + m % 64) * 64 + n % 64) * 64 + o % 64) p [] (omega arith)

-- A character of the table at the head is not trimmed.
trim-sextet :
    (n : ℕ) (s : String)
    → trim_end_by is_pad (String.◌∷◌ (sextet n) s) ≡ String.◌∷◌ (sextet n) (trim_end_by is_pad s)
unfolding trim_end_by
trim-sextet n s = rw (is_pad-sextet n, trim_end_by) (ground arith)

decode_filled :
    (chunk : List ℕ) (buf : ℕ)
    → fill 0 chunk ≡ some buf
    → decode_chunk chunk ≡ some (bytes_of buf (length chunk))
unfolding decode_chunk
decode_filled chunk buf h = rw (h, decode_chunk)

decode_one :
    (a : ℕ)
    → a < 256
    → decode_chunk (word (a * 65536 / 2 ^ 18 ∷ a * 65536 / 2 ^ 12 ∷ [])) ≡ some (a ∷ [])
unfolding bytes_of
decode_one a h =
    decode_filled _ _ (fill_two (a * 65536 / 2 ^ 18) (a * 65536 / 2 ^ 12))
    ∙ ap some (ap (λ n. n ∷ []) (omega arith))

decode_two :
    (a b : ℕ)
    → a < 256
    → b < 256
    → let t = a * 65536 + b * 256 in
      decode_chunk (word (t / 2 ^ 18 ∷ t / 2 ^ 12 ∷ t / 2 ^ 6 ∷ [])) ≡ some (a ∷ b ∷ [])
unfolding bytes_of
decode_two a b h k =
    let t = a * 65536 + b * 256 in
    decode_filled _ _ (fill_three (t / 2 ^ 18) (t / 2 ^ 12) (t / 2 ^ 6))
    ∙ ap some (ap₂ (λ m n. m ∷ n ∷ []) (omega arith) (omega arith))

decode_three :
    (a b c : ℕ)
    → a < 256
    → b < 256
    → c < 256
    → let t = a * 65536 + b * 256 + c in
      decode_chunk (word (t / 2 ^ 18 ∷ t / 2 ^ 12 ∷ t / 2 ^ 6 ∷ t ∷ [])) ≡ some (a ∷ b ∷ c ∷ [])
unfolding bytes_of
decode_three a b c h k l =
    let t = a * 65536 + b * 256 + c in
    let buf = value 0 (t / 2 ^ 18 ∷ t / 2 ^ 12 ∷ t / 2 ^ 6 ∷ t ∷ []) in
    let whole : buf ≡ t = omega arith in
    decode_filled _ _ (fill_four (t / 2 ^ 18) (t / 2 ^ 12) (t / 2 ^ 6) t)
    ∙ rw whole
        (ap some (ap₂ ◌∷◌ (omega arith) (ap₂ (λ m n. m ∷ n ∷ []) (omega arith) (omega arith))))

trim_pads :
    (trim_end_by is_pad "==" ≡ "") × (trim_end_by is_pad "=" ≡ "") × (trim_end_by is_pad "" ≡ "")
unfolding trim_end_by
trim_pads = (refl, refl, refl)

abbrev pub IsByte : ℕ → Type 0
IsByte n = n < 256

-- Encoding any bytes and decoding the text gives the bytes back, for every length.
pub base64_decode-base64_encode :
    (bytes : List ℕ) → All IsByte bytes → base64_decode (base64_encode bytes) ≡ some bytes
unfolding base64_decode base64_encode encode_chunk decode_chunks
base64_decode-base64_encode [] _ = rw trim_pads.2
base64_decode-base64_encode (a ∷ []) (h, _) =
    let t : bit_or (bit_or (shl a 16) (shl 0 8)) 0 ≡ a * 65536 =
      or_bytes a 0 0 h (omega arith) (omega arith) ∙ omega arith in
    rw t (
      rw (trim-sextet (a * 65536 / 2 ^ 18), trim-sextet (a * 65536 / 2 ^ 12), trim_pads.0)
        (decode_one a h))
base64_decode-base64_encode (a ∷ b ∷ []) (h, (k, _)) =
    let n = a * 65536 + b * 256 in
    let t : bit_or (bit_or (shl a 16) (shl b 8)) 0 ≡ n =
      or_bytes a b 0 h k (omega arith) ∙ omega arith in
    rw t (
      rw (trim-sextet (n / 2 ^ 18), trim-sextet (n / 2 ^ 12), trim-sextet (n / 2 ^ 6), trim_pads.1)
        (decode_two a b h k))
base64_decode-base64_encode (a ∷ b ∷ c ∷ rest) (h, (k, (l, hs))) =
    let n = a * 65536 + b * 256 + c in
    let t : bit_or (bit_or (shl a 16) (shl b 8)) c ≡ n = or_bytes a b c h k l in
    let ih = base64_decode-base64_encode rest hs in
    rw t (
      rw
        (trim-sextet (n / 2 ^ 18), trim-sextet (n / 2 ^ 12), trim-sextet (n / 2 ^ 6), trim-sextet n)
        (rw (decode_three a b c h k l, ih)))
