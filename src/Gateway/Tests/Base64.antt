-- ===== src/Gateway/Tests/Base64.antt =====
-- Runs of the base64 codec at concrete texts.
use liveclaw.Prelude.{ℕ, ◌*◌, ◌/◌, ◌≡◌, ◌↔◌, refl, true, none, some, [], ◌∷◌, arith}
use liveclaw.Prelude.Lists.{length}
use liveclaw.Text.{codes, trim_end_by}
use liveclaw.Gateway.Base64.{base64_decode, base64_encode, is_pad, codec}
use liveclaw.Gateway.Base64.RoundTrip.{base64_decode-base64_encode}
use liveclaw.Gateway.Base64.Errors.{base64_decode-eq-none_iff, length-base64_decode, foreign}

base64_decode-base64_encode_example :
    base64_decode (base64_encode (0 ∷ 255 ∷ 16 ∷ 7 ∷ [])) ≡ some (0 ∷ 255 ∷ 16 ∷ 7 ∷ [])
base64_decode-base64_encode_example =
    base64_decode-base64_encode (0 ∷ 255 ∷ 16 ∷ 7 ∷ [])
      (omega arith, (omega arith, (omega arith, (omega arith, tt))))

base64_decode-eq-none_iff_example :
    (base64_decode "a?b=" ≡ none) ↔ (foreign (codes (trim_end_by is_pad "a?b=")) ≡ true)
base64_decode-eq-none_iff_example = base64_decode-eq-none_iff "a?b="

decoded : base64_decode "SGk=" ≡ some (72 ∷ 105 ∷ [])
unfolding codec
decoded = refl

length-base64_decode_example :
    length {A = ℕ} (72 ∷ 105 ∷ []) ≡ length (codes (trim_end_by is_pad "SGk=")) * 3 / 4
length-base64_decode_example = length-base64_decode "SGk=" (72 ∷ 105 ∷ []) decoded
