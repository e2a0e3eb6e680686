-- ===== src/Text/Codes.antt =====
-- A text and its code points.
use Prim.Native.String.{String, [], ◌∷◌}
use text.Mathlib.TextEquality.{Char-path}
use liveclaw.Prelude.{◌≡◌, refl, arith}
use liveclaw.Text.{codes}

pub codes_injective : (s t : String) → codes s ≡ codes t → s ≡ t
codes_injective [] [] h = refl
codes_injective [] (d ∷ t) h = cc
codes_injective (c ∷ s) [] h = cc
codes_injective (c ∷ s) (d ∷ t) h = ground (arith, Char-path c d, codes_injective s t)
