-- ===== src/Base/Sha256.antt =====
-- The pattern `^[a-f0-9]{64}$` of the type `Sha256` (src/paic/remediation/models.py).
use Prim.Native.String.{String, [], ◌∷◌}
use Prim.Native.Char.{code}
use probabilistic_ai_inciden.Base.{ℕ, zero, suc, Bool, true, false, ◌&&◌, ◌||◌, leb}

-- `[a-f0-9]`, on the code point of a character.
unfoldable is_hex_digit : ℕ → Bool
is_hex_digit c = (leb b'a' c && leb c b'f') || (leb b'0' c && leb c b'9')

-- A text of `n` such characters.
unfoldable has_hex_digits : ℕ → String → Bool
has_hex_digits zero [] = true
has_hex_digits zero (c ∷ s) = false
has_hex_digits (suc n) [] = false
has_hex_digits (suc n) (c ∷ s) = is_hex_digit (code c) && has_hex_digits n s

unfoldable pub is_sha256 : String → Bool
unfolding has_hex_digits is_hex_digit
is_sha256 s = has_hex_digits 64 s
