-- ===== src/Text/Hex.antt =====
-- `bytes.hex()` and `bytes.fromhex(text)`.
use piso_chain.Base.{
  ℕ, ◌+◌, ◌*◌, ◌/◌, ◌%◌, ◌<◌, ◌≡◌, refl, Bool, true, false, ◌&&◌, ◌||◌, Option, none, some, List,
  [], ◌∷◌, All, arith, leb, ◌==◌, if◌then◌else◌, Text,
}
use piso_chain.Text.Numbers.{digit_char, digit_value, digit_value-char, digit_char-is_hex, Hex}

unfoldable pub hex : List ℕ → Text
hex [] = []
hex (b ∷ bytes) = digit_char (b / 16) ∷ digit_char (b % 16) ∷ hex bytes

-- the white space that `fromhex` skips between bytes
abbrev pub is_blank : ℕ → Bool
is_blank c = (leb 9 c && leb c 13) || c == 32

abbrev pub byte_of : Option ℕ → Option ℕ → Option (List ℕ) → Option (List ℕ)
byte_of (some high) (some low) (some bytes) = some ((high * 16 + low) ∷ bytes)
byte_of (some high) (some low) none = none
byte_of (some high) none bytes = none
byte_of none low bytes = none

-- `none` is a ValueError
unfoldable pub fromhex : Text → Option (List ℕ)
fromhex [] = some []
fromhex (c ∷ []) = if is_blank c then some [] else none
fromhex (c ∷ d ∷ t) = elim (is_blank c) [
  | true ↦ fromhex (d ∷ t)
  | false ↦ byte_of (digit_value 16 c) (digit_value 16 d) (fromhex t)
]

digit_not_blank : (d : ℕ) → d < 16 → is_blank (digit_char d) ≡ false
unfolding digit_char
digit_not_blank d h = ground arith

-- Bytes come back from their hexadecimal text.
pub fromhex-hex : (bytes : List ℕ) → All (λ b. b < 256) bytes → fromhex (hex bytes) ≡ some bytes
unfolding fromhex hex
fromhex-hex [] h = refl
fromhex-hex (b ∷ bytes) h = ground (
  arith,
  digit_not_blank (b / 16) (omega (arith, h.0)),
  digit_value-char 16 (b / 16) (omega (arith, h.0)) (omega arith),
  digit_value-char 16 (b % 16) (omega arith) (omega arith),
  fromhex-hex bytes h.1,
)

pub hex-Hex : (bytes : List ℕ) → All (λ b. b < 256) bytes → Hex (hex bytes)
unfolding hex
hex-Hex [] h = tt
hex-Hex (b ∷ bytes) h = (
  digit_char-is_hex (b / 16) (omega (arith, h.0)),
  (digit_char-is_hex (b % 16) (omega arith), hex-Hex bytes h.1),
)
