-- ===== src/Server/HexText.antt =====
-- The text of hex fields: `decodeHexString` of internal/server/command_builder.go, and what it and
-- `debugBuildCommandHandler` use of packages strings and encoding/hex. A string is its bytes in UTF-8.
pub mod RoundTrip
use mathlib.Core.List.{reverse}
use tcpadapter.Common.{
  ℕ, zero, suc, ◌+◌, ◌-◌, ◌*◌, ◌/◌, ◌%◌, Bool, not, ◌&&◌, ◌||◌, [], ◌∷◌, Result, ok, err, ◌>>=◌,
  ltb, leb, ◌==◌, if◌then◌else◌, Bytes, byte_at, keep_if,
}

-- `unicode.IsSpace`, by the number of bytes.
abbrev pub is_space1 : ℕ → Bool
is_space1 a = (leb 9 a && leb a 13) || a == 32

abbrev pub is_space2 : ℕ → ℕ → Bool
is_space2 a b = a == 0xC2 && (b == 0x85 || b == 0xA0)

abbrev pub is_space3 : ℕ → ℕ → ℕ → Bool
is_space3 a b c =
    (a == 0xE1 && b == 0x9A && c == 0x80)
    || (a == 0xE2
        && b == 0x80
        && ((leb 0x80 c && leb c 0x8A) || c == 0xA8 || c == 0xA9 || c == 0xAF))
    || (a == 0xE2 && b == 0x81 && c == 0x9F)
    || (a == 0xE3 && b == 0x80 && c == 0x80)

-- The number of bytes of the space at the start of the text, or of the one at its end when the
-- text is given from the end; 0 if there is none.
abbrev pub space_at_start : Bytes → ℕ
space_at_start s =
    if is_space1 (byte_at s 0)
    then 1
    else if is_space2 (byte_at s 0) (byte_at s 1)
    then 2
    else if is_space3 (byte_at s 0) (byte_at s 1) (byte_at s 2)
    then 3
    else 0

abbrev pub space_at_end : Bytes → ℕ
space_at_end s =
    if is_space1 (byte_at s 0)
    then 1
    else if is_space2 (byte_at s 1) (byte_at s 0)
    then 2
    else if is_space3 (byte_at s 2) (byte_at s 1) (byte_at s 0)
    then 3
    else 0

-- Without the spaces at the start; the first `n` bytes belong to a space already.
unfoldable pub skip_spaces : (Bytes → ℕ) → ℕ → Bytes → Bytes
skip_spaces width n [] = []
skip_spaces width (suc n) (c ∷ s) = skip_spaces width n s
skip_spaces width zero (c ∷ s) = elim (width (c ∷ s)) [
  | zero ↦ c ∷ s
  | suc n ↦ skip_spaces width n s
]

-- `strings.TrimSpace`
unfoldable pub trim_space : Bytes → Bytes
unfolding skip_spaces
trim_space s = reverse (skip_spaces space_at_end 0 (reverse (skip_spaces space_at_start 0 s)))

pub data HexError : Type 0 where
  invalid_byte : ℕ → HexError
  odd_length : HexError

abbrev pub hex_value : ℕ → Result HexError ℕ
hex_value c =
    if leb 48 c && leb c 57
    then ok (c - 48)
    else if leb 97 c && leb c 102
    then ok (c - 97 + 10)
    else if leb 65 c && leb c 70
    then ok (c - 65 + 10)
    else err (invalid_byte c)

-- `hex.DecodeString`
unfoldable pub decode_hex : Bytes → Result HexError Bytes
decode_hex [] = ok []
decode_hex (p ∷ []) = hex_value p >>= λ a. err odd_length
decode_hex (p ∷ q ∷ s) = do
  a ← hex_value p
  b ← hex_value q
  rest ← decode_hex s
  ok ((a * 16 + b) ∷ rest)

-- The characters that are taken out between the digits.
abbrev pub is_gap : ℕ → Bool
is_gap c = c == 32 || c == 10 || c == 13 || c == 9

-- `decodeHexString`
unfoldable pub decode_hex_string : Bytes → Result HexError Bytes
unfolding trim_space decode_hex
decode_hex_string s = decode_hex (keep_if (λ c. not (is_gap c)) (trim_space s))

abbrev pub upper_digit : ℕ → ℕ
upper_digit n = if ltb n 10 then 48 + n else 55 + n

-- `strings.ToUpper(hex.EncodeToString(payload))`
unfoldable pub upper_hex : Bytes → Bytes
upper_hex [] = []
upper_hex (b ∷ bs) = upper_digit (b / 16) ∷ upper_digit (b % 16) ∷ upper_hex bs
