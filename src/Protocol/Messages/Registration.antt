-- ===== src/Protocol/Messages/Registration.antt =====
-- `ParseRegistrationPayload` of internal/protocol/messages.go. A Go string is its bytes.
use tcpadapter.Common.{
  ℕ, zero, suc, ◌≡◌, refl, Bool, true, false, not, ◌&&◌, ◌||◌, [], ◌∷◌, length, take, Result, ok,
  ◌>>◌, fail_if, ltb, ◌==◌, if◌then◌else◌, Bytes, byte_at, slice,
}

pub data ParseError : Type 0 where
  too_short unexpected_cmd : ℕ → ParseError
  empty_imei : ParseError
  invalid_imei : Bytes → ParseError

pub record Registration : Type 0 where
  pub imei : Bytes
  pub protocol_version : ℕ
  pub hw_version : ℕ

-- `for end > 0 && imeiRaw[end-1] == 0 { end-- }`
unfoldable pub trimmed_end : Bytes → ℕ → ℕ
trimmed_end raw zero = 0
trimmed_end raw (suc e) = if byte_at raw e == 0 then trimmed_end raw e else suc e

abbrev pub is_digit : ℕ → Bool
is_digit b = not (ltb b b'0' || ltb b'9' b)

-- `strings.IndexFunc` meets no rune outside '0'..'9'; a byte from 128 on is in no such rune.
unfoldable pub is_digits_only : Bytes → Bool
is_digits_only [] = true
is_digits_only (b ∷ bs) = is_digit b && is_digits_only bs

unfoldable pub is_empty : Bytes → Bool
is_empty [] = true
is_empty (b ∷ bs) = false

unfoldable pub parse_registration_payload : Bytes → Result ParseError Registration
unfolding is_empty
parse_registration_payload payload = do
  fail_if (ltb (length payload) 18) (too_short (length payload))
  fail_if (not (byte_at payload 0 == 1)) (unexpected_cmd (byte_at payload 0))
  let imei_raw = slice 1 16 payload
  let imei = take (trimmed_end imei_raw (length imei_raw)) imei_raw
  fail_if (is_empty imei) empty_imei
  fail_if (not (is_digits_only imei)) (invalid_imei imei)
  ok (record {
    imei = imei;
    protocol_version = byte_at payload 16;
    hw_version = byte_at payload 17;
  })

abbrev pub sample_payload : Bytes
sample_payload =
    1 ∷ b'8' ∷ b'6' ∷ b'0' ∷ b'1' ∷ b'2' ∷ b'3' ∷ b'4' ∷ b'5' ∷ b'6' ∷ b'7' ∷ b'8' ∷ b'9' ∷ 0 ∷ 0
    ∷ 0 ∷ 3 ∷ 7 ∷ []

pub sample_registration :
    parse_registration_payload sample_payload
    ≡ ok (record { imei = slice 1 13 sample_payload; protocol_version = 3; hw_version = 7 })
unfolding parse_registration_payload trimmed_end is_digits_only
sample_registration = refl
