-- ===== src/Crc.antt =====
-- internal/protocol/crc16.go: CRC-16/MODBUS. `& 1` and `>> 1` are written `% 2` and `/ 2`.
pub mod Detects
use Prim.Native.Nat.{bit_xor}
use tcpadapter.Common.{ℕ, zero, suc, ◌/◌, ◌%◌, ◌≡◌, refl, List, [], ◌∷◌, ◌==◌, if◌then◌else◌}

-- One round of the inner loop.
pub crc_bit : ℕ → ℕ
crc_bit crc = if crc % 2 == 0 then crc / 2 else bit_xor (crc / 2) 0xA001

-- `for i := 0; i < n; i++`
pub crc_bits : ℕ → ℕ → ℕ
unfolding crc_bit
crc_bits zero crc = crc
crc_bits (suc n) crc = crc_bits n (crc_bit crc)

-- `for _, b := range data`
pub crc_from : ℕ → List ℕ → ℕ
unfolding crc_bits
crc_from crc [] = crc
crc_from crc (b ∷ bs) = crc_from (crc_bits 8 (bit_xor crc b)) bs

unfoldable pub crc16_modbus : List ℕ → ℕ
unfolding crc_from
crc16_modbus bs = crc_from 0xFFFF bs

-- The check value of the CRC-16/MODBUS catalogue, over the text 123456789.
crc_check_value :
    crc16_modbus (0x31 ∷ 0x32 ∷ 0x33 ∷ 0x34 ∷ 0x35 ∷ 0x36 ∷ 0x37 ∷ 0x38 ∷ 0x39 ∷ []) ≡ 0x4B37
unfolding crc16_modbus
crc_check_value = refl
