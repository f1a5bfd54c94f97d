-- ===== src/Crc/Detects.antt =====
-- What the checksum detects.
use Prim.Native.Nat.{bit_xor}
use tcpadapter.Common.{ℕ, zero, suc, ◌/◌, ◌^◌, ◌<◌, ◌≡◌, ◌≢◌, List, [], ◌∷◌, ◌++◌, arith, All}
use tcpadapter.Common.Xor.{bit_xor-lt, le-bit_xor, xor_cancel, xor_cancel_left}
use tcpadapter.Crc.{crc_bit, crc_bits, crc_from, crc16_modbus}

-- A round keeps 16 bits.
crc_bit-lt : (c : ℕ) → c < 2 ^ 16 → crc_bit c < 2 ^ 16
unfolding crc_bit
crc_bit-lt c h = ground (arith, bit_xor-lt 16 (c / 2) 0xA001)

crc_bits-lt : (n : ℕ) {c : ℕ} → c < 2 ^ 16 → crc_bits n c < 2 ^ 16
unfolding crc_bits
crc_bits-lt zero h = h
crc_bits-lt (suc n) {c} h = crc_bits-lt n (crc_bit-lt c h)

pub crc_from-lt :
    (bs : List ℕ) {c : ℕ} → c < 2 ^ 16 → All (λ b. b < 256) bs → crc_from c bs < 2 ^ 16
unfolding crc_from
crc_from-lt [] h a = h
crc_from-lt (b ∷ bs) {c} h a =
    crc_from-lt bs (crc_bits-lt 8 (bit_xor-lt 16 c b h (omega (arith, a.0)))) a.1

pub crc16_modbus-lt : (bs : List ℕ) → All (λ b. b < 256) bs → crc16_modbus bs < 2 ^ 16
unfolding crc16_modbus
crc16_modbus-lt bs a = crc_from-lt bs (omega arith) a

-- Bit 15 of the result tells whether the polynomial was added, so a round is injective.
crc_bit_cancel : (c d : ℕ) → c < 2 ^ 16 → d < 2 ^ 16 → crc_bit c ≡ crc_bit d → c ≡ d
unfolding crc_bit
crc_bit_cancel c d h k e = ground (
  arith,
  xor_cancel (c / 2) (d / 2) 0xA001,
  le-bit_xor 15 (c / 2) 0xA001,
  le-bit_xor 15 (d / 2) 0xA001,
)

crc_bits_cancel : (n : ℕ) {c d : ℕ} → c < 2 ^ 16 → d < 2 ^ 16 → crc_bits n c ≡ crc_bits n d → c ≡ d
unfolding crc_bits
crc_bits_cancel zero h k e = e
crc_bits_cancel (suc n) {c} {d} h k e =
    crc_bit_cancel c d h k (crc_bits_cancel n (crc_bit-lt c h) (crc_bit-lt d k) e)

crc_from_cancel :
    (bs : List ℕ) {c d : ℕ}
    → All (λ b. b < 256) bs
    → c < 2 ^ 16
    → d < 2 ^ 16
    → crc_from c bs ≡ crc_from d bs
    → c ≡ d
unfolding crc_from
crc_from_cancel [] a h k e = e
crc_from_cancel (b ∷ bs) {c} {d} a h k e =
    xor_cancel c d b
      (crc_bits_cancel 8 hc kd (crc_from_cancel bs a.1 (crc_bits-lt 8 hc) (crc_bits-lt 8 kd) e))
  where
    hc : bit_xor c b < 2 ^ 16
    hc = bit_xor-lt 16 c b h (omega (arith, a.0))

    kd : bit_xor d b < 2 ^ 16
    kd = bit_xor-lt 16 d b k (omega (arith, a.0))

crc_from_single :
    (xs ys : List ℕ) {c x y : ℕ}
    → All (λ b. b < 256) xs
    → All (λ b. b < 256) ys
    → x < 256
    → y < 256
    → c < 2 ^ 16
    → crc_from c (xs ++ x ∷ ys) ≡ crc_from c (xs ++ y ∷ ys)
    → x ≡ y
unfolding crc_from
crc_from_single [] ys {c} {x} {y} ax ay hx hy h e =
    xor_cancel_left x y c
      (crc_bits_cancel 8 cx cy (crc_from_cancel ys ay (crc_bits-lt 8 cx) (crc_bits-lt 8 cy) e))
  where
    cx : bit_xor c x < 2 ^ 16
    cx = bit_xor-lt 16 c x h (omega arith)

    cy : bit_xor c y < 2 ^ 16
    cy = bit_xor-lt 16 c y h (omega arith)
crc_from_single (b ∷ xs) ys {c} ax ay hx hy h e =
    crc_from_single xs ys ax.1 ay hx hy (crc_bits-lt 8 (bit_xor-lt 16 c b h (omega (arith, ax.0))))
      e

-- Two byte strings that differ in the byte at one position have different checksums.
pub crc_detects_byte :
    (xs ys : List ℕ) {x y : ℕ}
    → All (λ b. b < 256) xs
    → All (λ b. b < 256) ys
    → x < 256
    → y < 256
    → x ≢ y
    → crc16_modbus (xs ++ x ∷ ys) ≢ crc16_modbus (xs ++ y ∷ ys)
unfolding crc16_modbus
crc_detects_byte xs ys ax ay hx hy ne e = ne (crc_from_single xs ys ax ay hx hy (omega arith) e)
