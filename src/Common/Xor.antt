-- ===== src/Common/Xor.antt =====
-- `^` on words: its law for the lowest bit, a bound and injectivity, at every width.
use Prim.Native.Nat.{
  ℕ, zero, suc, ◌+◌, ◌*◌, ◌/◌, ◌%◌, ◌^◌, ◌≤◌, ◌<◌, differ, bit_xor, digits, bitwise,
  bit_xor-bitwise,
}
use mathlib.Core.Path.{◌≡◌, refl}
use native.Mathlib.Nat.{le_refl, pow-suc}
use native.Mathlib.Omega.{arith}

abbrev xor_digits : ℕ → ℕ → ℕ → ℕ
xor_digits n a b = digits (λ b. b) differ n a b

xor_digits_fuel : (n m a b : ℕ) → a ≤ n → a ≤ m → xor_digits n a b ≡ xor_digits m a b
xor_digits_fuel zero zero a b p q = refl
xor_digits_fuel zero (suc m) zero b p q = refl
xor_digits_fuel zero (suc m) (suc a) b p q = absurd (omega arith)
xor_digits_fuel (suc n) zero zero b p q = refl
xor_digits_fuel (suc n) zero (suc a) b p q = absurd (omega arith)
xor_digits_fuel (suc n) (suc m) zero b p q = refl
xor_digits_fuel (suc n) (suc m) (suc a) b p q =
    rw (xor_digits_fuel n m (suc a / 2) (b / 2) (omega arith) (omega arith))

zero-bit_xor : (b : ℕ) → bit_xor 0 b ≡ b
zero-bit_xor b = bit_xor-bitwise 0 b

-- One digit: `differ x y` is 0 where the digits agree, and 1 where they do not.
pub bit_xor_step : (a b : ℕ) → bit_xor a b ≡ bit_xor (a / 2) (b / 2) * 2 + differ (a % 2) (b % 2)
bit_xor_step zero b = omega (arith, zero-bit_xor b, zero-bit_xor (b / 2))
bit_xor_step (suc a) b = simp bit_xor-bitwise (step a b)
  where
    step :
        (a b : ℕ)
        → bitwise (λ b. b) differ (suc a) b
          ≡ bitwise (λ b. b) differ (suc a / 2) (b / 2) * 2 + differ (suc a % 2) (b % 2)
    step a b =
        omega (arith, xor_digits_fuel a (suc a / 2) (suc a / 2) (b / 2) (omega arith) (le_refl _))

differ-lt-two : (x y : ℕ) → x < 2 → y < 2 → differ x y < 2
differ-lt-two zero y p q = q
differ-lt-two (suc zero) zero p q = omega arith
differ-lt-two (suc zero) (suc zero) p q = omega arith
differ-lt-two (suc zero) (suc (suc y)) p q = absurd (omega arith)
differ-lt-two (suc (suc x)) y p q = absurd (omega arith)

differ_cancel : (x y z : ℕ) → x < 2 → y < 2 → z < 2 → differ x z ≡ differ y z → x ≡ y
differ_cancel zero zero z p q r e = refl
differ_cancel zero (suc zero) zero p q r e = absurd (omega arith)
differ_cancel zero (suc zero) (suc zero) p q r e = absurd (omega arith)
differ_cancel zero (suc zero) (suc (suc z)) p q r e = absurd (omega arith)
differ_cancel (suc zero) zero zero p q r e = absurd (omega arith)
differ_cancel (suc zero) zero (suc zero) p q r e = absurd (omega arith)
differ_cancel (suc zero) zero (suc (suc z)) p q r e = absurd (omega arith)
differ_cancel (suc zero) (suc zero) z p q r e = refl
differ_cancel zero (suc (suc y)) z p q r e = absurd (omega arith)
differ_cancel (suc zero) (suc (suc y)) z p q r e = absurd (omega arith)
differ_cancel (suc (suc x)) y z p q r e = absurd (omega arith)

xor_cancel_fuel : (n a b c : ℕ) → a ≤ n → b ≤ n → bit_xor a c ≡ bit_xor b c → a ≡ b
xor_cancel_fuel zero a b c p q e = omega arith
xor_cancel_fuel (suc n) a b c p q e = omega (
  arith,
  xor_cancel_fuel n (a / 2) (b / 2) (c / 2) (omega arith) (omega arith) high,
  differ_cancel (a % 2) (b % 2) (c % 2) (omega arith) (omega arith) (omega arith) low,
)
  where
    both :
        bit_xor (a / 2) (c / 2) * 2 + differ (a % 2) (c % 2)
        ≡ bit_xor (b / 2) (c / 2) * 2 + differ (b % 2) (c % 2)
    both = rw (← bit_xor_step a c, ← bit_xor_step b c) e

    high : bit_xor (a / 2) (c / 2) ≡ bit_xor (b / 2) (c / 2)
    high = omega (
      arith,
      both,
      differ-lt-two (a % 2) (c % 2) (omega arith) (omega arith),
      differ-lt-two (b % 2) (c % 2) (omega arith) (omega arith),
    )

    low : differ (a % 2) (c % 2) ≡ differ (b % 2) (c % 2)
    low = omega (arith, both, high)

-- `x ^ c` determines `x`.
pub xor_cancel : (a b c : ℕ) → bit_xor a c ≡ bit_xor b c → a ≡ b
xor_cancel a b c e = xor_cancel_fuel (a + b) a b c (omega arith) (omega arith) e

differ_comm : (x y : ℕ) → x < 2 → y < 2 → differ x y ≡ differ y x
differ_comm zero zero p q = refl
differ_comm zero (suc y) p q = refl
differ_comm (suc x) zero p q = refl
differ_comm (suc zero) (suc zero) p q = refl
differ_comm (suc zero) (suc (suc y)) p q = absurd (omega arith)
differ_comm (suc (suc x)) (suc y) p q = absurd (omega arith)

xor_comm_fuel : (n a b : ℕ) → a ≤ n → b ≤ n → bit_xor a b ≡ bit_xor b a
xor_comm_fuel zero a b p q =
    let e : a ≡ 0 = omega arith in let f : b ≡ 0 = omega arith in rw (e, f) refl
xor_comm_fuel (suc n) a b p q = omega (
  arith,
  bit_xor_step a b,
  bit_xor_step b a,
  xor_comm_fuel n (a / 2) (b / 2) (omega arith) (omega arith),
  differ_comm (a % 2) (b % 2) (omega arith) (omega arith),
)

pub bit_xor_comm : (a b : ℕ) → bit_xor a b ≡ bit_xor b a
bit_xor_comm a b = xor_comm_fuel (a + b) a b (omega arith) (omega arith)

-- `c ^ x` determines `x`.
pub xor_cancel_left : (a b c : ℕ) → bit_xor c a ≡ bit_xor c b → a ≡ b
xor_cancel_left a b c e = xor_cancel a b c (omega (arith, bit_xor_comm a c, bit_xor_comm b c))

-- No bit appears above the operands' width.
pub bit_xor-lt : (k a b : ℕ) → a < 2 ^ k → b < 2 ^ k → bit_xor a b < 2 ^ k
bit_xor-lt zero a b p q = let e : a ≡ 0 = omega arith in rw (e, zero-bit_xor b) q
bit_xor-lt (suc k) a b p q = omega (
  arith,
  bit_xor_step a b,
  pow-suc 2 k,
  differ-lt-two (a % 2) (b % 2) (omega arith) (omega arith),
  bit_xor-lt k (a / 2) (b / 2) (omega (arith, pow-suc 2 k)) (omega (arith, pow-suc 2 k)),
)

-- A bit above one operand's width stays set.
pub le-bit_xor : (k a b : ℕ) → a < 2 ^ k → 2 ^ k ≤ b → 2 ^ k ≤ bit_xor a b
le-bit_xor zero a b p q = let e : a ≡ 0 = omega arith in rw (e, zero-bit_xor b) q
le-bit_xor (suc k) a b p q = omega (
  arith,
  bit_xor_step a b,
  pow-suc 2 k,
  le-bit_xor k (a / 2) (b / 2) (omega (arith, pow-suc 2 k)) (omega (arith, pow-suc 2 k)),
)
