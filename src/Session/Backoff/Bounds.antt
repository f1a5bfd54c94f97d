-- ===== src/Session/Backoff/Bounds.antt =====
-- The retry delay stays within a fifth of the backoff it is meant to be.
use Prim.Native.Nat.{min}
use native.Mathlib.Nat.{mod-lt, pow-le-pow_right}
use tcpadapter.Common.{
  ℕ, ◌+◌, ◌-◌, ◌*◌, ◌/◌, ◌%◌, ◌^◌, ◌≤◌, ◌<◌, ◌≡◌, refl, false, Bool-cases, inl, inr, arith, leb,
  ◌==◌,
}
use tcpadapter.Common.Int.{ℤ, pos, negsuc, pos_part}
use tcpadapter.Session.Backoff.{
  to_int64, xorshift64, jittered, jitter_range, with_jitter, backed_off, retry_delay,
  max_retry_backoff_shift,
}

to_int64_small : (n : ℕ) → n < 2 ^ 63 → to_int64 n ≡ pos n
to_int64_small n h = let z : n % 2 ^ 64 ≡ n = omega arith in rw z (ground arith)

-- Within a fifth of `delay`, on both sides.
pub record Near (delay : ℕ) (r : ℤ) : Type 0 where
  pub value : ℕ
  pub exact : r ≡ pos value
  pub low : delay * 4 ≤ value * 5
  pub high : value * 5 ≤ delay * 6

jittered-Near :
    (delay range seed : ℕ)
    → range * 5 ≤ delay
    → delay * 2 < 2 ^ 63
    → Near delay (jittered delay range seed)
unfolding jittered
jittered-Near delay range seed h k =
    let x = xorshift64 seed % (range * 2 + 1) in
    let b : x < range * 2 + 1 = mod-lt (xorshift64 seed) (omega arith) in
    rw (to_int64_small (delay + x - range) (omega arith), jittered)
      (record { value = delay + x - range; exact = refl; low = omega arith; high = omega arith })

jitter_range_small : (delay : ℕ) → delay * 20 < 2 ^ 63 → jitter_range delay ≡ delay * 20 / 100
unfolding jitter_range
jitter_range_small delay h = rw (to_int64_small (delay * 20) h, jitter_range) refl

with_jitter-Near : (delay seed : ℕ) → delay * 20 < 2 ^ 63 → Near delay (with_jitter delay seed)
unfolding with_jitter
with_jitter-Near delay seed h = elim (Bool-cases (jitter_range delay == 0)) [
  | inl t ↦ rw t (record { value = delay; exact = refl; low = omega arith; high = omega arith })
  | inr t ↦ rw t (
      jittered-Near delay (jitter_range delay) seed (rw (jitter_range_small delay h) (omega arith))
        (omega arith))
]

-- From the second attempt on, the delay is the base, doubled for each attempt after the second and
-- six times at most, give or take a fifth; twenty times that delay has to fit an int64.
pub retry_delay-Near :
    (attempts base seed : ℕ)
    → 1 < attempts
    → base * 2 ^ min (attempts - 2) max_retry_backoff_shift * 20 < 2 ^ 63
    → Near
        (base * 2 ^ min (attempts - 2) max_retry_backoff_shift)
        (retry_delay attempts (pos base) seed)
unfolding retry_delay backed_off
retry_delay-Near attempts base seed h k =
    let d = base * 2 ^ min (attempts - 2) max_retry_backoff_shift in
    let a : leb attempts 1 ≡ false = ground arith in
    elim (Bool-cases (base == 0)) [
      | inl t ↦
          let z : base ≡ 0 = ground arith in
          rw (a, z) (record { value = 0; exact = refl; low = omega arith; high = omega arith })
      | inr t ↦ rw (a, t, to_int64_small d (omega arith), backed_off) (with_jitter-Near d seed k)
    ]

to_int64-lt : (n : ℕ) → pos_part (to_int64 n) < 2 ^ 63
to_int64-lt n = ground arith

positive-lt :
    (z : ℤ) (d : ℕ)
    → pos_part z < 2 ^ 63
    → d < 2 ^ 63
    → pos_part (elim z [ pos x ↦ pos x | negsuc x ↦ pos d ]) < 2 ^ 63
positive-lt (pos x) d h k = h
positive-lt (negsuc x) d h k = k

with_jitter-lt : (delay seed : ℕ) → delay < 2 ^ 63 → pos_part (with_jitter delay seed) < 2 ^ 63
unfolding with_jitter jittered
with_jitter-lt delay seed h = elim (Bool-cases (jitter_range delay == 0)) [
  | inl t ↦ rw t h
  | inr t ↦ rw t (positive-lt (to_int64 _) 0 (to_int64-lt _) (omega arith))
]

backed_off-lt :
    (base seed : ℕ) (z : ℤ)
    → base < 2 ^ 63
    → pos_part z < 2 ^ 63
    → pos_part (elim z [ pos delay ↦ with_jitter delay seed | negsuc x ↦ pos base ]) < 2 ^ 63
backed_off-lt base seed (pos delay) h k = with_jitter-lt delay seed k
backed_off-lt base seed (negsuc x) h k = h

pub retry_delay-lt :
    (attempts : ℕ) (base : ℤ) (seed : ℕ)
    → pos_part base < 2 ^ 63
    → pos_part (retry_delay attempts base seed) < 2 ^ 63
unfolding retry_delay backed_off
retry_delay-lt attempts (negsuc _) seed h = omega arith
retry_delay-lt attempts (pos base) seed h = elim (Bool-cases (leb attempts 1)) [
  | inl t ↦ rw t (omega arith)
  | inr t ↦ elim (Bool-cases (base == 0)) [
    | inl z ↦ rw (t, z) (omega arith)
    | inr z ↦
        rw (t, z)
          (let d = base * 2 ^ min (attempts - 2) max_retry_backoff_shift in
            backed_off-lt base seed (to_int64 d) h (to_int64-lt d))
  ]
]

power_le : (k : ℕ) → 2 ^ min k max_retry_backoff_shift ≤ 64
power_le k =
    let small : min k max_retry_backoff_shift ≤ 6 = omega arith in
    pow-le-pow_right (omega arith) small

-- No delay is over 76.8 times the base.
pub retry_delay-le :
    (attempts : ℕ) (base : ℤ) (seed : ℕ)
    → pos_part base * 1280 < 2 ^ 63
    → pos_part (retry_delay attempts base seed) * 5 ≤ pos_part base * 384
unfolding retry_delay
retry_delay-le attempts (negsuc _) seed h = omega arith
retry_delay-le attempts (pos base) seed h = elim (Bool-cases (leb attempts 1)) [
  | inl t ↦ rw t (omega arith)
  | inr t ↦
      let d = base * 2 ^ min (attempts - 2) max_retry_backoff_shift in
      let le : d ≤ base * 64 = grind (arith, power_le (attempts - 2)) in
      let near = retry_delay-Near attempts base seed (ground arith) (omega (arith, le)) in
      rw near.exact (omega (arith, le, near.high))
]
