-- ===== src/Session/Backoff.antt =====
-- `retryDelay`, `jitterSeedForEntry` and `xorshift64` of internal/session/manager.go.
pub mod Bounds
use Prim.Native.Nat.{bit_or, bit_xor, min}
use tcpadapter.Common.{
  ℕ, zero, suc, ◌+◌, ◌-◌, ◌*◌, ◌/◌, ◌%◌, ◌^◌, Bool, ltb, leb, ◌==◌, if◌then◌else◌,
}
use tcpadapter.Common.Int.{ℤ, pos, negsuc}
use tcpadapter.Session.Types.{InFlightEntry}

abbrev pub max_retry_backoff_shift : ℕ
max_retry_backoff_shift = 6

abbrev pub jitter_percent : ℕ
jitter_percent = 20

-- The int64 with these low 64 bits.
abbrev pub to_int64 : ℕ → ℤ
to_int64 n = let r = n % 2 ^ 64 in if ltb r (2 ^ 63) then pos r else negsuc (2 ^ 64 - r - 1)

abbrev u64 : ℕ → ℕ
u64 n = n % 2 ^ 64

-- From the second line on, with the seed that replaces 0.
abbrev shifted : ℕ → ℕ
shifted x =
    let y = bit_xor x (u64 (x * 2 ^ 13)) in
    let z = bit_xor y (y / 2 ^ 7) in bit_xor z (u64 (z * 2 ^ 17))

unfoldable pub xorshift64 : ℕ → ℕ
xorshift64 x = if x == 0 then shifted 0x9e3779b97f4a7c15 else shifted x

unfoldable pub jitter_seed_for_entry : InFlightEntry → ℕ
jitter_seed_for_entry e =
    bit_or (bit_or (u64 (e.seq * 2 ^ 32)) (e.attempts % 2 ^ 16 * 2 ^ 16)) e.command.command_id

-- The jitter: a pseudo-random number between `-range` and `range`, added to the delay in int64. The
-- sum of delay and random part is at least the range, since the range is a fifth of the delay.
jittered : ℕ → ℕ → ℕ → ℤ
jittered delay range seed = elim (to_int64 (delay + xorshift64 seed % (range * 2 + 1) - range)) [
  | pos d ↦ pos d
  | negsuc _ ↦ pos 0
]

-- The jitter range of a delay that is not negative: `delay * jitterPercent / 100` in int64, where a
-- product that wraps to a negative number gives no range above 0.
jitter_range : ℕ → ℕ
jitter_range delay = elim (to_int64 (delay * jitter_percent)) [ pos p ↦ p / 100 | negsuc _ ↦ 0 ]

-- `span` is at most `2 ^ 63 / 100 * 2 + 1`, so its test never fails.
with_jitter : ℕ → ℕ → ℤ
unfolding jitter_range jittered
with_jitter delay seed =
    let range = jitter_range delay in if range == 0 then pos delay else jittered delay range seed

-- `base * time.Duration(1<<shift)` in int64, the base itself where that is negative.
backed_off : ℕ → ℕ → ℕ → ℤ
unfolding with_jitter
backed_off base shift seed = elim (to_int64 (base * 2 ^ shift)) [
  | pos delay ↦ with_jitter delay seed
  | negsuc _ ↦ pos base
]

unfoldable pub retry_delay : ℕ → ℤ → ℕ → ℤ
unfolding backed_off
retry_delay attempts (negsuc _) seed = pos 0
retry_delay attempts (pos base) seed =
    if leb attempts 1
    then pos 0
    else if base == 0
    then pos 0
    else backed_off base (min (attempts - 2) max_retry_backoff_shift) seed
