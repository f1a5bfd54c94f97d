-- ===== src/Common/Words.antt =====
-- Byte slices as lists, and `encoding/binary`'s little-endian words.
use Prim.Native.Nat.{ℕ, ◌+◌, ◌-◌, ◌*◌, ◌/◌, ◌%◌, ◌^◌, ◌<◌}
use mathlib.Core.Path.{◌≡◌}
use mathlib.Core.List.{List, [], ◌∷◌, ◌++◌}
use native.Mathlib.Omega.{arith}
use tcpadapter.Common.Lists.{get_or, take, drop, All}

abbrev pub Bytes : Type 0
Bytes = List ℕ

abbrev pub IsBytes : Bytes → Type 0
IsBytes = All λ b. b < 256

-- `b[i]`. The callers test the length first; past the end this is 0.
abbrev pub byte_at : Bytes → ℕ → ℕ
byte_at b i = get_or b i 0

-- `b[lo:hi]`
abbrev pub slice : ℕ → ℕ → Bytes → Bytes
slice lo hi b = take (hi - lo) (drop lo b)

-- `binary.LittleEndian.PutUint16` and its kin.
abbrev pub put_u16 : ℕ → Bytes
put_u16 n = n % 256 ∷ n / 256 % 256 ∷ []

abbrev pub put_u32 : ℕ → Bytes
put_u32 n = n % 256 ∷ n / 2 ^ 8 % 256 ∷ n / 2 ^ 16 % 256 ∷ n / 2 ^ 24 % 256 ∷ []

abbrev pub u16 : Bytes → ℕ
u16 b = byte_at b 0 + byte_at b 1 * 2 ^ 8

abbrev pub u32 : Bytes → ℕ
u32 b = byte_at b 0 + byte_at b 1 * 2 ^ 8 + byte_at b 2 * 2 ^ 16 + byte_at b 3 * 2 ^ 24

pub u16-put_u16 : (n : ℕ) (rest : Bytes) → n < 2 ^ 16 → u16 (put_u16 n ++ rest) ≡ n
u16-put_u16 n rest h = omega arith

pub u32-put_u32 : (n : ℕ) (rest : Bytes) → n < 2 ^ 32 → u32 (put_u32 n ++ rest) ≡ n
u32-put_u32 n rest h = omega arith

pub put_u16-IsBytes : (n : ℕ) → IsBytes (put_u16 n)
put_u16-IsBytes n = omega arith

pub put_u32-IsBytes : (n : ℕ) → IsBytes (put_u32 n)
put_u32-IsBytes n = omega arith
