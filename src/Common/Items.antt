-- ===== src/Common/Items.antt =====
-- One item of a byte slice, replaced: what stands round it.
use Prim.Native.Nat.{ℕ, zero, suc, ◌+◌, ◌<◌}
use mathlib.Core.Path.{◌≡◌, refl, ap}
use mathlib.Core.List.{[], ◌∷◌, ◌++◌}
use native.Mathlib.Omega.{arith}
use tcpadapter.Common.Lists.{length, set, take, drop, get_or}
use tcpadapter.Common.Words.{Bytes, IsBytes, u16, put_u16}

-- A list round the item at an index, and with another item there.
pub split_item : (d : Bytes) (i : ℕ) → i < length d → d ≡ take i d ++ get_or d i 0 ∷ drop (suc i) d
split_item [] i h = elim h [ ]
split_item (x ∷ d) zero h = refl
split_item (x ∷ d) (suc i) h = ap (◌∷◌ x) (split_item d i (omega arith))

pub split_set : (d : Bytes) (i y : ℕ) → i < length d → set d i y ≡ take i d ++ y ∷ drop (suc i) d
split_set [] i y h = elim h [ ]
split_set (x ∷ d) zero y h = refl
split_set (x ∷ d) (suc i) y h = ap (◌∷◌ x) (split_set d i y (omega arith))

pub take-IsBytes : (i : ℕ) (d : Bytes) → IsBytes d → IsBytes (take i d)
take-IsBytes zero d a = tt
take-IsBytes (suc i) [] a = tt
take-IsBytes (suc i) (x ∷ d) a = (a.0, take-IsBytes i d a.1)

pub drop-IsBytes : (i : ℕ) (d : Bytes) → IsBytes d → IsBytes (drop i d)
drop-IsBytes zero d a = a
drop-IsBytes (suc i) [] a = tt
drop-IsBytes (suc i) (x ∷ d) a = drop-IsBytes i d a.1

pub get_or-lt : (d : Bytes) (i : ℕ) → IsBytes d → get_or d i 0 < 256
get_or-lt [] i a = omega arith
get_or-lt (x ∷ d) zero a = a.0
get_or-lt (x ∷ d) (suc i) a = get_or-lt d i a.1

pub set-append_left : (d e : Bytes) (i y : ℕ) → i < length d → set (d ++ e) i y ≡ set d i y ++ e
set-append_left [] e i y h = elim h [ ]
set-append_left (x ∷ d) e zero y h = refl
set-append_left (x ∷ d) e (suc i) y h = ap (◌∷◌ x) (set-append_left d e i y (omega arith))

pub set-append_right : (d e : Bytes) (i y : ℕ) → set (d ++ e) (length d + i) y ≡ d ++ set e i y
set-append_right [] e i y = let z : 0 + i ≡ i = omega arith in rw z
set-append_right (x ∷ d) e i y =
    let z : suc (length d) + i ≡ suc (length d + i) = omega arith in
    rw z (ap (◌∷◌ x) (set-append_right d e i y))

-- Two bytes are the little-endian word that they hold.
pub put_u16-u16 : (xs : Bytes) → length xs ≡ 2 → IsBytes xs → put_u16 (u16 xs) ≡ xs
put_u16-u16 [] e a = absurd (omega arith)
put_u16-u16 (x ∷ []) e a = absurd (omega arith)
put_u16-u16 (x ∷ y ∷ []) e a = ground arith
put_u16-u16 (x ∷ y ∷ z ∷ xs) e a = absurd (omega arith)

pub append-IsBytes_left : (xs ys : Bytes) → IsBytes (xs ++ ys) → IsBytes xs
append-IsBytes_left [] ys a = tt
append-IsBytes_left (x ∷ xs) ys a = (a.0, append-IsBytes_left xs ys a.1)

pub append-IsBytes_right : (xs ys : Bytes) → IsBytes (xs ++ ys) → IsBytes ys
append-IsBytes_right [] ys a = a
append-IsBytes_right (x ∷ xs) ys a = append-IsBytes_right xs ys a.1
