-- ===== src/Common/Sorts.antt =====
-- `sort.Slice`, as insertion sort by the same order, and what it returns.
use mathlib.Core.List.{Perm}
use mathlib.Core.List.Perm
use Prim.Native.Nat.{suc}
use mathlib.Core.Path.{◌≡◌, refl}
use mathlib.Core.Logic.{inl, inr}
use mathlib.Core.Bool.{Bool, true, false}
use mathlib.Core.List.{List, [], ◌∷◌}
use native.Mathlib.Omega.{arith}
use tcpadapter.Common.Tests.{Bool-cases, ltb, ◌==◌, if◌then◌else◌}
use tcpadapter.Common.Lists.{length, All, All-imp}
use tcpadapter.Common.Words.{Bytes}

-- Insertion, and the sort by a `less` of `sort.Slice`.
module _ {ℓ} {A : Type ℓ} (less : A → A → Bool) where
  unfoldable pub insert_by : A → List A → List A
  insert_by x [] = x ∷ []
  insert_by x (y ∷ ys) = if less y x then y ∷ insert_by x ys else x ∷ y ∷ ys

  unfoldable pub sort_by : List A → List A
  unfolding insert_by
  sort_by [] = []
  sort_by (x ∷ xs) = insert_by x (sort_by xs)

-- `<` on Go strings.
unfoldable pub bytes_less : Bytes → Bytes → Bool
bytes_less xs [] = false
bytes_less [] (y ∷ ys) = true
bytes_less (x ∷ xs) (y ∷ ys) = if x == y then bytes_less xs ys else ltb x y

module _ {ℓ} {A : Type ℓ} (less : A → A → Bool) where
  -- No item is less than one before it.
  abbrev pub IsSorted : List A → Type 0
  IsSorted [] = Unit
  IsSorted (x ∷ xs) = All (λ y. less y x ≡ false) xs × IsSorted xs

  All-insert_by {κ} :
      (P : A → Type κ) (x : A) (ys : List A) → P x → All P ys → All P (insert_by less x ys)
  unfolding insert_by
  All-insert_by P x [] hx h = (hx, tt)
  All-insert_by P x (y ∷ ys) hx h = elim (Bool-cases (less y x)) [
    | inl t ↦ rw (insert_by, t) (h.0, All-insert_by P x ys hx h.1)
    | inr t ↦ rw (insert_by, t) (hx, h)
  ]

  insert_by-Perm : (x : A) (ys : List A) → Perm (x ∷ ys) (insert_by less x ys)
  unfolding insert_by
  insert_by-Perm x [] = Perm.refl _
  insert_by-Perm x (y ∷ ys) = elim (Bool-cases (less y x)) [
    | inl t ↦ rw (insert_by, t) (Perm.trans (Perm.swap y x ys) (Perm.cons y (insert_by-Perm x ys)))
    | inr t ↦ rw (insert_by, t) (Perm.refl _)
  ]

  pub sort_by-Perm : (xs : List A) → Perm xs (sort_by less xs)
  unfolding sort_by
  sort_by-Perm [] = Perm.refl _
  sort_by-Perm (x ∷ xs) =
      Perm.trans (Perm.cons x (sort_by-Perm xs)) (insert_by-Perm x (sort_by less xs))

  length-insert_by : (x : A) (ys : List A) → length (insert_by less x ys) ≡ suc (length ys)
  unfolding insert_by
  length-insert_by x [] = refl
  length-insert_by x (y ∷ ys) = elim (Bool-cases (less y x)) [
    | inl t ↦ rw (insert_by, t) (omega (arith, length-insert_by x ys))
    | inr t ↦ rw (insert_by, t) refl
  ]

  pub length-sort_by : (xs : List A) → length (sort_by less xs) ≡ length xs
  unfolding sort_by
  length-sort_by [] = refl
  length-sort_by (x ∷ xs) = omega (arith, length-insert_by x (sort_by less xs), length-sort_by xs)

  module _ (asym : (x y : A) → less x y ≡ true → less y x ≡ false)
      (trans : (x y z : A) → less y x ≡ false → less z y ≡ false → less z x ≡ false) where
    insert_by-IsSorted : (x : A) (ys : List A) → IsSorted ys → IsSorted (insert_by less x ys)
    unfolding insert_by
    insert_by-IsSorted x [] h = (tt, tt)
    insert_by-IsSorted x (y ∷ ys) h = elim (Bool-cases (less y x)) [
      | inl t ↦
          rw (insert_by, t)
            (
              All-insert_by (λ z. less z y ≡ false) x ys (asym y x t) h.0,
              insert_by-IsSorted x ys h.1,
            )
      | inr t ↦ rw (insert_by, t) ((t, All-imp (λ z e. trans x y z t e) ys h.0), h)
    ]

    pub sort_by-IsSorted : (xs : List A) → IsSorted (sort_by less xs)
    unfolding sort_by
    sort_by-IsSorted [] = tt
    sort_by-IsSorted (x ∷ xs) = insert_by-IsSorted x (sort_by less xs) (sort_by-IsSorted xs)

pub bytes_less_asym : (xs ys : Bytes) → bytes_less xs ys ≡ true → bytes_less ys xs ≡ false
unfolding bytes_less
bytes_less_asym xs [] h = cc
bytes_less_asym [] (y ∷ ys) h = refl
bytes_less_asym (x ∷ xs) (y ∷ ys) h = ground (arith, bytes_less_asym xs ys)

pub bytes_less_trans :
    (xs ys zs : Bytes)
    → bytes_less ys xs ≡ false
    → bytes_less zs ys ≡ false
    → bytes_less zs xs ≡ false
unfolding bytes_less
bytes_less_trans [] ys zs a b = refl
bytes_less_trans (x ∷ xs) [] zs a b = cc
bytes_less_trans (x ∷ xs) (y ∷ ys) [] a b = cc
bytes_less_trans (x ∷ xs) (y ∷ ys) (z ∷ zs) a b = ground (arith, bytes_less_trans xs ys zs)
