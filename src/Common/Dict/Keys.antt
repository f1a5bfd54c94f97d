-- ===== src/Common/Dict/Keys.antt =====
-- Dictionaries with distinct keys, and what holds of all entries.
use mathlib.Core.Path.{◌≡◌, refl, ap}
use mathlib.Core.Logic.{inl, inr}
use mathlib.Core.Bool.{true, false}
use mathlib.Core.Option.{some}
use mathlib.Core.List.{[], ◌∷◌, ◌++◌}
use native.Mathlib.Omega.{arith}
use tcpadapter.Common.Tests.{Bool-cases}
use tcpadapter.Common.Lists.{All}
use tcpadapter.Common.Perms.{All-append_right}
use tcpadapter.Common.Dict.{Eq, Dict, lookup, insert, delete}

beq_false_sym {ℓ} : {K : Type ℓ} ⦃e : Eq K⦄ (j k : K) → e.beq j k ≡ false → e.beq k j ≡ false
beq_false_sym ⦃e⦄ j k h = ground (arith, e.beq_iff j k, e.beq_iff k j)

module _ {ℓ κ} {K : Type ℓ} ⦃e : Eq K⦄ {V : Type κ} where
  -- No entry has this key.
  abbrev pub IsFree : K → Dict K V → Type 0
  IsFree k m = All (λ p. e.beq p.0 k ≡ false) m

  abbrev pub Distinct : Dict K V → Type 0
  Distinct [] = Unit
  Distinct ((k, v) ∷ m) = IsFree k m × Distinct m

  pub insert-All {ι} :
      (P : K × V → Type ι) (k : K) (v : V) (m : Dict K V)
      → P (k, v)
      → All P m
      → All P (insert k v m)
  unfolding insert
  insert-All P k v [] h a = (h, tt)
  insert-All P k v ((j, w) ∷ m) h a = elim (Bool-cases (e.beq j k)) [
    | inl t ↦ rw t (h, a.1)
    | inr t ↦ rw t (a.0, insert-All P k v m h a.1)
  ]

  pub delete-All {ι} : (P : K × V → Type ι) (k : K) (m : Dict K V) → All P m → All P (delete k m)
  unfolding delete
  delete-All P k [] a = tt
  delete-All P k ((j, w) ∷ m) a = elim (Bool-cases (e.beq j k)) [
    | inl t ↦ rw t (delete-All P k m a.1)
    | inr t ↦ rw t (a.0, delete-All P k m a.1)
  ]

  pub insert-free : (k : K) (v : V) (m : Dict K V) → IsFree k m → insert k v m ≡ m ++ (k, v) ∷ []
  unfolding insert
  insert-free k v [] h = refl
  insert-free k v ((j, w) ∷ m) h = rw h.0 (ap (◌∷◌ (j, w)) (insert-free k v m h.1))

  pub insert-Distinct : (k : K) (v : V) (m : Dict K V) → Distinct m → Distinct (insert k v m)
  unfolding insert
  insert-Distinct k v [] d = (tt, tt)
  insert-Distinct k v ((j, w) ∷ m) d = elim (Bool-cases (e.beq j k)) [
    | inl t ↦ rw t (let same : j ≡ k = (e.beq_iff j k).0 t in rw (← same) d.0, d.1)
    | inr t ↦ rw t (insert-All _ k v m (beq_false_sym j k t) d.0, insert-Distinct k v m d.1)
  ]

  pub delete-Distinct : (k : K) (m : Dict K V) → Distinct m → Distinct (delete k m)
  unfolding delete
  delete-Distinct k [] d = tt
  delete-Distinct k ((j, w) ∷ m) d = elim (Bool-cases (e.beq j k)) [
    | inl t ↦ rw t (delete-Distinct k m d.1)
    | inr t ↦ rw t (delete-All _ k m d.0, delete-Distinct k m d.1)
  ]

  pub lookup-All {ι} :
      (P : K × V → Type ι) (k : K) {v : V} (m : Dict K V)
      → All P m
      → lookup k m ≡ some v
      → (j : K) × (e.beq j k ≡ true) × P (j, v)
  unfolding lookup
  lookup-All P k {v} [] a h = cc
  lookup-All P k {v} ((j, w) ∷ m) a h = elim (Bool-cases (e.beq j k)) [
    | inl t ↦ let z : some w ≡ some v = rw t at h in let y : w ≡ v = cc in (j, t, rw (← y) a.0)
    | inr t ↦ lookup-All P k m a.1 (rw t at h)
  ]

  pub IsFree-append :
      (k : K) (v : V) (xs ys : Dict K V) → Distinct (xs ++ (k, v) ∷ ys) → IsFree k xs
  IsFree-append k v [] ys d = tt
  IsFree-append k v ((j, w) ∷ xs) ys d =
      (beq_false_sym k j (All-append_right _ xs _ d.0).0, IsFree-append k v xs ys d.1)
