-- ===== src/Store/Backups/Laws.antt =====
-- Which backups are removed.
use mathlib.Core.List.{Perm, append-nil}
use mathlib.Core.List.Perm
use Prim.Native.Nat.{min}
use tcpadapter.Common.{
  ℕ, zero, suc, ◌≤◌, ◌<◌, ◌≡◌, refl, Bool, true, false, inl, inr, Bool-cases, All-imp, List, [],
  ◌∷◌, ◌++◌, map, take, drop, some, length, leb, ◌==◌, Bytes, All, arith, take-append-drop,
  length-take,
}
use tcpadapter.Common.Int.{leb_ℤ}
use tcpadapter.Common.Sorts.{
  sort_by, IsSorted, sort_by-Perm, length-sort_by, sort_by-IsSorted, bytes_less_asym,
  bytes_less_trans,
}
use tcpadapter.Store.Backups.{DirEntry, FileEntry, backups, newer, cleanup_corrupt_backups}

newer_asym : (a b : FileEntry) → newer a b ≡ true → newer b a ≡ false
unfolding newer
newer_asym a b h = ground (arith, bytes_less_asym b.name a.name)

newer_trans : (a b c : FileEntry) → newer b a ≡ false → newer c b ≡ false → newer c a ≡ false
unfolding newer
newer_trans a b c h k = ground (arith, bytes_less_trans c.name b.name a.name)

module _ {ℓ} {A : Type ℓ} (less : A → A → Bool) where
  All-drop {κ} : (P : A → Type κ) (n : ℕ) (xs : List A) → All P xs → All P (drop n xs)
  All-drop P zero xs h = h
  All-drop P (suc n) [] h = tt
  All-drop P (suc n) (x ∷ xs) h = All-drop P n xs h.1

  -- In a sorted list, no item behind a place is less than one before it.
  take-before-drop :
      (n : ℕ) (xs : List A)
      → IsSorted less xs
      → All (λ x. All (λ y. less y x ≡ false) (drop n xs)) (take n xs)
  take-before-drop zero xs h = tt
  take-before-drop (suc n) [] h = tt
  take-before-drop (suc n) (x ∷ xs) h =
      (All-drop (λ y. less y x ≡ false) n xs h.0, take-before-drop n xs h.1)

All-any {ℓ κ} : {A : Type ℓ} {P : A → Type κ} → ((a : A) → P a) → (xs : List A) → All P xs
All-any f [] = tt
All-any f (x ∷ xs) = (f x, All-any f xs)

-- What is asked of a clean-up: every file is kept or removed, and no removed one is newer than a kept one.
pub record Splits (files : List FileEntry) (most : ℕ) (removed : List Bytes) : Type 0 where
  pub kept : List FileEntry
  pub rest : List FileEntry
  pub names : removed ≡ map (λ f. f.name) rest
  pub all : Perm files (kept ++ rest)
  pub count : length kept ≡ min most (length files)
  pub newest : All (λ k. All (λ r. leb_ℤ r.modified k.modified ≡ true) rest) kept

not_newer-older : (r k : FileEntry) → newer r k ≡ false → leb_ℤ r.modified k.modified ≡ true
unfolding newer
not_newer-older r k h = ground arith

split_sorted :
    (files : List FileEntry) (most : ℕ)
    → Splits files most (map (λ f. f.name) (drop most (sort_by newer files)))
split_sorted files most =
    let sorted = sort_by newer files in
    record {
      kept = take most sorted;
      rest = drop most sorted;
      names = refl;
      all = rw (take-append-drop most sorted) (sort_by-Perm newer files);
      count = omega (arith, length-take most sorted, length-sort_by newer files);
      newest =
          All-imp (λ k h. All-imp (λ r. not_newer-older r k) (drop most sorted) h)
            (take most sorted)
            (take-before-drop newer most sorted
              (sort_by-IsSorted newer newer_asym newer_trans files));
    }

split_none : (files : List FileEntry) (most : ℕ) → length files ≤ most → Splits files most []
split_none files most h = record {
  kept = files;
  rest = [];
  names = refl;
  all = rw append-nil (Perm.refl _);
  count = omega arith;
  newest = All-any (λ k. tt) files;
}

-- When at least one backup may be kept and the directory can be read, its backups are split into the newest ones, as many as may be kept or all if there are fewer, and the others, and exactly the others are removed.
pub cleanup_corrupt_backups-Splits :
    (base : Bytes) (max_keep : ℕ) (entries : List DirEntry)
    → 0 < max_keep
    → (removed : List Bytes) × (cleanup_corrupt_backups base max_keep (some entries) ≡ some removed)
      × Splits (backups base entries) max_keep removed
unfolding cleanup_corrupt_backups
cleanup_corrupt_backups-Splits base max_keep entries pos_max =
    let files = backups base entries in
    let some_kept : (max_keep == 0) ≡ false = ground arith in
    elim (Bool-cases (leb (length files) max_keep)) [
      | inl t ↦ (
        [],
        rw (cleanup_corrupt_backups, some_kept, t) refl,
        split_none files max_keep (ground arith),
      )
      | inr t ↦ (_, rw (cleanup_corrupt_backups, some_kept, t) refl, split_sorted files max_keep)
    ]
