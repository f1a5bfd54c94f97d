-- ===== src/Store/Backups.antt =====
-- `cleanupCorruptBackups` of internal/store/store.go. What the directory holds is given, and
-- the result is the names that are removed; whether a removal fails is not looked at.
pub mod Laws
use tcpadapter.Common.{
  ℕ, Bool, true, false, ◌&&◌, not, List, [], ◌∷◌, ◌++◌, map, drop, Option, none, some, length, leb,
  ◌==◌, if◌then◌else◌, Bytes,
}
use tcpadapter.Common.Int.{ℤ, ltb_ℤ, leb_ℤ}
use tcpadapter.Common.Sorts.{sort_by, bytes_less}

-- `modified` is `none` where `Info` fails.
pub record DirEntry : Type 0 where
  pub name : Bytes
  pub is_dir : Bool
  pub modified : Option ℤ

pub record FileEntry : Type 0 where
  pub name : Bytes
  pub modified : ℤ

-- `strings.HasPrefix`
abbrev pub has_prefix : Bytes → Bytes → Bool
has_prefix s [] = true
has_prefix [] (p ∷ ps) = false
has_prefix (c ∷ s) (p ∷ ps) = c == p && has_prefix s ps

-- ".corrupt-"
abbrev mark : Bytes
mark = b'.' ∷ b'c' ∷ b'o' ∷ b'r' ∷ b'r' ∷ b'u' ∷ b'p' ∷ b't' ∷ b'-' ∷ []

-- The loop over the directory, for the last element `base` of the store's path.
unfoldable pub backups : Bytes → List DirEntry → List FileEntry
backups base [] = []
backups base (e ∷ es) =
    let rest = backups base es in
    if not e.is_dir && has_prefix e.name (base ++ mark)
    then (elim e.modified [
      | none ↦ rest
      | some at ↦ record { name = e.name; modified = at } ∷ rest
    ])
    else rest

-- `Equal` of package time.
abbrev equal_times : ℤ → ℤ → Bool
equal_times a b = leb_ℤ a b && leb_ℤ b a

-- The order of the sort: the newest first, and of equal times the last name.
unfoldable pub newer : FileEntry → FileEntry → Bool
unfolding bytes_less
newer a b =
    if equal_times a.modified b.modified
    then bytes_less b.name a.name
    else ltb_ℤ b.modified a.modified

-- The result is `none` where the directory cannot be read.
unfoldable pub cleanup_corrupt_backups : Bytes → ℕ → Option (List DirEntry) → Option (List Bytes)
unfolding backups newer sort_by
cleanup_corrupt_backups base max_keep entries = if max_keep == 0 then some [] else (elim entries [
  | none ↦ none
  | some es ↦
      let files = backups base es in
      if leb (length files) max_keep
      then some []
      else some (map (λ f. f.name) (drop max_keep (sort_by newer files)))
])
