-- ===== src/Examples/Stores.antt =====
-- A file store whose last step fails, or does not.
use tcpadapter.Common.{
  ℕ, ◌≡◌, refl, [], ◌∷◌, some, none, ok, false, Option, List, Bytes, arith, true,
}
use tcpadapter.Store.{SessionSnapshot}
use tcpadapter.Store.Memory.{Sessions}
use tcpadapter.Store.Memory
use tcpadapter.Store.File.{Outcomes, Codec, save_session, delete_session, list_sessions}
use tcpadapter.Store.Backups.{DirEntry, backups, cleanup_corrupt_backups}
use tcpadapter.Store.Backups.Laws.{Splits, cleanup_corrupt_backups-Splits}
use tcpadapter.Common.Int.{pos}
use tcpadapter.Store.File.Laws.{sessions_in, Updates, Lists, file_store-Refines}
use tcpadapter.Session.Manager.{snapshot_of}
use tcpadapter.Examples.Queues.{small_session}

abbrev plain : Codec ℕ Sessions
plain = record { is_empty = λ raw. false; encode = ok; decode = some }

abbrev ending : Option ℕ → Outcomes ℕ
ending x = record {
  read = none;
  moved_aside = false;
  mkdir = none;
  create_temp = none;
  write = none;
  sync = none;
  close = none;
  chmod = none;
  rename = x;
}

abbrev other : SessionSnapshot
other = record (snapshot_of small_session) { controller_id = 66 ∷ [] }

abbrev one_session : Option Sessions
one_session = some ((65 ∷ [], snapshot_of small_session) ∷ [])

not_renamed : save_session plain (ending (some 5)) other one_session ≡ (some 5, one_session)
unfolding save_session
not_renamed = refl

stores_one :
    Updates plain
      (sessions_in plain one_session)
      (Memory.save_session other (sessions_in plain one_session)).1
      (save_session plain (ending none) other one_session)
    × Updates plain
        (sessions_in plain one_session)
        (Memory.delete_session (65 ∷ []) (sessions_in plain one_session)).1
        (delete_session plain (ending none) (65 ∷ []) one_session)
    × Lists plain (sessions_in plain one_session) (list_sessions plain (ending none) one_session)
stores_one =
    file_store-Refines plain (ending none) other (65 ∷ []) one_session
      (λ raw e. (refl, raw, refl, λ k. cc)) (λ raw e. (refl, raw, refl, λ k. cc))

abbrev backup_of : ℕ → Bytes
backup_of n = b's' ∷ b'.' ∷ b'c' ∷ b'o' ∷ b'r' ∷ b'r' ∷ b'u' ∷ b'p' ∷ b't' ∷ b'-' ∷ n ∷ []

-- Two backups of the file "s", a directory, and another file.
abbrev backup_entries : List DirEntry
backup_entries =
    record { name = backup_of b'1'; is_dir = false; modified = some (pos 5) }
    ∷ record { name = backup_of b'2'; is_dir = false; modified = some (pos 7) }
    ∷ record { name = backup_of b'3'; is_dir = true; modified = some (pos 9) }
    ∷ record { name = b's' ∷ []; is_dir = false; modified = some (pos 9) }
    ∷ []

older_removed :
    cleanup_corrupt_backups (b's' ∷ []) 1 (some backup_entries) ≡ some (backup_of b'1' ∷ [])
unfolding cleanup_corrupt_backups
older_removed = refl

backup_entries-Splits :
    (removed : List Bytes) × (cleanup_corrupt_backups (b's' ∷ []) 1 (some backup_entries)
      ≡ some removed)
    × Splits (backups (b's' ∷ []) backup_entries) 1 removed
backup_entries-Splits = cleanup_corrupt_backups-Splits (b's' ∷ []) 1 backup_entries (omega arith)
