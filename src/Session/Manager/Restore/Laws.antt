-- ===== src/Session/Manager/Restore/Laws.antt =====
-- A session that is saved and restored.
use mathlib.Core.List.{append_assoc, append-nil}
use tcpadapter.Common.{
  ℕ, ◌≡◌, refl, sym, ap, ◌∙◌, [], ◌∷◌, ◌++◌, map, none, All, ◌==◌, if◌then◌else◌,
}
use tcpadapter.Common.Dict.{Dict, insert, nat_eq}
use tcpadapter.Common.Dict.Keys.{Distinct, insert-free, IsFree-append}
use tcpadapter.Queue.Classes.{IsClassed, restore-snapshot}
use tcpadapter.Protocol.Frame.{sequenced}
use tcpadapter.Session.Types.{Session, InFlightEntry}
use tcpadapter.Session.Manager.{snapshot_of, entry_snapshot, default_buffer_free}
use tcpadapter.Session.Manager.Restore.{restore_entries, restored_session}

-- Each entry stands under its own number.
abbrev pub IsNumbered : Dict ℕ InFlightEntry → Type 0
IsNumbered m = All (λ p. p.0 ≡ p.1.seq) m

restore_entries_onto :
    (done m : Dict ℕ InFlightEntry)
    → Distinct (done ++ m)
    → IsNumbered m
    → restore_entries done (map entry_snapshot m) ≡ done ++ m
unfolding restore_entries entry_snapshot
restore_entries_onto done [] d n = rw append-nil refl
restore_entries_onto done ((k, v) ∷ m) d n =
    let assoc : (done ++ (k, v) ∷ []) ++ m ≡ done ++ (k, v) ∷ m = append_assoc done _ m in
    let all = restore_entries_onto (done ++ (k, v) ∷ []) m (rw assoc d) n.1 in
    let step : insert v.seq v done ≡ done ++ (k, v) ∷ [] =
      ap (λ x. insert x v done) (sym n.0) ∙ insert-free k v done (IsFree-append k v done m d) in
    ap (λ x. restore_entries x (map entry_snapshot m)) step ∙ all ∙ assoc

-- What a restart makes of a session.
abbrev pub restarted : {Conn : Type 0} → Session Conn → Session Conn
restarted s = record s {
  conn = none;
  last_touched_persisted_at = s.last_seen;
  buffer_free = if s.buffer_free == 0 then default_buffer_free else s.buffer_free;
  dedup = [];
  frame_mode = sequenced;
}

-- If each buffer of its queue holds its own class, and each command in flight stands once and under
-- its own number, a saved session comes back with its queue in order, its modes, its counter and all commands in
-- flight; it has no connection, no deduplication keys and the frame mode of a new session.
pub restored_session-snapshot_of :
    {Conn : Type 0} (s : Session Conn)
    → IsClassed s.queue
    → Distinct s.in_flight
    → IsNumbered s.in_flight
    → restored_session (snapshot_of s) ≡ restarted s
unfolding restored_session snapshot_of
restored_session-snapshot_of s c d n =
    rw (restore-snapshot s.queue c, restore_entries_onto [] s.in_flight d n) refl
