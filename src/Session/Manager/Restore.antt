-- ===== src/Session/Manager/Restore.antt =====
-- `Restore` of internal/session/manager.go: the sessions after a restart.
pub mod Laws
use tcpadapter.Common.{
  ℕ, ◌+◌, Bool, List, [], ◌∷◌, none, Result, ok, err, Bytes, ◌==◌, if◌then◌else◌, length,
}
use tcpadapter.Common.Dict.{Dict, insert, bytes_key, bytes_eq, nat_eq}
use tcpadapter.Queue
use tcpadapter.Store.{Store, SessionSnapshot, InFlightSnapshot}
use tcpadapter.Protocol.Frame.{sequenced}
use tcpadapter.Session.Types.{Session, InFlightEntry, store_failed}
use tcpadapter.Session.Manager.{Manager, Manages, Err, put_session, default_buffer_free}

-- `for _, v := range snap.InFlight`, onto a map.
unfoldable pub restore_entries : Dict ℕ InFlightEntry → List InFlightSnapshot → Dict ℕ InFlightEntry
restore_entries m [] = m
restore_entries m (v ∷ vs) =
    restore_entries
      (insert v.seq
        (record { seq = v.seq; command = v.command; sent_at = v.sent_at; attempts = v.attempts }) m)
      vs

unfoldable pub restored_session : {Conn : Type 0} → SessionSnapshot → Session Conn
unfolding restore_entries
restored_session snap = record {
  controller_id = snap.controller_id;
  conn = none;
  queue = Queue.restore snap.pending;
  last_seen = snap.last_seen;
  last_touched_persisted_at = snap.last_seen;
  buffer_free = if snap.buffer_free == 0 then default_buffer_free else snap.buffer_free;
  fw_mode = snap.fw_mode;
  sync_mode = snap.sync_mode;
  dedup = [];
  in_flight = restore_entries [] snap.in_flight;
  next_seq = snap.next_seq;
  frame_mode = sequenced;
}

module _ (Conn : Type 0) (st : Store) where
  -- `for _, snap := range snapshots`, with the count.
  unfoldable pub restore_all : List SessionSnapshot → ℕ → Manages Conn st → ℕ × Manages Conn st
  restore_all [] count m = (count, m)
  restore_all (snap ∷ snaps) count m =
      let id = snap.controller_id in
      let skip = length id == 0 in
      restore_all snaps (if skip then count else count + 1)
        (if skip then m else put_session Conn st id (restored_session snap) m)

  unfoldable pub restore : Manages Conn st → Result (Err st) ℕ × Manages Conn st
  unfolding restore_all
  restore m = elim (st.list_sessions m.store) [
    | err e ↦ (err (store_failed e), m)
    | ok snaps ↦ let (n, m') = restore_all snaps 0 m in (ok n, m')
  ]
