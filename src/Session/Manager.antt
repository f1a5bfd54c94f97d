-- ===== src/Session/Manager.antt =====
-- The manager of internal/session/manager.go: its state, and the life of a session.
pub mod Enqueue
pub mod InFlight
pub mod Restore
pub mod Connections
pub mod Invariant
pub mod Calls
pub mod Views
use tcpadapter.Common.{
  ℕ, ◌+◌, ◌%◌, ◌^◌, Bool, true, false, List, [], ◌∷◌, Option, none, some, map, Result, ok, err, ltb,
  leb, ◌==◌, if◌then◌else◌, Bytes, length,
}
use tcpadapter.Common.Int.{ℤ, pos, ◌-ℤ◌, ltb_ℤ}
use tcpadapter.Common.Dict.{Dict, lookup, insert, delete, bytes_key, bytes_eq, nat_eq}
use tcpadapter.Queue.{ControllerQueue, new_controller_queue, snapshot}
use tcpadapter.Store.{Store, SessionSnapshot, InFlightSnapshot}
use tcpadapter.Protocol.Frame.{FrameMode, sequenced}
use tcpadapter.Session.Types.{
  Session, InFlightEntry, OverflowPolicy, drop_oldest_policy, unknown_policy, SessionError,
  session_exists, max_connections, store_failed,
}
use tcpadapter.Session.Room.{Limits}

pub record Manager (Conn State : Type 0) : Type 0 where
  pub sessions : Dict Bytes (Session Conn)
  pub max_conns : ℕ
  pub limits : Limits
  pub overflow_policy : OverflowPolicy
  pub store : State

abbrev pub default_buffer_free : ℕ
default_buffer_free = 1500

-- `touchPersistInterval`, 5 s in nanoseconds.
abbrev pub touch_persist_interval : ℤ
touch_persist_interval = pos 5_000_000_000

unfoldable pub entry_snapshot : ℕ × InFlightEntry → InFlightSnapshot
entry_snapshot (k, v) = record {
  seq = v.seq;
  command = v.command;
  sent_at = v.sent_at;
  attempts = v.attempts;
}

-- What `persistLocked` saves.
unfoldable pub snapshot_of : {Conn : Type 0} → Session Conn → SessionSnapshot
unfolding entry_snapshot
snapshot_of s = record {
  controller_id = s.controller_id;
  last_seen = s.last_seen;
  buffer_free = s.buffer_free;
  fw_mode = s.fw_mode;
  sync_mode = s.sync_mode;
  pending = snapshot s.queue;
  in_flight = map entry_snapshot s.in_flight;
  next_seq = s.next_seq;
}

module _ (st : Store) where
  abbrev pub Err : Type 0
  Err = SessionError st.StoreError

  -- The result of a method that only fails when the store does.
  abbrev pub of_store : Option st.StoreError → Result Err (Unit {0})
  of_store none = ok tt
  of_store (some e) = err (store_failed e)

abbrev pub is_online : {Conn : Type 0} → Session Conn → Bool
is_online s = elim s.conn [ none ↦ false | some _ ↦ true ]

-- `onlineConnectionsLocked`
unfoldable pub online_connections : {Conn : Type 0} → Dict Bytes (Session Conn) → ℕ
online_connections [] = 0
online_connections ((_, s) ∷ m) = (if is_online s then 1 else 0) + online_connections m

abbrev pub new_session : {Conn : Type 0} → Bytes → Option Conn → ℤ → Session Conn
new_session id conn now = record {
  controller_id = id;
  conn = conn;
  queue = new_controller_queue;
  last_seen = now;
  last_touched_persisted_at = now;
  buffer_free = default_buffer_free;
  fw_mode = false;
  sync_mode = false;
  dedup = [];
  in_flight = [];
  next_seq = 0;
  frame_mode = sequenced;
}

module _ (Conn : Type 0) (st : Store) where
  abbrev pub Manages : Type 0
  Manages = Manager Conn st.State

  -- `m.sessions[id] = s`, which is also what an assignment through the map's pointer does.
  abbrev pub put_session : Bytes → Session Conn → Manages → Manages
  put_session id s m = record m { sessions = insert id s m.sessions }

  -- `persistLocked`: the error, and the manager with the store's new state.
  unfoldable pub persist : Session Conn → Manages → Option st.StoreError × Manages
  persist s m =
      let (e, state) = st.save_session (snapshot_of s) m.store in (e, record m { store = state })

  -- `m.sessions[id] = s` and then `persistLocked(s)`.
  unfoldable pub put_and_persist : Bytes → Session Conn → Manages → Option st.StoreError × Manages
  unfolding persist
  put_and_persist id s m = persist s (put_session id s m)

  -- A session that is made anew: kept only if it could be saved.
  unfoldable pub add_session :
      Bytes → Session Conn → Manages → Result (Err st) (Session Conn) × Manages
  unfolding put_and_persist
  add_session id s m =
      let (e, m') = put_and_persist id s m in
      elim e [
        | none ↦ (ok s, m')
        | some x ↦ (err (store_failed x), record m' { sessions = delete id m'.sessions })
      ]

  -- The branch of `Create` for a session without a connection. If it cannot be saved, connection and
  -- time are put back, and the free buffer is not.
  unfoldable pub attach :
      Bytes → Conn → ℤ → Session Conn → Manages → Result (Err st) (Session Conn) × Manages
  unfolding put_and_persist
  attach id conn now s m =
      let s' : Session Conn = record s {
        conn = some conn;
        last_seen = now;
        buffer_free = if s.buffer_free == 0 then default_buffer_free else s.buffer_free;
      } in
      let (e, m') = put_and_persist id s' m in
      elim e [
        | none ↦ (ok s', m')
        | some x ↦ (
          err (store_failed x),
          put_session id (record s' { conn = s.conn; last_seen = s.last_seen }) m',
        )
      ]

  unfoldable pub create : Bytes → Conn → ℤ → Manages → Result (Err st) (Session Conn) × Manages
  unfolding attach add_session
  create id conn now m = elim (lookup id m.sessions) [
    | some s ↦ if is_online s then (err session_exists, m) else attach id conn now s m
    | none ↦
        if leb m.max_conns (online_connections m.sessions)
        then (err max_connections, m)
        else add_session id (new_session id (some conn) now) m
  ]

  unfoldable pub delete_session : Bytes → Manages → Manages
  delete_session id m =
      let (e, state) = st.delete_session id m.store in
      record m { sessions = delete id m.sessions; store = state }

  -- The methods that change one field of a session and save it; without the session they do nothing.
  pub update_and_persist :
      Bytes → (Session Conn → Session Conn) → Manages → Result (Err st) (Unit {0}) × Manages
  unfolding put_and_persist
  update_and_persist id f m = elim (lookup id m.sessions) [
    | none ↦ (ok tt, m)
    | some s ↦ let (e, m') = put_and_persist id (f s) m in (of_store st e, m')
  ]

  pub update_only : Bytes → (Session Conn → Session Conn) → Manages → Manages
  update_only id f m = elim (lookup id m.sessions) [ none ↦ m | some s ↦ put_session id (f s) m ]

  unfoldable pub mark_offline : Bytes → ℤ → Manages → Result (Err st) (Unit {0}) × Manages
  unfolding update_and_persist
  mark_offline id now = update_and_persist id (λ s. record s { conn = none; last_seen = now })

  unfoldable pub set_fw_mode : Bytes → Bool → Manages → Result (Err st) (Unit {0}) × Manages
  unfolding update_and_persist
  set_fw_mode id on = update_and_persist id (λ s. record s { fw_mode = on })

  unfoldable pub set_sync_mode : Bytes → Bool → Manages → Result (Err st) (Unit {0}) × Manages
  unfolding update_and_persist
  set_sync_mode id on = update_and_persist id (λ s. record s { sync_mode = on })

  unfoldable pub ack_sent : Bytes → Manages → Result (Err st) (Unit {0}) × Manages
  unfolding update_and_persist
  ack_sent id = update_and_persist id (λ s. s)

  unfoldable pub update_buffer_free : Bytes → ℕ → Manages → Manages
  unfolding update_only
  update_buffer_free id free = update_only id (λ s. record s { buffer_free = free })

  unfoldable pub set_frame_mode : Bytes → FrameMode → Manages → Manages
  unfolding update_only
  set_frame_mode id mode = update_only id (λ s. record s { frame_mode = mode })

  -- `Touch`: the time is always noted, and saved once in five seconds; errors are dropped.
  touch_session : Bytes → ℤ → Session Conn → Manages → Manages
  unfolding put_and_persist
  touch_session id now s m =
      if ltb_ℤ (now -ℤ s.last_touched_persisted_at) touch_persist_interval
      then put_session id (record s { last_seen = now }) m
      else (put_and_persist id (record s { last_seen = now; last_touched_persisted_at = now }) m).1

  unfoldable pub touch : Bytes → ℤ → Manages → Manages
  unfolding touch_session
  touch id now m = elim (lookup id m.sessions) [ none ↦ m | some s ↦ touch_session id now s m ]

  unfoldable pub session_count : Manages → ℕ
  session_count m = length m.sessions

  unfoldable pub controller_ids : Manages → List Bytes
  controller_ids m = map (λ p. p.0) m.sessions

-- `NewManager`: an empty policy means "drop_oldest".
unfoldable pub new_manager :
    {Conn State : Type 0} → ℕ → Limits → OverflowPolicy → State → Manager Conn State
new_manager max_conns limits policy store = record {
  sessions = [];
  max_conns = max_conns;
  limits = limits;
  overflow_policy = elim policy [ unknown_policy [] ↦ drop_oldest_policy | p ↦ p ];
  store = store;
}
