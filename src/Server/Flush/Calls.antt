-- ===== src/Server/Flush/Calls.antt =====
-- `flushQueue` on the session manager.
use tcpadapter.Common.{ℕ, true, false, List, [], Option, none, some, Result, ok, err, ltb, Bytes}
use tcpadapter.Common.Int.{ℤ}
use tcpadapter.Common.Dict.{lookup, bytes_key}
use tcpadapter.Queue.{ControllerQueue}
use tcpadapter.Store.{Store}
use tcpadapter.Session.Types.{session_not_found}
use tcpadapter.Session.Manager.{Manages, Err, put_session, set_sync_mode, set_fw_mode, ack_sent}
use tcpadapter.Session.Manager.InFlight.{next_command_seq, in_flight_count, register_in_flight}
use tcpadapter.Session.Manager.Views.{delivery_context}
use tcpadapter.Server.Flush.{SessionCalls, FlushError, by_session, Event, flush}

module _ (Conn : Type 0) (st : Store) where
  -- The session's queue as it is now.
  unfoldable pub with_queue : Bytes → ControllerQueue → Manages Conn st → Manages Conn st
  unfolding lookup
  with_queue id q m = elim (lookup id m.sessions) [
    | none ↦ m
    | some s ↦ put_session Conn st id (record s { queue = q }) m
  ]

  abbrev pub manager_calls : Bytes → ℤ → SessionCalls (Manages Conn st) (Err st)
  manager_calls id now = record {
    next_command_seq = λ q m. next_command_seq Conn st id (with_queue id q m);
    register_in_flight = λ q seq c m. register_in_flight Conn st id seq c now (with_queue id q m);
    set_sync_mode = λ q on m. set_sync_mode Conn st id on (with_queue id q m);
    set_fw_mode = λ q on m. set_fw_mode Conn st id on (with_queue id q m);
    ack_sent = λ q m. ack_sent Conn st id (with_queue id q m);
  }

  -- The error, the manager, the frames that were written and the events that were published.
  abbrev pub Flushed : Type 0 → Type 0
  Flushed N =
      Result (FlushError (Err st) N) (Unit {0})
      × Manages Conn st
      × List Bytes
      × List (Event (Err st) N)

  -- `write c n frame` is what the connection answers for the frame after `n` others.
  unfoldable pub flush_queue :
      {N : Type 0} → (Conn → ℕ → Bytes → Option N) → Bytes → ℤ → Manages Conn st → Flushed N
  unfolding delivery_context in_flight_count with_queue flush
  flush_queue write id now m = elim (delivery_context id m) [
    | none ↦ (err (by_session session_not_found), m, [], [])
    | some d ↦ elim d.conn [
      | none ↦ (ok tt, m, [], [])
      | some c ↦ elim (ltb 0 (in_flight_count Conn st id m)) [
        | true ↦ (ok tt, m, [], [])
        | false ↦
            let (r, f) =
              flush (manager_calls id now) (write c) d.frame_mode now d.queue m d.fw_mode
                d.sync_mode d.buffer_free in
            (r, with_queue id f.queue f.sessions, f.wire, f.events)
      ]
    ]
  ]
