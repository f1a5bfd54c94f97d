-- ===== src/Session/Manager/Calls.antt =====
-- The calls of a manager, as steps from one state to the next.
use tcpadapter.Common.{ℕ, Bool, Option, List, [], ◌∷◌, Bytes}
use tcpadapter.Common.Int.{ℤ}
use tcpadapter.Protocol.Frame.{FrameMode}
use tcpadapter.Queue.{Command}
use tcpadapter.Store.{Store}
use tcpadapter.Session.Retry.{Resolver}
use tcpadapter.Session.Manager
use tcpadapter.Session.Manager.{Manages}
use tcpadapter.Session.Manager.Enqueue
use tcpadapter.Session.Manager.InFlight
use tcpadapter.Session.Manager.Restore

pub data Call (Conn : Type 0) : Type 0 where
  create : Bytes → Conn → ℤ → Call Conn
  delete_session : Bytes → Call Conn
  mark_offline touch : Bytes → ℤ → Call Conn
  set_fw_mode set_sync_mode : Bytes → Bool → Call Conn
  ack_sent next_command_seq : Bytes → Call Conn
  update_buffer_free ack_in_flight : Bytes → ℕ → Call Conn
  set_frame_mode : Bytes → FrameMode → Call Conn
  enqueue : Bytes → Command → ℤ → Call Conn
  register_in_flight : Bytes → ℕ → Command → ℤ → Call Conn
  process_in_flight : Bytes → ℤ → Option Resolver → Call Conn
  restore : Call Conn

module _ (Conn : Type 0) (st : Store) where
  -- The state after a call.
  unfoldable pub run : Call Conn → Manages Conn st → Manages Conn st
  run (create id conn now) m = (Manager.create Conn st id conn now m).1
  run (delete_session id) m = Manager.delete_session Conn st id m
  run (mark_offline id now) m = (Manager.mark_offline Conn st id now m).1
  run (touch id now) m = Manager.touch Conn st id now m
  run (set_fw_mode id on) m = (Manager.set_fw_mode Conn st id on m).1
  run (set_sync_mode id on) m = (Manager.set_sync_mode Conn st id on m).1
  run (ack_sent id) m = (Manager.ack_sent Conn st id m).1
  run (next_command_seq id) m = (InFlight.next_command_seq Conn st id m).1
  run (update_buffer_free id free) m = Manager.update_buffer_free Conn st id free m
  run (ack_in_flight id seq) m = (InFlight.ack_in_flight Conn st id seq m).1
  run (set_frame_mode id mode) m = Manager.set_frame_mode Conn st id mode m
  run (enqueue id c now) m = (Enqueue.enqueue Conn st id c now m).1
  run (register_in_flight id seq c sent_at) m =
      (InFlight.register_in_flight Conn st id seq c sent_at m).1
  run (process_in_flight id now resolver) m =
      (InFlight.process_in_flight Conn st id now resolver m).2
  run restore m = (Restore.restore Conn st m).1

  -- The state after several calls, in order.
  unfoldable pub run_all : List (Call Conn) → Manages Conn st → Manages Conn st
  unfolding run
  run_all [] m = m
  run_all (c ∷ cs) m = run_all cs (run c m)
