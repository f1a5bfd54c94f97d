-- ===== src/Session/Manager/Invariant/Reachable.antt =====
-- Every state that a manager reaches by its calls is well formed.
use tcpadapter.Common.{ℕ, refl, List, [], ◌∷◌}
use tcpadapter.Common.Dict.{bytes_key, nat_eq}
use tcpadapter.Store.{Store}
use tcpadapter.Session.Types.{OverflowPolicy}
use tcpadapter.Session.Room.{Limits}
use tcpadapter.Session.Manager.{
  Manages, new_manager, mark_offline, set_fw_mode, set_sync_mode, ack_sent, update_buffer_free,
  set_frame_mode,
}
use tcpadapter.Session.Manager.Enqueue.{enqueue}
use tcpadapter.Session.Manager.Calls.{Call, run, run_all}
use tcpadapter.Session.Manager.Invariant.{
  IsManager, same_queue, create-IsManager, delete_session-IsManager, update_and_persist-IsManager,
  update_only-IsManager, touch-IsManager,
}
use tcpadapter.Session.Manager.Invariant.Admits.{enqueue-IsManager}
use tcpadapter.Session.Manager.Invariant.Waits.{
  next_command_seq-IsManager, register_in_flight-IsManager, ack_in_flight-IsManager,
  process_in_flight-IsManager, restore-IsManager,
}

module _ (Conn : Type 0) (st : Store) where
  pub run-IsManager :
      (call : Call Conn) (m : Manages Conn st)
      → IsManager Conn st m
      → IsManager Conn st (run Conn st call m)
  unfolding run enqueue mark_offline set_fw_mode set_sync_mode ack_sent update_buffer_free
      set_frame_mode
  run-IsManager (Call.create id conn now) m v = create-IsManager Conn st id conn now m v
  run-IsManager (Call.delete_session id) m v = delete_session-IsManager Conn st id m v
  run-IsManager (Call.mark_offline id now) m v =
      update_and_persist-IsManager Conn st id _ m (λ s h. same_queue h refl refl refl) v
  run-IsManager (Call.touch id now) m v = touch-IsManager Conn st id now m v
  run-IsManager (Call.set_fw_mode id on) m v =
      update_and_persist-IsManager Conn st id _ m (λ s h. same_queue h refl refl refl) v
  run-IsManager (Call.set_sync_mode id on) m v =
      update_and_persist-IsManager Conn st id _ m (λ s h. same_queue h refl refl refl) v
  run-IsManager (Call.ack_sent id) m v = update_and_persist-IsManager Conn st id _ m (λ s h. h) v
  run-IsManager (Call.next_command_seq id) m v = next_command_seq-IsManager Conn st id m v
  run-IsManager (Call.update_buffer_free id free) m v =
      update_only-IsManager Conn st id _ m (λ s h. same_queue h refl refl refl) v
  run-IsManager (Call.ack_in_flight id seq) m v = ack_in_flight-IsManager Conn st id seq m v
  run-IsManager (Call.set_frame_mode id mode) m v =
      update_only-IsManager Conn st id _ m (λ s h. same_queue h refl refl refl) v
  run-IsManager (Call.enqueue id c now) m v = enqueue-IsManager Conn st id c now m v
  run-IsManager (Call.register_in_flight id seq c sent_at) m v =
      register_in_flight-IsManager Conn st id seq c sent_at m v
  run-IsManager (Call.process_in_flight id now resolver) m v =
      process_in_flight-IsManager Conn st id now resolver m v
  run-IsManager Call.restore m v = restore-IsManager Conn st m _ refl v

  run_all-kept :
      (calls : List (Call Conn)) (m : Manages Conn st)
      → IsManager Conn st m
      → IsManager Conn st (run_all Conn st calls m)
  unfolding run_all
  run_all-kept [] m v = v
  run_all-kept (c ∷ calls) m v = run_all-kept calls (run Conn st c m) (run-IsManager c m v)

  -- After any calls of a new manager, in any order and whatever the store answers, no controller has
  -- two sessions; each session has its controller's name, each buffer of its queue holds the commands
  -- of its own class only, and each command in flight stands once, under its own number.
  pub run_all-IsManager :
      (calls : List (Call Conn)) (max_conns : ℕ) (limits : Limits) (policy : OverflowPolicy)
      (store : st.State)
      → IsManager Conn st (run_all Conn st calls (new_manager max_conns limits policy store))
  unfolding new_manager
  run_all-IsManager calls max_conns limits policy store =
      run_all-kept calls _ (record { distinct = tt; all = tt })
