-- ===== src/Examples/Sessions.antt =====
-- A manager of two controllers, with the store in memory.
use tcpadapter.Common.{
  ℕ, ◌≡◌, ◌≢◌, ◌↔◌, ◌≤◌, refl, List, [], ◌∷◌, some, none, ok, err, arith, false, Bytes,
}
use tcpadapter.Common.Int.{pos, ◌-ℤ◌}
use tcpadapter.Common.Dict.{lookup, bytes_key}
use tcpadapter.Queue.{
  Command, query, high, snapshot, len, drop_oldest, total_estimated_bytes, estimated_command_bytes,
}
use tcpadapter.Session.Room.{make_room}
use tcpadapter.Store.Memory.{in_memory_store, save_session}
use tcpadapter.Session.Types.{
  Session, drop_oldest_policy, reject, duplicate, queue_bytes_full, out_of_fuel, max_connections,
}
use tcpadapter.Session.Manager.{Manages, new_manager, create, online_connections, put_and_persist}
use tcpadapter.Session.Manager.Connections.{create-max_connections}
use tcpadapter.Session.Manager.Enqueue.{enqueue_with_events, is_duplicate, with_key}
use tcpadapter.Session.Manager.Enqueue.Laws.{
  WithinLimits, enqueue-WithinLimits, enqueue-enough_fuel, enqueue_duplicate,
}
use tcpadapter.Session.Manager.Enqueue.Oversized.{TellsAll, enqueue_oversized}
use tcpadapter.Session.Manager.InFlight.{ack_in_flight}
use tcpadapter.Session.Manager.InFlight.Laws.{Acks, ack_in_flight-Acks}
use tcpadapter.Session.Manager.Calls.{Call, run_all}
use tcpadapter.Session.Manager.Invariant.{IsManager}
use tcpadapter.Session.Manager.Invariant.Reachable.{run_all-IsManager}
use tcpadapter.Examples.Queues.{command_at, small_session, two_commands}

abbrev name : Bytes
name = 65 ∷ []

abbrev small_manager : Manages ℕ in_memory_store
small_manager = record {
  sessions = (name, small_session) ∷ [];
  max_conns = 1;
  limits = two_commands;
  overflow_policy = drop_oldest_policy;
  store = [];
}

abbrev calls : List (Call ℕ)
calls =
    Call.create name 3 (pos 1)
    ∷ Call.enqueue name (command_at 22 2 query) (pos 2)
    ∷ Call.register_in_flight name 1 (command_at 8 2 high) (pos 3)
    ∷ Call.process_in_flight name (pos 20_000_000_000) none
    ∷ Call.restore
    ∷ []

calls-IsManager :
    IsManager ℕ in_memory_store
      (run_all ℕ in_memory_store calls (new_manager 2 two_commands reject []))
calls-IsManager = run_all-IsManager ℕ in_memory_store calls 2 two_commands reject []

photo_accepted :
    (enqueue_with_events ℕ in_memory_store name (command_at 22 12 query) (pos 12) small_manager).0
    ≡ ok tt
unfolding enqueue_with_events lookup is_duplicate make_room len with_key drop_oldest
    total_estimated_bytes put_and_persist save_session
photo_accepted = refl

photo-WithinLimits :
    (s' : Session ℕ) × (lookup name
        (enqueue_with_events ℕ in_memory_store name
          (command_at 22 12 query)
          (pos 12)
          small_manager).2.sessions
      ≡ some s')
    × WithinLimits two_commands s'.queue
photo-WithinLimits =
    enqueue-WithinLimits ℕ in_memory_store name (command_at 22 12 query) (pos 12) small_manager
      photo_accepted

photo_enough_fuel :
    (enqueue_with_events ℕ in_memory_store name (command_at 22 12 query) (pos 12) small_manager).0
    ≢ err out_of_fuel
photo_enough_fuel =
    enqueue-enough_fuel ℕ in_memory_store name (command_at 22 12 query) (pos 12) small_manager

known : lookup name small_manager.sessions ≡ some small_session
unfolding lookup
known = refl

-- With the key 9, and a payload that is over the limit.
abbrev keyed : Command
keyed = record (command_at 22 12 query) {
  dedup_key = 9 ∷ [];
  payload =
      1 ∷ 1 ∷ 1 ∷ 1 ∷ 1 ∷ 1 ∷ 1 ∷ 1 ∷ 1 ∷ 1 ∷ 1 ∷ 1 ∷ 1 ∷ 1 ∷ 1 ∷ 1 ∷ 1 ∷ 1 ∷ 1 ∷ 1 ∷ 1 ∷ 1 ∷ 1 ∷ 1
      ∷ 1 ∷ 1 ∷ 1 ∷ 1 ∷ 1 ∷ 1 ∷ [];
}

not_seen : is_duplicate (pos 12) keyed small_session ≡ false
unfolding is_duplicate lookup
not_seen = refl

keyed_again :
    let m' = (enqueue_with_events ℕ in_memory_store name keyed (pos 12) small_manager).2 in
    enqueue_with_events ℕ in_memory_store name keyed (pos 15) m' ≡ (err duplicate, [], m')
unfolding ◌-ℤ◌
keyed_again =
    enqueue_duplicate ℕ in_memory_store name keyed (pos 12) small_session small_manager keyed
      (pos 15) known refl not_seen refl (omega arith)

keyed_refused :
    let r = enqueue_with_events ℕ in_memory_store name keyed (pos 12) small_manager in
    (r.0 ≡ err queue_bytes_full)
    × TellsAll name 4 r.1
    × (s' : Session ℕ) × (lookup name r.2.sessions ≡ some s')
    × (snapshot s'.queue ≡ [])
unfolding estimated_command_bytes snapshot
keyed_refused =
    enqueue_oversized ℕ in_memory_store name keyed (pos 12) small_session small_manager known refl
      not_seen (omega arith) (omega arith)

small_manager-Acks :
    Acks ℕ in_memory_store name 7 small_manager
      (ack_in_flight ℕ in_memory_store name 7 small_manager)
small_manager-Acks = ack_in_flight-Acks ℕ in_memory_store name 7 small_manager

other_controller :
    ((create ℕ in_memory_store (66 ∷ []) 4 (pos 50) small_manager).0 ≡ err max_connections) ↔ (
      (lookup (66 ∷ []) small_manager.sessions ≡ none)
      × (1 ≤ online_connections small_manager.sessions))
other_controller = create-max_connections ℕ in_memory_store (66 ∷ []) 4 (pos 50) small_manager
