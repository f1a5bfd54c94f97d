-- ===== src/Examples/Queues.antt =====
-- Queues, retries and restarts.
use tcpadapter.Common.{map, ℕ, ◌≡◌, refl, sym, ◌∙◌, [], ◌∷◌, some, ok, keep_if, arith, true, false}
use tcpadapter.Common.Int.{pos, negsuc, ◌+ℤ◌, ◌≤ℤ◌}
use tcpadapter.Common.Dict.{Dict}
use tcpadapter.Queue.{
  Command, Priority, high, sync, query, ControllerQueue, high_buf, fw_buf, sync_buf, query_buf,
  snapshot, restore, drop_oldest, push, new_controller_queue, pop_next, drain_expired, expired,
}
use tcpadapter.Queue.Drain.{live, drain_expired_lem}
use tcpadapter.Queue.Oldest.{Drops, drop_oldest-Drops}
use tcpadapter.Queue.Pop.{Pops, pop_next-Pops}
use tcpadapter.Queue.Classes.{IsClassed, restore-snapshot}
use tcpadapter.Protocol.Frame.{sequenced}
use tcpadapter.Session.Types.{Session, InFlightEntry, DeliveryPolicy, drop_oldest_policy}
use tcpadapter.Session.Room.{Limits, make_room}
use tcpadapter.Session.Room.Laws.{Makes, make_room-Makes}
use tcpadapter.Session.Backoff.{retry_delay, xorshift64, jitter_seed_for_entry}
use tcpadapter.Session.Backoff.Bounds.{Near, retry_delay-Near}
use tcpadapter.Session.Retry.{verdict, keep, retry, wait_for, process_entries}
use tcpadapter.Session.Retry.Deadline.{verdict-waits}
use tcpadapter.Session.Manager.{snapshot_of}
use tcpadapter.Session.Manager.Restore.{restored_session}
use tcpadapter.Session.Manager.Restore.Laws.{restarted, restored_session-snapshot_of}
use tcpadapter.Server.Policy.{
  PolicyConfig, delivery_policy_for_command, command_allowed_in_modes, normalize_command_priority,
}
use tcpadapter.Server.Policy.Laws.{IsUsable, delivery_policy_for_command-IsUsable, allowed_leaves}

-- A command that was made at second `t`, to live for ten seconds.
abbrev pub command_at : ℕ → ℕ → Priority → Command
command_at id t p = record {
  message_id = [];
  trace_id = [];
  dedup_key = [];
  command_id = id;
  ttl = pos 10;
  created_at = pos t;
  payload = 1 ∷ 2 ∷ [];
  priority = p;
  attempts = 0;
  retry_seq = 0;
}

abbrev pub small_queue : ControllerQueue
small_queue = record {
  high = command_at 24 5 high ∷ [];
  fw = [];
  sync = command_at 13 3 sync ∷ [];
  query = command_at 22 3 query ∷ command_at 22 9 query ∷ [];
}

pub small_queue-IsClassed : IsClassed small_queue
small_queue-IsClassed high_buf = (refl, tt)
small_queue-IsClassed fw_buf = tt
small_queue-IsClassed sync_buf = (refl, tt)
small_queue-IsClassed query_buf = (refl, (refl, tt))

small_queue-Drops : Drops small_queue (drop_oldest small_queue)
small_queue-Drops = drop_oldest-Drops small_queue

small_queue-Pops : Pops false true small_queue (pop_next false true small_queue)
small_queue-Pops = pop_next-Pops false true small_queue

small_queue_drains :
    ((drain_expired (pos 14) small_queue).1 ≡ keep_if (expired (pos 14)) (snapshot small_queue))
    × (snapshot (drain_expired (pos 14) small_queue).0
        ≡ keep_if (live (pos 14)) (snapshot small_queue))
small_queue_drains = drain_expired_lem (pos 14) small_queue

small_queue_restored : restore (snapshot small_queue) ≡ small_queue
small_queue_restored = restore-snapshot small_queue small_queue-IsClassed

abbrev pub two_commands : Limits
two_commands = record { max_queue_depth = 2; max_queue_bytes = 40 }

small_queue-Makes :
    Makes two_commands
      (command_at 22 12 query)
      small_queue
      0
      (make_room drop_oldest_policy [] two_commands (command_at 22 12 query) small_queue)
small_queue-Makes = make_room-Makes [] two_commands (command_at 22 12 query) small_queue

-- Sent twice, the last time at second 20.
abbrev pub second_try : InFlightEntry
second_try = record {
  seq = 7;
  command = record (command_at 22 9 query) { ttl = pos 0 };
  sent_at = pos 20;
  attempts = 2;
}

abbrev pub quick : DeliveryPolicy
quick = record { ack_timeout = pos 5; retry_backoff = pos 1000; max_retries = pos 3 }

second_try-Near : Near 1000 (retry_delay 2 (pos 1000) 9)
second_try-Near = retry_delay-Near 2 1000 9 (omega arith) (omega arith)

second_try_retried : verdict (pos 4_000_000_000) quick second_try ≡ retry
unfolding verdict ◌+ℤ◌ wait_for retry_delay xorshift64 jitter_seed_for_entry expired
second_try_retried = refl

second_try_waited : pos 20 +ℤ pos 5 ≤ℤ pos 4_000_000_000
second_try_waited =
    verdict-waits (pos 4_000_000_000) quick second_try (omega arith) (omega arith)
      (λ e. let z : retry ≡ keep = sym second_try_retried ∙ e in cc)

-- One that is sent again, one that waits on, and one that has expired.
abbrev three_waiting : Dict ℕ InFlightEntry
three_waiting =
    (7, second_try)
    ∷ (8, record second_try { seq = 8; sent_at = pos 4_000_000_000 })
    ∷ (9, record second_try { seq = 9; command = command_at 2 9 query })
    ∷ []

three_fates :
    map
      (λ o. o.seq)
      (process_entries (pos 4_000_000_000) (λ e. quick) small_queue three_waiting).outcomes
    ≡ 7 ∷ 9 ∷ []
unfolding process_entries verdict ◌+ℤ◌ wait_for retry_delay xorshift64 jitter_seed_for_entry expired
three_fates = refl

abbrev pub small_session : Session ℕ
small_session = record {
  controller_id = 65 ∷ [];
  conn = some 3;
  queue = small_queue;
  last_seen = pos 30;
  last_touched_persisted_at = pos 28;
  buffer_free = 700;
  fw_mode = false;
  sync_mode = true;
  dedup = [];
  in_flight = (7, second_try) ∷ [];
  next_seq = 7;
  frame_mode = sequenced;
}

small_session_restarts : restored_session (snapshot_of small_session) ≡ restarted small_session
small_session_restarts =
    restored_session-snapshot_of small_session small_queue-IsClassed (tt, tt) (refl, tt)

abbrev timeouts : PolicyConfig
timeouts = record {
  general = quick;
  query = record { ack_timeout = negsuc 3; retry_backoff = pos 1; max_retries = negsuc 0 };
  sync = quick;
  fw = quick;
}

timeouts-IsUsable : IsUsable (delivery_policy_for_command timeouts (command_at 22 9 query))
timeouts-IsUsable = delivery_policy_for_command-IsUsable timeouts (command_at 22 9 query)

normalized :
    normalize_command_priority (command_at 8 9 query)
    ≡ ok (record (command_at 8 9 query) { priority = high })
unfolding normalize_command_priority
normalized = refl

allowed : command_allowed_in_modes 8 true false ≡ true
unfolding command_allowed_in_modes
allowed = refl

output_leaves :
    pop_next true false
      (push new_controller_queue (record (command_at 8 9 query) { priority = high }))
    ≡ some (record (command_at 8 9 query) { priority = high }, new_controller_queue)
output_leaves =
    allowed_leaves (command_at 8 9 query) true false
      (record (command_at 8 9 query) { priority = high }) normalized allowed
