-- ===== src/Examples/Server.antt =====
-- Connections, a flush, the debug log and a table of schedules.
use tcpadapter.Common.{
  ℕ, suc, ◌+◌, ◌≤◌, ◌≡◌, ◌≢◌, ◌↔◌, refl, Bool, true, false, List, [], ◌∷◌, ◌++◌, map, Option, some,
  none, ok, err, Bytes, length, take, All, ◌==◌, if◌then◌else◌, put_u32,
}
use tcpadapter.Common.Int.{pos}
use tcpadapter.Common.Dict.{lookup, nat_eq, bytes_key}
use tcpadapter.Protocol.Frame.{Frame, sequenced, encode_frame, frame_data, command_id}
use tcpadapter.Protocol.Payload.Fixed.{validate_cmd7, validate_cmd8}
use tcpadapter.Protocol.Payload.Tables.{validate_cmd16}
use tcpadapter.Protocol.Messages.Registration.{is_empty}
use tcpadapter.Server.Policy.{command_allowed_in_modes}
use tcpadapter.Protocol.Builders.Records.{Cmd14ScheduleRecord, cmd14_record_bytes}
use tcpadapter.Protocol.Builders.Sync.{build_cmd14_structured}
use tcpadapter.Protocol.Builders.Schedules.{InRange, build_cmd14-Builds}
use tcpadapter.Protocol.Builders.Tables.{joined}
use tcpadapter.Queue.{
  Command, ControllerQueue, drain, expired, pop_next, pop, high, sync, query, snapshot,
}
use tcpadapter.Session.Types.{Session, reject}
use tcpadapter.Session.Manager.{new_manager, new_session}
use tcpadapter.Store.Memory.{in_memory_store}
use tcpadapter.Server.Guard.{Guard, GuardConfig, try_track_conn}
use tcpadapter.Server.Guard.Counts.{IsCounted}
use tcpadapter.Server.Guard.Reachable.{
  new_guard, Reachable, starts, goes, tracks, Reachable-IsCounted,
}
use tcpadapter.Server.Flush.{SessionCalls, flush, flush_out_of_fuel}
use tcpadapter.Server.Flush.Accounts.{number, reported, wire_bytes}
use tcpadapter.Server.Flush.Delivery.{flush-conserves, flush-within_budget, flush-enough_fuel}
use tcpadapter.Server.DebugLog.{DebugEvent, debug_events_snapshot}
use tcpadapter.Server.DebugLog.Laws.{record_all, debug_events-Holds}
use tcpadapter.Server.Link.{Link, LinkConfig, on_frame, clean_up}
use tcpadapter.Server.Link.Laws.{clean_up-offline}
use tcpadapter.Server.Link.Identity.{Keeps, on_frame-Keeps}
use tcpadapter.Examples.Queues.{command_at, two_commands}
use mathlib.Core.List.{reverse}

-- Nine to five on working days, in slot `n`.
abbrev schedule : ℕ → Cmd14ScheduleRecord
schedule n = record {
  slot = n;
  start_hour = 9;
  start_minute = 0;
  end_hour = 17;
  end_minute = 0;
  flags = 0 ∷ 1 ∷ 1 ∷ 1 ∷ 1 ∷ 1 ∷ 0 ∷ 0 ∷ [];
  scenes = 1 ∷ 0 ∷ 0 ∷ 0 ∷ 0 ∷ 0 ∷ 0 ∷ 0 ∷ [];
  holiday_logic = 0;
  reserve = 0 ∷ 0 ∷ 0 ∷ 0 ∷ 0 ∷ 0 ∷ 0 ∷ 0 ∷ 0 ∷ 0 ∷ [];
}

abbrev schedules : List Cmd14ScheduleRecord
schedules = schedule 1 ∷ schedule 64 ∷ []

abbrev schedules_payload : Bytes
schedules_payload = put_u32 100 ++ 2 ∷ joined (map cmd14_record_bytes schedules)

schedules-Builds : (build_cmd14_structured 100 schedules ≡ ok schedules_payload) ↔ (
    (1 ≤ length schedules)
    × (length schedules ≤ 64)
    × All InRange schedules
    × (schedules_payload
        ≡ put_u32 100 ++ length schedules ∷ joined (map cmd14_record_bytes schedules)))
schedules-Builds = build_cmd14-Builds 100 schedules schedules_payload (
  record { flags = refl; scenes = refl; reserve = refl },
  (record { flags = refl; scenes = refl; reserve = refl }, tt),
)

abbrev guard_config : GuardConfig
guard_config = record {
  max_connections_per_ip = 1;
  ip_violation_limit = 2;
  ip_violation_window = pos 60;
  ip_block_duration = pos 300;
}

abbrev host_of : ℕ → Bytes
host_of n = 49 ∷ []

abbrev one_violation : Guard ℕ
one_violation = record {
  conns = [];
  ip_conn_count = [];
  ip_sec = (host_of 1, record { violations = pos 100 ∷ []; blocked_til = none }) ∷ [];
  ip_violation_total = 1;
  ip_block_applied_total = 0;
}

abbrev two_asked : Guard ℕ
two_asked =
    (try_track_conn host_of guard_config 2 (try_track_conn host_of guard_config 1 new_guard).1).1

two_tracked : Reachable host_of guard_config two_asked
unfolding try_track_conn lookup
two_tracked = goes (goes starts (tracks 1 new_guard tt)) (tracks 2 _ (refl, tt))

two_asked-IsCounted : IsCounted host_of guard_config two_asked
two_asked-IsCounted = Reachable-IsCounted host_of guard_config two_tracked

-- Sessions that never fail; the state is the last number.
abbrev plain_calls : SessionCalls ℕ ℕ
plain_calls = record {
  next_command_seq = λ q s. (ok (suc s), suc s);
  register_in_flight = λ q seq c s. (ok tt, s);
  set_sync_mode = λ q on s. (ok tt, s);
  set_fw_mode = λ q on s. (ok tt, s);
  ack_sent = λ q s. (ok tt, s);
}

abbrev written : ℕ → Bytes → Option ℕ
written n frame = none

-- Two outputs to set, and a photo that is not to be sent: its payload is wrong.
abbrev three_commands : ControllerQueue
three_commands = record {
  high =
      record (command_at 8 5 high) { payload = 1 ∷ 1 ∷ 0 ∷ [] }
      ∷ record (command_at 8 6 high) { payload = 1 ∷ 0 ∷ 0 ∷ [] }
      ∷ [];
  fw = [];
  sync = [];
  query = command_at 7 6 query ∷ [];
}

abbrev is_output : Command → Bool
is_output c = c.command_id == 8

outputs_conserved :
    let (r, f) = flush plain_calls written sequenced (pos 7) three_commands 0 false false 100 in
    number is_output (snapshot three_commands)
    ≡ number is_output (snapshot f.queue) + reported is_output f.events
unfolding flush drain expired pop_next pop command_allowed_in_modes validate_cmd8 encode_frame
    frame_data validate_cmd7
outputs_conserved =
    flush-conserves plain_calls written sequenced (pos 7) three_commands 0 false false 100 is_output
      (λ c. refl) refl

outputs_within_budget :
    wire_bytes (flush plain_calls written sequenced (pos 7) three_commands 0 false false 20).1.wire
    ≤ (if 20 == 0 then 1500 else 20)
outputs_within_budget =
    flush-within_budget plain_calls written sequenced (pos 7) three_commands 0 false false 20

outputs_enough_fuel :
    (flush plain_calls written sequenced (pos 7) three_commands 0 false false 100).0
    ≢ err flush_out_of_fuel
outputs_enough_fuel =
    flush-enough_fuel plain_calls written sequenced (pos 7) three_commands 0 false false 100

-- One flush sends both outputs, one after the other.
two_in_one_flush :
    length (flush plain_calls written sequenced (pos 7) three_commands 0 false false 100).1.wire ≡ 2
unfolding flush drain expired pop_next pop command_allowed_in_modes validate_cmd8 encode_frame
    frame_data validate_cmd7
two_in_one_flush = refl

-- A restart, which waits for the end of the synchronisation, and a holiday.
abbrev restart_and_holiday : ControllerQueue
restart_and_holiday = record {
  high = record (command_at 2 5 high) { payload = 1 ∷ [] } ∷ [];
  fw = [];
  sync = record (command_at 16 5 sync) { payload = 0 ∷ 0 ∷ 0 ∷ 0 ∷ 1 ∷ 0 ∷ 0 ∷ 0 ∷ 0 ∷ [] } ∷ [];
  query = [];
}

abbrev is_restart : Command → Bool
is_restart c = c.command_id == 2

-- Synchronisation mode cannot be saved: the restart is neither queued nor reported any more.
skipped_lost :
    let calls : SessionCalls ℕ ℕ = record plain_calls { set_sync_mode = λ q on s. (err 5, s) } in
    let (r, f) = flush calls written sequenced (pos 7) restart_and_holiday 0 false true 100 in
    (number is_restart (snapshot f.queue) ≡ 0) × (reported is_restart f.events ≡ 0)
unfolding flush snapshot drain expired pop_next pop command_allowed_in_modes validate_cmd16
    encode_frame frame_data
skipped_lost = (refl, refl)

abbrev boot : Bytes
boot = 98 ∷ []

abbrev boot_event : DebugEvent
boot_event = record {
  timestamp = pos 1;
  kind = boot;
  controller_id = boot;
  remote_addr = [];
  command_id = 1;
  command_seq = 0;
  message_id = [];
  trace_id = [];
  status = [];
  reason = [];
  payload_len = 0;
}

boot_events-Holds :
    debug_events_snapshot 1 (record_all (boot_event ∷ record boot_event { command_id = 2 } ∷ []) [])
    ≡ take 1 (take 256 (reverse (boot_event ∷ record boot_event { command_id = 2 } ∷ [])))
boot_events-Holds = debug_events-Holds (boot_event ∷ record boot_event { command_id = 2 } ∷ []) 1

abbrev link_config : LinkConfig
link_config = record {
  guard = guard_config;
  heartbeat_timeout = pos 0;
  resolver = λ id c. record { ack_timeout = pos 10; retry_backoff = pos 1; max_retries = pos 2 };
}

abbrev accepts : ℕ → ℕ → Bytes → Option ℕ
accepts c n frame = none

abbrev new_link : Link ℕ in_memory_store ℕ
new_link = record {
  registered = false;
  controller_id = [];
  frame_mode = sequenced;
  last_heartbeat = pos 0;
  sessions = new_manager 2 two_commands reject [];
  guard = one_violation;
  wire = [];
  notes = [];
}

-- A status before the registration.
abbrev status_frame : Frame
status_frame = record {
  ttl = 255;
  seq = 1;
  payload = 2 ∷ 0 ∷ 0 ∷ 0 ∷ 0 ∷ 0 ∷ 8 ∷ 220 ∷ 5 ∷ [];
  mode = sequenced;
}

abbrev boot_link : Link ℕ in_memory_store ℕ
boot_link = record new_link {
  registered = true;
  controller_id = boot;
  sessions = record (new_manager 2 two_commands reject []) {
    sessions = (boot, new_session boot (some 3) (pos 1)) ∷ [];
  };
}

boot_link-Keeps :
    Keeps host_of accepts link_config 3 boot_link
      (on_frame host_of accepts link_config 3 (pos 120) status_frame boot_link)
boot_link-Keeps = on_frame-Keeps host_of accepts link_config 3 (pos 120) status_frame boot_link refl

abbrev boot_offline : Session ℕ
boot_offline = new_session boot none (pos 200)

boot_link_offline : (record boot_offline { last_touched_persisted_at = pos 1 }).conn ≡ none
unfolding clean_up is_empty
boot_link_offline =
    clean_up-offline host_of accepts link_config 3 (pos 200) boot_link
      (record boot_offline { last_touched_persisted_at = pos 1 }) refl refl refl
