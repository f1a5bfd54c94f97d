-- ===== src/Session/Manager/InFlight.antt =====
-- The methods of internal/session/manager.go on commands that wait for an acknowledgement.
pub mod Laws
use tcpadapter.Common.{
  ℕ, ◌+◌, ◌%◌, Bool, List, [], Option, none, some, Result, ok, err, Bytes, length,
}
use tcpadapter.Common.Int.{ℤ}
use tcpadapter.Common.Dict.{lookup, insert, delete, bytes_key, bytes_eq, nat_eq}
use tcpadapter.Queue.{Command}
use tcpadapter.Store.{Store}
use tcpadapter.Session.Types.{Session, InFlightEntry, InFlightOutcome, session_not_found}
use tcpadapter.Session.Retry.{Resolver, policy_for, Processed, process_entries}
use tcpadapter.Session.Manager.{Manager, Manages, Err, of_store, put_session, put_and_persist}

module _ (Conn : Type 0) (st : Store) where
  -- `NextCommandSeq`: a uint8 counter that wraps; an error of the store is dropped.
  unfoldable pub next_command_seq : Bytes → Manages Conn st → Result (Err st) ℕ × Manages Conn st
  next_command_seq id m = elim (lookup id m.sessions) [
    | none ↦ (err session_not_found, m)
    | some s ↦
        let seq = (s.next_seq + 1) % 256 in
        let (e, m') = put_and_persist Conn st id (record s { next_seq = seq }) m in (ok seq, m')
  ]

  unfoldable pub in_flight_count : Bytes → Manages Conn st → ℕ
  in_flight_count id m = elim (lookup id m.sessions) [ none ↦ 0 | some s ↦ length s.in_flight ]

  unfoldable pub register_in_flight :
      Bytes → ℕ → Command → ℤ → Manages Conn st → Result (Err st) (Unit {0}) × Manages Conn st
  register_in_flight id seq c sent_at m = elim (lookup id m.sessions) [
    | none ↦ (err session_not_found, m)
    | some s ↦
        let entry : InFlightEntry = record {
          seq = seq;
          command = c;
          sent_at = sent_at;
          attempts = c.attempts + 1;
        } in
        let (e, m') =
          put_and_persist Conn st id (record s { in_flight = insert seq entry s.in_flight }) m in
        (of_store st e, m')
  ]

  -- `AckInFlight`: the command and its attempts. If the store fails the entry is put back.
  unfoldable pub take_entry :
      Bytes
      → ℕ
      → Session Conn
      → InFlightEntry
      → Manages Conn st
      → Option (Command × ℕ) × Manages Conn st
  take_entry id seq s entry m =
      let s' : Session Conn = record s { in_flight = delete seq s.in_flight } in
      let (e, m') = put_and_persist Conn st id s' m in
      elim e [
        | none ↦ (some (entry.command, entry.attempts), m')
        | some _ ↦ (
          none,
          put_session Conn st id (record s' { in_flight = insert seq entry s'.in_flight }) m',
        )
      ]

  unfoldable pub ack_in_flight :
      Bytes → ℕ → Manages Conn st → Option (Command × ℕ) × Manages Conn st
  unfolding take_entry
  ack_in_flight id seq m = elim (lookup id m.sessions) [
    | none ↦ (none, m)
    | some s ↦ elim (lookup seq s.in_flight) [
      | none ↦ (none, m)
      | some entry ↦ take_entry id seq s entry m
    ]
  ]

  unfoldable pub peek_in_flight : Bytes → ℕ → Manages Conn st → Option (Command × ℕ)
  peek_in_flight id seq m = elim (lookup id m.sessions) [
    | none ↦ none
    | some s ↦ elim (lookup seq s.in_flight) [
      | none ↦ none
      | some entry ↦ some (entry.command, entry.attempts)
    ]
  ]

  -- `ProcessInFlight`: the outcomes are returned with the store's error, not in its place.
  unfoldable pub process_in_flight :
      Bytes
      → ℤ
      → Option Resolver
      → Manages Conn st
      → List InFlightOutcome × Result (Err st) (Unit {0}) × Manages Conn st
  process_in_flight id now resolver m = elim (lookup id m.sessions) [
    | none ↦ ([], err session_not_found, m)
    | some s ↦
        let r = process_entries now (policy_for resolver id) s.queue s.in_flight in
        let (e, m') =
          put_and_persist Conn st id (record s { in_flight = r.in_flight; queue = r.queue }) m in
        (r.outcomes, of_store st e, m')
  ]
