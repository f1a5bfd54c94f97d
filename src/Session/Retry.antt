-- ===== src/Session/Retry.antt =====
-- `ProcessInFlight` of internal/session/manager.go: what happens to the commands that wait for an
-- acknowledgement. `Manager.process_in_flight` wraps this loop in the session and the store.
pub mod Laws
pub mod Deadline
use tcpadapter.Common.{
  ℕ, ◌+◌, ◌%◌, ◌^◌, Bool, true, false, List, [], ◌∷◌, ◌++◌, Option, none, some, ltb, leb, Bytes,
  if◌then◌else◌,
}
use tcpadapter.Common.Int.{ℤ, pos, negsuc, pos_part, ◌+ℤ◌, ltb_ℤ, leb_ℤ}
use tcpadapter.Common.Dict.{Dict}
use tcpadapter.Queue.{Command, ControllerQueue, expired, push}
use tcpadapter.Session.Types.{
  InFlightEntry, DeliveryPolicy, InFlightOutcome, expired_outcome, failed_outcome, retrying_outcome,
  ttl_expired_while_waiting, retries_exceeded, ack_timeout_passed,
}
use tcpadapter.Session.Backoff.{to_int64, retry_delay, jitter_seed_for_entry}

-- 10 s and 2 s, in nanoseconds.
abbrev pub default_ack_timeout : ℤ
default_ack_timeout = pos 10_000_000_000

abbrev pub late_ack_grace : ℕ
late_ack_grace = 2_000_000_000

abbrev pub Resolver : Type 0
Resolver = Bytes → Command → DeliveryPolicy

-- The policy of the resolver, or the default one, with its two corrections.
unfoldable pub policy_for : Option Resolver → Bytes → InFlightEntry → DeliveryPolicy
policy_for resolver id e =
    let p : DeliveryPolicy = elim resolver [
      | none ↦ record {
        ack_timeout = default_ack_timeout;
        retry_backoff = pos 0;
        max_retries = pos 3;
      }
      | some f ↦ f id e.command
    ] in
    record {
      ack_timeout = if leb_ℤ p.ack_timeout (pos 0) then default_ack_timeout else p.ack_timeout;
      retry_backoff = p.retry_backoff;
      max_retries = if ltb_ℤ p.max_retries (pos 0) then pos 0 else p.max_retries;
    }

-- `wait`, a sum in int64 of two durations that are not negative; the timeout alone if it wraps.
unfoldable pub wait_for : DeliveryPolicy → InFlightEntry → ℕ
wait_for p e =
    let delay = retry_delay e.attempts p.retry_backoff (jitter_seed_for_entry e) in
    elim (to_int64 (pos_part p.ack_timeout + pos_part delay)) [
      | pos w ↦ w
      | negsuc _ ↦ pos_part p.ack_timeout
    ]

-- What is done with one entry.
pub data Verdict : Type 0 where
  keep expire fail retry : Verdict

unfoldable pub verdict : ℤ → DeliveryPolicy → InFlightEntry → Verdict
verdict now p e =
    if ltb_ℤ now (e.sent_at +ℤ pos (wait_for p e))
    then keep
    else if expired now e.command
    then expire
    else if leb (pos_part p.max_retries + 1) e.attempts
    then (if ltb_ℤ now (e.sent_at +ℤ to_int64 (wait_for p e + late_ack_grace)) then keep else fail)
    else retry

-- `cmd.Attempts = entry.Attempts; cmd.RetrySeq = seq`
abbrev pub retried : ℕ → InFlightEntry → Command
retried seq e = record (e.command) { attempts = e.attempts; retry_seq = seq }

-- The three results of the loop: the entries that stay in flight, the queue, the outcomes.
pub record Processed : Type 0 where
  pub in_flight : Dict ℕ InFlightEntry
  pub queue : ControllerQueue
  pub outcomes : List InFlightOutcome

-- One entry, put before the results for the entries after it. A retried command has already been
-- pushed on the queue with which those began.
abbrev pub after_entry : Verdict → ℕ → InFlightEntry → Processed → Processed
after_entry keep seq e r = record r { in_flight = (seq, e) ∷ r.in_flight }
after_entry expire seq e r = record r {
  outcomes =
      record {
        type = expired_outcome;
        seq = seq;
        command = e.command;
        attempts = e.attempts;
        reason = ttl_expired_while_waiting;
      }
      ∷ r.outcomes;
}
after_entry fail seq e r = record r {
  outcomes =
      record {
        type = failed_outcome;
        seq = seq;
        command = e.command;
        attempts = e.attempts;
        reason = retries_exceeded;
      }
      ∷ r.outcomes;
}
after_entry retry seq e r = record r {
  outcomes =
      record {
        type = retrying_outcome;
        seq = seq;
        command = retried seq e;
        attempts = e.attempts;
        reason = ack_timeout_passed;
      }
      ∷ r.outcomes;
}

-- The queue that the next entry meets.
abbrev pub queue_after : Verdict → ℕ → InFlightEntry → ControllerQueue → ControllerQueue
queue_after retry seq e q = push q (retried seq e)
queue_after _ seq e q = q

-- `for seq, entry := range s.InFlight`. An entry that is put back in its grace time may be met a
-- second time in Go, and is then put back again.
unfoldable pub process_entries :
    ℤ → (InFlightEntry → DeliveryPolicy) → ControllerQueue → Dict ℕ InFlightEntry → Processed
process_entries now policy q [] = record { in_flight = []; queue = q; outcomes = [] }
process_entries now policy q ((seq, e) ∷ m) =
    let v = verdict now (policy e) e in
    after_entry v seq e (process_entries now policy (queue_after v seq e q) m)
