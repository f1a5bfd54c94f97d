-- ===== src/Session/Retry/Laws.antt =====
-- What `ProcessInFlight` does with the commands that wait for an acknowledgement.
use tcpadapter.Common.{
  ℕ, ◌+◌, ◌≡◌, ◌<◌, ◌≤◌, refl, ap, Bool, true, false, List, [], ◌∷◌, map, keep_if,
}
use tcpadapter.Common.Int.{ℤ, pos_part, ◌+ℤ◌, ◌≤ℤ◌}
use tcpadapter.Common.Dict.{Dict, nat_eq}
use tcpadapter.Queue.{Command, ControllerQueue, restore_onto, expired}
use tcpadapter.Session.Types.{
  InFlightEntry, DeliveryPolicy, InFlightOutcome, OutcomeType, OutcomeReason, expired_outcome,
  failed_outcome, retrying_outcome, ttl_expired_while_waiting, retries_exceeded, ack_timeout_passed,
}
use tcpadapter.Session.Backoff.{to_int64}
use tcpadapter.Session.Retry.Deadline.{Due, Judged, expires, fails, retries, verdict-Judged}
use tcpadapter.Session.Retry.{
  verdict, Verdict, keep, expire, fail, retry, Processed, after_entry, queue_after, process_entries,
  wait_for, late_ack_grace,
}

abbrev is_retrying : InFlightOutcome → Bool
is_retrying o = elim o.type [ retrying_outcome ↦ true | _ ↦ false ]

-- The commands that the outcomes report as sent again.
abbrev pub retried_commands : List InFlightOutcome → List Command
retried_commands os = map (λ o. o.command) (keep_if is_retrying os)

abbrev is_keep : Verdict → Bool
is_keep keep = true
is_keep _ = false

module _ (now : ℤ) (policy : InFlightEntry → DeliveryPolicy) where
  -- The entries whose verdict is to wait on.
  abbrev pub waiting : Dict ℕ InFlightEntry → Dict ℕ InFlightEntry
  waiting m = keep_if (λ p. is_keep (verdict now (policy p.1) p.1)) m

  -- Why an entry leaves, with the type, the reason and the command that its outcome has then.
  pub data Leaves (seq : ℕ) (e : InFlightEntry)
      : OutcomeType → OutcomeReason → Command → Type 0 where
    has_expired :
        Due now (policy e) e
        → expired now e.command ≡ true
        → Leaves seq e expired_outcome ttl_expired_while_waiting e.command
    is_given_up :
        Due now (policy e) e
        → expired now e.command ≡ false
        → pos_part (policy e).max_retries < e.attempts
        → e.sent_at +ℤ to_int64 (wait_for (policy e) e + late_ack_grace) ≤ℤ now
        → Leaves seq e failed_outcome retries_exceeded e.command
    is_retried :
        (c : Command)
        → Due now (policy e) e
        → expired now e.command ≡ false
        → e.attempts ≤ pos_part (policy e).max_retries
        → c ≡ record (e.command) { attempts = e.attempts; retry_seq = seq }
        → Leaves seq e retrying_outcome ack_timeout_passed c

  -- The outcome is that of the entry under this number.
  pub record Ended (seq : ℕ) (e : InFlightEntry) (o : InFlightOutcome) : Type 0 where
    pub same_seq : o.seq ≡ seq
    pub same_attempts : o.attempts ≡ e.attempts
    pub why : Leaves seq e o.type o.reason o.command

  -- Entry by entry, the entries that stay and the outcomes, both in the order of the run.
  pub data Fates : Dict ℕ InFlightEntry → Dict ℕ InFlightEntry → List InFlightOutcome → Type 0 where
    done : Fates [] [] []
    stays :
        {m k : Dict ℕ InFlightEntry} {os : List InFlightOutcome} (seq : ℕ) (e : InFlightEntry)
        → Judged now (policy e) e keep
        → Fates m k os
        → Fates ((seq, e) ∷ m) ((seq, e) ∷ k) os
    ends :
        {m k : Dict ℕ InFlightEntry} {os : List InFlightOutcome} (seq : ℕ) (e : InFlightEntry)
        (o : InFlightOutcome)
        → Ended seq e o
        → Fates m k os
        → Fates ((seq, e) ∷ m) k (o ∷ os)

  -- The account of a run over the entries `m`, from the queue `q` on.
  pub record Accounts (q : ControllerQueue) (m : Dict ℕ InFlightEntry) (r : Processed)
      : Type 0 where
    pub fates : Fates m r.in_flight r.outcomes
    pub kept : r.in_flight ≡ waiting m
    pub queued : r.queue ≡ restore_onto q (retried_commands r.outcomes)

  Accounts-after_entry :
      (v : Verdict) (seq : ℕ) (e : InFlightEntry) (q : ControllerQueue) (m : Dict ℕ InFlightEntry)
      (r : Processed)
      → verdict now (policy e) e ≡ v
      → Judged now (policy e) e v
      → Accounts (queue_after v seq e q) m r
      → Accounts q ((seq, e) ∷ m) (after_entry v seq e r)
  unfolding restore_onto
  Accounts-after_entry keep seq e q m r z j a = record {
    fates = stays seq e j a.fates;
    kept = rw z (ap (◌∷◌ (seq, e)) a.kept);
    queued = a.queued;
  }
  Accounts-after_entry expire seq e q m r z (expires d x) a = record {
    fates =
        ends seq e _ (record { same_seq = refl; same_attempts = refl; why = has_expired d x })
          a.fates;
    kept = rw z a.kept;
    queued = a.queued;
  }
  Accounts-after_entry fail seq e q m r z (fails d x n g) a = record {
    fates =
        ends seq e _ (record { same_seq = refl; same_attempts = refl; why = is_given_up d x n g })
          a.fates;
    kept = rw z a.kept;
    queued = a.queued;
  }
  Accounts-after_entry retry seq e q m r z (retries d x n) a = record {
    fates =
        ends seq e _
          (record { same_seq = refl; same_attempts = refl; why = is_retried _ d x n refl }) a.fates;
    kept = rw z a.kept;
    queued = a.queued;
  }

  pub process_entries-Accounts :
      (q : ControllerQueue) (m : Dict ℕ InFlightEntry)
      → Accounts q m (process_entries now policy q m)
  unfolding process_entries restore_onto
  process_entries-Accounts q [] = record { fates = done; kept = refl; queued = refl }
  process_entries-Accounts q ((seq, e) ∷ m) =
      let v = verdict now (policy e) e in
      Accounts-after_entry v seq e q m _ refl (verdict-Judged now (policy e) e)
        (process_entries-Accounts (queue_after v seq e q) m)
