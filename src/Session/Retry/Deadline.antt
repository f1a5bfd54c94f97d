-- ===== src/Session/Retry/Deadline.antt =====
-- When a command that waits for an acknowledgement is given up or sent again.
use tcpadapter.Common.{
  ◌≢◌, refl, ℕ, ◌+◌, ◌^◌, ◌≤◌, ◌<◌, ◌≡◌, true, false, Bool-cases, inl, inr, arith, leb,
}
use tcpadapter.Common.Int.{+ℤ_parts, ℤ, pos, negsuc, pos_part, ◌+ℤ◌, ◌≤ℤ◌, ltb_ℤ}
use tcpadapter.Queue.{expired}
use tcpadapter.Session.Types.{InFlightEntry, DeliveryPolicy}
use tcpadapter.Session.Backoff.Bounds.{retry_delay-lt}
use tcpadapter.Session.Backoff.{to_int64, retry_delay, jitter_seed_for_entry}
use tcpadapter.Session.Retry.{verdict, Verdict, keep, expire, fail, retry, wait_for, late_ack_grace}

-- The sum of timeout and delay is never below the timeout, whether or not it wraps.
to_int64_wait :
    (t d : ℕ) → t < 2 ^ 63 → d < 2 ^ 63 → t ≤ elim (to_int64 (t + d)) [ pos w ↦ w | negsuc _ ↦ t ]
to_int64_wait t d h k = ground arith

pub wait_for-ack_timeout :
    (p : DeliveryPolicy) (e : InFlightEntry)
    → pos_part p.ack_timeout < 2 ^ 63
    → pos_part (retry_delay e.attempts p.retry_backoff (jitter_seed_for_entry e)) < 2 ^ 63
    → pos_part p.ack_timeout ≤ wait_for p e
unfolding wait_for
wait_for-ack_timeout p e h k = to_int64_wait _ _ h k

-- What a verdict other than "keep" presupposes.
pub record Due (now : ℤ) (p : DeliveryPolicy) (e : InFlightEntry) : Type 0 where
  pub waited : e.sent_at +ℤ pos (wait_for p e) ≤ℤ now

pub data Judged (now : ℤ) (p : DeliveryPolicy) (e : InFlightEntry) : Verdict → Type 0 where
  waits : ltb_ℤ now (e.sent_at +ℤ pos (wait_for p e)) ≡ true → Judged now p e keep
  has_grace :
      expired now e.command ≡ false
      → pos_part p.max_retries < e.attempts
      → ltb_ℤ now (e.sent_at +ℤ to_int64 (wait_for p e + late_ack_grace)) ≡ true
      → Judged now p e keep
  expires : Due now p e → expired now e.command ≡ true → Judged now p e expire
  fails :
      Due now p e
      → expired now e.command ≡ false
      → pos_part p.max_retries < e.attempts
      → e.sent_at +ℤ to_int64 (wait_for p e + late_ack_grace) ≤ℤ now
      → Judged now p e fail
  retries :
      Due now p e
      → expired now e.command ≡ false
      → e.attempts ≤ pos_part p.max_retries
      → Judged now p e retry

-- What is done with an entry in flight, and what holds of it then.
pub verdict-Judged :
    (now : ℤ) (p : DeliveryPolicy) (e : InFlightEntry) → Judged now p e (verdict now p e)
unfolding verdict
verdict-Judged now p e = elim (Bool-cases (ltb_ℤ now (e.sent_at +ℤ pos (wait_for p e)))) [
  | inl t ↦ rw t (waits t)
  | inr t ↦
      let due : Due now p e = record { waited = ground arith } in
      elim (Bool-cases (expired now e.command)) [
        | inl x ↦ rw (t, x) (expires due x)
        | inr x ↦ elim (Bool-cases (leb (pos_part p.max_retries + 1) e.attempts)) [
          | inr a ↦ rw (t, x, a) (retries due x (ground arith))
          | inl a ↦
              elim (Bool-cases
                (ltb_ℤ now (e.sent_at +ℤ to_int64 (wait_for p e + late_ack_grace)))) [
                  | inl b ↦ rw (t, x, a, b) (has_grace x (ground arith) b)
                  | inr b ↦ rw (t, x, a, b) (fails due x (ground arith) (ground arith))
                ]
        ]
      ]
]

judged_waits :
    (now : ℤ) (p : DeliveryPolicy) (e : InFlightEntry) (v : Verdict)
    → Judged now p e v
    → v ≢ keep
    → e.sent_at +ℤ pos (wait_for p e) ≤ℤ now
judged_waits now p e v (waits t) h = absurd (h refl)
judged_waits now p e v (has_grace x a b) h = absurd (h refl)
judged_waits now p e v (expires d x) h = d.waited
judged_waits now p e v (fails d x a b) h = d.waited
judged_waits now p e v (retries d x a) h = d.waited

-- A command is not given up and not sent again before its acknowledgement timeout is over. This holds
-- for every timeout and every backoff that an int64 holds, also where the delays wrap.
pub verdict-waits :
    (now : ℤ) (p : DeliveryPolicy) (e : InFlightEntry)
    → pos_part p.ack_timeout < 2 ^ 63
    → pos_part p.retry_backoff < 2 ^ 63
    → verdict now p e ≢ keep
    → e.sent_at +ℤ pos (pos_part p.ack_timeout) ≤ℤ now
verdict-waits now p e h k v =
    let w =
      wait_for-ack_timeout p e h
        (retry_delay-lt e.attempts p.retry_backoff (jitter_seed_for_entry e) k) in
    let d = judged_waits now p e _ (verdict-Judged now p e) v in
    omega (
      arith,
      +ℤ_parts e.sent_at (pos (wait_for p e)),
      +ℤ_parts e.sent_at (pos (pos_part p.ack_timeout)),
      w,
      d,
    )
