-- ===== src/Server/Flush/Rounds.antt =====
-- What the whole of `flushQueue` keeps.
use tcpadapter.Common.{
  ℕ, zero, suc, ◌+◌, ◌≤◌, ◌<◌, ◌≡◌, ◌≢◌, refl, Bool, true, false, not, ◌&&◌, List, [], ◌∷◌, Option,
  some, Result, ok, err, ltb, Bytes, arith, ◌⊎◌, inl, inr, Bool-cases, Option-cases, Result-cases,
}
use tcpadapter.Common.Int.{ℤ}
use tcpadapter.Protocol.Frame.{FrameMode}
use tcpadapter.Protocol.Payload.Validate.{validate_server_command_payload}
use tcpadapter.Queue.{Command, pop_next, drain_expired, len, expired, has_sync, has_fw}
use tcpadapter.Server.Policy.{command_allowed_in_modes}
use tcpadapter.Server.Flush.{
  Flush, SessionCalls, Pass, sent, none_left, over_budget, broken, Taken, goes_on, ends, FlushError,
  flush_out_of_fuel, expired_event, failed_event, invalid_payload, publish, report_expired,
  take_one, scan, leave_sync, leave_fw, rounds,
}
use tcpadapter.Server.Flush.Accounts.{
  number, tally, Kept, Good, GoodTaken, Ready, wire_bytes, number-append, reported-publish,
  number-push_all, number-drain_expired, Takes, pop_next-Takes,
}
use tcpadapter.Server.Flush.Laws.{send_one-Good}

Taken-cases :
    {S E N : Type 0} (t : Taken S E N)
    → ((r : Flush S E N × List Command) × (t ≡ goes_on r.0 r.1)) ⊎ ((q : Pass S E N) × (t ≡ ends q))
Taken-cases (goes_on f skipped) = inl ((f, skipped), refl)
Taken-cases (ends q) = inr (q, refl)

module _ {S E N : Type 0} (calls : SessionCalls S E) (write : ℕ → Bytes → Option N)
    (mode : FrameMode) (now : ℤ) (p : Command → Bool)
    (blind : (c : Command) → p (record c { retry_seq = 0 }) ≡ p c) (total budget : ℕ) where
  take_one-Good :
      (c : Command) (skipped : List Command) (f : Flush S E N)
      → Ready p total budget c skipped f
      → GoodTaken p total budget f.remaining (take_one calls write mode now c skipped f)
  unfolding take_one
  take_one-Good c skipped f t = elim (Bool-cases (expired now c)) [
    | inl x ↦
        rw (GoodTaken, x)
          ((omega (arith, t, reported-publish p f.events (expired_event c)), t.1), refl)
    | inr x ↦ elim (Bool-cases (command_allowed_in_modes c.command_id f.fw_mode f.sync_mode)) [
      | inr a ↦
          rw (GoodTaken, x, a) ((omega (arith, t, number-append p skipped (c ∷ [])), t.1), refl)
      | inl a ↦ elim (Result-cases (validate_server_command_payload c.command_id c.payload)) [
        | inl (u, v) ↦
            rw (GoodTaken, x, a, v)
              (send_one-Good calls write mode now p total budget blind c skipped f t)
        | inr (e, v) ↦
            rw (GoodTaken, x, a, v)
              (
                (
                  omega
                      (arith, t, reported-publish p f.events (failed_event c (invalid_payload e))),
                  t.1,
                ),
                refl,
              )
      ]
    ]
  ]

  Good-le :
      (from to : ℕ)
      → from ≤ to
      → (pass : Pass S E N) → Good p total budget from pass
      → Good p total budget to pass
  Good-le from to h (sent g) (k, less) = (k, omega arith)
  Good-le from to h (none_left g) k = k
  Good-le from to h (over_budget g) k = k
  Good-le from to h (broken e g) k = k

  scan-Good :
      (n : ℕ) (skipped : List Command) (f : Flush S E N)
      → Kept p total budget skipped f
      → Good p total budget f.remaining (scan calls write mode now n skipped f)
  unfolding scan
  scan-Good zero skipped f k = (omega (arith, k, number-push_all p f.queue skipped), k.1)
  scan-Good (suc n) skipped f k = elim (Option-cases (pop_next f.fw_mode f.sync_mode f.queue)) [
    | inl o ↦ rw (Good, o) (omega (arith, k, number-push_all p f.queue skipped), k.1)
    | inr ((c, q), o) ↦
        let there : Takes p f.queue (some (c, q)) =
          rw o at (pop_next-Takes p f.fw_mode f.sync_mode f.queue) in
        let good =
          take_one-Good c skipped (record f { queue = q }) (omega (arith, k, there), k.1) in
        elim (Taken-cases (take_one calls write mode now c skipped (record f { queue = q }))) [
          | inl ((g, more), t) ↦
              let (kept, left) = rw (GoodTaken, t) at good in
              rw (Good, o, t)
                (Good-le _ _ (omega arith) (scan calls write mode now n more g)
                  (scan-Good n more g kept))
          | inr (pass, t) ↦ rw (Good, o, t) (rw (GoodTaken, t) at good)
        ]
  ]

  -- An error that the program has, and no more bytes than the budget.
  abbrev pub Ends : Result (FlushError E N) (Unit {0}) × Flush S E N → Type 0
  Ends (ok u, f) = Kept p total budget [] f
  Ends (err e, f) = (wire_bytes f.wire ≤ budget) × (e ≢ flush_out_of_fuel)

  -- Leaving a mode changes neither queue nor budget.
  abbrev Leaves : Flush S E N → Result (FlushError E N) (Unit {0}) × Flush S E N → Type 0
  Leaves f (ok u, g) = (Kept p total budget [] g) × (g.remaining ≡ f.remaining)
  Leaves f (err e, g) = (wire_bytes g.wire ≤ budget) × (e ≢ flush_out_of_fuel)

  leave_sync-Leaves :
      (f : Flush S E N) → Kept p total budget [] f → Leaves f (leave_sync calls write mode now f)
  unfolding leave_sync
  leave_sync-Leaves f k = elim (Bool-cases (f.sync_mode && not (has_sync f.queue))) [
    | inr x ↦ rw (Leaves, x) (k, refl)
    | inl x ↦ elim (Result-cases (calls.set_sync_mode f.queue false f.sessions).0) [
      | inl (u, h) ↦ rw (Leaves, x, h) (k, refl)
      | inr (e, h) ↦ rw (Leaves, x, h) (omega (arith, k), λ z. cc)
    ]
  ]

  leave_fw-Leaves :
      (f : Flush S E N) → Kept p total budget [] f → Leaves f (leave_fw calls write mode now f)
  unfolding leave_fw
  leave_fw-Leaves f k = elim (Bool-cases (f.fw_mode && not (has_fw f.queue))) [
    | inr x ↦ rw (Leaves, x) (k, refl)
    | inl x ↦ elim (Result-cases (calls.set_fw_mode f.queue false f.sessions).0) [
      | inl (u, h) ↦ rw (Leaves, x, h) (k, refl)
      | inr (e, h) ↦ rw (Leaves, x, h) (omega (arith, k), λ z. cc)
    ]
  ]

  report_expired-tally :
      (cs : List Command) (f : Flush S E N)
      → (tally p (report_expired cs f) [] ≡ tally p f [] + number p cs)
        × ((report_expired cs f).remaining ≡ f.remaining)
        × ((report_expired cs f).wire ≡ f.wire)
  report_expired-tally [] f = (omega arith, refl, refl)
  report_expired-tally (c ∷ cs) f =
      let (a, b, d) = report_expired-tally cs (publish (expired_event c) f) in
      (ground (arith, a, reported-publish p f.events (expired_event c)), b, d)

  drained-Kept :
      (f : Flush S E N)
      → Kept p total budget [] f
      → (Kept p total budget [] (
          report_expired
            (drain_expired now f.queue).1
            (record f { queue = (drain_expired now f.queue).0 })))
        × ((report_expired
              (drain_expired now f.queue).1
              (record f { queue = (drain_expired now f.queue).0 })).remaining
            ≡ f.remaining)
  drained-Kept f k =
      let (a, b, d) =
        report_expired-tally (drain_expired now f.queue).1
          (record f { queue = (drain_expired now f.queue).0 }) in
      ((omega (arith, k, a, number-drain_expired p now f.queue), rw (b, d) k.1), b)

  -- The queue and the events after `DrainExpired`.
  abbrev drained : Flush S E N → Flush S E N
  drained f =
      report_expired (drain_expired now f.queue).1
        (record f { queue = (drain_expired now f.queue).0 })

  abbrev to_scan : Flush S E N → Bool
  to_scan f = ltb 0 f.remaining && ltb 0 (len (drain_expired now f.queue).0)

  after_pass :
      (fuel : ℕ) (f : Flush S E N)
      → ((g : Flush S E N)
          → Kept p total budget [] g
          → g.remaining < fuel
          → Ends (rounds calls write mode now fuel g))
      → f.remaining < suc fuel
      → to_scan f ≡ true
      → (pass : Pass S E N)
      → scan calls write mode now (len (drain_expired now f.queue).0) [] (drained f) ≡ pass
      → Good p total budget f.remaining pass
      → Ends (rounds calls write mode now (suc fuel) f)
  unfolding rounds
  after_pass fuel f ih h x (none_left g) s k =
      let stops : rounds calls write mode now (suc fuel) f ≡ (ok tt, g) = rw (rounds, x, s) in
      rw stops k
  after_pass fuel f ih h x (over_budget g) s k =
      let stops : rounds calls write mode now (suc fuel) f ≡ (ok tt, g) = rw (rounds, x, s) in
      rw stops k
  after_pass fuel f ih h x (broken e g) s k =
      let stops : rounds calls write mode now (suc fuel) f ≡ (err e, g) = rw (rounds, x, s) in
      rw stops k
  after_pass fuel f ih h x (sent g) s (k, less) =
      let synced = leave_sync-Leaves g k in
      elim (Result-cases (leave_sync calls write mode now g).0) [
        | inr (e, r) ↦
            let stops : rounds calls write mode now (suc fuel) f
                ≡ (err e, (leave_sync calls write mode now g).1) =
              rw (rounds, x, s, r) in
            rw stops (rw (Leaves, r) at synced)
        | inl (u, r) ↦
            let (k1, same1) = rw (Leaves, r) at synced in
            let g1 = (leave_sync calls write mode now g).1 in
            let left = leave_fw-Leaves g1 k1 in
            elim (Result-cases (leave_fw calls write mode now g1).0) [
              | inr (e, r1) ↦
                  let stops : rounds calls write mode now (suc fuel) f
                      ≡ (err e, (leave_fw calls write mode now g1).1) =
                    rw (rounds, x, s, r, r1) in
                  rw stops (rw (Leaves, r1) at left)
              | inl (u1, r1) ↦
                  let (k2, same2) = rw (Leaves, r1) at left in
                  let next : rounds calls write mode now (suc fuel) f
                      ≡ rounds calls write mode now fuel (leave_fw calls write mode now g1).1 =
                    rw (rounds, x, s, r, r1) in
                  rw next (ih (leave_fw calls write mode now g1).1 k2 (omega arith))
            ]
      ]

  pub rounds-Ends :
      (fuel : ℕ) (f : Flush S E N)
      → Kept p total budget [] f
      → f.remaining < fuel
      → Ends (rounds calls write mode now fuel f)
  unfolding rounds
  rounds-Ends zero f k h = omega (arith, h)
  rounds-Ends (suc fuel) f k h =
      let (kept, same) = drained-Kept f k in
      elim (Bool-cases (to_scan f)) [
        | inl x ↦ after_pass fuel f (rounds-Ends fuel) h x _ refl (
            Good-le _ _ (omega arith) _
              (scan-Good (len (drain_expired now f.queue).0) [] (drained f) kept))
        | inr x ↦ elim (Bool-cases (ltb 0 f.remaining)) [
          | inl y ↦
              let stops : rounds calls write mode now (suc fuel) f ≡ (ok tt, drained f) =
                rw (rounds, x, y) in
              rw stops kept
          | inr y ↦
              let stops : rounds calls write mode now (suc fuel) f ≡ (ok tt, f) =
                rw (rounds, x, y) in
              rw stops k
        ]
      ]
