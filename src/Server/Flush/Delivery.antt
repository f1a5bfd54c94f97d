-- ===== src/Server/Flush/Delivery.antt =====
-- What a flush sends, and what becomes of the commands.
use tcpadapter.Common.{
  ℕ, suc, ◌+◌, ◌≤◌, ◌≡◌, ◌≢◌, refl, Bool, Option, Result, ok, err, Bytes, arith, ◌==◌,
  if◌then◌else◌,
}
use tcpadapter.Common.Int.{ℤ}
use tcpadapter.Protocol.Frame.{FrameMode}
use tcpadapter.Queue.{Command, ControllerQueue, snapshot}
use tcpadapter.Server.Flush.{Flush, SessionCalls, FlushError, flush_out_of_fuel, flush, max_budget}
use tcpadapter.Server.Flush.Accounts.{number, reported, wire_bytes}
use tcpadapter.Server.Flush.Rounds.{Ends, rounds-Ends}

module _ {S E N : Type 0} (calls : SessionCalls S E) (write : ℕ → Bytes → Option N)
    (mode : FrameMode) (now : ℤ) (q : ControllerQueue) (s : S) (fw_mode sync_mode : Bool)
    (buffer_free : ℕ) where
  flush-Ends :
      (p : Command → Bool) (blind : (c : Command) → p (record c { retry_seq = 0 }) ≡ p c)
      → Ends calls write mode now p blind
          (number p (snapshot q))
          (max_budget buffer_free)
          (flush calls write mode now q s fw_mode sync_mode buffer_free)
  unfolding flush
  flush-Ends p blind =
      rounds-Ends calls write mode now p blind (number p (snapshot q)) (max_budget buffer_free)
        (suc (max_budget buffer_free)) _ (omega arith, omega arith) (omega arith)

  -- A flush without an error loses no command and reports none twice: for every test that does not look at the
  -- number of the last try, as many commands that pass it were queued before as are queued after together with
  -- the events about such commands.
  pub flush-conserves :
      (p : Command → Bool)
      → ((c : Command) → p (record c { retry_seq = 0 }) ≡ p c)
      → (flush calls write mode now q s fw_mode sync_mode buffer_free).0 ≡ ok tt
      → number p (snapshot q)
        ≡ number p (snapshot (flush calls write mode now q s fw_mode sync_mode buffer_free).1.queue)
          + reported p (flush calls write mode now q s fw_mode sync_mode buffer_free).1.events
  flush-conserves p blind done = let k = rw (Ends, done) at (flush-Ends p blind) in omega (arith, k)

  within :
      (r : Result (FlushError E N) (Unit {0}) × Flush S E N)
      → Ends calls write mode now
          (λ c. Bool.true)
          (λ c. refl)
          (number (λ c. Bool.true) (snapshot q))
          (max_budget buffer_free)
          r
      → (wire_bytes r.1.wire ≤ max_budget buffer_free) × (r.0 ≢ err flush_out_of_fuel)
  within (ok u, f) k = (omega (arith, k), λ z. cc)
  within (err e, f) k = (k.0, λ z. k.1 cc)

  -- All frames that a flush writes, whether it ends with an error or not, have together at most as many
  -- bytes as the controller's buffer has free; if it has told of no free byte, they have up to 1500 bytes.
  pub flush-within_budget :
      wire_bytes (flush calls write mode now q s fw_mode sync_mode buffer_free).1.wire
      ≤ (if buffer_free == 0 then 1500 else buffer_free)
  flush-within_budget = (within _ (flush-Ends (λ c. Bool.true) (λ c. refl))).0

  -- The loop ends: as many rounds as the budget has bytes, and one more, are always enough.
  pub flush-enough_fuel :
      (flush calls write mode now q s fw_mode sync_mode buffer_free).0 ≢ err flush_out_of_fuel
  flush-enough_fuel = (within _ (flush-Ends (λ c. Bool.true) (λ c. refl))).1
