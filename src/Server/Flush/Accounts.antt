-- ===== src/Server/Flush/Accounts.antt =====
-- Numbers of commands in a queue, in a list and in the published events.
use tcpadapter.Common.{
  ℕ, suc, ◌+◌, ◌≤◌, ◌<◌, ◌≡◌, ◌≢◌, Bool, true, false, List, [], ◌∷◌, ◌++◌, Option, none, some,
  if◌then◌else◌, Bytes, length, arith,
}
use tcpadapter.Common.Int.{ℤ}
use tcpadapter.Queue.{
  Command, ControllerQueue, Buf, high_buf, fw_buf, sync_buf, query_buf, class_of, buffer,
  with_buffer, push, pop_next, drain, drain_expired, snapshot, pop,
}
use tcpadapter.Server.Flush.{
  Flush, Event, Pass, sent, none_left, over_budget, broken, Taken, goes_on, ends, flush_out_of_fuel,
  expired_event, failed_event, accepted_event, push_all,
}

-- The command that an event is about.
abbrev pub of_event : {E N : Type 0} → Event E N → Command
of_event (expired_event c) = c
of_event (failed_event c _) = c
of_event (accepted_event c _) = c

-- The commands that pass a test, and the events about such a command.
module _ (p : Command → Bool) where
  abbrev pub number : List Command → ℕ
  number [] = 0
  number (c ∷ cs) = let n = number cs in if p c then suc n else n

  abbrev pub reported : {E N : Type 0} → List (Event E N) → ℕ
  reported [] = 0
  reported (e ∷ es) = let n = reported es in if p (of_event e) then suc n else n

  -- The commands that a list of skipped ones, a queue and the events have together.
  abbrev pub tally : {S E N : Type 0} → Flush S E N → List Command → ℕ
  tally f skipped = number (snapshot f.queue) + number skipped + reported f.events

  pub number-append : (xs ys : List Command) → number (xs ++ ys) ≡ number xs + number ys
  number-append [] ys = omega arith
  number-append (x ∷ xs) ys = ground (arith, number-append xs ys)

  pub reported-publish :
      {E N : Type 0} (es : List (Event E N)) (e : Event E N)
      → reported (es ++ e ∷ []) ≡ reported es + number (of_event e ∷ [])
  reported-publish [] e = ground arith
  reported-publish (x ∷ es) e = ground (arith, reported-publish es e)

  pub number-snapshot :
      (q : ControllerQueue)
      → number (snapshot q) ≡ number q.high + number q.fw + number q.sync + number q.query
  unfolding snapshot
  number-snapshot q = omega (
    arith,
    number-append (q.high ++ q.fw ++ q.sync) q.query,
    number-append (q.high ++ q.fw) q.sync,
    number-append q.high q.fw,
  )

  push_at :
      (b : Buf) (q : ControllerQueue) (c : Command)
      → number (snapshot (with_buffer b q (buffer b q ++ c ∷ [])))
        ≡ number (snapshot q) + number (c ∷ [])
  push_at high_buf q c = omega (
    arith,
    number-snapshot q,
    number-snapshot (with_buffer high_buf q (q.high ++ c ∷ [])),
    number-append q.high (c ∷ []),
  )
  push_at fw_buf q c = omega (
    arith,
    number-snapshot q,
    number-snapshot (with_buffer fw_buf q (q.fw ++ c ∷ [])),
    number-append q.fw (c ∷ []),
  )
  push_at sync_buf q c = omega (
    arith,
    number-snapshot q,
    number-snapshot (with_buffer sync_buf q (q.sync ++ c ∷ [])),
    number-append q.sync (c ∷ []),
  )
  push_at query_buf q c = omega (
    arith,
    number-snapshot q,
    number-snapshot (with_buffer query_buf q (q.query ++ c ∷ [])),
    number-append q.query (c ∷ []),
  )

  pub number-push :
      (q : ControllerQueue) (c : Command)
      → number (snapshot (push q c)) ≡ number (snapshot q) + number (c ∷ [])
  unfolding push
  number-push q c = push_at (class_of c.priority) q c

  pub number-push_all :
      (q : ControllerQueue) (cs : List Command)
      → number (snapshot (push_all q cs)) ≡ number (snapshot q) + number cs
  unfolding push_all
  number-push_all q [] = omega arith
  number-push_all q (c ∷ cs) = ground (arith, number-push_all (push q c) cs, number-push q c)

  number-drain :
      (now : ℤ) (cs : List Command) → number cs ≡ number (drain now cs).0 + number (drain now cs).1
  unfolding drain
  number-drain now [] = omega arith
  number-drain now (c ∷ cs) = ground (arith, number-drain now cs)

  pub number-drain_expired :
      (now : ℤ) (q : ControllerQueue)
      → number (snapshot q)
        ≡ number (snapshot (drain_expired now q).0) + number (drain_expired now q).1
  unfolding drain_expired
  number-drain_expired now q = omega (
    arith,
    number-snapshot q,
    number-snapshot (drain_expired now q).0,
    number-drain now q.high,
    number-drain now q.fw,
    number-drain now q.sync,
    number-drain now q.query,
    number-append ((drain now q.high).1 ++ (drain now q.fw).1 ++ (drain now q.sync).1)
        (drain now q.query).1,
    number-append ((drain now q.high).1 ++ (drain now q.fw).1) (drain now q.sync).1,
    number-append (drain now q.high).1 (drain now q.fw).1,
  )

  -- What `PopNext` takes was in the queue.
  abbrev pub Takes : ControllerQueue → Option (Command × ControllerQueue) → Type 0
  Takes q none = Unit
  Takes q (some (c, q')) = number (snapshot q) ≡ number (c ∷ []) + number (snapshot q')

  abbrev of_buffers : List Command → List Command → List Command → List Command → ControllerQueue
  of_buffers h f s u = record { high = h; fw = f; sync = s; query = u }

  by_buffers :
      (fw_mode sync_mode : Bool) (h f s u : List Command)
      → Takes (of_buffers h f s u) (pop_next fw_mode sync_mode (of_buffers h f s u))
  unfolding pop_next pop
  by_buffers fw_mode sync_mode (c ∷ h) f s u =
      ground
        (arith, number-snapshot (of_buffers (c ∷ h) f s u), number-snapshot (of_buffers h f s u))
  by_buffers true sync_mode [] (c ∷ f) s u =
      ground
        (arith, number-snapshot (of_buffers [] (c ∷ f) s u), number-snapshot (of_buffers [] f s u))
  by_buffers true sync_mode [] [] s u = tt
  by_buffers false true [] f (c ∷ s) u =
      ground
        (arith, number-snapshot (of_buffers [] f (c ∷ s) u), number-snapshot (of_buffers [] f s u))
  by_buffers false true [] f [] u = tt
  by_buffers false false [] (c ∷ f) s u =
      ground
        (arith, number-snapshot (of_buffers [] (c ∷ f) s u), number-snapshot (of_buffers [] f s u))
  by_buffers false false [] [] (c ∷ s) u =
      ground (
        arith,
        number-snapshot (of_buffers [] [] (c ∷ s) u),
        number-snapshot (of_buffers [] [] s u),
      )
  by_buffers false false [] [] [] (c ∷ u) = ground (
    arith,
    number-snapshot (of_buffers [] [] [] (c ∷ u)),
    number-snapshot (of_buffers [] [] [] u),
  )
  by_buffers false false [] [] [] [] = tt

  pub pop_next-Takes :
      (fw_mode sync_mode : Bool) (q : ControllerQueue) → Takes q (pop_next fw_mode sync_mode q)
  pop_next-Takes fw_mode sync_mode q = by_buffers fw_mode sync_mode q.high q.fw q.sync q.query

-- The bytes of all frames.
abbrev pub wire_bytes : List Bytes → ℕ
wire_bytes [] = 0
wire_bytes (b ∷ bs) = length b + wire_bytes bs

pub wire_bytes-append :
    (bs : List Bytes) (b : Bytes) → wire_bytes (bs ++ b ∷ []) ≡ wire_bytes bs + length b
wire_bytes-append [] b = omega arith
wire_bytes-append (x ∷ bs) b = omega (arith, wire_bytes-append bs b)

-- `total` commands pass the test, and the frames may have `budget` bytes.
module _ {S E N : Type 0} (p : Command → Bool) (total budget : ℕ) where
  -- Between two commands: none is lost, and budget and written bytes add up.
  abbrev pub Kept : List Command → Flush S E N → Type 0
  Kept skipped f = (tally p f skipped ≡ total) × (f.remaining + wire_bytes f.wire ≡ budget)

  -- While the written frame of a command is being noted.
  abbrev pub InTransit : Command → Bytes → List Command → Flush S E N → Type 0
  InTransit c frame skipped f =
      (tally p f skipped + number p (c ∷ []) ≡ total)
      × (f.remaining + wire_bytes f.wire ≡ budget + length frame)
      × (length frame ≤ f.remaining)
      × (1 ≤ length frame)

  -- What holds at the end of a pass that began with `from` bytes left.
  abbrev pub Good : ℕ → Pass S E N → Type 0
  Good from (sent g) = (Kept [] g) × (g.remaining < from)
  Good from (none_left g) = Kept [] g
  Good from (over_budget g) = Kept [] g
  Good from (broken e g) = (wire_bytes g.wire ≤ budget) × (e ≢ flush_out_of_fuel)

  abbrev pub GoodTaken : ℕ → Taken S E N → Type 0
  GoodTaken from (goes_on g skipped) = (Kept skipped g) × (g.remaining ≡ from)
  GoodTaken from (ends q) = Good from q

  -- Before a command is written.
  abbrev pub Ready : Command → List Command → Flush S E N → Type 0
  Ready c skipped f =
      (tally p f skipped + number p (c ∷ []) ≡ total) × (f.remaining + wire_bytes f.wire ≡ budget)
