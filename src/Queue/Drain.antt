-- ===== src/Queue/Drain.antt =====
-- `DrainExpired`: what leaves the queue and what stays.
use tcpadapter.Common.{◌≡◌, refl, Bool, not, List, [], ◌∷◌, ◌++◌, arith, keep_if, keep_if-append}
use tcpadapter.Common.Int.{ℤ}
use tcpadapter.Queue.{Command, ControllerQueue, expired, drain, drain_expired, snapshot}

abbrev pub live : ℤ → Command → Bool
live now c = not (expired now c)

drain-keep_if :
    (now : ℤ) (cs : List Command)
    → (((drain now cs).0 ≡ keep_if (live now) cs) × ((drain now cs).1 ≡ keep_if (expired now) cs))
unfolding drain
drain-keep_if now [] = (refl, refl)
drain-keep_if now (c ∷ cs) = ground (arith, drain-keep_if now cs)

-- The commands that have expired at `now` are returned, and exactly the others stay, both in the
-- order of the queue.
pub drain_expired_lem :
    (now : ℤ) (q : ControllerQueue)
    → ((drain_expired now q).1 ≡ keep_if (expired now) (snapshot q))
      × (snapshot (drain_expired now q).0 ≡ keep_if (live now) (snapshot q))
unfolding drain_expired snapshot
drain_expired_lem now q = ground (
  arith,
  drain-keep_if now q.high,
  drain-keep_if now q.fw,
  drain-keep_if now q.sync,
  drain-keep_if now q.query,
  keep_if-append (expired now) (q.high ++ q.fw ++ q.sync) q.query,
  keep_if-append (expired now) (q.high ++ q.fw) q.sync,
  keep_if-append (expired now) q.high q.fw,
  keep_if-append (live now) (q.high ++ q.fw ++ q.sync) q.query,
  keep_if-append (live now) (q.high ++ q.fw) q.sync,
  keep_if-append (live now) q.high q.fw,
)
