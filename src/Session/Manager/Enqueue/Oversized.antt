-- ===== src/Session/Manager/Enqueue/Oversized.antt =====
-- What a command over the byte limit does to the queue under "drop_oldest".
use tcpadapter.Common.{
  ℕ, ◌+◌, ◌++◌, ◌∷◌, List, All, length-append, ◌<◌, ◌≡◌, ap, refl, false, [], length, some, err,
  arith, Bool-cases, inl, inr, Bytes,
}
use tcpadapter.Common.Int.{ℤ}
use tcpadapter.Common.Dict.{lookup, lookup-insert_self, bytes_key}
use tcpadapter.Queue.{Command, ControllerQueue, snapshot, estimated_command_bytes}
use tcpadapter.Store.{Store}
use tcpadapter.Session.Types.{OverflowEvent, bytes, Session, queue_bytes_full, drop_oldest_policy}
use tcpadapter.Session.Room.{Room, refused_bytes, make_room}
use tcpadapter.Session.Room.Reports.{
  TellsDropped, TellsRejected, Reports, rejected_bytes, make_room-Reports,
}
use tcpadapter.Session.Room.Laws.{Makes, makes, refuses, make_room-Makes}
use tcpadapter.Session.Manager.{Manages}
use tcpadapter.Session.Manager.Enqueue.{
  is_duplicate, with_key, has_dedup_key, admit, enqueue_with_events,
}
use tcpadapter.Session.Manager.Enqueue.Laws.{found}

with_key-queue :
    {Conn : Type 0} (now : ℤ) (c : Command) (s : Session Conn) → (with_key now c s).queue ≡ s.queue
unfolding with_key
with_key-queue now c s = elim (Bool-cases (has_dedup_key c)) [
  | inl t ↦ rw (t, with_key) refl
  | inr t ↦ rw (t, with_key) refl
]

-- The events tell of `n` commands that were dropped and then of the one that was rejected for the byte limit.
pub record TellsAll (id : Bytes) (n : ℕ) (evs : List OverflowEvent) : Type 0 where
  pub drops : List OverflowEvent
  pub last : OverflowEvent
  pub parts : evs ≡ drops ++ last ∷ []
  pub count : length drops ≡ n
  pub dropped : All (TellsDropped id) drops
  pub rejected : TellsRejected id last
  pub for_bytes : last.limit_type ≡ bytes

tells_all :
    (id : Bytes) (n : ℕ) (q : ControllerQueue) (evs : List OverflowEvent)
    → length evs ≡ n + 1
    → Reports id [] (refused_bytes q evs)
    → TellsAll id n evs
tells_all id n q evs z (rejected_bytes drops last e a k b) = record {
  drops = drops;
  last = last;
  parts = e;
  count = omega (arith, z, ap length e, length-append drops (last ∷ []));
  dropped = a;
  rejected = k;
  for_bytes = b;
}

module _ (Conn : Type 0) (st : Store) (id : Bytes) (c : Command) (now : ℤ) where
  refused :
      (s : Session Conn) (m : Manages Conn st) (r : Room)
      → make_room m.overflow_policy id m.limits c (with_key now c s).queue ≡ r
      → Makes m.limits c (with_key now c s).queue 0 r
      → Reports id [] r
      → is_duplicate now c s ≡ false
      → 0 < m.limits.max_queue_bytes
      → m.limits.max_queue_bytes < estimated_command_bytes c
      → ((admit Conn st id c now s m).0 ≡ err queue_bytes_full)
        × TellsAll id (length (snapshot s.queue)) (admit Conn st id c now s m).1
        × (s' : Session Conn) × (lookup id (admit Conn st id c now s m).2.sessions ≡ some s')
        × (snapshot s'.queue ≡ [])
  unfolding admit
  refused s m r e (makes n z k) w d l o = absurd (ground (arith, k.room))
  refused s m r e (refuses n z k) w d l o =
      rw (d, e, admit)
        (
          refl,
          tells_all id _ _ _ (omega (arith, ap (λ q. length (snapshot q)) (with_key-queue now c s)))
              w,
          _,
          lookup-insert_self id _ m.sessions,
          k.emptied,
        )

  -- For a controller that is known, with a limit on bytes and the policy "drop_oldest", a command that is no duplicate and by
  -- itself over that limit is refused, and every command that the controller's queue held is lost: there is one event
  -- "dropped" for each of them, and then one event "rejected", for the byte limit.
  pub enqueue_oversized :
      (s : Session Conn) (m : Manages Conn st)
      → lookup id m.sessions ≡ some s
      → m.overflow_policy ≡ drop_oldest_policy
      → is_duplicate now c s ≡ false
      → 0 < m.limits.max_queue_bytes
      → m.limits.max_queue_bytes < estimated_command_bytes c
      → let r = enqueue_with_events Conn st id c now m in
        (r.0 ≡ err queue_bytes_full)
        × TellsAll id (length (snapshot s.queue)) r.1
        × (s' : Session Conn) × (lookup id r.2.sessions ≡ some s')
        × (snapshot s'.queue ≡ [])
  enqueue_oversized s m e p d l o = rw (found Conn st id c now s m e) (
      refused s m _ refl (rw p (make_room-Makes id m.limits c _))
        (rw p (make_room-Reports id m.limits c _)) d l o)
