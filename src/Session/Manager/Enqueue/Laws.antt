-- ===== src/Session/Manager/Enqueue/Laws.antt =====
-- Limits, duplicates and refusals of `EnqueueWithEvents`.
use tcpadapter.Common.{
  ◌⊎◌, ◌≤◌, ◌≡◌, ◌≢◌, refl, true, false, [], none, some, ok, err, Bool-cases, Option-cases, inl,
  inr, arith, Bytes,
}
use tcpadapter.Common.Int.{ℤ, ◌-ℤ◌, ◌<ℤ◌}
use tcpadapter.Common.Dict.{lookup, lookup-insert_self, bytes_key}
use tcpadapter.Queue.{Command, ControllerQueue, push, len, total_estimated_bytes}
use tcpadapter.Queue.Sizes.{push-sizes}
use tcpadapter.Store.{Store}
use tcpadapter.Session.Types.{Session, duplicate, out_of_fuel, store_failed}
use tcpadapter.Session.Room.{
  Limits, Room, made, refused_depth, refused_bytes, stuck, make_room, fits,
}
use tcpadapter.Session.Room.Laws.{make_room-fits, make_room-not_stuck}
use tcpadapter.Session.Manager.{Manages, put_and_persist, new_session, add_session, snapshot_of}
use tcpadapter.Session.Manager.Enqueue.{
  is_duplicate, with_key, has_dedup_key, dedup_window, Enqueued, admit, enqueue_with_events,
}

-- The queue respects both limits; a limit of 0 is none.
pub record WithinLimits (l : Limits) (q : ControllerQueue) : Type 0 where
  pub depth : (l.max_queue_depth ≡ 0) ⊎ (len q ≤ l.max_queue_depth)
  pub bytes : (l.max_queue_bytes ≡ 0) ⊎ (total_estimated_bytes q ≤ l.max_queue_bytes)

fits-WithinLimits :
    (l : Limits) (c : Command) (q : ControllerQueue) → fits l c q ≡ true → WithinLimits l (push q c)
fits-WithinLimits l c q h = record {
  depth = ground (arith, push-sizes q c);
  bytes = ground (arith, push-sizes q c);
}

module _ (Conn : Type 0) (st : Store) (id : Bytes) (c : Command) (now : ℤ) where
  -- By the result of `make_room`.
  admit-WithinLimits :
      (s : Session Conn) (m : Manages Conn st) (r : Room)
      → make_room m.overflow_policy id m.limits c (with_key now c s).queue ≡ r
      → (admit Conn st id c now s m).0 ≡ ok tt
      → (s' : Session Conn) × (lookup id (admit Conn st id c now s m).2.sessions ≡ some s')
        × WithinLimits m.limits s'.queue
  unfolding admit put_and_persist
  admit-WithinLimits s m (made q evs) e h = elim (Bool-cases (is_duplicate now c s)) [
    | inl t ↦ absurd (ground (arith, t))
    | inr t ↦
        rw (t, e)
          (
            _,
            lookup-insert_self id _ m.sessions,
            fits-WithinLimits m.limits c q
                (make_room-fits m.overflow_policy id m.limits c _ q evs e),
          )
  ]
  admit-WithinLimits s m (refused_depth q evs) e h = elim (Bool-cases (is_duplicate now c s)) [
    | inl t ↦ absurd (ground (arith, t))
    | inr t ↦ absurd (ground (arith, t, e))
  ]
  admit-WithinLimits s m (refused_bytes q evs) e h = elim (Bool-cases (is_duplicate now c s)) [
    | inl t ↦ absurd (ground (arith, t))
    | inr t ↦ absurd (ground (arith, t, e))
  ]
  admit-WithinLimits s m stuck e h =
      absurd (make_room-not_stuck m.overflow_policy id m.limits c _ e)

  admit-not_stuck :
      (s : Session Conn) (m : Manages Conn st) (r : Room)
      → make_room m.overflow_policy id m.limits c (with_key now c s).queue ≡ r
      → (admit Conn st id c now s m).0 ≢ err out_of_fuel
  unfolding admit put_and_persist
  admit-not_stuck s m (made q evs) e h = elim (Bool-cases (is_duplicate now c s)) [
    | inl t ↦ absurd (ground (arith, t))
    | inr t ↦
        elim (Option-cases
          (st.save_session (snapshot_of (record (with_key now c s) { queue = push q c }))
            m.store).0) [
              | inl z ↦ absurd (ground (arith, t, e, z))
              | inr (x, z) ↦ absurd (ground (arith, t, e, z))
            ]
  ]
  admit-not_stuck s m (refused_depth q evs) e h = ground (arith, e)
  admit-not_stuck s m (refused_bytes q evs) e h = ground (arith, e)
  admit-not_stuck s m stuck e h = absurd (make_room-not_stuck m.overflow_policy id m.limits c _ e)

  -- A result of `enqueueLocked`: the session, found or made, goes on to `admit`; or it was made and
  -- could not be saved.
  data Enqueues (m : Manages Conn st) : Enqueued Conn st → Type 0 where
    admitted :
        (s : Session Conn) (m' : Manages Conn st)
        → lookup id m'.sessions ≡ some s
        → m'.limits ≡ m.limits
        → Enqueues m (admit Conn st id c now s m')
    unsaved : (x : st.StoreError) (m' : Manages Conn st) → Enqueues m (err (store_failed x), [], m')

  enqueue-Enqueues : (m : Manages Conn st) → Enqueues m (enqueue_with_events Conn st id c now m)
  unfolding enqueue_with_events add_session put_and_persist
  enqueue-Enqueues m = elim (Option-cases (lookup id m.sessions)) [
    | inr (s, e) ↦ rw (e, enqueue_with_events) (admitted s m e refl)
    | inl e ↦
        elim (Option-cases
          (st.save_session (snapshot_of (new_session {Conn = Conn} id none now)) m.store).0) [
            | inl z ↦
                rw (e, z, enqueue_with_events)
                  (admitted _ (add_session Conn st id (new_session id none now) m).1
                    (rw (z, add_session) (lookup-insert_self id _ m.sessions))
                    (rw (z, add_session) refl))
            | inr (x, z) ↦ rw (e, z, enqueue_with_events) (unsaved x _)
          ]
  ]

  within_limits :
      (m : Manages Conn st) (r : Enqueued Conn st)
      → Enqueues m r
      → r.0 ≡ ok tt
      → (s' : Session Conn) × (lookup id r.2.sessions ≡ some s') × WithinLimits m.limits s'.queue
  within_limits m r (admitted s m' e l) h = rw (← l) (admit-WithinLimits s m' _ refl h)
  within_limits m r (unsaved x m') h = cc

  -- A command that is accepted leaves the controller's queue within both limits, where 0 is no limit.
  pub enqueue-WithinLimits :
      (m : Manages Conn st)
      → (enqueue_with_events Conn st id c now m).0 ≡ ok tt
      → (s' : Session Conn) × (lookup id (enqueue_with_events Conn st id c now m).2.sessions
          ≡ some s')
        × WithinLimits m.limits s'.queue
  enqueue-WithinLimits m h = within_limits m _ (enqueue-Enqueues m) h

  has_enough_fuel :
      (m : Manages Conn st) (r : Enqueued Conn st) → Enqueues m r → r.0 ≢ err out_of_fuel
  has_enough_fuel m r (admitted s m' e l) h = admit-not_stuck s m' _ refl h
  has_enough_fuel m r (unsaved x m') h = cc

  -- The loop that makes room always ends: `Enqueue` never runs out of fuel.
  pub enqueue-enough_fuel :
      (m : Manages Conn st) → (enqueue_with_events Conn st id c now m).0 ≢ err out_of_fuel
  enqueue-enough_fuel m = has_enough_fuel m _ (enqueue-Enqueues m)

  noted :
      (s : Session Conn)
      → has_dedup_key c ≡ true
      → lookup c.dedup_key (with_key now c s).dedup ≡ some now
  unfolding with_key
  noted s k = rw k (lookup-insert_self c.dedup_key now s.dedup)

  -- After an attempt the key of the command is noted with its time, whatever the result was.
  admit-key :
      (s : Session Conn) (m : Manages Conn st) (r : Room)
      → make_room m.overflow_policy id m.limits c (with_key now c s).queue ≡ r
      → has_dedup_key c ≡ true
      → is_duplicate now c s ≡ false
      → (s' : Session Conn) × (lookup id (admit Conn st id c now s m).2.sessions ≡ some s')
        × (lookup c.dedup_key s'.dedup ≡ some now)
  unfolding admit put_and_persist
  admit-key s m (made q evs) e k d = rw (d, e) (_, lookup-insert_self id _ m.sessions, noted s k)
  admit-key s m (refused_depth q evs) e k d =
      rw (d, e) (_, lookup-insert_self id _ m.sessions, noted s k)
  admit-key s m (refused_bytes q evs) e k d =
      rw (d, e) (_, lookup-insert_self id _ m.sessions, noted s k)
  admit-key s m stuck e k d = absurd (make_room-not_stuck m.overflow_policy id m.limits c _ e)

  is_duplicate_again :
      (s' : Session Conn) (c' : Command) (later : ℤ)
      → lookup c.dedup_key s'.dedup ≡ some now
      → has_dedup_key c ≡ true
      → c'.dedup_key ≡ c.dedup_key
      → later -ℤ now <ℤ dedup_window
      → is_duplicate later c' s' ≡ true
  unfolding is_duplicate
  is_duplicate_again s' c' later f k same h = rw (same, k, f, is_duplicate) (ground arith)

  duplicate_after :
      (s' : Session Conn) (m' : Manages Conn st) (c' : Command) (later : ℤ)
      → lookup id m'.sessions ≡ some s'
      → lookup c.dedup_key s'.dedup ≡ some now
      → has_dedup_key c ≡ true
      → c'.dedup_key ≡ c.dedup_key
      → later -ℤ now <ℤ dedup_window
      → enqueue_with_events Conn st id c' later m' ≡ (err duplicate, [], m')
  unfolding enqueue_with_events admit
  duplicate_after s' m' c' later e f k same h =
      rw (e, is_duplicate_again s' c' later f k same h, enqueue_with_events, admit) refl

  pub found :
      (s : Session Conn) (m : Manages Conn st)
      → lookup id m.sessions ≡ some s
      → enqueue_with_events Conn st id c now m ≡ admit Conn st id c now s m
  unfolding enqueue_with_events
  found s m e = rw (e, enqueue_with_events) refl

  -- When a controller's command with a deduplication key was not a duplicate, a command with that
  -- key that comes less than ten minutes later is one, and changes nothing. This is so whatever
  -- became of the first command: also when it was refused for a limit or when the store failed.
  pub enqueue_duplicate :
      (s : Session Conn) (m : Manages Conn st) (c' : Command) (later : ℤ)
      → lookup id m.sessions ≡ some s
      → has_dedup_key c ≡ true
      → is_duplicate now c s ≡ false
      → c'.dedup_key ≡ c.dedup_key
      → later -ℤ now <ℤ dedup_window
      → let m' = (enqueue_with_events Conn st id c now m).2 in
        enqueue_with_events Conn st id c' later m' ≡ (err duplicate, [], m')
  enqueue_duplicate s m c' later e k d same h =
      let (s', f, g) = admit-key s m _ refl k d in
      rw (found s m e) (duplicate_after s' _ c' later f g k same h)
