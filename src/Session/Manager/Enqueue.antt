-- ===== src/Session/Manager/Enqueue.antt =====
-- `Enqueue`, `EnqueueWithEvents` and `enqueueLocked` of internal/session/manager.go.
pub mod Laws
pub mod Oversized
use tcpadapter.Common.{
  ℕ, ◌≡◌, Bool, true, false, List, [], ◌∷◌, Option, none, some, Result, ok, err, if◌then◌else◌,
  Bytes, length, ◌==◌,
}
use tcpadapter.Common.Int.{ℤ, pos, ◌-ℤ◌, ltb_ℤ}
use tcpadapter.Common.Dict.{lookup, insert, bytes_key, bytes_eq}
use tcpadapter.Queue.{Command, ControllerQueue, push}
use tcpadapter.Store.{Store}
use tcpadapter.Session.Types.{
  Session, OverflowEvent, SessionError, duplicate, queue_full, queue_bytes_full, out_of_fuel,
}
use tcpadapter.Session.Room.{made, refused_depth, refused_bytes, stuck, make_room}
use tcpadapter.Session.Manager.{
  Manager, Manages, Err, of_store, put_session, put_and_persist, new_session, add_session,
}

-- Ten minutes, in nanoseconds.
abbrev pub dedup_window : ℤ
dedup_window = pos 600_000_000_000

abbrev pub has_dedup_key : Command → Bool
has_dedup_key c = elim c.dedup_key [ [] ↦ false | _ ∷ _ ↦ true ]

-- The command's key was noted less than ten minutes ago.
unfoldable pub is_duplicate : {Conn : Type 0} → ℤ → Command → Session Conn → Bool
is_duplicate now c s =
    if has_dedup_key c
    then elim (lookup c.dedup_key s.dedup) [ none ↦ false | some t ↦ ltb_ℤ (now -ℤ t) dedup_window ]
    else false

-- `s.Dedup[cmd.DedupKey] = now`
unfoldable pub with_key : {Conn : Type 0} → ℤ → Command → Session Conn → Session Conn
with_key now c s =
    if has_dedup_key c then record s { dedup = insert c.dedup_key now s.dedup } else s

module _ (Conn : Type 0) (st : Store) where
  abbrev pub Enqueued : Type 0
  Enqueued = Result (Err st) (Unit {0}) × List OverflowEvent × Manages Conn st

  -- From the dedup check on, for the session `s` of the controller.
  unfoldable pub admit : Bytes → Command → ℤ → Session Conn → Manages Conn st → Enqueued
  admit id c now s m =
      if is_duplicate now c s
      then (err duplicate, [], m)
      else let s' = with_key now c s in
        elim (make_room m.overflow_policy id m.limits c s'.queue) [
          | made q evs ↦
              let (e, m') = put_and_persist Conn st id (record s' { queue = push q c }) m in
              (of_store st e, evs, m')
          | refused_depth q evs ↦
              (err queue_full, evs, put_session Conn st id (record s' { queue = q }) m)
          | refused_bytes q evs ↦
              (err queue_bytes_full, evs, put_session Conn st id (record s' { queue = q }) m)
          | stuck ↦ (err out_of_fuel, [], m)
        ]

  -- `enqueueLocked`; a controller that is not known yet gets a session without a connection
  -- (`createDetachedLocked`).
  unfoldable pub enqueue_with_events : Bytes → Command → ℤ → Manages Conn st → Enqueued
  unfolding admit
  enqueue_with_events id c now m = elim (lookup id m.sessions) [
    | some s ↦ admit id c now s m
    | none ↦
        let (r, m') = add_session Conn st id (new_session id none now) m in
        elim r [ err x ↦ (err x, [], m') | ok s ↦ admit id c now s m' ]
  ]

  unfoldable pub enqueue :
      Bytes → Command → ℤ → Manages Conn st → Result (Err st) (Unit {0}) × Manages Conn st
  unfolding enqueue_with_events
  enqueue id c now m = let (r, evs, m') = enqueue_with_events id c now m in (r, m')
