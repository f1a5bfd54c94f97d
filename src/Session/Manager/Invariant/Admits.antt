-- ===== src/Session/Manager/Invariant/Admits.antt =====
-- `EnqueueWithEvents` keeps the sessions well formed.
use tcpadapter.Common.{
  ◌≡◌, refl, false, none, Result, ok, err, Bool-cases, Option-cases, inl, inr, Bytes,
}
use tcpadapter.Common.Int.{ℤ}
use tcpadapter.Common.Dict.{lookup, bytes_key, nat_eq}
use tcpadapter.Queue.{Command}
use tcpadapter.Queue.Classes.{IsClassed, push-IsClassed}
use tcpadapter.Store.{Store}
use tcpadapter.Session.Types.{Session}
use tcpadapter.Session.Room.{Room, make_room}
use tcpadapter.Session.Room.Classes.{
  AllRoom, of_made, of_depth, of_bytes, of_stuck, make_room-IsClassed,
}
use tcpadapter.Session.Manager.{Err, Manages, new_session, add_session}
use tcpadapter.Session.Manager.Enqueue.{is_duplicate, with_key, admit, enqueue_with_events, enqueue}
use tcpadapter.Session.Manager.Invariant.{
  IsSession, IsManager, add_session-ok, new_session-IsSession, put_session-IsManager,
  put_and_persist-IsManager, found-IsSession, add_session-IsManager,
}
use tcpadapter.Session.Manager.Invariant.Parts.{with_key-IsSession, with_key-IsClassed}

module _ (Conn : Type 0) (st : Store) where
  module _ (id : Bytes) (c : Command) (now : ℤ) where
    admitted :
        (s : Session Conn) (m : Manages Conn st) (r : Room)
        → make_room m.overflow_policy id m.limits c (with_key now c s).queue ≡ r
        → is_duplicate now c s ≡ false
        → AllRoom IsClassed r
        → IsSession id s
        → IsManager Conn st m
        → IsManager Conn st (admit Conn st id c now s m).2
    unfolding admit
    admitted s m r e d (of_made {q = q} k) h v =
        rw (d, e, admit)
          (put_and_persist-IsManager Conn st id _ m
            (with_key-IsSession c now s _ h (push-IsClassed q c k)) v)
    admitted s m r e d (of_depth k) h v =
        rw (d, e, admit) (put_session-IsManager Conn st id _ m (with_key-IsSession c now s _ h k) v)
    admitted s m r e d (of_bytes k) h v =
        rw (d, e, admit) (put_session-IsManager Conn st id _ m (with_key-IsSession c now s _ h k) v)
    admitted s m r e d of_stuck h v = rw (d, e, admit) v

    admit-IsManager :
        (s : Session Conn) (m : Manages Conn st)
        → IsSession id s
        → IsManager Conn st m
        → IsManager Conn st (admit Conn st id c now s m).2
    unfolding admit
    admit-IsManager s m h v = elim (Bool-cases (is_duplicate now c s)) [
      | inl t ↦ rw (t, admit) v
      | inr t ↦
          admitted s m _ refl t
            (make_room-IsClassed id m.limits c m.overflow_policy _
              (with_key-IsClassed c now s h.classed))
            h v
    ]

    fresh :
        (m : Manages Conn st) (r : Result (Err st) (Session Conn))
        → (add_session Conn st id (new_session id none now) m).0 ≡ r
        → lookup id m.sessions ≡ none
        → IsManager Conn st m
        → IsManager Conn st (enqueue Conn st id c now m).1
    unfolding enqueue enqueue_with_events
    fresh m r z e v =
        let h = new_session-IsSession {Conn = Conn} id none now in
        let kept = add_session-IsManager Conn st id (new_session id none now) m h v in
        elim r
            as (λ r.
              (add_session Conn st id (new_session id none now) m).0 ≡ r
              → IsManager Conn st (enqueue Conn st id c now m).1) [
                | ok s ↦ λ z.
                    rw (e, z, enqueue, enqueue_with_events)
                      (admit-IsManager s _ (rw (add_session-ok Conn st id _ m z) h) kept)
                | err x ↦ λ z. rw (e, z, enqueue, enqueue_with_events) kept
              ]
          z

    pub enqueue-IsManager :
        (m : Manages Conn st)
        → IsManager Conn st m
        → IsManager Conn st (enqueue Conn st id c now m).1
    unfolding enqueue enqueue_with_events
    enqueue-IsManager m v = elim (Option-cases (lookup id m.sessions)) [
      | inr (s, e) ↦
          rw (e, enqueue, enqueue_with_events)
            (admit-IsManager s m (found-IsSession Conn st id m e v) v)
      | inl e ↦ fresh m _ refl e v
    ]
