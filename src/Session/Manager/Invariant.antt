-- ===== src/Session/Manager/Invariant.antt =====
-- The sessions of a manager are well formed, whatever calls it gets.
pub mod Parts
pub mod Admits
pub mod Waits
pub mod Reachable
use tcpadapter.Common.{
  ℕ, suc, ◌+◌, ◌≡◌, refl, sym, ap, ◌∙◌, Bool, true, false, List, [], ◌∷◌, Option, none, some,
  Result, ok, err, All, Bool-cases, Option-cases, inl, inr, arith, leb, ltb, ◌==◌, if◌then◌else◌,
  Bytes,
}
use tcpadapter.Common.Int.{ℤ, ltb_ℤ, ◌-ℤ◌}
use tcpadapter.Common.Dict.{Eq, Dict, lookup, insert, delete, bytes_key, bytes_eq_iff, nat_eq}
use tcpadapter.Common.Dict.Keys.{
  Distinct, insert-All, delete-All, insert-Distinct, delete-Distinct, lookup-All,
}
use tcpadapter.Queue.{Command, ControllerQueue}
use tcpadapter.Queue.Classes.{IsClassed, new_controller_queue-IsClassed}
use tcpadapter.Store.{Store}
use tcpadapter.Session.Types.{store_failed, Session, InFlightEntry}
use tcpadapter.Session.Manager.{
  Err, Manager, Manages, put_session, put_and_persist, is_online, online_connections, attach,
  add_session, create, delete_session, new_session, touch, touch_session, update_and_persist,
  update_only, default_buffer_free, touch_persist_interval,
}
use tcpadapter.Session.Manager.Restore.Laws.{IsNumbered}

-- A session under the key `id`.
pub record IsSession {Conn : Type 0} (id : Bytes) (s : Session Conn) : Type 0 where
  pub named : s.controller_id ≡ id
  pub classed : IsClassed s.queue
  pub distinct : Distinct s.in_flight
  pub numbered : IsNumbered s.in_flight

-- The parts of a session that the invariant reads.
pub same_queue :
    {Conn : Type 0} {id : Bytes} {s s' : Session Conn}
    → IsSession id s
    → (s'.controller_id ≡ s.controller_id)
    → (s'.queue ≡ s.queue)
    → (s'.in_flight ≡ s.in_flight)
    → IsSession id s'
same_queue h e f g = record {
  named = e ∙ h.named;
  classed = rw f h.classed;
  distinct = rw g h.distinct;
  numbered = rw g h.numbered;
}

pub new_session-IsSession :
    {Conn : Type 0} (id : Bytes) (conn : Option Conn) (now : ℤ)
    → IsSession id (new_session id conn now)
new_session-IsSession id conn now = record {
  named = refl;
  classed = new_controller_queue-IsClassed;
  distinct = tt;
  numbered = tt;
}

module _ (Conn : Type 0) (st : Store) where
  pub record IsManager (m : Manages Conn st) : Type 0 where
    pub distinct : Distinct m.sessions
    pub all : All (λ p. IsSession p.0 p.1) m.sessions

  pub put_session-IsManager :
      (id : Bytes) (s : Session Conn) (m : Manages Conn st)
      → IsSession id s
      → IsManager m
      → IsManager (put_session Conn st id s m)
  put_session-IsManager id s m h v = record {
    distinct = insert-Distinct id s m.sessions v.distinct;
    all = insert-All _ id s m.sessions h v.all;
  }

  pub put_and_persist-IsManager :
      (id : Bytes) (s : Session Conn) (m : Manages Conn st)
      → IsSession id s
      → IsManager m
      → IsManager (put_and_persist Conn st id s m).1
  unfolding put_and_persist
  put_and_persist-IsManager id s m h v = record {
    distinct = insert-Distinct id s m.sessions v.distinct;
    all = insert-All _ id s m.sessions h v.all;
  }

  pub found-IsSession :
      (id : Bytes) {s : Session Conn} (m : Manages Conn st)
      → lookup id m.sessions ≡ some s
      → IsManager m
      → IsSession id s
  found-IsSession id {s} m e v =
      let (j, same, h) = lookup-All _ id m.sessions v.all e in
      let z : j ≡ id = (bytes_eq_iff j id).0 same in rw (← z) h

  pub add_session-IsManager :
      (id : Bytes) (s : Session Conn) (m : Manages Conn st)
      → IsSession id s
      → IsManager m
      → IsManager (add_session Conn st id s m).1
  unfolding add_session put_and_persist
  add_session-IsManager id s m h v = elim (Option-cases (put_and_persist Conn st id s m).0) [
    | inl z ↦ rw (z, add_session) (put_and_persist-IsManager id s m h v)
    | inr (x, z) ↦
        rw (z, add_session)
          (record {
            distinct = delete-Distinct id _ (insert-Distinct id s m.sessions v.distinct);
            all = delete-All _ id _ (insert-All _ id s m.sessions h v.all);
          })
  ]

  pub add_session-ok :
      (id : Bytes) (s : Session Conn) (m : Manages Conn st) {s' : Session Conn}
      → (add_session Conn st id s m).0 ≡ ok s'
      → s' ≡ s
  unfolding add_session
  add_session-ok id s m {s'} h = elim (Option-cases (put_and_persist Conn st id s m).0) [
    | inl z ↦
        let e : ◌≡◌ {A = Result (Err st) (Session Conn)} (ok s) (ok s') =
          rw (z, add_session) at h in
        cc
    | inr (x, z) ↦
        let e : ◌≡◌ {A = Result (Err st) (Session Conn)} (err (store_failed x)) (ok s') =
          rw (z, add_session) at h in
        cc
  ]

  attach-IsManager :
      (id : Bytes) (conn : Conn) (now : ℤ) (s : Session Conn) (m : Manages Conn st)
      → IsSession id s
      → IsManager m
      → IsManager (attach Conn st id conn now s m).1
  unfolding attach put_and_persist
  attach-IsManager id conn now s m h v =
      let s' : Session Conn = record s {
        conn = some conn;
        last_seen = now;
        buffer_free = if s.buffer_free == 0 then default_buffer_free else s.buffer_free;
      } in
      elim (Option-cases (put_and_persist Conn st id s' m).0) [
        | inl z ↦ rw (z, attach) (put_and_persist-IsManager id s' m (same_queue h refl refl refl) v)
        | inr (x, z) ↦
            rw (z, attach)
              (put_session-IsManager id _ _ (same_queue h refl refl refl)
                (put_and_persist-IsManager id s' m (same_queue h refl refl refl) v))
      ]

  pub create-IsManager :
      (id : Bytes) (conn : Conn) (now : ℤ) (m : Manages Conn st)
      → IsManager m
      → IsManager (create Conn st id conn now m).1
  unfolding create add_session attach
  create-IsManager id conn now m v = elim (Option-cases (lookup id m.sessions)) [
    | inr (s, e) ↦ elim (Bool-cases (is_online s)) [
      | inl t ↦ rw (e, t, create) v
      | inr t ↦ rw (e, t, create) (attach-IsManager id conn now s m (found-IsSession id m e v) v)
    ]
    | inl e ↦ elim (Bool-cases (leb m.max_conns (online_connections m.sessions))) [
      | inl t ↦ rw (e, t, create) v
      | inr t ↦
          rw (e, t, create)
            (add_session-IsManager id _ m (new_session-IsSession id (some conn) now) v)
    ]
  ]

  pub delete_session-IsManager :
      (id : Bytes) (m : Manages Conn st) → IsManager m → IsManager (delete_session Conn st id m)
  unfolding delete_session
  delete_session-IsManager id m v = record {
    distinct = delete-Distinct id m.sessions v.distinct;
    all = delete-All _ id m.sessions v.all;
  }

  pub update_and_persist-IsManager :
      (id : Bytes) (f : Session Conn → Session Conn) (m : Manages Conn st)
      → ((s : Session Conn) → IsSession id s → IsSession id (f s))
      → IsManager m
      → IsManager (update_and_persist Conn st id f m).1
  unfolding update_and_persist
  update_and_persist-IsManager id f m h v = elim (Option-cases (lookup id m.sessions)) [
    | inl e ↦ rw (e, update_and_persist) v
    | inr (s, e) ↦
        rw (e, update_and_persist)
          (put_and_persist-IsManager id (f s) m (h s (found-IsSession id m e v)) v)
  ]

  pub update_only-IsManager :
      (id : Bytes) (f : Session Conn → Session Conn) (m : Manages Conn st)
      → ((s : Session Conn) → IsSession id s → IsSession id (f s))
      → IsManager m
      → IsManager (update_only Conn st id f m)
  unfolding update_only
  update_only-IsManager id f m h v = elim (Option-cases (lookup id m.sessions)) [
    | inl e ↦ rw (e, update_only) v
    | inr (s, e) ↦
        rw (e, update_only) (put_session-IsManager id (f s) m (h s (found-IsSession id m e v)) v)
  ]

  pub touch-IsManager :
      (id : Bytes) (now : ℤ) (m : Manages Conn st)
      → IsManager m
      → IsManager (touch Conn st id now m)
  unfolding touch touch_session
  touch-IsManager id now m v = elim (Option-cases (lookup id m.sessions)) [
    | inl e ↦ rw (e, touch) v
    | inr (s, e) ↦
        let h = found-IsSession id m e v in
        elim (Bool-cases (ltb_ℤ (now -ℤ s.last_touched_persisted_at) touch_persist_interval)) [
          | inl t ↦
              rw (e, touch, t, touch_session)
                (put_session-IsManager id _ m (same_queue h refl refl refl) v)
          | inr t ↦
              rw (e, touch, t, touch_session)
                (put_and_persist-IsManager id _ m (same_queue h refl refl refl) v)
        ]
  ]
