-- ===== src/Session/Manager/Connections.antt =====
-- When `Create` refuses a connection.
use tcpadapter.Common.{
  ◌≤◌, ◌<◌, ◌≡◌, ◌≢◌, ◌↔◌, refl, sym, ap, ◌∙◌, true, false, none, some, Result, ok, err, Bool-cases,
  Option-cases, inl, inr, arith, leb, ◌==◌, if◌then◌else◌, Bytes,
}
use tcpadapter.Common.Int.{ℤ}
use tcpadapter.Common.Dict.{lookup, bytes_key, lookup-insert_self, insert}
use tcpadapter.Store.{Store}
use tcpadapter.Session.Types.{Session, session_exists, max_connections, store_failed}
use tcpadapter.Session.Manager.{
  Manages, Err, create, attach, add_session, put_and_persist, mark_offline, update_and_persist,
  persist, online_connections, is_online, new_session, default_buffer_free,
}

module _ (Conn : Type 0) (st : Store) (id : Bytes) (conn : Conn) (now : ℤ) where
  -- A result of `Create`, by what the manager knows of the controller.
  pub data Creates (m : Manages Conn st)
      : Result (Err st) (Session Conn) × Manages Conn st → Type 0 where
    exists :
        (s : Session Conn)
        → lookup id m.sessions ≡ some s
        → is_online s ≡ true
        → Creates m (err session_exists, m)
    full :
        lookup id m.sessions ≡ none
        → m.max_conns ≤ online_connections m.sessions
        → Creates m (err max_connections, m)
    attached :
        (s : Session Conn)
        → lookup id m.sessions ≡ some s
        → is_online s ≡ false
        → Creates m (attach Conn st id conn now s m)
    added :
        lookup id m.sessions ≡ none
        → online_connections m.sessions < m.max_conns
        → Creates m (add_session Conn st id (new_session id (some conn) now) m)

  create-Creates : (m : Manages Conn st) → Creates m (create Conn st id conn now m)
  unfolding create
  create-Creates m = elim (Option-cases (lookup id m.sessions)) [
    | inr (s, e) ↦ elim (Bool-cases (is_online s)) [
      | inl t ↦ rw (e, t, create) (exists s e t)
      | inr t ↦ rw (e, t, create) (attached s e t)
    ]
    | inl e ↦ elim (Bool-cases (leb m.max_conns (online_connections m.sessions))) [
      | inl t ↦ rw (e, t, create) (full e (ground arith))
      | inr t ↦ rw (e, t, create) (added e (ground arith))
    ]
  ]

  add_session-not_full :
      (s : Session Conn) (m : Manages Conn st)
      → (add_session Conn st id s m).0 ≢ err max_connections
  unfolding add_session
  add_session-not_full s m h = elim (Option-cases (put_and_persist Conn st id s m).0) [
    | inl z ↦
        let e : ◌≡◌ {A = Result (Err st) (Session Conn)} (ok s) (err max_connections) =
          rw (z, add_session) at h in
        cc
    | inr (x, z) ↦
        let e : ◌≡◌ {A = Result (Err st) (Session Conn)} (err (store_failed x))
            (err max_connections) =
          rw (z, add_session) at h in
        cc
  ]

  attach-not_full :
      (s : Session Conn) (m : Manages Conn st)
      → (attach Conn st id conn now s m).0 ≢ err max_connections
  unfolding attach put_and_persist
  attach-not_full s m h =
      let s' : Session Conn = record s {
        conn = some conn;
        last_seen = now;
        buffer_free = if s.buffer_free == 0 then default_buffer_free else s.buffer_free;
      } in
      elim (Option-cases (put_and_persist Conn st id s' m).0) [
        | inl z ↦
            let e : ◌≡◌ {A = Result (Err st) (Session Conn)} (ok s') (err max_connections) =
              rw (z, attach) at h in
            cc
        | inr (x, z) ↦
            let e : ◌≡◌ {A = Result (Err st) (Session Conn)} (err (store_failed x))
                (err max_connections) =
              rw (z, attach) at h in
            cc
      ]

  limit_reached :
      (m : Manages Conn st) (r : Result (Err st) (Session Conn) × Manages Conn st)
      → Creates m r
      → r.0 ≡ err max_connections
      → (lookup id m.sessions ≡ none) × (m.max_conns ≤ online_connections m.sessions)
  limit_reached m r (exists s e t) h = cc
  limit_reached m r (full e t) h = (e, t)
  limit_reached m r (attached s e t) h = absurd (attach-not_full s m h)
  limit_reached m r (added e t) h = absurd (add_session-not_full _ m h)

  -- The limit on connections is applied to controllers that are not known yet, and to no others: the
  -- error is returned exactly if the controller has no session and as many sessions as the limit
  -- are online.
  pub create-max_connections :
      (m : Manages Conn st)
      → ((create Conn st id conn now m).0 ≡ err max_connections)
        ↔ ((lookup id m.sessions ≡ none) × (m.max_conns ≤ online_connections m.sessions))
  unfolding create
  create-max_connections m = (
    limit_reached m _ (create-Creates m),
    λ (e, t).
        let full : leb m.max_conns (online_connections m.sessions) ≡ true = ground arith in
        rw (e, full, create) refl,
  )

-- After `MarkOffline` a session has no connection, whatever the store answers.
pub mark_offline-conn :
    (Conn : Type 0) (st : Store) (id : Bytes) (now : ℤ) (m : Manages Conn st) (s : Session Conn)
    → lookup id (mark_offline Conn st id now m).1.sessions ≡ some s
    → s.conn ≡ none
unfolding mark_offline update_and_persist put_and_persist persist
mark_offline-conn Conn st id now m s h = elim (Option-cases (lookup id m.sessions)) [
  | inl missing ↦
      let still : lookup id m.sessions ≡ some s =
        rw (mark_offline, update_and_persist, missing) at h in
      cc
  | inr (s0, found) ↦
      let s' : Session Conn = record s0 { conn = none; last_seen = now } in
      let kept : lookup id (insert id s' m.sessions) ≡ some s =
        rw (mark_offline, update_and_persist, found) at h in
      let same : some s' ≡ some s = sym (lookup-insert_self id s' m.sessions) ∙ kept in
      let is : s' ≡ s = cc in sym (ap (λ x. x.conn) is)
]
