-- ===== src/Session/Manager/Invariant/Waits.antt =====
-- The methods on commands in flight, and `Restore`, keep the sessions well formed.
use tcpadapter.Common.{
  ℕ, ◌≡◌, refl, sym, ◌∙◌, Bool, true, false, List, [], ◌∷◌, Option, Result, ok, err, Option-cases,
  inl, inr, arith, ◌==◌, if◌then◌else◌, Bytes, length,
}
use tcpadapter.Common.Int.{ℤ}
use tcpadapter.Common.Dict.{lookup, delete, bytes_key, nat_eq}
use tcpadapter.Common.Dict.Keys.{
  insert-All, delete-All, insert-Distinct, delete-Distinct, lookup-All,
}
use tcpadapter.Queue.{Command}
use tcpadapter.Queue.Classes.{restore_onto-IsClassed}
use tcpadapter.Store.{Store, SessionSnapshot}
use tcpadapter.Session.Types.{Session, InFlightEntry}
use tcpadapter.Session.Retry.{Resolver, policy_for}
use tcpadapter.Session.Retry.Laws.{process_entries-Accounts}
use tcpadapter.Session.Manager.{Manages, put_and_persist}
use tcpadapter.Session.Manager.InFlight.{
  next_command_seq, register_in_flight, take_entry, ack_in_flight, process_in_flight,
}
use tcpadapter.Session.Manager.Restore.{restore_entries, restored_session, restore_all}
use tcpadapter.Session.Manager.Restore
use tcpadapter.Session.Manager.Invariant.{
  IsSession, IsManager, same_queue, put_session-IsManager, put_and_persist-IsManager,
  found-IsSession,
}
use tcpadapter.Session.Manager.Invariant.Parts.{
  restored_session-IsSession, keep_if-All, keep_if-Distinct,
}

module _ (Conn : Type 0) (st : Store) where
  pub next_command_seq-IsManager :
      (id : Bytes) (m : Manages Conn st)
      → IsManager Conn st m
      → IsManager Conn st (next_command_seq Conn st id m).1
  unfolding next_command_seq
  next_command_seq-IsManager id m v = elim (Option-cases (lookup id m.sessions)) [
    | inl e ↦ rw (e, next_command_seq) v
    | inr (s, e) ↦
        rw (e, next_command_seq)
          (put_and_persist-IsManager Conn st id _ m
            (same_queue (found-IsSession Conn st id m e v) refl refl refl) v)
  ]

  pub register_in_flight-IsManager :
      (id : Bytes) (seq : ℕ) (c : Command) (sent_at : ℤ) (m : Manages Conn st)
      → IsManager Conn st m
      → IsManager Conn st (register_in_flight Conn st id seq c sent_at m).1
  unfolding register_in_flight
  register_in_flight-IsManager id seq c sent_at m v = elim (Option-cases (lookup id m.sessions)) [
    | inl e ↦ rw (e, register_in_flight) v
    | inr (s, e) ↦
        let h = found-IsSession Conn st id m e v in
        rw (e, register_in_flight)
          (put_and_persist-IsManager Conn st id _ m
            (record {
              named = h.named;
              classed = h.classed;
              distinct = insert-Distinct seq _ s.in_flight h.distinct;
              numbered = insert-All _ seq _ s.in_flight refl h.numbered;
            })
            v)
  ]

  take_entry-IsManager :
      (id : Bytes) (seq : ℕ) (s : Session Conn) (entry : InFlightEntry) (m : Manages Conn st)
      → IsSession id s
      → seq ≡ entry.seq
      → IsManager Conn st m
      → IsManager Conn st (take_entry Conn st id seq s entry m).1
  unfolding take_entry
  take_entry-IsManager id seq s entry m h e v =
      let s' : Session Conn = record s { in_flight = delete seq s.in_flight } in
      let h' : IsSession id s' = record {
        named = h.named;
        classed = h.classed;
        distinct = delete-Distinct seq s.in_flight h.distinct;
        numbered = delete-All _ seq s.in_flight h.numbered;
      } in
      let v' = put_and_persist-IsManager Conn st id s' m h' v in
      elim (Option-cases (put_and_persist Conn st id s' m).0) [
        | inl z ↦ rw (z, take_entry) v'
        | inr (x, z) ↦
            rw (z, take_entry)
              (put_session-IsManager Conn st id _ _
                (record {
                  named = h.named;
                  classed = h.classed;
                  distinct = insert-Distinct seq entry _ h'.distinct;
                  numbered = insert-All _ seq entry _ e h'.numbered;
                })
                v')
      ]

  pub ack_in_flight-IsManager :
      (id : Bytes) (seq : ℕ) (m : Manages Conn st)
      → IsManager Conn st m
      → IsManager Conn st (ack_in_flight Conn st id seq m).1
  unfolding ack_in_flight
  ack_in_flight-IsManager id seq m v = elim (Option-cases (lookup id m.sessions)) [
    | inl e ↦ rw (e, ack_in_flight) v
    | inr (s, e) ↦
        let h = found-IsSession Conn st id m e v in
        elim (Option-cases (lookup seq s.in_flight)) [
          | inl f ↦ rw (e, f, ack_in_flight) v
          | inr (entry, f) ↦
              let (j, same, n) = lookup-All _ seq s.in_flight h.numbered f in
              let z : j ≡ seq = ground arith in
              rw (e, f, ack_in_flight) (take_entry-IsManager id seq s entry m h (sym z ∙ n) v)
        ]
  ]

  pub process_in_flight-IsManager :
      (id : Bytes) (now : ℤ) (resolver : Option Resolver) (m : Manages Conn st)
      → IsManager Conn st m
      → IsManager Conn st (process_in_flight Conn st id now resolver m).2
  unfolding process_in_flight
  process_in_flight-IsManager id now resolver m v = elim (Option-cases (lookup id m.sessions)) [
    | inl e ↦ rw (e, process_in_flight) v
    | inr (s, e) ↦
        let h = found-IsSession Conn st id m e v in
        let a = process_entries-Accounts now (policy_for resolver id) s.queue s.in_flight in
        rw (e, process_in_flight)
          (put_and_persist-IsManager Conn st id _ m
            (record {
              named = h.named;
              classed = rw a.queued (restore_onto-IsClassed _ h.classed);
              distinct = rw a.kept (keep_if-Distinct _ s.in_flight h.distinct);
              numbered = rw a.kept (keep_if-All _ _ s.in_flight h.numbered);
            })
            v)
  ]

  if-IsManager :
      (b : Bool) {m m' : Manages Conn st}
      → IsManager Conn st m
      → IsManager Conn st m'
      → IsManager Conn st (if b then m else m')
  if-IsManager true v v' = v
  if-IsManager false v v' = v'

  restore_all-IsManager :
      (snaps : List SessionSnapshot) (n : ℕ) (m : Manages Conn st)
      → IsManager Conn st m
      → IsManager Conn st (restore_all Conn st snaps n m).1
  unfolding restore_all
  restore_all-IsManager [] n m v = v
  restore_all-IsManager (snap ∷ snaps) n m v = restore_all-IsManager snaps _ _ (
      if-IsManager (length snap.controller_id == 0) v (
        put_session-IsManager Conn st snap.controller_id (restored_session snap) m
          (restored_session-IsSession snap) v))

  pub restore-IsManager :
      (m : Manages Conn st) (r : Result st.StoreError (List SessionSnapshot))
      → st.list_sessions m.store ≡ r
      → IsManager Conn st m
      → IsManager Conn st (Restore.restore Conn st m).1
  unfolding Restore.restore
  restore-IsManager m (ok snaps) e v = rw (e, Restore.restore) (restore_all-IsManager snaps 0 m v)
  restore-IsManager m (err x) e v = rw (e, Restore.restore) v
