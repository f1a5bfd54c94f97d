-- ===== src/Session/Manager/InFlight/Laws.antt =====
-- The commands in flight: registering, looking up and acknowledging.
use tcpadapter.Common.{
  ℕ, ◌+◌, ◌≡◌, refl, ◌∙◌, Option, none, some, Bool-cases, Option-cases, inl, inr, arith, ◌==◌,
  if◌then◌else◌, Bytes,
}
use tcpadapter.Common.Int.{ℤ}
use tcpadapter.Common.Dict.{
  lookup, insert, delete, lookup-insert, lookup-delete, lookup-insert_self, bytes_key, nat_eq,
}
use tcpadapter.Queue.{Command}
use tcpadapter.Store.{Store}
use tcpadapter.Session.Types.{Session, InFlightEntry}
use tcpadapter.Session.Manager.{Manages, put_and_persist, snapshot_of}
use tcpadapter.Session.Manager.InFlight.{
  register_in_flight, take_entry, ack_in_flight, peek_in_flight,
}

module _ (Conn : Type 0) (st : Store) (id : Bytes) where
  -- What `PeekInFlight` finds in a session.
  abbrev peek : ℕ → Session Conn → Option (Command × ℕ)
  peek j s = elim (lookup j s.in_flight) [
    | none ↦ none
    | some entry ↦ some (entry.command, entry.attempts)
  ]

  peek_known :
      (s : Session Conn) (j : ℕ) (m : Manages Conn st)
      → lookup id m.sessions ≡ some s
      → peek_in_flight Conn st id j m ≡ peek j s
  unfolding peek_in_flight
  peek_known s j m e = rw (e, peek_in_flight) refl

  peek_put :
      (s : Session Conn) (j : ℕ) (m : Manages Conn st)
      → peek_in_flight Conn st id j (put_and_persist Conn st id s m).1 ≡ peek j s
  unfolding put_and_persist
  peek_put s j m = peek_known s j _ (lookup-insert_self id s m.sessions)

  peek-insert :
      (s : Session Conn) (seq j : ℕ) (v : InFlightEntry)
      → peek j (record s { in_flight = insert seq v s.in_flight })
        ≡ (if seq == j then some (v.command, v.attempts) else peek j s)
  peek-insert s seq j v = elim (Bool-cases (seq == j)) [
    | inl t ↦ rw (lookup-insert seq j v s.in_flight, t, peek) refl
    | inr t ↦ rw (lookup-insert seq j v s.in_flight, t, peek) refl
  ]

  peek-delete :
      (s : Session Conn) (seq j : ℕ)
      → peek j (record s { in_flight = delete seq s.in_flight })
        ≡ (if seq == j then none else peek j s)
  peek-delete s seq j = elim (Bool-cases (seq == j)) [
    | inl t ↦ rw (lookup-delete seq j s.in_flight, t, peek) refl
    | inr t ↦ rw (lookup-delete seq j s.in_flight, t, peek) refl
  ]

  registered :
      (s : Session Conn) (seq : ℕ) (c : Command) (sent_at : ℤ) (m : Manages Conn st)
      → lookup id m.sessions ≡ some s
      → (register_in_flight Conn st id seq c sent_at m).1
        ≡ (put_and_persist Conn st id
            (record s {
              in_flight =
                  insert seq
                    (record {
                      seq = seq;
                      command = c;
                      sent_at = sent_at;
                      attempts = c.attempts + 1;
                    })
                    s.in_flight;
            })
            m).1
  unfolding register_in_flight
  registered s seq c sent_at m e = rw (e, register_in_flight) refl

  -- A command that is registered for a known controller is found under its number with one more attempt, also when the
  -- store could not save it; what is found under the other numbers does not change.
  register_in_flight-peek :
      (s : Session Conn) (seq j : ℕ) (c : Command) (sent_at : ℤ) (m : Manages Conn st)
      → lookup id m.sessions ≡ some s
      → peek_in_flight Conn st id j (register_in_flight Conn st id seq c sent_at m).1
        ≡ (if seq == j then some (c, c.attempts + 1) else peek_in_flight Conn st id j m)
  register_in_flight-peek s seq j c sent_at m e =
      rw
        (
          registered s seq c sent_at m e,
          peek_known s j m e,
          peek_put (record s { in_flight = insert seq _ s.in_flight }) j m,
        )
        (peek-insert s seq j _)

  -- What the store answers when the session is saved without this entry.
  abbrev pub save_without : ℕ → Session Conn → Manages Conn st → Option st.StoreError
  save_without seq s m =
      (st.save_session (snapshot_of (record s { in_flight = delete seq s.in_flight })) m.store).0

  -- A result of `AckInFlight`: no command was found and nothing is done; or one was found and the store
  -- accepts the session without it, so it is returned and gone; or the store refuses, and all stays.
  pub data Acks (seq : ℕ) (m : Manages Conn st)
      : Option (Command × ℕ) × Manages Conn st → Type 0 where
    absent : peek_in_flight Conn st id seq m ≡ none → Acks seq m (none, m)
    acks :
        {x : Command × ℕ} {m' : Manages Conn st} (s : Session Conn)
        → lookup id m.sessions ≡ some s
        → save_without seq s m ≡ none
        → peek_in_flight Conn st id seq m ≡ some x
        → ((j : ℕ)
            → peek_in_flight Conn st id j m'
              ≡ (if seq == j then none else peek_in_flight Conn st id j m))
        → Acks seq m (some x, m')
    put_back :
        {x : Command × ℕ} {m' : Manages Conn st} (s : Session Conn) (e : st.StoreError)
        → lookup id m.sessions ≡ some s
        → save_without seq s m ≡ some e
        → peek_in_flight Conn st id seq m ≡ some x
        → ((j : ℕ) → peek_in_flight Conn st id j m' ≡ peek_in_flight Conn st id j m)
        → Acks seq m (none, m')

  peek_back :
      (s : Session Conn) (seq j : ℕ) (entry : InFlightEntry)
      → lookup seq s.in_flight ≡ some entry
      → peek j (record s { in_flight = insert seq entry (delete seq s.in_flight) }) ≡ peek j s
  peek_back s seq j entry e = elim (Bool-cases (seq == j)) [
    | inl t ↦
        let same : seq ≡ j = ground arith in
        rw (lookup-insert seq j entry (delete seq s.in_flight), t, ← same, e, peek) refl
    | inr t ↦
        rw
          (
            lookup-insert seq j entry (delete seq s.in_flight),
            lookup-delete seq j s.in_flight,
            t,
            peek,
          )
          refl
  ]

  take_entry-Acks :
      (s : Session Conn) (seq : ℕ) (entry : InFlightEntry) (m : Manages Conn st)
      → lookup id m.sessions ≡ some s
      → lookup seq s.in_flight ≡ some entry
      → Acks seq m (take_entry Conn st id seq s entry m)
  unfolding take_entry put_and_persist
  take_entry-Acks s seq entry m e f =
      let s' : Session Conn = record s { in_flight = delete seq s.in_flight } in
      let there : peek_in_flight Conn st id seq m ≡ some (entry.command, entry.attempts) =
        rw (peek_known s seq m e, f, peek) refl in
      elim (Option-cases (save_without seq s m)) [
        | inl z ↦
            rw (z, take_entry)
              (acks s e z there
                (λ j. rw (peek_known s j m e, peek_put s' j m) (peek-delete s seq j)))
        | inr (x, z) ↦
            rw (z, take_entry)
              (put_back s x e z there (λ j.
                rw (peek_known s j m e)
                  (peek_known _ j _ (lookup-insert_self id _ _) ∙ peek_back s seq j entry f)))
      ]

  -- An acknowledgement for a number under which no command is found returns nothing and changes nothing. If one is
  -- found and the store accepts the session without it, that command is returned and not found any more, and
  -- the other numbers are as before. If the store refuses, nothing is returned, and under every number the
  -- same is found as before.
  pub ack_in_flight-Acks :
      (seq : ℕ) (m : Manages Conn st) → Acks seq m (ack_in_flight Conn st id seq m)
  unfolding ack_in_flight peek_in_flight
  ack_in_flight-Acks seq m = elim (Option-cases (lookup id m.sessions)) [
    | inl e ↦ rw (e, ack_in_flight) (absent (rw (e, peek_in_flight) refl))
    | inr (s, e) ↦ elim (Option-cases (lookup seq s.in_flight)) [
      | inl f ↦ rw (e, f, ack_in_flight) (absent (rw (e, f, peek_in_flight) refl))
      | inr (entry, f) ↦ rw (e, f, ack_in_flight) (take_entry-Acks s seq entry m e f)
    ]
  ]
