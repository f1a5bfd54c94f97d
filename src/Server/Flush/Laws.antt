-- ===== src/Server/Flush/Laws.antt =====
-- What a pass over the queue keeps.
use tcpadapter.Common.{
  ℕ, ◌≤◌, ◌≡◌, refl, Bool, true, ◌&&◌, List, ◌∷◌, ◌++◌, Option, ok, length, ltb, leb, ◌==◌, Bytes,
  arith, inl, inr, Bool-cases, Option-cases, Result-cases, fail_if-eq-ok, put_u16,
}
use tcpadapter.Common.Int.{ℤ}
use tcpadapter.Protocol.Frame.{
  FrameMode, Frame, encode_frame, frame_data, checked_part, start_marker,
}
use tcpadapter.Crc.{crc16_modbus}
use tcpadapter.Queue.{Command, push}
use tcpadapter.Server.Flush.{
  Flush, SessionCalls, accepted_event, failed_event, not_encoded, ttl_to_wire, accept, enter_fw,
  enter_modes, note_sent, send_frame, send_numbered, send_one,
}
use tcpadapter.Server.Flush.Accounts.{
  InTransit, Good, GoodTaken, Ready, wire_bytes-append, reported-publish, number-push,
  number-push_all,
}

encode_frame-some : (f : Frame) (b : Bytes) → encode_frame f ≡ ok b → 1 ≤ length b
unfolding encode_frame
encode_frame-some f b h =
    let (a, h1) = (fail_if-eq-ok (length f.payload == 0) _ _).0 h in
    let (c, h2) = (fail_if-eq-ok (ltb 0xFFFF (length (frame_data f))) _ _).0 h1 in
    let same : start_marker ++ checked_part f ++ put_u16 (crc16_modbus (checked_part f)) ≡ b = cc in
    rw (← same) (omega arith)

module _ {S E N : Type 0} (calls : SessionCalls S E) (write : ℕ → Bytes → Option N)
    (mode : FrameMode) (now : ℤ) (p : Command → Bool) (total budget : ℕ) where
  accept-Good :
      (seq : ℕ) (c : Command) (frame : Bytes) (skipped : List Command) (f : Flush S E N)
      → InTransit p total budget c frame skipped f
      → Good p total budget f.remaining (accept calls write mode now seq c frame skipped f)
  unfolding accept
  accept-Good seq c frame skipped f (t, b, small, some_bytes) =
      let queued = number-push_all p f.queue skipped in
      let told = reported-publish p f.events (accepted_event c seq) in
      elim (Result-cases (calls.ack_sent f.queue f.sessions).0) [
        | inl (a, h) ↦ rw (Good, h) ((omega (arith, t), omega arith), omega arith)
        | inr (x, h) ↦ rw (Good, h) (omega arith, λ z. cc)
      ]

  enter_fw-Good :
      (seq : ℕ) (c : Command) (frame : Bytes) (skipped : List Command) (f : Flush S E N)
      → InTransit p total budget c frame skipped f
      → Good p total budget f.remaining (enter_fw calls write mode now seq c frame skipped f)
  unfolding enter_fw
  enter_fw-Good seq c frame skipped f t = elim (Bool-cases (c.command_id == 19)) [
    | inl is ↦ elim (Result-cases (calls.set_fw_mode f.queue true f.sessions).0) [
      | inl (a, h) ↦ rw (Good, is, h) (accept-Good seq c frame skipped _ t)
      | inr (x, h) ↦ rw (Good, is, h) (omega (arith, t), λ z. cc)
    ]
    | inr is ↦ rw (Good, is) (accept-Good seq c frame skipped f t)
  ]

  enter_modes-Good :
      (seq : ℕ) (c : Command) (frame : Bytes) (skipped : List Command) (f : Flush S E N)
      → InTransit p total budget c frame skipped f
      → Good p total budget f.remaining (enter_modes calls write mode now seq c frame skipped f)
  unfolding enter_modes
  enter_modes-Good seq c frame skipped f t =
      elim (Bool-cases (leb 12 c.command_id && leb c.command_id 16)) [
        | inl is ↦ elim (Result-cases (calls.set_sync_mode f.queue true f.sessions).0) [
          | inl (a, h) ↦ rw (Good, is, h) (enter_fw-Good seq c frame skipped _ t)
          | inr (x, h) ↦ rw (Good, is, h) (omega (arith, t), λ z. cc)
        ]
        | inr is ↦ rw (Good, is) (enter_fw-Good seq c frame skipped f t)
      ]

  note_sent-Good :
      (seq : ℕ) (c : Command) (frame : Bytes) (skipped : List Command) (f : Flush S E N)
      → Ready p total budget c skipped f
      → length frame ≤ f.remaining
      → 1 ≤ length frame
      → Good p total budget f.remaining (note_sent calls write mode now seq c frame skipped f)
  unfolding note_sent
  note_sent-Good seq c frame skipped f (t, b) small some_bytes =
      let more = wire_bytes-append f.wire frame in
      elim (Result-cases (calls.register_in_flight f.queue seq c f.sessions).0) [
        | inl (a, h) ↦
            rw (Good, h)
              (enter_modes-Good seq c frame skipped _ (t, omega arith, small, some_bytes))
        | inr (x, h) ↦ rw (Good, h) (omega arith, λ z. cc)
      ]

  send_frame-Good :
      (seq : ℕ) (c : Command) (frame : Bytes) (skipped : List Command) (f : Flush S E N)
      → Ready p total budget c skipped f
      → 1 ≤ length frame
      → Good p total budget f.remaining (send_frame calls write mode now seq c frame skipped f)
  unfolding send_frame
  send_frame-Good seq c frame skipped f t some_bytes =
      let pushed = number-push p f.queue c in
      let queued = number-push_all p (push f.queue c) skipped in
      elim (Bool-cases (ltb f.remaining (length frame))) [
        | inl big ↦ rw (Good, big) (omega (arith, t), t.1)
        | inr fits ↦ elim (Option-cases (write (length f.wire) frame)) [
          | inl w ↦
              rw (Good, fits, w) (note_sent-Good seq c frame skipped f t (ground arith) some_bytes)
          | inr (x, w) ↦ rw (Good, fits, w) (omega (arith, t), λ z. cc)
        ]
      ]

  module _ (blind : (c : Command) → p (record c { retry_seq = 0 }) ≡ p c) where
    send_numbered-Good :
        (seq : ℕ) (c : Command) (skipped : List Command) (f : Flush S E N)
        → Ready p total budget c skipped f
        → GoodTaken p total budget f.remaining (send_numbered calls write mode now seq c skipped f)
    unfolding send_numbered
    send_numbered-Good seq c skipped f t =
        let c' : Command = record c { retry_seq = 0 } in
        let frame : Frame = record {
          ttl = ttl_to_wire c.ttl;
          seq = seq;
          payload = c.command_id ∷ c.payload;
          mode = mode;
        } in
        elim (Result-cases (encode_frame frame)) [
          | inl (b, h) ↦
              rw (GoodTaken, h)
                (send_frame-Good seq c' b skipped f (rw (blind c) t) (encode_frame-some frame b h))
          | inr (x, h) ↦
              rw (GoodTaken, h)
                (
                  (
                    ground (
                      arith,
                      blind c,
                      t,
                      reported-publish p f.events (failed_event c' (not_encoded x)),
                    ),
                    t.1,
                  ),
                  refl,
                )
        ]

    pub send_one-Good :
        (c : Command) (skipped : List Command) (f : Flush S E N)
        → Ready p total budget c skipped f
        → GoodTaken p total budget f.remaining (send_one calls write mode now c skipped f)
    unfolding send_one
    send_one-Good c skipped f t = elim (Bool-cases (c.retry_seq == 0)) [
      | inl z ↦ elim (Result-cases (calls.next_command_seq f.queue f.sessions).0) [
        | inl (seq, h) ↦ rw (GoodTaken, z, h) (send_numbered-Good seq c skipped _ t)
        | inr (x, h) ↦ rw (GoodTaken, z, h) (omega (arith, t), λ y. cc)
      ]
      | inr z ↦ rw (GoodTaken, z) (send_numbered-Good c.retry_seq c skipped f t)
    ]
