-- ===== src/Server/Link/Identity.antt =====
-- A registered connection keeps its controller.
use tcpadapter.Common.{
  ℕ, ◌≡◌, refl, ap, if◌then◌else◌, ◌+◌, ◌∙◌, Bool, true, false, ◌||◌, Option, some, Result, ok, err,
  Bytes, length, ◌==◌, inl, inr, Bool-cases, Option-cases, Result-cases,
}
use tcpadapter.Common.Int.{ℤ}
use tcpadapter.Common.Dict.{Eq}
use tcpadapter.Protocol.Frame.{Frame, command_id}
use tcpadapter.Protocol.Cmd.{controller_ack}
use tcpadapter.Protocol.AckCode.{accepted}
use tcpadapter.Protocol.Builders.Short.{build_cmd24}
use tcpadapter.Protocol.Messages.Reports.{
  Ack11, parse_status1_payload, parse_ack11_payload, parse_fw_status4_payload, status1_ready_for_fw,
  is_fw_finished, is_fw_failed, interpret_ack11_execution_code,
}
use tcpadapter.Store.{Store}
use tcpadapter.Session.Manager.{touch, set_fw_mode, update_buffer_free}
use tcpadapter.Session.Manager.InFlight.{ack_in_flight, peek_in_flight, process_in_flight}
use tcpadapter.Server.Flush.Calls.{flush_queue}
use tcpadapter.Server.Link.{
  Link, LinkConfig, Turn, stays, closes, SendError, on_frame, register, violated, serve, finish,
  process, on_status1, on_ack11, on_fw_status4, ended, progressed, acknowledged, fw_mode_then, send,
  ack_frame, note, telemetry,
}

module _ {Conn : Type 0} {st : Store} {N : Type 0} ⦃e : Eq Conn⦄ (remote_host : Conn → Bytes)
    (write : Conn → ℕ → Bytes → Option N) (cfg : LinkConfig) (conn : Conn) where
  -- Registration, controller and layout of the frames are those of `l`.
  abbrev pub Same : Link Conn st N → Link Conn st N → Type 0
  Same l g =
      (g.registered ≡ l.registered)
      × (g.controller_id ≡ l.controller_id)
      × (g.frame_mode ≡ l.frame_mode)

  abbrev pub Keeps : Link Conn st N → Turn Conn st N → Type 0
  Keeps l (stays g) = Same l g
  Keeps l (closes g) = Same l g

  Keeps-trans : (l g : Link Conn st N) (t : Turn Conn st N) → Same l g → Keeps g t → Keeps l t
  Keeps-trans l g (stays k) (a, b, c) (x, y, z) = (x ∙ a, y ∙ b, z ∙ c)
  Keeps-trans l g (closes k) (a, b, c) (x, y, z) = (x ∙ a, y ∙ b, z ∙ c)

  process-Same : (now : ℤ) (l : Link Conn st N) → Same l (process remote_host write cfg conn now l)
  unfolding process
  process-Same now l =
      elim (Result-cases
        (process_in_flight Conn st l.controller_id now (some cfg.resolver) l.sessions).1) [
          | inl (u, h) ↦ rw (process, h) (refl, refl, refl)
          | inr (x, h) ↦ rw (process, h) (refl, refl, refl)
        ]

  finish-Keeps :
      (now : ℤ) (id : ℕ) (payload : Bytes) (l : Link Conn st N)
      → Keeps l (finish remote_host write cfg conn now id payload l)
  unfolding finish
  finish-Keeps now id payload l =
      let p =
        process remote_host write cfg conn now
          (note remote_host write cfg conn (telemetry l.controller_id id payload) l) in
      let same =
        process-Same now
          (note remote_host write cfg conn (telemetry l.controller_id id payload) l) in
      elim (Result-cases
        (flush_queue Conn st (λ c n. write c (length p.wire + n)) p.controller_id now
          p.sessions).0) [ inl (u, h) ↦ rw (Keeps, h) same | inr (x, h) ↦ rw (Keeps, h) same ]

  fw_mode_then-Keeps :
      (on : Bool) (now : ℤ) (id : ℕ) (payload : Bytes) (l : Link Conn st N)
      → Keeps l (fw_mode_then remote_host write cfg conn on now id payload l)
  fw_mode_then-Keeps on now id payload l =
      elim (Result-cases (set_fw_mode Conn st l.controller_id on l.sessions).0) [
        | inl (u, h) ↦ rw (Keeps, h) (finish-Keeps now id payload _)
        | inr (x, h) ↦ rw (Keeps, h) (refl, refl, refl)
      ]

  abbrev SameIfSent : Link Conn st N → Result (SendError N) (Link Conn st N) → Type 0
  SameIfSent l (ok g) = Same l g
  SameIfSent l (err x) = Unit

  send-Same :
      (bytes : Result (SendError N) Bytes) (l : Link Conn st N)
      → SameIfSent l (send remote_host write cfg conn bytes l)
  send-Same (err x) l = tt
  send-Same (ok b) l = elim (Option-cases (write conn (length l.wire) b)) [
    | inl w ↦ rw (SameIfSent, w) (refl, refl, refl)
    | inr (x, w) ↦ rw (SameIfSent, w) tt
  ]

  on_status1-Keeps :
      (now : ℤ) (f : Frame) (l : Link Conn st N)
      → Keeps l (on_status1 remote_host write cfg conn now f l)
  unfolding on_status1
  on_status1-Keeps now f l = elim (Result-cases (parse_status1_payload f.payload)) [
    | inr (x, p) ↦ rw (Keeps, p) (finish-Keeps now 2 f.payload l)
    | inl (s, p) ↦
        let l1 : Link Conn st N = record l {
          last_heartbeat = now;
          sessions = update_buffer_free Conn st l.controller_id s.buffer_free l.sessions;
        } in
        let frame_bytes = ack_frame f.mode f.seq controller_ack (build_cmd24 f.seq accepted) in
        let same = send-Same frame_bytes l1 in
        elim (Result-cases (send remote_host write cfg conn frame_bytes l1)) [
          | inr (x, h) ↦ rw (Keeps, p, h) (refl, refl, refl)
          | inl (l2, h) ↦
              let here : Same l l2 = rw (SameIfSent, h) at same in
              elim (Bool-cases (status1_ready_for_fw s.flags)) [
                | inl r ↦
                    rw (Keeps, p, h, r)
                      (Keeps-trans l l2 _ here (fw_mode_then-Keeps true now 2 f.payload l2))
                | inr r ↦
                    rw (Keeps, p, h, r) (Keeps-trans l l2 _ here (finish-Keeps now 2 f.payload l2))
              ]
        ]
  ]

  acknowledged-Same :
      (a : Ack11) (l : Link Conn st N) → Same l (acknowledged remote_host write cfg conn a l)
  unfolding acknowledged ended progressed
  acknowledged-Same a l =
      let m = update_buffer_free Conn st l.controller_id a.buffer_free_bytes l.sessions in
      elim (Bool-cases (interpret_ack11_execution_code a.execution_code).terminal) [
        | inl t ↦ elim (Option-cases (ack_in_flight Conn st l.controller_id a.command_seq m).0) [
          | inl n ↦ rw (acknowledged, t, ended, n) (refl, refl, refl)
          | inr (c, n) ↦ rw (acknowledged, t, ended, n) (refl, refl, refl)
        ]
        | inr t ↦ elim (Option-cases (peek_in_flight Conn st l.controller_id a.command_seq m)) [
          | inl n ↦ rw (acknowledged, t, progressed, n) (refl, refl, refl)
          | inr (c, n) ↦ rw (acknowledged, t, progressed, n) (refl, refl, refl)
        ]
      ]

  on_ack11-Keeps :
      (now : ℤ) (f : Frame) (l : Link Conn st N)
      → Keeps l (on_ack11 remote_host write cfg conn now f l)
  unfolding on_ack11
  on_ack11-Keeps now f l = elim (Result-cases (parse_ack11_payload f.payload)) [
    | inr (x, p) ↦ rw (Keeps, p) (finish-Keeps now 11 f.payload l)
    | inl (a, p) ↦
        rw (Keeps, p)
          (Keeps-trans l (acknowledged remote_host write cfg conn a l) _ (acknowledged-Same a l)
            (finish-Keeps now 11 f.payload (acknowledged remote_host write cfg conn a l)))
  ]

  on_fw_status4-Keeps :
      (now : ℤ) (f : Frame) (l : Link Conn st N)
      → Keeps l (on_fw_status4 remote_host write cfg conn now f l)
  unfolding on_fw_status4
  on_fw_status4-Keeps now f l = elim (Result-cases (parse_fw_status4_payload f.payload)) [
    | inr (x, p) ↦ rw (Keeps, p) (finish-Keeps now 4 f.payload l)
    | inl (s, p) ↦
        elim (Bool-cases (is_fw_finished s.progress_or_err || is_fw_failed s.progress_or_err)) [
          | inl b ↦ rw (Keeps, p, b) (fw_mode_then-Keeps false now 4 f.payload l)
          | inr b ↦ rw (Keeps, p, b) (finish-Keeps now 4 f.payload l)
        ]
  ]

  serve-Keeps :
      (now : ℤ) (id : ℕ) (f : Frame) (l : Link Conn st N)
      → Keeps l (serve remote_host write cfg conn now id f l)
  unfolding serve
  serve-Keeps now id f l =
      let l' : Link Conn st N = record l {
        sessions = touch Conn st l.controller_id now l.sessions;
      } in
      elim (Bool-cases (id == 2)) [
        | inl a ↦ rw (Keeps, a) (on_status1-Keeps now f l')
        | inr a ↦ elim (Bool-cases (id == 11)) [
          | inl b ↦ rw (Keeps, a, b) (on_ack11-Keeps now f l')
          | inr b ↦ elim (Bool-cases (id == 4)) [
            | inl c ↦ rw (Keeps, a, b, c) (on_fw_status4-Keeps now f l')
            | inr c ↦ rw (Keeps, a, b, c) (finish-Keeps now id f.payload l')
          ]
        ]
      ]

  -- Whatever a registered connection receives in a frame, and whether it goes on or is closed, it stays
  -- registered for the same controller with the same layout of frames.
  pub on_frame-Keeps :
      (now : ℤ) (f : Frame) (l : Link Conn st N)
      → l.registered ≡ true
      → Keeps l (on_frame remote_host write cfg conn now f l)
  unfolding on_frame
  on_frame-Keeps now f l there = elim (Option-cases (command_id f.payload)) [
    | inl h ↦
        let answer : Bool → Turn Conn st N =
          λ b. closes (if b then l else violated remote_host write cfg conn now l) in
        let step : on_frame remote_host write cfg conn now f l ≡ answer l.registered =
          rw (on_frame, h) in
        rw (step ∙ ap answer there) (refl, refl, refl)
    | inr (cmd, h) ↦
        let answer : Bool → Turn Conn st N = λ b. elim b [
          | true ↦ serve remote_host write cfg conn now cmd f l
          | false ↦ register remote_host write cfg conn now cmd f l
        ] in
        let step : on_frame remote_host write cfg conn now f l ≡ answer l.registered =
          rw (on_frame, h) in
        rw (step ∙ ap answer there) (serve-Keeps now cmd f l)
  ]
