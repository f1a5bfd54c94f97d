-- ===== src/Server/Link.antt =====
-- `handleConn` of internal/server/server.go: the life of one connection. Its loop is a step from the
-- variables of the function, together with what it shares with the other goroutines, to these or to
-- the end. Log lines, debug events and raw messages are left out, and what is published is noted. One
-- turn of the loop reads the time twice, before it waits for a frame and after.
pub mod Laws
pub mod Identity
use tcpadapter.Common.{
  ℕ, ◌+◌, ◌%◌, ◌/◌, ◌^◌, Bool, true, false, not, ◌&&◌, ◌||◌, List, [], ◌∷◌, ◌++◌, Option, none,
  some, Result, ok, err, ◌>>=◌, wrap_err, length, ltb, ◌==◌, if◌then◌else◌, Bytes,
}
use tcpadapter.Common.Int.{ℤ, pos, pos_part, ◌-ℤ◌, ltb_ℤ}
use tcpadapter.Common.Dict.{Eq}
use tcpadapter.Protocol.Frame.{Frame, FrameMode, FrameError, encode_frame, auto, command_id}
use tcpadapter.Protocol.Cmd.{registration_ack, controller_ack}
use tcpadapter.Protocol.AckCode.{accepted}
use tcpadapter.Protocol.Messages.Registration.{parse_registration_payload, is_empty}
use tcpadapter.Protocol.Messages.Reports.{
  parse_status1_payload, parse_ack11_payload, parse_fw_status4_payload, status1_ready_for_fw,
  is_fw_finished, is_fw_failed, Ack11, Ack11Status, interpret_ack11_execution_code,
}
use tcpadapter.Protocol.Builders.Fields.{BuildError, Built}
use tcpadapter.Protocol.Builders.Short.{build_cmd1, build_cmd24}
use tcpadapter.Queue.{Command}
use tcpadapter.Store.{Store}
use tcpadapter.Session.Types.{InFlightOutcome}
use tcpadapter.Session.Retry.{Resolver}
use tcpadapter.Session.Manager.{
  Manages, Err, create, set_frame_mode, mark_offline, touch, update_buffer_free, set_fw_mode,
}
use tcpadapter.Session.Manager.InFlight.{ack_in_flight, peek_in_flight, process_in_flight}
use tcpadapter.Server.Guard.{Guard, GuardConfig, register_ip_violation, untrack_conn}
use tcpadapter.Server.Flush.{Event}
use tcpadapter.Server.Flush.Calls.{flush_queue}

-- What is published, in the order of the calls.
pub data Note (E N : Type 0) : Type 0 where
  telemetry : Bytes → ℕ → Bytes → Note E N
  terminal_ack : Command → ℕ → Ack11Status → Note E N
  progress_ack : Option Command → ℕ → Ack11Status → Note E N
  outcomes : List InFlightOutcome → Note E N
  flushed : List (Event E N) → Note E N

-- `wire` has the frames that were written to this connection.
pub record Link (Conn : Type 0) (st : Store) (N : Type 0) : Type 0 where
  pub registered : Bool
  pub controller_id : Bytes
  pub frame_mode : FrameMode
  pub last_heartbeat : ℤ
  pub sessions : Manages Conn st
  pub guard : Guard Conn
  pub wire : List Bytes
  pub notes : List (Note (Err st) N)

-- The answers of `ReadFrameWithMode`: a frame, a timeout of the connection, or another error.
pub data Received : Type 0 where
  frame : Frame → Received
  timed_out read_error : Received

pub data Turn (Conn : Type 0) (st : Store) (N : Type 0) : Type 0 where
  stays closes : Link Conn st N → Turn Conn st N

-- The settings of the connection.
pub record LinkConfig : Type 0 where
  pub guard : GuardConfig
  pub heartbeat_timeout : ℤ
  pub resolver : Resolver

pub data SendError (N : Type 0) : Type 0 where
  not_built : BuildError → SendError N
  not_encoded : FrameError → SendError N
  not_sent : N → SendError N

-- `uint32(time.Now().Unix())`, for a time after 1970.
abbrev pub unix_time : ℤ → ℕ
unix_time now = pos_part now / 1_000_000_000 % 2 ^ 32

-- The frame of an acknowledgement, with its command id before the payload.
unfoldable pub ack_frame : {N : Type 0} → FrameMode → ℕ → ℕ → Built → Result (SendError N) Bytes
unfolding encode_frame
ack_frame mode seq id built = do
  payload ← wrap_err not_built built
  wrap_err not_encoded
      (encode_frame (record { ttl = 255; seq = seq; payload = id ∷ payload; mode = mode }))

-- `write c n frame` is what connection `c` answers for the frame after `n` others.
module _ {Conn : Type 0} {st : Store} {N : Type 0} ⦃e : Eq Conn⦄ (remote_host : Conn → Bytes)
    (write : Conn → ℕ → Bytes → Option N) (cfg : LinkConfig) (conn : Conn) where
  abbrev pub violated : ℤ → Link Conn st N → Link Conn st N
  violated now l = record l {
    guard = register_ip_violation cfg.guard (remote_host conn) now l.guard;
  }

  -- `if !registered { s.registerIPViolation(...) }`
  abbrev pub violated_unless_registered : ℤ → Link Conn st N → Link Conn st N
  violated_unless_registered now l = if l.registered then l else violated now l

  abbrev pub send :
      Result (SendError N) Bytes → Link Conn st N → Result (SendError N) (Link Conn st N)
  send bytes l = elim bytes [
    | err x ↦ err x
    | ok b ↦ elim (write conn (length l.wire) b) [
      | some x ↦ err (not_sent x)
      | none ↦ ok (record l { wire = l.wire ++ b ∷ [] })
    ]
  ]

  abbrev pub note : Note (Err st) N → Link Conn st N → Link Conn st N
  note n l = record l { notes = l.notes ++ n ∷ [] }

  -- `processInFlight`, which drops the outcomes if the session could not be saved.
  unfoldable pub process : ℤ → Link Conn st N → Link Conn st N
  unfolding process_in_flight
  process now l =
      let (outs, r, m) =
        process_in_flight Conn st l.controller_id now (some cfg.resolver) l.sessions in
      let l' = record l { sessions = m } in elim r [ ok _ ↦ note (outcomes outs) l' | err _ ↦ l' ]

  -- The end of a turn: telemetry, `processInFlight` and `flushQueue`.
  unfoldable pub finish : ℤ → ℕ → Bytes → Link Conn st N → Turn Conn st N
  unfolding process flush_queue
  finish now id payload l =
      let p = process now (note (telemetry l.controller_id id payload) l) in
      let (r, m, sent, events) =
        flush_queue Conn st (λ c n. write c (length p.wire + n)) p.controller_id now p.sessions in
      let f = note (flushed events) (record p { sessions = m; wire = p.wire ++ sent }) in
      elim r [ ok _ ↦ stays f | err _ ↦ closes f ]

  abbrev pub fw_mode_then : Bool → ℤ → ℕ → Bytes → Link Conn st N → Turn Conn st N
  fw_mode_then on now id payload l =
      let (r, m) = set_fw_mode Conn st l.controller_id on l.sessions in
      elim r [
        | ok _ ↦ finish now id payload (record l { sessions = m })
        | err _ ↦ closes (record l { sessions = m })
      ]

  -- `case 2`
  unfoldable pub on_status1 : ℤ → Frame → Link Conn st N → Turn Conn st N
  unfolding finish set_fw_mode update_buffer_free build_cmd24 ack_frame
  on_status1 now f l = elim (parse_status1_payload f.payload) [
    | err _ ↦ finish now 2 f.payload l
    | ok s ↦
        let l1 = record l {
          last_heartbeat = now;
          sessions = update_buffer_free Conn st l.controller_id s.buffer_free l.sessions;
        } in
        elim (send (ack_frame f.mode f.seq controller_ack (build_cmd24 f.seq accepted)) l1) [
          | err _ ↦ closes l1
          | ok l2 ↦ elim (status1_ready_for_fw s.flags) [
            | true ↦ fw_mode_then true now 2 f.payload l2
            | false ↦ finish now 2 f.payload l2
          ]
        ]
  ]

  -- An end takes the command out of flight.
  unfoldable pub ended : Ack11 → Link Conn st N → Link Conn st N
  unfolding ack_in_flight
  ended a l =
      let (taken, m) = ack_in_flight Conn st l.controller_id a.command_seq l.sessions in
      let l' = record l { sessions = m } in
      elim taken [
        | none ↦ l'
        | some (c, attempts) ↦
            note (terminal_ack c a.command_seq (interpret_ack11_execution_code a.execution_code)) l'
      ]

  -- A report of progress leaves it there.
  unfoldable pub progressed : Ack11 → Link Conn st N → Link Conn st N
  unfolding peek_in_flight
  progressed a l =
      let status = interpret_ack11_execution_code a.execution_code in
      elim (peek_in_flight Conn st l.controller_id a.command_seq l.sessions) [
        | none ↦ note (progress_ack none a.command_seq status) l
        | some (c, attempts) ↦ note (progress_ack (some c) a.command_seq status) l
      ]

  unfoldable pub acknowledged : Ack11 → Link Conn st N → Link Conn st N
  unfolding ended progressed update_buffer_free
  acknowledged a l =
      let l' = record l {
        sessions = update_buffer_free Conn st l.controller_id a.buffer_free_bytes l.sessions;
      } in
      elim ((interpret_ack11_execution_code a.execution_code).terminal) [
        | true ↦ ended a l'
        | false ↦ progressed a l'
      ]

  -- `case 11`
  unfoldable pub on_ack11 : ℤ → Frame → Link Conn st N → Turn Conn st N
  unfolding finish acknowledged
  on_ack11 now f l = elim (parse_ack11_payload f.payload) [
    | err _ ↦ finish now 11 f.payload l
    | ok a ↦ finish now 11 f.payload (acknowledged a l)
  ]

  -- `case 4`
  unfoldable pub on_fw_status4 : ℤ → Frame → Link Conn st N → Turn Conn st N
  unfolding finish set_fw_mode
  on_fw_status4 now f l = elim (parse_fw_status4_payload f.payload) [
    | err _ ↦ finish now 4 f.payload l
    | ok s ↦ elim (is_fw_finished s.progress_or_err || is_fw_failed s.progress_or_err) [
      | true ↦ fw_mode_then false now 4 f.payload l
      | false ↦ finish now 4 f.payload l
    ]
  ]

  -- A frame of a registered controller.
  unfoldable pub serve : ℤ → ℕ → Frame → Link Conn st N → Turn Conn st N
  unfolding on_status1 on_ack11 on_fw_status4 touch
  serve now id f l =
      let l' = record l { sessions = touch Conn st l.controller_id now l.sessions } in
      elim (id == 2) [
        | true ↦ on_status1 now f l'
        | false ↦ elim (id == 11) [
          | true ↦ on_ack11 now f l'
          | false ↦ elim (id == 4) [
            | true ↦ on_fw_status4 now f l'
            | false ↦ finish now id f.payload l'
          ]
        ]
      ]

  -- The session is there; the registration is acknowledged.
  unfoldable pub registration_saved : ℤ → ℕ → Frame → Bytes → Link Conn st N → Turn Conn st N
  unfolding serve set_frame_mode mark_offline build_cmd1 ack_frame
  registration_saved now cmd f id l =
      let l1 = record l {
        frame_mode = f.mode;
        sessions = set_frame_mode Conn st id f.mode l.sessions;
      } in
      let payload =
        build_cmd1 (record { execution_code = accepted; server_time = unix_time now }) in
      elim (send (ack_frame f.mode f.seq registration_ack payload) l1) [
        | err _ ↦ closes (record l1 { sessions = (mark_offline Conn st id now l1.sessions).1 })
        | ok l2 ↦
            serve now cmd f
              (record l2 { registered = true; controller_id = id; last_heartbeat = now })
      ]

  -- The first frame.
  unfoldable pub register : ℤ → ℕ → Frame → Link Conn st N → Turn Conn st N
  unfolding registration_saved create parse_registration_payload
  register now cmd f l =
      if not (cmd == 1)
      then closes (violated now l)
      else elim (parse_registration_payload f.payload) [
        | err _ ↦ closes (violated now l)
        | ok reg ↦
            let (r, m) = create Conn st reg.imei conn now l.sessions in
            let l' = record l { sessions = m } in
            elim r [ err _ ↦ closes l' | ok _ ↦ registration_saved now cmd f reg.imei l' ]
      ]

  unfoldable pub on_frame : ℤ → Frame → Link Conn st N → Turn Conn st N
  unfolding register serve command_id
  on_frame now f l = elim (command_id f.payload) [
    | none ↦ closes (violated_unless_registered now l)
    | some cmd ↦ elim l.registered [ true ↦ serve now cmd f l | false ↦ register now cmd f l ]
  ]

  -- The tests of the time: the window for the registration, and the time since the last heartbeat, which
  -- the code compares twice.
  abbrev is_late : ℤ → ℤ → Link Conn st N → Bool
  is_late before deadline l = not l.registered && ltb_ℤ deadline before

  abbrev is_silent : ℤ → Link Conn st N → Bool
  is_silent before l =
      l.registered
      && ltb_ℤ (pos 0) cfg.heartbeat_timeout
      && not (ltb_ℤ (before -ℤ l.last_heartbeat) cfg.heartbeat_timeout)

  -- One turn of the loop.
  unfoldable pub turn : ℤ → ℤ → ℤ → Received → Link Conn st N → Turn Conn st N
  unfolding on_frame
  turn deadline before now r l = elim (is_late before deadline l) [
    | true ↦ closes (violated before l)
    | false ↦ elim (is_silent before l) [
      | true ↦ closes l
      | false ↦ elim r [
        | timed_out ↦ closes l
        | read_error ↦ closes (violated_unless_registered now l)
        | frame f ↦ on_frame now f l
      ]
    ]
  ]

  -- The deferred function.
  unfoldable pub clean_up : ℤ → Link Conn st N → Link Conn st N
  unfolding mark_offline untrack_conn
  clean_up now l =
      let l' = record l { guard = untrack_conn remote_host cfg.guard conn l.guard } in
      elim (l.registered && not (is_empty l.controller_id)) [
        | true ↦ record l' { sessions = (mark_offline Conn st l.controller_id now l.sessions).1 }
        | false ↦ l'
      ]
