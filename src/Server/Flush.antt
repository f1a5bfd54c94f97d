-- ===== src/Server/Flush.antt =====
-- `flushQueue` of internal/server/server.go: the queued commands of a controller that are sent now.
-- The queue that the loop works on is the session's own, by a pointer; the loop has it as a value and
-- hands it to each call of the manager. The loop is one step: no other goroutine pushes meanwhile, and
-- the time is the same throughout.
pub mod Calls
pub mod Accounts
pub mod Laws
pub mod Rounds
pub mod Delivery
use tcpadapter.Common.{
  ℕ, zero, suc, ◌-◌, ◌%◌, ◌/◌, Bool, true, false, not, ◌&&◌, ◌||◌, List, [], ◌∷◌, ◌++◌, Option,
  none, some, Result, ok, err, length, ltb, leb, ◌==◌, if◌then◌else◌, Bytes,
}
use tcpadapter.Common.Int.{ℤ, pos, pos_part, leb_ℤ}
use tcpadapter.Protocol.Frame.{FrameMode, FrameError, encode_frame}
use tcpadapter.Protocol.Payload.Faults.{Fault}
use tcpadapter.Protocol.Payload.Validate.{validate_server_command_payload}
use tcpadapter.Queue.{
  Command, ControllerQueue, expired, push, pop_next, drain_expired, len, has_fw, has_sync,
}
use tcpadapter.Server.Policy.{command_allowed_in_modes}

-- `ttlToWire`: whole seconds, at least one, and 255 for no end.
unfoldable pub ttl_to_wire : ℤ → ℕ
ttl_to_wire ttl =
    let whole = pos_part ttl / 1_000_000_000 in
    let sec = if whole == 0 then 1 else whole in
    if leb_ℤ ttl (pos 0) then 255 else if ltb 250 sec then 255 else sec % 256

-- The methods of the manager that the loop calls, with the controller's id and the time put in; each
-- takes the queue as it is then.
pub record SessionCalls (S E : Type 0) : Type 0 where
  pub next_command_seq : ControllerQueue → S → Result E ℕ × S
  pub register_in_flight : ControllerQueue → ℕ → Command → S → Result E (Unit {0}) × S
  pub set_sync_mode : ControllerQueue → Bool → S → Result E (Unit {0}) × S
  pub set_fw_mode : ControllerQueue → Bool → S → Result E (Unit {0}) × S
  pub ack_sent : ControllerQueue → S → Result E (Unit {0}) × S

-- Why a command failed.
pub data Cause (E N : Type 0) : Type 0 where
  invalid_payload : Fault → Cause E N
  not_encoded : FrameError → Cause E N
  not_written : N → Cause E N
  refused : E → Cause E N

-- The acknowledgement events that are published.
pub data Event (E N : Type 0) : Type 0 where
  expired_event : Command → Event E N
  failed_event : Command → Cause E N → Event E N
  accepted_event : Command → ℕ → Event E N

-- What `flushQueue` returns where it returns an error.
pub data FlushError (E N : Type 0) : Type 0 where
  by_session : E → FlushError E N
  by_network : N → FlushError E N
  -- No error of the program: the fuel of the loop ran out.
  flush_out_of_fuel : FlushError E N

-- The variables of the loop: the queue, the state of the sessions, the modes of `dctx`, `remaining`,
-- the frames that have been written and the events published, first one first.
pub record Flush (S E N : Type 0) : Type 0 where
  pub queue : ControllerQueue
  pub sessions : S
  pub fw_mode : Bool
  pub sync_mode : Bool
  pub remaining : ℕ
  pub wire : List Bytes
  pub events : List (Event E N)

-- How one pass over the queue ends: a command was sent; none can be sent; the budget does not allow
-- the next; or an error.
pub data Pass (S E N : Type 0) : Type 0 where
  sent none_left over_budget : Flush S E N → Pass S E N
  broken : FlushError E N → Flush S E N → Pass S E N

-- What becomes of one command: `continue` with the skipped commands, or the end of the pass.
pub data Taken (S E N : Type 0) : Type 0 where
  goes_on : Flush S E N → List Command → Taken S E N
  ends : Pass S E N → Taken S E N

-- `for _, sCmd := range skipped { dctx.Queue.Push(sCmd) }`
unfoldable pub push_all : ControllerQueue → List Command → ControllerQueue
push_all q [] = q
push_all q (c ∷ cs) = push_all (push q c) cs

module _ {S E N : Type 0} where
  abbrev pub publish : Event E N → Flush S E N → Flush S E N
  publish e f = record f { events = f.events ++ e ∷ [] }

  abbrev pub put_back : List Command → Flush S E N → Flush S E N
  put_back skipped f = record f { queue = push_all f.queue skipped }

  abbrev pub report_expired : List Command → Flush S E N → Flush S E N
  report_expired [] f = f
  report_expired (c ∷ cs) f = report_expired cs (publish (expired_event c) f)

-- `if maxBudget <= 0 { maxBudget = 1500 }`
abbrev pub max_budget : ℕ → ℕ
max_budget buffer_free = if buffer_free == 0 then 1500 else buffer_free

-- `write n frame` is what `Conn.Write` answers for the frame after `n` others.
module _ {S E N : Type 0} (calls : SessionCalls S E) (write : ℕ → Bytes → Option N)
    (mode : FrameMode) (now : ℤ) where
  -- The end of a pass with an error of the sessions, for the command that was being sent.
  abbrev fails : E → Command → Flush S E N → Pass S E N
  fails e c f = broken (by_session e) (publish (failed_event c (refused e)) f)

  -- `remaining -= len(frameBytes)`, the event, and `AckSent`.
  unfoldable pub accept : ℕ → Command → Bytes → List Command → Flush S E N → Pass S E N
  unfolding push_all
  accept seq c frame skipped f =
      let f' =
        publish (accepted_event c seq) (record f { remaining = f.remaining - length frame }) in
      let (r, s) = calls.ack_sent f'.queue f'.sessions in
      let g = record f' { sessions = s } in
      elim r [ ok _ ↦ sent (put_back skipped g) | err e ↦ fails e c g ]

  -- Firmware mode for command 19; the error does not put the skipped commands back.
  unfoldable pub enter_fw : ℕ → Command → Bytes → List Command → Flush S E N → Pass S E N
  unfolding accept
  enter_fw seq c frame skipped f =
      let (r, s) = calls.set_fw_mode f.queue true f.sessions in
      let g = record f { sessions = s } in
      if c.command_id == 19
      then elim r [
        | ok _ ↦ accept seq c frame skipped (record g { fw_mode = true })
        | err e ↦ fails e c g
      ]
      else accept seq c frame skipped f

  -- Synchronisation mode for commands 12 to 16, likewise.
  unfoldable pub enter_modes : ℕ → Command → Bytes → List Command → Flush S E N → Pass S E N
  unfolding enter_fw
  enter_modes seq c frame skipped f =
      let (r, s) = calls.set_sync_mode f.queue true f.sessions in
      let g = record f { sessions = s } in
      if leb 12 c.command_id && leb c.command_id 16
      then elim r [
        | ok _ ↦ enter_fw seq c frame skipped (record g { sync_mode = true })
        | err e ↦ fails e c g
      ]
      else enter_fw seq c frame skipped f

  -- The frame has been written.
  unfoldable pub note_sent : ℕ → Command → Bytes → List Command → Flush S E N → Pass S E N
  unfolding enter_modes push_all
  note_sent seq c frame skipped f =
      let (r, s) = calls.register_in_flight f.queue seq c f.sessions in
      let g = record f { sessions = s; wire = f.wire ++ frame ∷ [] } in
      elim r [ ok _ ↦ enter_modes seq c frame skipped g | err e ↦ fails e c (put_back skipped g) ]

  -- The frame is encoded; a frame over the budget puts the command back, without its number.
  unfoldable pub send_frame : ℕ → Command → Bytes → List Command → Flush S E N → Pass S E N
  unfolding note_sent push_all
  send_frame seq c frame skipped f =
      if ltb f.remaining (length frame)
      then over_budget (put_back skipped (record f { queue = push f.queue c }))
      else elim (write (length f.wire) frame) [
        | some x ↦
            broken (by_network x) (put_back skipped (publish (failed_event c (not_written x)) f))
        | none ↦ note_sent seq c frame skipped f
      ]

  unfoldable pub send_numbered : ℕ → Command → List Command → Flush S E N → Taken S E N
  unfolding send_frame ttl_to_wire
  send_numbered seq c skipped f =
      let c' = record c { retry_seq = 0 } in
      elim (encode_frame (record {
        ttl = ttl_to_wire c.ttl;
        seq = seq;
        payload = c.command_id ∷ c.payload;
        mode = mode;
      })) [
        | err x ↦ goes_on (publish (failed_event c' (not_encoded x)) f) skipped
        | ok frame ↦ ends (send_frame seq c' frame skipped f)
      ]

  -- The number of the last time, or a new one; without one the command is dropped.
  unfoldable pub send_one : Command → List Command → Flush S E N → Taken S E N
  unfolding send_numbered push_all
  send_one c skipped f =
      let (r, s) = calls.next_command_seq f.queue f.sessions in
      if c.retry_seq == 0
      then elim r [
        | ok seq ↦ send_numbered seq c skipped (record f { sessions = s })
        | err e ↦ ends (broken (by_session e) (put_back skipped (record f { sessions = s })))
      ]
      else send_numbered c.retry_seq c skipped f

  unfoldable pub take_one : Command → List Command → Flush S E N → Taken S E N
  unfolding send_one validate_server_command_payload
  take_one c skipped f =
      if expired now c
      then goes_on (publish (expired_event c) f) skipped
      else if not (command_allowed_in_modes c.command_id f.fw_mode f.sync_mode)
      then goes_on f (skipped ++ c ∷ [])
      else elim (validate_server_command_payload c.command_id c.payload) [
        | err x ↦ goes_on (publish (failed_event c (invalid_payload x)) f) skipped
        | ok _ ↦ send_one c skipped f
      ]

  -- `for i := 0; i < scan; i++`
  unfoldable pub scan : ℕ → List Command → Flush S E N → Pass S E N
  unfolding take_one push_all
  scan zero skipped f = none_left (put_back skipped f)
  scan (suc n) skipped f = elim (pop_next f.fw_mode f.sync_mode f.queue) [
    | none ↦ none_left (put_back skipped f)
    | some (c, q) ↦ elim (take_one c skipped (record f { queue = q })) [
      | goes_on g skipped' ↦ scan n skipped' g
      | ends p ↦ p
    ]
  ]

  -- The modes are left once their buffers are empty.
  unfoldable pub leave_sync : Flush S E N → Result (FlushError E N) (Unit {0}) × Flush S E N
  unfolding has_sync
  leave_sync f =
      let (r, s) = calls.set_sync_mode f.queue false f.sessions in
      let g = record f { sessions = s } in
      if f.sync_mode && not (has_sync f.queue)
      then elim r [
        | ok _ ↦ (ok tt, record g { sync_mode = false })
        | err e ↦ (err (by_session e), g)
      ]
      else (ok tt, f)

  unfoldable pub leave_fw : Flush S E N → Result (FlushError E N) (Unit {0}) × Flush S E N
  unfolding has_fw
  leave_fw f =
      let (r, s) = calls.set_fw_mode f.queue false f.sessions in
      let g = record f { sessions = s } in
      if f.fw_mode && not (has_fw f.queue)
      then elim r [ ok _ ↦ (ok tt, record g { fw_mode = false }) | err e ↦ (err (by_session e), g) ]
      else (ok tt, f)

  -- `for remaining > 0`
  unfoldable pub rounds : ℕ → Flush S E N → Result (FlushError E N) (Unit {0}) × Flush S E N
  unfolding scan leave_sync leave_fw drain_expired len
  rounds zero f = (err flush_out_of_fuel, f)
  rounds (suc fuel) f =
      let (q, gone) = drain_expired now f.queue in
      let g = report_expired gone (record f { queue = q }) in
      elim (ltb 0 f.remaining && ltb 0 (len q)) [
        | false ↦ (ok tt, if ltb 0 f.remaining then g else f)
        | true ↦ elim (scan (len q) [] g) [
          | none_left h ↦ (ok tt, h)
          | over_budget h ↦ (ok tt, h)
          | broken e h ↦ (err e, h)
          | sent h ↦
              let (r, h1) = leave_sync h in
              elim r [
                | err e ↦ (err e, h1)
                | ok _ ↦
                    let (r', h2) = leave_fw h1 in
                    elim r' [ err e ↦ (err e, h2) | ok _ ↦ rounds fuel h2 ]
              ]
        ]
      ]

  -- From the budget on; each round that goes on has sent at least a byte.
  unfoldable pub flush :
      ControllerQueue → S → Bool → Bool → ℕ → Result (FlushError E N) (Unit {0}) × Flush S E N
  unfolding rounds
  flush q s fw_mode sync_mode buffer_free = rounds (suc (max_budget buffer_free)) (record {
    queue = q;
    sessions = s;
    fw_mode = fw_mode;
    sync_mode = sync_mode;
    remaining = max_budget buffer_free;
    wire = [];
    events = [];
  })
