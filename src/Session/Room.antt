-- ===== src/Session/Room.antt =====
-- The overflow handling of `enqueueLocked` in internal/session/manager.go.
pub mod Laws
pub mod Reports
pub mod Classes
use tcpadapter.Common.{
  ℕ, zero, suc, ◌+◌, Bool, not, ◌&&◌, List, [], ◌∷◌, ◌++◌, ltb, if◌then◌else◌, some, none, Bytes,
}
use tcpadapter.Queue.{
  Command, ControllerQueue, estimated_command_bytes, len, drop_oldest, total_estimated_bytes,
}
use tcpadapter.Session.Types.{
  OverflowPolicy, reject, drop_oldest_policy, unknown_policy, OverflowEvent, LimitType, depth,
  bytes, Action, rejected, dropped,
}

-- `m.maxQueueDepth` and `m.maxQueueBytes`; 0 is no limit.
pub record Limits : Type 0 where
  pub max_queue_depth : ℕ
  pub max_queue_bytes : ℕ

abbrev pub depth_exceeded : Limits → Command → ControllerQueue → Bool
depth_exceeded l c q = ltb 0 l.max_queue_depth && ltb l.max_queue_depth (len q + 1)

abbrev pub bytes_exceeded : Limits → Command → ControllerQueue → Bool
bytes_exceeded l c q =
    ltb 0 l.max_queue_bytes
    && ltb l.max_queue_bytes (total_estimated_bytes q + estimated_command_bytes c)

abbrev pub fits : Limits → Command → ControllerQueue → Bool
fits l c q = not (depth_exceeded l c q) && not (bytes_exceeded l c q)

-- There is room now, or the command is refused; with the queue and the events so far. `stuck` is
-- the end of the fuel.
pub data Room : Type 0 where
  made refused_depth refused_bytes : ControllerQueue → List OverflowEvent → Room
  stuck : Room

abbrev pub event : Bytes → LimitType → OverflowPolicy → Action → OverflowEvent
event id l p a = record { controller_id = id; limit_type = l; policy = p; action = a }

abbrev limit_type : Limits → Command → ControllerQueue → LimitType
limit_type l c q = if bytes_exceeded l c q then bytes else depth

-- What the loop does when the queue is empty and the command still does not fit.
refuse_alone : Bytes → Limits → Command → ControllerQueue → List OverflowEvent → Room
refuse_alone id l c q evs =
    if ltb 0 l.max_queue_bytes && ltb l.max_queue_bytes (estimated_command_bytes c)
    then refused_bytes q (evs ++ event id bytes drop_oldest_policy rejected ∷ [])
    else refused_depth q (evs ++ event id (limit_type l c q) drop_oldest_policy rejected ∷ [])

-- `for !fits()`, with fuel.
unfoldable pub drop_until_fits :
    ℕ → Bytes → Limits → Command → ControllerQueue → List OverflowEvent → Room
unfolding refuse_alone
drop_until_fits zero id l c q evs = stuck
drop_until_fits (suc fuel) id l c q evs =
    let round : Room = elim (drop_oldest q) [
      | none ↦ refuse_alone id l c q evs
      | some (_, q') ↦
          drop_until_fits fuel id l c q'
            (evs ++ event id (limit_type l c q) drop_oldest_policy dropped ∷ [])
    ] in
    if fits l c q then made q evs else round

-- The policy "reject".
reject_overflow : Bytes → Limits → Command → ControllerQueue → Room
reject_overflow id l c q =
    if bytes_exceeded l c q
    then refused_bytes q (event id bytes reject rejected ∷ [])
    else if depth_exceeded l c q
    then refused_depth q (event id depth reject rejected ∷ [])
    else refused_depth q []

-- The `switch m.overflowPolicy`. One round more than there are commands is fuel enough.
unfoldable pub make_room : OverflowPolicy → Bytes → Limits → Command → ControllerQueue → Room
unfolding drop_until_fits reject_overflow
make_room policy id l c q = if fits l c q then made q [] else elim policy [
  | reject ↦ reject_overflow id l c q
  | drop_oldest_policy ↦ drop_until_fits (suc (len q)) id l c q []
  | unknown_policy _ ↦ refused_depth q []
]
