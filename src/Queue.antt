-- ===== src/Queue.antt =====
-- internal/queue/queue.go: the pending commands of one controller.
-- Each method runs under the queue's mutex, so it is one step from queue to queue. Go strings are
-- their bytes; `time.Time` and `time.Duration` are integers, in nanoseconds.
pub mod Drain
pub mod Pop
pub mod Oldest
pub mod Classes
pub mod Sizes
use tcpadapter.Common.{
  ℕ, zero, suc, ◌+◌, Bool, true, false, not, ◌&&◌, ◌||◌, List, [], ◌∷◌, ◌++◌, Option, none, some,
  length, ltb, leb, if◌then◌else◌, Bytes,
}
use tcpadapter.Common.Int.{ℤ, pos, ◌+ℤ◌, ltb_ℤ, leb_ℤ}

-- The four constants, and any other string.
pub data Priority : Type 0 where
  high fw sync query : Priority
  other : Bytes → Priority

pub record Command : Type 0 where
  pub message_id : Bytes
  pub trace_id : Bytes
  pub dedup_key : Bytes
  pub command_id : ℕ
  pub ttl : ℤ
  pub created_at : ℤ
  pub payload : Bytes
  pub priority : Priority
  pub attempts : ℕ
  pub retry_seq : ℕ

abbrev frame_overhead : ℕ
frame_overhead = 11

unfoldable pub estimated_command_bytes : Command → ℕ
estimated_command_bytes c = frame_overhead + length c.payload

-- `c.Expired(now)`
unfoldable pub expired : ℤ → Command → Bool
unfolding ◌+ℤ◌
expired now c = if leb_ℤ c.ttl (pos 0) then false else ltb_ℤ (c.created_at +ℤ c.ttl) now

pub record ControllerQueue : Type 0 where
  pub high : List Command
  pub fw : List Command
  pub sync : List Command
  pub query : List Command

abbrev pub new_controller_queue : ControllerQueue
new_controller_queue = record { high = []; fw = []; sync = []; query = [] }

-- The four buffers, as the source names them in `candidate.buf`.
pub data Buf : Type 0 where
  high_buf fw_buf sync_buf query_buf : Buf

abbrev pub buffer : Buf → ControllerQueue → List Command
buffer high_buf q = q.high
buffer fw_buf q = q.fw
buffer sync_buf q = q.sync
buffer query_buf q = q.query

abbrev pub with_buffer : Buf → ControllerQueue → List Command → ControllerQueue
with_buffer high_buf q cs = record q { high = cs }
with_buffer fw_buf q cs = record q { fw = cs }
with_buffer sync_buf q cs = record q { sync = cs }
with_buffer query_buf q cs = record q { query = cs }

-- The `switch cmd.Priority` of `Push` and `Restore`.
abbrev pub class_of : Priority → Buf
class_of high = high_buf
class_of fw = fw_buf
class_of sync = sync_buf
class_of query = query_buf
class_of (other p) = query_buf

unfoldable pub push : ControllerQueue → Command → ControllerQueue
push q c = let b = class_of c.priority in with_buffer b q (buffer b q ++ c ∷ [])

-- `pop(&buf)`: the first command of a buffer, and the queue without it.
pop_front : Buf → ControllerQueue → List Command → Option (Command × ControllerQueue)
pop_front b q [] = none
pop_front b q (c ∷ rest) = some (c, with_buffer b q rest)

unfoldable pub pop : Buf → ControllerQueue → Option (Command × ControllerQueue)
unfolding pop_front
pop b q = pop_front b q (buffer b q)

-- `if cmd, ok := first; ok { return cmd, true }`, then the rest.
abbrev pub or_else {ℓ} : {A : Type ℓ} → Option A → Option A → Option A
or_else none o = o
or_else (some a) o = some a

-- `PopNext`, which does not use its `now`. `none` is the result `false`, with the queue as it was.
unfoldable pub pop_next : Bool → Bool → ControllerQueue → Option (Command × ControllerQueue)
pop_next fw_mode sync_mode q = or_else (pop high_buf q) (
    if fw_mode
    then pop fw_buf q
    else if sync_mode
    then pop sync_buf q
    else or_else (pop fw_buf q) (or_else (pop sync_buf q) (pop query_buf q)))

-- `drain(in)`: what is kept, and what has expired, both in order.
unfoldable pub drain : ℤ → List Command → List Command × List Command
drain now [] = ([], [])
drain now (c ∷ cs) =
    let (keep, gone) = drain now cs in if expired now c then (keep, c ∷ gone) else (c ∷ keep, gone)

unfoldable pub drain_expired : ℤ → ControllerQueue → ControllerQueue × List Command
drain_expired now q =
    let (h, gone_h) = drain now q.high in
    let (f, gone_f) = drain now q.fw in
    let (s, gone_s) = drain now q.sync in
    let (u, gone_u) = drain now q.query in
    (record { high = h; fw = f; sync = s; query = u }, gone_h ++ gone_f ++ gone_s ++ gone_u)

-- `Len`
unfoldable pub len : ControllerQueue → ℕ
len q = length q.high + length q.fw + length q.sync + length q.query

unfoldable pub snapshot : ControllerQueue → List Command
snapshot q = q.high ++ q.fw ++ q.sync ++ q.query

-- `for _, cmd := range cmds`, from a queue on.
unfoldable pub restore_onto : ControllerQueue → List Command → ControllerQueue
unfolding push
restore_onto q [] = q
restore_onto q (c ∷ cs) = restore_onto (push q c) cs

unfoldable pub restore : List Command → ControllerQueue
unfolding restore_onto
restore cs = restore_onto new_controller_queue cs

unfoldable pub has_fw : ControllerQueue → Bool
has_fw q = ltb 0 (length q.fw)

unfoldable pub has_sync : ControllerQueue → Bool
has_sync q = ltb 0 (length q.sync)

pub record Candidate : Type 0 where
  pub buf : Buf
  pub idx : ℕ
  pub cmd : Command

-- `!pick.ok || c.CreatedAt.Before(pick.cmd.CreatedAt)`
abbrev pub better : Option Candidate → Command → Bool
better none c = true
better (some p) c = ltb_ℤ c.created_at p.cmd.created_at

-- `consider(name, arr)`, from index `i` on.
unfoldable pub consider : Buf → ℕ → List Command → Option Candidate → Option Candidate
consider b i [] pick = pick
consider b i (c ∷ cs) pick =
    consider b (suc i) cs
      (if better pick c then some (record { buf = b; idx = i; cmd = c }) else pick)

-- `removeAt`: an index out of range removes nothing.
unfoldable pub remove_at : ℕ → List Command → List Command
remove_at i [] = []
remove_at zero (c ∷ cs) = cs
remove_at (suc i) (c ∷ cs) = c ∷ remove_at i cs

unfoldable pub pick_oldest : ControllerQueue → Option Candidate
unfolding consider
pick_oldest q =
    consider query_buf 0 q.query
      (consider sync_buf 0 q.sync (consider fw_buf 0 q.fw (consider high_buf 0 q.high none)))

unfoldable pub drop_oldest : ControllerQueue → Option (Command × ControllerQueue)
unfolding pick_oldest remove_at
drop_oldest q = elim (pick_oldest q) [
  | none ↦ none
  | some p ↦ some (p.cmd, with_buffer p.buf q (remove_at p.idx (buffer p.buf q)))
]

unfoldable pub sum_bytes : List Command → ℕ
unfolding estimated_command_bytes
sum_bytes [] = 0
sum_bytes (c ∷ cs) = estimated_command_bytes c + sum_bytes cs

unfoldable pub total_estimated_bytes : ControllerQueue → ℕ
unfolding sum_bytes
total_estimated_bytes q = sum_bytes q.high + sum_bytes q.fw + sum_bytes q.sync + sum_bytes q.query
