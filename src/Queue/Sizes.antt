-- ===== src/Queue/Sizes.antt =====
-- `Len` and `TotalEstimatedBytes` as measures of the snapshot.
use tcpadapter.Common.{◌+◌, ◌≡◌, List, [], ◌∷◌, ◌++◌, length, length-append, arith}
use tcpadapter.Queue.{
  Command, ControllerQueue, Buf, high_buf, fw_buf, sync_buf, query_buf, class_of, buffer,
  with_buffer, push, estimated_command_bytes, len, snapshot, sum_bytes, total_estimated_bytes,
}

pub len-snapshot : (q : ControllerQueue) → len q ≡ length (snapshot q)
unfolding len snapshot
len-snapshot q = omega (
  arith,
  length-append (q.high ++ q.fw ++ q.sync) q.query,
  length-append (q.high ++ q.fw) q.sync,
  length-append q.high q.fw,
)

pub sum_bytes-append : (xs ys : List Command) → sum_bytes (xs ++ ys) ≡ sum_bytes xs + sum_bytes ys
unfolding sum_bytes
sum_bytes-append [] ys = omega arith
sum_bytes-append (x ∷ xs) ys = omega (arith, sum_bytes-append xs ys)

pub total_estimated_bytes-snapshot :
    (q : ControllerQueue) → total_estimated_bytes q ≡ sum_bytes (snapshot q)
unfolding total_estimated_bytes snapshot
total_estimated_bytes-snapshot q = omega (
  arith,
  sum_bytes-append (q.high ++ q.fw ++ q.sync) q.query,
  sum_bytes-append (q.high ++ q.fw) q.sync,
  sum_bytes-append q.high q.fw,
)

push_at :
    (b : Buf) (q : ControllerQueue) (c : Command)
    → (len (with_buffer b q (buffer b q ++ c ∷ [])) ≡ len q + 1)
      × (total_estimated_bytes (with_buffer b q (buffer b q ++ c ∷ []))
          ≡ total_estimated_bytes q + estimated_command_bytes c)
unfolding len total_estimated_bytes sum_bytes
push_at high_buf q c =
    (omega (arith, length-append q.high (c ∷ [])), omega (arith, sum_bytes-append q.high (c ∷ [])))
push_at fw_buf q c =
    (omega (arith, length-append q.fw (c ∷ [])), omega (arith, sum_bytes-append q.fw (c ∷ [])))
push_at sync_buf q c =
    (omega (arith, length-append q.sync (c ∷ [])), omega (arith, sum_bytes-append q.sync (c ∷ [])))
push_at query_buf q c = (
  omega (arith, length-append q.query (c ∷ [])),
  omega (arith, sum_bytes-append q.query (c ∷ [])),
)

pub push-sizes :
    (q : ControllerQueue) (c : Command)
    → (len (push q c) ≡ len q + 1)
      × (total_estimated_bytes (push q c) ≡ total_estimated_bytes q + estimated_command_bytes c)
unfolding push
push-sizes q c = push_at (class_of c.priority) q c
