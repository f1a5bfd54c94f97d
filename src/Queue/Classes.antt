-- ===== src/Queue/Classes.antt =====
-- Every buffer holds the commands of its own class, so a saved queue can be told apart again.
use mathlib.Core.List.{append_assoc, append-nil}
use tcpadapter.Common.{
  ℕ, zero, suc, ◌≡◌, refl, sym, ap, ◌∙◌, Bool, true, false, List, [], ◌∷◌, ◌++◌, Option, none, some,
  arith, if◌then◌else◌, All, All-append,
}
use tcpadapter.Common.Int.{ℤ}
use tcpadapter.Queue.{
  Command, ControllerQueue, new_controller_queue, Buf, high_buf, fw_buf, sync_buf, query_buf,
  buffer, with_buffer, class_of, push, pop_front, pop, pop_next, drain, drain_expired, restore_onto,
  restore, remove_at, drop_oldest, pick_oldest, Candidate, or_else, snapshot,
}

abbrev pub OfClass : Buf → List Command → Type 0
OfClass b = All (λ c. class_of c.priority ≡ b)

abbrev pub IsClassed : ControllerQueue → Type 0
IsClassed q = (b : Buf) → OfClass b (buffer b q)

-- What holds of the queue that a removal leaves.
pub data AllLeft (P : ControllerQueue → Type 0) : Option (Command × ControllerQueue) → Type 0 where
  missing : AllLeft P none
  leaves : {c : Command} {q' : ControllerQueue} → P q' → AllLeft P (some (c, q'))

or_else-AllLeft :
    {P : ControllerQueue → Type 0} {o o' : Option (Command × ControllerQueue)}
    → AllLeft P o
    → AllLeft P o'
    → AllLeft P (or_else o o')
or_else-AllLeft missing k = k
or_else-AllLeft (leaves h) k = leaves h

if-AllLeft :
    {P : ControllerQueue → Type 0} (b : Bool) {o o' : Option (Command × ControllerQueue)}
    → AllLeft P o
    → AllLeft P o'
    → AllLeft P (if b then o else o')
if-AllLeft true h k = h
if-AllLeft false h k = k

with_buffer-IsClassed :
    (q : ControllerQueue) (cs : List Command) (b : Buf)
    → IsClassed q
    → OfClass b cs
    → IsClassed (with_buffer b q cs)
with_buffer-IsClassed q cs high_buf v h high_buf = h
with_buffer-IsClassed q cs fw_buf v h fw_buf = h
with_buffer-IsClassed q cs sync_buf v h sync_buf = h
with_buffer-IsClassed q cs query_buf v h query_buf = h
with_buffer-IsClassed q cs high_buf v h b = v b
with_buffer-IsClassed q cs fw_buf v h b = v b
with_buffer-IsClassed q cs sync_buf v h b = v b
with_buffer-IsClassed q cs query_buf v h b = v b

pub new_controller_queue-IsClassed : IsClassed new_controller_queue
new_controller_queue-IsClassed high_buf = tt
new_controller_queue-IsClassed fw_buf = tt
new_controller_queue-IsClassed sync_buf = tt
new_controller_queue-IsClassed query_buf = tt

pub push-IsClassed : (q : ControllerQueue) (c : Command) → IsClassed q → IsClassed (push q c)
unfolding push
push-IsClassed q c v =
    let b = class_of c.priority in
    with_buffer-IsClassed q _ b v (All-append _ (buffer b q) (c ∷ []) (v b) (refl, tt))

pub restore_onto-IsClassed :
    (cs : List Command) {q : ControllerQueue} → IsClassed q → IsClassed (restore_onto q cs)
unfolding restore_onto
restore_onto-IsClassed [] v = v
restore_onto-IsClassed (c ∷ cs) {q} v = restore_onto-IsClassed cs (push-IsClassed q c v)

pub restore-IsClassed : (cs : List Command) → IsClassed (restore cs)
unfolding restore
restore-IsClassed cs = restore_onto-IsClassed cs new_controller_queue-IsClassed

drain-OfClass : (now : ℤ) (b : Buf) (cs : List Command) → OfClass b cs → OfClass b (drain now cs).0
unfolding drain
drain-OfClass now b [] v = tt
drain-OfClass now b (c ∷ cs) v = ground (arith, drain-OfClass now b cs v.1)

pub drain_expired-IsClassed :
    (now : ℤ) (q : ControllerQueue) → IsClassed q → IsClassed (drain_expired now q).0
unfolding drain_expired
drain_expired-IsClassed now q v high_buf = drain-OfClass now high_buf q.high (v high_buf)
drain_expired-IsClassed now q v fw_buf = drain-OfClass now fw_buf q.fw (v fw_buf)
drain_expired-IsClassed now q v sync_buf = drain-OfClass now sync_buf q.sync (v sync_buf)
drain_expired-IsClassed now q v query_buf = drain-OfClass now query_buf q.query (v query_buf)

remove_at-OfClass :
    (i : ℕ) (b : Buf) (cs : List Command) → OfClass b cs → OfClass b (remove_at i cs)
unfolding remove_at
remove_at-OfClass i b [] v = tt
remove_at-OfClass zero b (c ∷ cs) v = v.1
remove_at-OfClass (suc i) b (c ∷ cs) v = (v.0, remove_at-OfClass i b cs v.1)

push-class :
    (b : Buf) (q : ControllerQueue) (c : Command)
    → class_of c.priority ≡ b
    → push q c ≡ with_buffer b q (buffer b q ++ c ∷ [])
unfolding push
push-class b q c e = ap (λ k. with_buffer k q (buffer k q ++ c ∷ [])) e

with_buffer_self : (b : Buf) (q : ControllerQueue) → with_buffer b q (buffer b q ++ []) ≡ q
with_buffer_self high_buf q = rw append-nil
with_buffer_self fw_buf q = rw append-nil
with_buffer_self sync_buf q = rw append-nil
with_buffer_self query_buf q = rw append-nil

with_buffer_twice :
    (b : Buf) (q : ControllerQueue) (xs ys : List Command)
    → (let r = with_buffer b q xs in with_buffer b r (buffer b r ++ ys))
      ≡ with_buffer b q (xs ++ ys)
with_buffer_twice high_buf q xs ys = refl
with_buffer_twice fw_buf q xs ys = refl
with_buffer_twice sync_buf q xs ys = refl
with_buffer_twice query_buf q xs ys = refl

-- Commands of one class, restored onto a queue, go to the end of their buffer in their order.
restore_onto-class :
    (b : Buf) (cs : List Command) (q : ControllerQueue)
    → OfClass b cs
    → restore_onto q cs ≡ with_buffer b q (buffer b q ++ cs)
unfolding restore_onto
restore_onto-class b [] q v = sym (with_buffer_self b q)
restore_onto-class b (c ∷ cs) q v =
    ap (λ r. restore_onto r cs) (push-class b q c v.0)
    ∙ restore_onto-class b cs (with_buffer b q (buffer b q ++ c ∷ [])) v.1
    ∙ with_buffer_twice b q (buffer b q ++ c ∷ []) cs
    ∙ ap (with_buffer b q) (append_assoc (buffer b q) (c ∷ []) cs)

restore_onto-append :
    (xs ys : List Command) (q : ControllerQueue)
    → restore_onto q (xs ++ ys) ≡ restore_onto (restore_onto q xs) ys
unfolding restore_onto
restore_onto-append [] ys q = refl
restore_onto-append (x ∷ xs) ys q = restore_onto-append xs ys (push q x)

-- A queue whose buffers hold their own classes is rebuilt, buffer by buffer and in order, from its
-- snapshot.
pub restore-snapshot : (q : ControllerQueue) → IsClassed q → restore (snapshot q) ≡ q
unfolding restore snapshot
restore-snapshot q v = rw (
  restore_onto-append (q.high ++ q.fw ++ q.sync) q.query new_controller_queue,
  restore_onto-append (q.high ++ q.fw) q.sync new_controller_queue,
  restore_onto-append q.high q.fw new_controller_queue,
  restore_onto-class high_buf q.high new_controller_queue (v high_buf),
  restore_onto-class fw_buf q.fw _ (v fw_buf),
  restore_onto-class sync_buf q.sync _ (v sync_buf),
  restore_onto-class query_buf q.query _ (v query_buf),
)

-- The commands that `PopNext` and `DropOldest` leave stay in the buffers of their classes.
pop-IsClassed :
    (b : Buf) (q : ControllerQueue) (cs : List Command)
    → buffer b q ≡ cs
    → IsClassed q
    → AllLeft IsClassed (pop_front b q cs)
unfolding pop_front
pop-IsClassed b q [] e v = missing
pop-IsClassed b q (c ∷ cs) e v = leaves (with_buffer-IsClassed q cs b v ((rw e at (v b)).1))

pub pop_next-IsClassed :
    (fw_mode sync_mode : Bool) (q : ControllerQueue)
    → IsClassed q
    → AllLeft IsClassed (pop_next fw_mode sync_mode q)
unfolding pop_next pop
pop_next-IsClassed fw_mode sync_mode q v = or_else-AllLeft (from high_buf) (
    if-AllLeft fw_mode (from fw_buf) (
      if-AllLeft sync_mode (from sync_buf)
        (or_else-AllLeft (from fw_buf) (or_else-AllLeft (from sync_buf) (from query_buf)))))
  where
    from : (b : Buf) → AllLeft IsClassed (pop b q)
    from b = pop-IsClassed b q (buffer b q) refl v

drop_picked-IsClassed :
    (q : ControllerQueue) (o : Option Candidate)
    → pick_oldest q ≡ o
    → IsClassed q
    → AllLeft IsClassed (drop_oldest q)
unfolding drop_oldest
drop_picked-IsClassed q none e v = rw (e, drop_oldest) missing
drop_picked-IsClassed q (some p) e v =
    rw (e, drop_oldest)
      (leaves (
        with_buffer-IsClassed q _ p.buf v
          (remove_at-OfClass p.idx p.buf (buffer p.buf q) (v p.buf))))

pub drop_oldest-IsClassed : (q : ControllerQueue) → IsClassed q → AllLeft IsClassed (drop_oldest q)
drop_oldest-IsClassed q = drop_picked-IsClassed q (pick_oldest q) refl
