-- ===== src/Session/Room/Laws.antt =====
-- What the policy "drop_oldest" does to a queue that has no room for a command.
use mathlib.Core.List.{Perm, perm_middle}
use mathlib.Core.List.Perm
use tcpadapter.Common.{
  ℕ, zero, suc, ◌+◌, ◌<◌, ◌≡◌, ◌≢◌, refl, ap, ◌∙◌, true, false, ◌&&◌, List, [], ◌∷◌, ◌++◌, Option,
  length, length-append, All, All-append, All-imp, Bool-cases, inl, inr, arith, ltb, Bytes,
}
use tcpadapter.Common.Int.{ℤ, ◌≤ℤ◌}
use tcpadapter.Common.Perms.{All-Perm, All-append_right}
use native.Mathlib.Bridge.{le_prop}
use tcpadapter.Queue.{
  Command, ControllerQueue, estimated_command_bytes, len, drop_oldest, snapshot, sum_bytes,
  total_estimated_bytes,
}
use tcpadapter.Queue.Sizes.{len-snapshot, total_estimated_bytes-snapshot}
use tcpadapter.Queue.Oldest.{IsOldest, Drops, nothing, dropped, drop_oldest-Drops}
use tcpadapter.Session.Types.{
  OverflowEvent, OverflowPolicy, reject, drop_oldest_policy, unknown_policy,
}
use tcpadapter.Session.Room.{
  Limits, Room, made, refused_bytes, stuck, fits, refuse_alone, drop_until_fits, make_room,
  reject_overflow,
}

-- Not younger than any command of a queue.
abbrev pub NotYounger : ℤ → ControllerQueue → Type 0
NotYounger t q = All (λ x. t ≤ℤ x.created_at) (snapshot q)

-- `q` had to give up commands so that the new one fits `q'`; `n` counts the events.
pub record MadeRoom (l : Limits) (c : Command) (q q' : ControllerQueue) (n : ℕ) : Type 0 where
  pub room : fits l c q' ≡ true
  pub gone : List Command
  pub whole : Perm (snapshot q) (gone ++ snapshot q')
  pub oldest : All (λ d. NotYounger d.created_at q') gone
  pub counted : n ≡ length gone

-- The command alone is over the byte limit, and the queue is empty now.
pub record TooLarge (l : Limits) (c : Command) (q q' : ControllerQueue) (n : ℕ) : Type 0 where
  pub limited : 0 < l.max_queue_bytes
  pub over : l.max_queue_bytes < estimated_command_bytes c
  pub emptied : snapshot q' ≡ []
  pub counted : n ≡ length (snapshot q) + 1

-- A result of the loop on `q`, after `k` events: room, or a command that is too large. The refusal
-- by depth and the end of the fuel are not among them.
pub data Makes (l : Limits) (c : Command) (q : ControllerQueue) (k : ℕ) : Room → Type 0 where
  makes :
      {q' : ControllerQueue} {evs : List OverflowEvent} (n : ℕ)
      → length evs ≡ k + n
      → MadeRoom l c q q' n
      → Makes l c q k (made q' evs)
  refuses :
      {q' : ControllerQueue} {evs : List OverflowEvent} (n : ℕ)
      → length evs ≡ k + n
      → TooLarge l c q q' n
      → Makes l c q k (refused_bytes q' evs)

pub IsOldest-NotYounger :
    {l : List Command} {c : Command} (xs ys : List Command)
    → IsOldest l c xs ys
    → All (λ x. c.created_at ≤ℤ x.created_at) (xs ++ ys)
IsOldest-NotYounger xs ys o = All-append _ xs ys (All-imp (λ x h. omega arith) xs o.before) o.after

module _ {l : Limits} {c d : Command} {q q1 : ControllerQueue} (xs ys : List Command)
    (o : IsOldest (snapshot q) d xs ys) (e : snapshot q1 ≡ xs ++ ys) where
  -- The command that is dropped first belongs to those that the rest of the loop drops.
  drop_before : {q' : ControllerQueue} {n : ℕ} → MadeRoom l c q1 q' n → MadeRoom l c q q' (suc n)
  drop_before m = record {
    room = m.room;
    gone = d ∷ m.gone;
    whole = rw o.place (Perm.trans (perm_middle xs ys) (Perm.cons d (rw (← e) m.whole)));
    oldest = (
      All-append_right _ m.gone _
          (All-Perm _ (λ a. le_prop) m.whole (rw e (IsOldest-NotYounger xs ys o))),
      m.oldest,
    );
    counted = ap suc m.counted;
  }

  drop_in_vain : {q' : ControllerQueue} {n : ℕ} → TooLarge l c q1 q' n → TooLarge l c q q' (suc n)
  drop_in_vain m = record {
    limited = m.limited;
    over = m.over;
    emptied = m.emptied;
    counted = omega (
      arith,
      m.counted,
      ap length e,
      ap length o.place,
      length-append xs ys,
      length-append xs (d ∷ ys),
    );
  }

  drop_first : {k k' : ℕ} {r : Room} → k' ≡ k + 1 → Makes l c q1 k' r → Makes l c q k r
  drop_first z (makes n count m) = makes (suc n) (omega arith) (drop_before m)
  drop_first z (refuses n count m) = refuses (suc n) (omega arith) (drop_in_vain m)

module _ (id : Bytes) (l : Limits) (c : Command) where
  -- With an empty queue the command fits, or is too large by itself.
  refuse_alone-Makes :
      (q : ControllerQueue) (evs : List OverflowEvent)
      → snapshot q ≡ []
      → fits l c q ≡ false
      → Makes l c q (length evs) (refuse_alone id l c q evs)
  unfolding refuse_alone sum_bytes
  refuse_alone-Makes q evs e h =
      let n : len q ≡ 0 = len-snapshot q ∙ ap length e in
      let b : total_estimated_bytes q ≡ 0 = total_estimated_bytes-snapshot q ∙ ap sum_bytes e in
      elim (Bool-cases
        (ltb 0 l.max_queue_bytes && ltb l.max_queue_bytes (estimated_command_bytes c))) [
          | inl t ↦ rw t (
              refuses 1 (length-append evs _) (record {
                limited = ground arith;
                over = ground arith;
                emptied = e;
                counted = omega (arith, ap length e);
              }))
          | inr t ↦ absurd (ground (arith, n, b))
        ]

  -- One round of the loop.
  round-Makes :
      (q : ControllerQueue) (evs : List OverflowEvent) (fuel : ℕ)
      → ((q' : ControllerQueue) (evs' : List OverflowEvent)
          → length (snapshot q') < fuel
          → Makes l c q' (length evs') (drop_until_fits fuel id l c q' evs'))
      → length (snapshot q) < suc fuel
      → fits l c q ≡ false
      → (o : Option (Command × ControllerQueue)) → drop_oldest q ≡ o
      → Drops q o
      → Makes l c q (length evs) (drop_until_fits (suc fuel) id l c q evs)
  unfolding drop_until_fits
  round-Makes q evs fuel ih lt h o e (nothing z) = rw (h, e) (refuse_alone-Makes q evs z h)
  round-Makes q evs fuel ih lt h o e (dropped xs ys old z) =
      rw (h, e)
        (drop_first xs ys old z (length-append evs _) (
          ih _ _ (
            omega (
              arith,
              ap length old.place,
              ap length z,
              length-append xs ys,
              length-append xs (_ ∷ ys),
            ))))

  drop_until_fits-Makes :
      (fuel : ℕ) (q : ControllerQueue) (evs : List OverflowEvent)
      → length (snapshot q) < fuel
      → Makes l c q (length evs) (drop_until_fits fuel id l c q evs)
  unfolding drop_until_fits
  drop_until_fits-Makes zero q evs h = absurd (omega arith)
  drop_until_fits-Makes (suc fuel) q evs h = elim (Bool-cases (fits l c q)) [
    | inl t ↦ rw t (
        makes 0 (omega arith) (record {
          room = t;
          gone = [];
          whole = Perm.refl (snapshot q);
          oldest = tt;
          counted = refl;
        }))
    | inr t ↦ round-Makes q evs fuel (drop_until_fits-Makes fuel) h t _ refl (drop_oldest-Drops q)
  ]

-- With the policy "drop_oldest" the loop ends by itself, and there are two results. Either the queue
-- gave up some commands, each not younger than any command that stays, and the new command fits now;
-- or the new command alone is over the byte limit, and it is refused with the queue emptied. There
-- is one event for each command given up, and one for the refusal.
pub make_room-Makes :
    (id : Bytes) (l : Limits) (c : Command) (q : ControllerQueue)
    → Makes l c q 0 (make_room drop_oldest_policy id l c q)
unfolding make_room
make_room-Makes id l c q = elim (Bool-cases (fits l c q)) [
  | inl t ↦ rw t (
      makes 0 refl (record {
        room = t;
        gone = [];
        whole = Perm.refl (snapshot q);
        oldest = tt;
        counted = refl;
      }))
  | inr t ↦
      rw t
        (rw t at (drop_until_fits-Makes id l c (suc (len q)) q [] (omega (arith, len-snapshot q))))
]

-- Whatever the policy, a command for which room was made fits.
made_fits :
    {l : Limits} {c : Command} {q : ControllerQueue} {q' : ControllerQueue}
    {evs : List OverflowEvent} (r : Room)
    → Makes l c q 0 r
    → r ≡ made q' evs
    → fits l c q' ≡ true
made_fits {q' = q'} r (makes {q' = q1} n z m) e = let same : q1 ≡ q' = cc in rw (← same) m.room
made_fits r (refuses n z m) e = cc

pub make_room-fits :
    (p : OverflowPolicy) (id : Bytes) (l : Limits) (c : Command) (q q' : ControllerQueue)
    (evs : List OverflowEvent)
    → make_room p id l c q ≡ made q' evs
    → fits l c q' ≡ true
unfolding make_room reject_overflow
make_room-fits reject id l c q q' evs h = ground arith
make_room-fits drop_oldest_policy id l c q q' evs h = made_fits _ (make_room-Makes id l c q) h
make_room-fits (unknown_policy p) id l c q q' evs h = ground arith

never_stuck :
    {l : Limits} {c : Command} {q : ControllerQueue} (r : Room) → Makes l c q 0 r → r ≢ stuck
never_stuck r (makes n z m) e = cc
never_stuck r (refuses n z m) e = cc

pub make_room-not_stuck :
    (p : OverflowPolicy) (id : Bytes) (l : Limits) (c : Command) (q : ControllerQueue)
    → make_room p id l c q ≢ stuck
unfolding make_room reject_overflow
make_room-not_stuck reject id l c q = ground arith
make_room-not_stuck drop_oldest_policy id l c q = never_stuck _ (make_room-Makes id l c q)
make_room-not_stuck (unknown_policy p) id l c q = ground arith
