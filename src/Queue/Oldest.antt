-- ===== src/Queue/Oldest.antt =====
-- `DropOldest`: the search over the four buffers, as a search over the queue's snapshot.
use mathlib.Core.List.{append_assoc, append-nil}
use tcpadapter.Common.{
  ℕ, zero, suc, ◌+◌, ◌<◌, ◌≡◌, refl, sym, ap, List, [], ◌∷◌, ◌++◌, Option, none, some, arith,
  if◌then◌else◌, inl, inr, length, length-append, All, All-append, All-imp, Bool-cases,
}
use tcpadapter.Common.Int.{◌≤ℤ◌, ◌<ℤ◌}
use tcpadapter.Queue.{
  Command, ControllerQueue, Candidate, Buf, high_buf, fw_buf, sync_buf, query_buf, buffer,
  with_buffer, better, consider, pick_oldest, remove_at, drop_oldest, snapshot,
}

-- `c` stands in `l` between `xs` and `ys`; all before it are younger, and none behind it is older.
pub record IsOldest (l : List Command) (c : Command) (xs ys : List Command) : Type 0 where
  pub place : l ≡ xs ++ c ∷ ys
  pub before : All (λ x. c.created_at <ℤ x.created_at) xs
  pub after : All (λ y. c.created_at ≤ℤ y.created_at) ys

-- Where a buffer begins in the snapshot.
abbrev offset : Buf → ControllerQueue → ℕ
offset high_buf q = 0
offset fw_buf q = length q.high
offset sync_buf q = length q.high + length q.fw
offset query_buf q = length q.high + length q.fw + length q.sync

-- The best of the commands `l` that were considered so far.
record Found (q : ControllerQueue) (l : List Command) (p : Candidate) : Type 0 where
  xs : List Command
  ys : List Command
  oldest : IsOldest l p.cmd xs ys
  position : length xs ≡ offset p.buf q + p.idx
  inside : p.idx < length (buffer p.buf q)

abbrev Best : ControllerQueue → List Command → Option Candidate → Type 0
Best q l none = l ≡ []
Best q l (some p) = Found q l p

younger-All :
    (c : Command) (l : List Command) (p : Candidate) (xs ys : List Command)
    → IsOldest l p.cmd xs ys
    → c.created_at <ℤ p.cmd.created_at
    → All (λ x. c.created_at <ℤ x.created_at) l
younger-All c l p xs ys o h = rw o.place (
    All-append _ xs (p.cmd ∷ ys) (All-imp (λ x k. omega arith) xs o.before)
      (h, All-imp (λ y k. omega arith) ys o.after))

module _ (q : ControllerQueue) (b : Buf) where
  consider_step :
      (l : List Command) (i : ℕ) (c : Command) (pick : Option Candidate)
      → length l ≡ offset b q + i
      → i < length (buffer b q)
      → Best q l pick
      → Best q
          (l ++ c ∷ [])
          (if better pick c then some (record { buf = b; idx = i; cmd = c }) else pick)
  consider_step l i c none e h best = record {
    xs = l;
    ys = [];
    oldest = record { place = refl; before = rw best tt; after = tt };
    position = e;
    inside = h;
  }
  consider_step l i c (some p) e h best = elim (Bool-cases (better (some p) c)) [
    | inl t ↦ rw t (record {
      xs = l;
      ys = [];
      oldest = record {
        place = refl;
        before = younger-All c l p best.xs best.ys best.oldest (ground arith);
        after = tt;
      };
      position = e;
      inside = h;
    })
    | inr t ↦ rw t (record {
      xs = best.xs;
      ys = best.ys ++ c ∷ [];
      oldest = record {
        place = rw (best.oldest.place, append_assoc best.xs) refl;
        before = best.oldest.before;
        after = All-append _ best.ys (c ∷ []) best.oldest.after (ground arith, tt);
      };
      position = best.position;
      inside = best.inside;
    })
  ]

  consider-Best :
      (l : List Command) (i : ℕ) (cs : List Command) (pick : Option Candidate)
      → length l ≡ offset b q + i
      → i + length cs ≡ length (buffer b q)
      → Best q l pick
      → Best q (l ++ cs) (consider b i cs pick)
  unfolding consider
  consider-Best l i [] pick e h best = rw append-nil best
  consider-Best l i (c ∷ cs) pick e h best = rw (append_assoc l (c ∷ []) cs) at (
      consider-Best (l ++ c ∷ []) (suc i) cs _ (omega (arith, length-append l (c ∷ [])))
        (omega arith) (consider_step l i c pick e (omega arith) best))

pick_oldest-Best : (q : ControllerQueue) → Best q (snapshot q) (pick_oldest q)
unfolding pick_oldest snapshot
pick_oldest-Best q =
    consider-Best q query_buf (q.high ++ q.fw ++ q.sync) 0 q.query _
      (omega (arith, length-append (q.high ++ q.fw) q.sync, length-append q.high q.fw))
      (omega arith)
      (consider-Best q sync_buf (q.high ++ q.fw) 0 q.sync _
        (omega (arith, length-append q.high q.fw)) (omega arith)
        (consider-Best q fw_buf q.high 0 q.fw _ (omega arith) (omega arith)
          (consider-Best q high_buf [] 0 q.high none (omega arith) (omega arith) refl)))

-- Removal by a position in the snapshot.
remove_at-left :
    (i : ℕ) (xs ys : List Command) → i < length xs → remove_at i (xs ++ ys) ≡ remove_at i xs ++ ys
unfolding remove_at
remove_at-left i [] ys h = elim h [ ]
remove_at-left zero (x ∷ xs) ys h = refl
remove_at-left (suc i) (x ∷ xs) ys h = ap (◌∷◌ x) (remove_at-left i xs ys (omega arith))

remove_at-right :
    (n i : ℕ) (xs ys : List Command)
    → n ≡ length xs
    → remove_at (n + i) (xs ++ ys) ≡ xs ++ remove_at i ys
unfolding remove_at
remove_at-right n i [] ys e = let z : n + i ≡ i = omega arith in rw z
remove_at-right n i (x ∷ xs) ys e =
    let z : n + i ≡ suc (length xs + i) = omega arith in
    rw z (ap (◌∷◌ x) (remove_at-right (length xs) i xs ys refl))

remove_at-middle :
    (xs : List Command) (c : Command) (ys : List Command)
    → remove_at (length xs) (xs ++ c ∷ ys) ≡ xs ++ ys
unfolding remove_at
remove_at-middle [] c ys = refl
remove_at-middle (x ∷ xs) c ys = ap (◌∷◌ x) (remove_at-middle xs c ys)

snapshot-remove :
    (q : ControllerQueue) (b : Buf) (i : ℕ)
    → i < length (buffer b q)
    → snapshot (with_buffer b q (remove_at i (buffer b q)))
      ≡ remove_at (offset b q + i) (snapshot q)
unfolding snapshot
snapshot-remove q high_buf i h =
    let z : 0 + i ≡ i = omega arith in
    rw
      (
        z,
        remove_at-left i (q.high ++ q.fw ++ q.sync) q.query lt3,
        remove_at-left i (q.high ++ q.fw) q.sync lt2,
        remove_at-left i q.high q.fw h,
      )
      refl
  where
    lt2 : i < length (q.high ++ q.fw)
    lt2 = omega (arith, length-append q.high q.fw)

    lt3 : i < length (q.high ++ q.fw ++ q.sync)
    lt3 = omega (arith, length-append (q.high ++ q.fw) q.sync, length-append q.high q.fw)
snapshot-remove q fw_buf i h =
    rw
      (
        remove_at-left (length q.high + i) (q.high ++ q.fw ++ q.sync) q.query lt3,
        remove_at-left (length q.high + i) (q.high ++ q.fw) q.sync lt2,
        remove_at-right (length q.high) i q.high q.fw refl,
      )
      refl
  where
    lt2 : length q.high + i < length (q.high ++ q.fw)
    lt2 = omega (arith, length-append q.high q.fw)

    lt3 : length q.high + i < length (q.high ++ q.fw ++ q.sync)
    lt3 = omega (arith, length-append (q.high ++ q.fw) q.sync, length-append q.high q.fw)
snapshot-remove q sync_buf i h =
    rw
      (
        remove_at-left (length q.high + length q.fw + i) (q.high ++ q.fw ++ q.sync) q.query lt3,
        remove_at-right (length q.high + length q.fw) i (q.high ++ q.fw) q.sync
            (omega (arith, length-append q.high q.fw)),
      )
      refl
  where
    lt3 : length q.high + length q.fw + i < length (q.high ++ q.fw ++ q.sync)
    lt3 = omega (arith, length-append (q.high ++ q.fw) q.sync, length-append q.high q.fw)
snapshot-remove q query_buf i h = sym (
    remove_at-right _ i (q.high ++ q.fw ++ q.sync) q.query
      (omega (arith, length-append (q.high ++ q.fw) q.sync, length-append q.high q.fw)))

-- A result of `DropOldest` on `q`: no command to drop, or the oldest one, the first of those if
-- several are equally old, taken out of its place.
pub data Drops (q : ControllerQueue) : Option (Command × ControllerQueue) → Type 0 where
  nothing : snapshot q ≡ [] → Drops q none
  dropped :
      {c : Command} {q' : ControllerQueue} (xs ys : List Command)
      → IsOldest (snapshot q) c xs ys
      → snapshot q' ≡ xs ++ ys
      → Drops q (some (c, q'))

drop_picked :
    (q : ControllerQueue) (o : Option Candidate)
    → pick_oldest q ≡ o
    → Best q (snapshot q) o
    → Drops q (drop_oldest q)
unfolding drop_oldest
drop_picked q none e best = rw (e, drop_oldest) (nothing best)
drop_picked q (some p) e best =
    rw (e, drop_oldest)
      (dropped best.xs best.ys best.oldest (
        rw (snapshot-remove q p.buf p.idx best.inside, ← best.position, best.oldest.place)
          (remove_at-middle best.xs p.cmd best.ys)))

-- `DropOldest` finds nothing exactly in an empty queue; otherwise it takes the oldest command out and
-- leaves all others in their order.
pub drop_oldest-Drops : (q : ControllerQueue) → Drops q (drop_oldest q)
drop_oldest-Drops q = drop_picked q (pick_oldest q) refl (pick_oldest-Best q)
