-- ===== src/Session/Room/Reports.antt =====
-- The events of the overflow handling under "drop_oldest".
use tcpadapter.Common.{
  ℕ, zero, suc, ◌≡◌, refl, ◌∙◌, List, [], ◌∷◌, ◌++◌, Option, none, some, Bool-cases, inl, inr, All,
  ltb, sym, false, ◌&&◌, Bytes,
}
use mathlib.Core.List.{append_assoc, append-nil}
use tcpadapter.Queue.{Command, ControllerQueue, drop_oldest, len, estimated_command_bytes}
use tcpadapter.Session.Types.{OverflowEvent, drop_oldest_policy, dropped, rejected, bytes}
use tcpadapter.Session.Room.{
  Limits, Room, made, refused_depth, refused_bytes, stuck, fits, refuse_alone, drop_until_fits,
  make_room,
}

-- The event tells that the policy "drop_oldest" dropped a command of this controller.
pub record TellsDropped (id : Bytes) (e : OverflowEvent) : Type 0 where
  pub of_controller : e.controller_id ≡ id
  pub by_policy : e.policy ≡ drop_oldest_policy
  pub as_dropped : e.action ≡ dropped

-- The event tells that the command itself was rejected.
pub record TellsRejected (id : Bytes) (e : OverflowEvent) : Type 0 where
  pub of_controller : e.controller_id ≡ id
  pub by_policy : e.policy ≡ drop_oldest_policy
  pub as_rejected : e.action ≡ rejected

-- The events after those that came before: some drops, and with a refusal one rejection at the end.
pub data Reports (id : Bytes) (before : List OverflowEvent) : Room → Type 0 where
  only_drops :
      {q : ControllerQueue} {evs : List OverflowEvent} (drops : List OverflowEvent)
      → evs ≡ before ++ drops
      → All (TellsDropped id) drops
      → Reports id before (made q evs)
  rejected_bytes :
      {q : ControllerQueue} {evs : List OverflowEvent} (drops : List OverflowEvent)
      (last : OverflowEvent)
      → evs ≡ before ++ (drops ++ last ∷ [])
      → All (TellsDropped id) drops
      → TellsRejected id last
      → last.limit_type ≡ bytes
      → Reports id before (refused_bytes q evs)
  rejected_depth :
      {q : ControllerQueue} {evs : List OverflowEvent} (drops : List OverflowEvent)
      (last : OverflowEvent)
      → evs ≡ before ++ (drops ++ last ∷ [])
      → All (TellsDropped id) drops
      → TellsRejected id last
      → Reports id before (refused_depth q evs)
  no_fuel : Reports id before stuck

after_drop :
    {id : Bytes} {before : List OverflowEvent} (d : OverflowEvent) {r : Room}
    → TellsDropped id d
    → Reports id (before ++ d ∷ []) r
    → Reports id before r
after_drop {before} d t (only_drops ds e a) =
    only_drops (d ∷ ds) (e ∙ append_assoc before (d ∷ []) ds) (t, a)
after_drop {before} d t (rejected_bytes ds last e a k b) =
    rejected_bytes (d ∷ ds) last (e ∙ append_assoc before (d ∷ []) (ds ++ last ∷ [])) (t, a) k b
after_drop {before} d t (rejected_depth ds last e a k) =
    rejected_depth (d ∷ ds) last (e ∙ append_assoc before (d ∷ []) (ds ++ last ∷ [])) (t, a) k
after_drop d t no_fuel = no_fuel

module _ (id : Bytes) (l : Limits) (c : Command) where
  refuse_alone-Reports :
      (q : ControllerQueue) (evs : List OverflowEvent) → Reports id evs (refuse_alone id l c q evs)
  unfolding refuse_alone
  refuse_alone-Reports q evs =
      elim (Bool-cases
        (ltb 0 l.max_queue_bytes && ltb l.max_queue_bytes (estimated_command_bytes c))) [
          | inl t ↦ rw t (
              rejected_bytes [] _ refl tt
                (record { of_controller = refl; by_policy = refl; as_rejected = refl }) refl)
          | inr t ↦ rw t (
              rejected_depth [] _ refl tt
                (record { of_controller = refl; by_policy = refl; as_rejected = refl }))
        ]

  round-Reports :
      (fuel : ℕ) (q : ControllerQueue) (evs : List OverflowEvent)
      → ((q' : ControllerQueue) (evs' : List OverflowEvent)
          → Reports id evs' (drop_until_fits fuel id l c q' evs'))
      → fits l c q ≡ false
      → (o : Option (Command × ControllerQueue)) → drop_oldest q ≡ o
      → Reports id evs (drop_until_fits (suc fuel) id l c q evs)
  unfolding drop_until_fits
  round-Reports fuel q evs ih h none e = rw (h, e) (refuse_alone-Reports q evs)
  round-Reports fuel q evs ih h (some (_, q')) e =
      rw (h, e)
        (after_drop _ (record { of_controller = refl; by_policy = refl; as_dropped = refl })
          (ih q' _))

  drop_until_fits-Reports :
      (fuel : ℕ) (q : ControllerQueue) (evs : List OverflowEvent)
      → Reports id evs (drop_until_fits fuel id l c q evs)
  unfolding drop_until_fits
  drop_until_fits-Reports zero q evs = no_fuel
  drop_until_fits-Reports (suc fuel) q evs = elim (Bool-cases (fits l c q)) [
    | inl t ↦ rw t (only_drops [] (sym (append-nil evs)) tt)
    | inr t ↦ round-Reports fuel q evs (drop_until_fits-Reports fuel) t _ refl
  ]

  -- The overflow handling reports one drop after the other, and a refusal at the end.
  pub make_room-Reports :
      (q : ControllerQueue) → Reports id [] (make_room drop_oldest_policy id l c q)
  unfolding make_room
  make_room-Reports q = elim (Bool-cases (fits l c q)) [
    | inl t ↦ rw t (only_drops [] refl tt)
    | inr t ↦ rw t (rw t at (drop_until_fits-Reports (suc (len q)) q []))
  ]
