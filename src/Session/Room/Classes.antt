-- ===== src/Session/Room/Classes.antt =====
-- Making room keeps each command in the buffer of its class.
use tcpadapter.Common.{
  ℕ, zero, suc, ◌≡◌, refl, Bool, true, false, List, [], Option, Bytes, if◌then◌else◌,
}
use tcpadapter.Queue.{Command, ControllerQueue, len, drop_oldest}
use tcpadapter.Queue.Classes.{IsClassed, AllLeft, missing, leaves, drop_oldest-IsClassed}
use tcpadapter.Session.Types.{
  OverflowPolicy, reject, drop_oldest_policy, unknown_policy, OverflowEvent,
}
use tcpadapter.Session.Room.{
  Limits, Room, made, refused_depth, refused_bytes, stuck, fits, refuse_alone, drop_until_fits,
  make_room, reject_overflow,
}

-- What holds of the queue that a result of `make_room` carries.
pub data AllRoom (P : ControllerQueue → Type 0) : Room → Type 0 where
  of_made : {q : ControllerQueue} {evs : List OverflowEvent} → P q → AllRoom P (made q evs)
  of_depth :
      {q : ControllerQueue} {evs : List OverflowEvent} → P q → AllRoom P (refused_depth q evs)
  of_bytes :
      {q : ControllerQueue} {evs : List OverflowEvent} → P q → AllRoom P (refused_bytes q evs)
  of_stuck : AllRoom P stuck

if-AllRoom :
    {P : ControllerQueue → Type 0} (b : Bool) {r r' : Room}
    → AllRoom P r
    → AllRoom P r'
    → AllRoom P (if b then r else r')
if-AllRoom true h k = h
if-AllRoom false h k = k

module _ (id : Bytes) (l : Limits) (c : Command) where
  round-IsClassed :
      (fuel : ℕ) (q : ControllerQueue) (evs : List OverflowEvent)
      → ((q' : ControllerQueue) (evs' : List OverflowEvent)
          → IsClassed q'
          → AllRoom IsClassed (drop_until_fits fuel id l c q' evs'))
      → IsClassed q
      → (o : Option (Command × ControllerQueue)) → drop_oldest q ≡ o
      → AllLeft IsClassed o
      → AllRoom IsClassed (drop_until_fits (suc fuel) id l c q evs)
  unfolding drop_until_fits refuse_alone
  round-IsClassed fuel q evs ih v o e missing =
      rw e (if-AllRoom (fits l c q) (of_made v) (if-AllRoom _ (of_bytes v) (of_depth v)))
  round-IsClassed fuel q evs ih v o e (leaves h) =
      rw e (if-AllRoom (fits l c q) (of_made v) (ih _ _ h))

  drop_until_fits-IsClassed :
      (fuel : ℕ) (q : ControllerQueue) (evs : List OverflowEvent)
      → IsClassed q
      → AllRoom IsClassed (drop_until_fits fuel id l c q evs)
  unfolding drop_until_fits
  drop_until_fits-IsClassed zero q evs v = of_stuck
  drop_until_fits-IsClassed (suc fuel) q evs v =
      round-IsClassed fuel q evs (drop_until_fits-IsClassed fuel) v _ refl
        (drop_oldest-IsClassed q v)

  pub make_room-IsClassed :
      (p : OverflowPolicy) (q : ControllerQueue)
      → IsClassed q
      → AllRoom IsClassed (make_room p id l c q)
  unfolding make_room reject_overflow
  make_room-IsClassed reject q v =
      if-AllRoom _ (of_made v) (if-AllRoom _ (of_bytes v) (if-AllRoom _ (of_depth v) (of_depth v)))
  make_room-IsClassed drop_oldest_policy q v =
      if-AllRoom _ (of_made v) (drop_until_fits-IsClassed (suc (len q)) q [] v)
  make_room-IsClassed (unknown_policy p) q v = if-AllRoom _ (of_made v) (of_depth v)
