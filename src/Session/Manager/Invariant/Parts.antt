-- ===== src/Session/Manager/Invariant/Parts.antt =====
-- The parts of a session that queueing, waiting and restoring change.
use tcpadapter.Common.{ℕ, refl, Bool, List, [], ◌∷◌, All, keep_if, Bool-cases, inl, inr, Bytes}
use tcpadapter.Common.Int.{ℤ}
use tcpadapter.Common.Dict.{Dict, bytes_key, nat_eq}
use tcpadapter.Common.Dict.Keys.{Distinct, insert-All, insert-Distinct}
use tcpadapter.Queue.{Command, ControllerQueue}
use tcpadapter.Queue.Classes.{IsClassed, restore-IsClassed}
use tcpadapter.Store.{SessionSnapshot, InFlightSnapshot}
use tcpadapter.Session.Types.{Session, InFlightEntry}
use tcpadapter.Session.Manager.Enqueue.{with_key, has_dedup_key}
use tcpadapter.Session.Manager.Restore.{restore_entries, restored_session}
use tcpadapter.Session.Manager.Restore.Laws.{IsNumbered}
use tcpadapter.Session.Manager.Invariant.{IsSession}

pub with_key-IsSession :
    {Conn : Type 0} {id : Bytes} (c : Command) (now : ℤ) (s : Session Conn) (q : ControllerQueue)
    → IsSession id s
    → IsClassed q
    → IsSession id (record (with_key now c s) { queue = q })
unfolding with_key
with_key-IsSession c now s q h v = elim (Bool-cases (has_dedup_key c)) [
  | inl t ↦
      rw (t, with_key)
        (record { named = h.named; classed = v; distinct = h.distinct; numbered = h.numbered })
  | inr t ↦
      rw (t, with_key)
        (record { named = h.named; classed = v; distinct = h.distinct; numbered = h.numbered })
]

pub with_key-IsClassed :
    {Conn : Type 0} (c : Command) (now : ℤ) (s : Session Conn)
    → IsClassed s.queue
    → IsClassed (with_key now c s).queue
unfolding with_key
with_key-IsClassed c now s v = elim (Bool-cases (has_dedup_key c)) [
  | inl t ↦ rw (t, with_key) v
  | inr t ↦ rw (t, with_key) v
]

pub restore_entries-IsSession :
    (vs : List InFlightSnapshot) (m : Dict ℕ InFlightEntry)
    → Distinct m
    → IsNumbered m
    → Distinct (restore_entries m vs) × IsNumbered (restore_entries m vs)
unfolding restore_entries
restore_entries-IsSession [] m d n = (d, n)
restore_entries-IsSession (v ∷ vs) m d n =
    restore_entries-IsSession vs _ (insert-Distinct v.seq _ m d) (insert-All _ v.seq _ m refl n)

pub restored_session-IsSession :
    {Conn : Type 0} (snap : SessionSnapshot)
    → IsSession {Conn = Conn} snap.controller_id (restored_session snap)
unfolding restored_session
restored_session-IsSession snap =
    let h = restore_entries-IsSession snap.in_flight [] tt tt in
    record {
      named = refl;
      classed = restore-IsClassed snap.pending;
      distinct = h.0;
      numbered = h.1;
    }

pub keep_if-All {ℓ κ} :
    {A : Type ℓ} (P : A → Type κ) (p : A → Bool) (xs : List A) → All P xs → All P (keep_if p xs)
keep_if-All P p [] h = tt
keep_if-All P p (x ∷ xs) h = elim (Bool-cases (p x)) [
  | inl t ↦ rw t (h.0, keep_if-All P p xs h.1)
  | inr t ↦ rw t (keep_if-All P p xs h.1)
]

pub keep_if-Distinct :
    (p : ℕ × InFlightEntry → Bool) (m : Dict ℕ InFlightEntry) → Distinct m → Distinct (keep_if p m)
keep_if-Distinct p [] h = tt
keep_if-Distinct p ((k, v) ∷ m) h = elim (Bool-cases (p (k, v))) [
  | inl t ↦ rw t (keep_if-All _ p m h.0, keep_if-Distinct p m h.1)
  | inr t ↦ rw t (keep_if-Distinct p m h.1)
]
