-- ===== src/Queue/Pop.antt =====
-- `PopNext`: which command leaves next.
use mathlib.Core.List.{Perm, perm_middle}
use mathlib.Core.List.Perm
use tcpadapter.Common.{
  ◌≡◌, refl, Bool, true, false, List, [], ◌∷◌, ◌++◌, Option, none, some, if◌then◌else◌,
}
use tcpadapter.Queue.{Command, ControllerQueue, pop, pop_next, snapshot}

-- What may be sent in the modes, first command first.
abbrev pub sendable : Bool → Bool → ControllerQueue → List Command
sendable fw_mode sync_mode q =
    if fw_mode
    then q.high ++ q.fw
    else if sync_mode
    then q.high ++ q.sync
    else q.high ++ q.fw ++ q.sync ++ q.query

-- A result of `PopNext` on `q`: nothing to send, or the first that may be sent, with every other
-- command still in the queue and in the same order for the same modes.
abbrev pub Pops : Bool → Bool → ControllerQueue → Option (Command × ControllerQueue) → Type 0
Pops fw_mode sync_mode q none = sendable fw_mode sync_mode q ≡ []
Pops fw_mode sync_mode q (some (c, q')) =
    (sendable fw_mode sync_mode q ≡ c ∷ sendable fw_mode sync_mode q')
    × Perm (snapshot q) (c ∷ snapshot q')

abbrev of_buffers : List Command → List Command → List Command → List Command → ControllerQueue
of_buffers h f s u = record { high = h; fw = f; sync = s; query = u }

by_buffers :
    (fw_mode sync_mode : Bool) (h f s u : List Command)
    → Pops fw_mode sync_mode (of_buffers h f s u) (pop_next fw_mode sync_mode (of_buffers h f s u))
unfolding pop_next pop snapshot
by_buffers true sync_mode (c ∷ h) f s u = (refl, Perm.refl _)
by_buffers true sync_mode [] (c ∷ f) s u = (refl, Perm.refl _)
by_buffers true sync_mode [] [] s u = refl
by_buffers false true (c ∷ h) f s u = (refl, Perm.refl _)
by_buffers false true [] f (c ∷ s) u = (refl, Perm.append_right u (perm_middle f s))
by_buffers false true [] f [] u = refl
by_buffers false false (c ∷ h) f s u = (refl, Perm.refl _)
by_buffers false false [] (c ∷ f) s u = (refl, Perm.refl _)
by_buffers false false [] [] (c ∷ s) u = (refl, Perm.refl _)
by_buffers false false [] [] [] (c ∷ u) = (refl, Perm.refl _)
by_buffers false false [] [] [] [] = refl

-- `PopNext` finds nothing exactly if no command may be sent in the modes; otherwise it returns the
-- first of those that may, and takes that one command and no other out of the queue.
pub pop_next-Pops :
    (fw_mode sync_mode : Bool) (q : ControllerQueue)
    → Pops fw_mode sync_mode q (pop_next fw_mode sync_mode q)
pop_next-Pops fw_mode sync_mode q = by_buffers fw_mode sync_mode q.high q.fw q.sync q.query
