-- ===== src/Tests/Locks.antt =====
-- The lock with tasks that come and go.
use toaa.Base.{◌+◌, ◌≤◌, true, false, [], ◌∷◌, ◌≡◌, refl, ◌↔◌, arith}
use toaa.Core.RwLock.{
  System, writer, free_lock, acquire_write, release_write, admit_next, admit, write_begins,
  write_ends, Leads, Reachable, CalmlyReachable,
}
use toaa.Core.RwLock.Awake.{idle, nobody_waits, Reachable-waits}
use toaa.Core.RwLock.Exclusion.{CalmlyReachable-alone, gap_lets_in}

abbrev start : System
start = record { lock = free_lock; woken = []; writers = 0 }

-- One writer is inside and another waits.
abbrev contended : System
contended = acquire_write 2 (acquire_write 1 start)

one_writer : contended.writers ≡ 1
unfolding acquire_write
one_writer = refl

contended-Reachable : Reachable contended
contended-Reachable =
    Reachable.after (Reachable.after Reachable.initial (write_begins 1)) (write_begins 2)

contended-CalmlyReachable : CalmlyReachable contended
unfolding acquire_write
contended-CalmlyReachable =
    CalmlyReachable.after (CalmlyReachable.after CalmlyReachable.initial (write_begins 1) refl)
      (write_begins 2) refl

-- The first writer has left; the second has been woken and has not yet run.
abbrev gap : System
gap = release_write contended

gap-Reachable : Reachable gap
unfolding acquire_write
gap-Reachable = Reachable.after contended-Reachable (write_ends (omega arith))

someone_waits : nobody_waits contended ≡ false
unfolding acquire_write
someone_waits = refl

Reachable-waits_example : idle contended ≡ false
Reachable-waits_example = Reachable-waits contended-Reachable someone_waits

CalmlyReachable-alone_example :
    (contended.writers ≤ 1)
    × ((contended.writing ≡ true) ↔ (contended.writers ≡ 1))
    × (contended.writers ≡ 1 → contended.active_readers ≡ 0)
CalmlyReachable-alone_example = CalmlyReachable-alone contended-CalmlyReachable

gap_is_free :
    (gap.writing ≡ false)
    × (gap.active_readers ≡ 0)
    × (gap.writer_queue ≡ [])
    × (gap.woken ≡ writer 2 ∷ [])
unfolding acquire_write release_write admit_next admit
gap_is_free = (refl, refl, refl, refl)

gap_lets_in_example :
    ((s' : System) × Leads gap s'
      × Reachable s'
      × (s'.writers ≡ gap.writers + 1)
      × (s'.writing ≡ true)
      × (s'.active_readers ≡ 1))
    × ((s' : System) × Leads gap s' × Reachable s' × (s'.writers ≡ gap.writers + 2))
gap_lets_in_example =
    gap_lets_in 2 3 gap-Reachable gap_is_free.0 gap_is_free.1 gap_is_free.2 gap_is_free.3
