-- ===== src/Core/RwLock/Awake.antt =====
-- src/core/rwlock.ts: whoever waits is woken.
use toaa.Base.{
  ◌-◌, Bool, true, false, not, ◌&&◌, List, [], ◌∷◌, ◌++◌, ◌≡◌, refl, arith, ◌==◌, Bool-cases, inl,
  inr,
}
use toaa.Core.RwLock.{
  Task, reader, writer, System, no_tasks, acquire_read, acquire_write, admit, admit_next,
  release_read, release_write, resume, Turn, read_begins, write_begins, read_ends, write_ends, runs,
  Reachable, initial, after,
}

-- Nobody is inside, and nobody is about to come in.
abbrev pub idle : System → Bool
idle s = s.active_readers == 0 && not s.writing && no_tasks s.woken

abbrev pub nobody_waits : System → Bool
nobody_waits s = no_tasks s.reader_queue && no_tasks s.writer_queue

abbrev IsAwake : System → Type 0
IsAwake s = idle s ≡ true → nobody_waits s ≡ true

abbrev left : System → System
left s = record s { lock = record s.lock { active_readers = s.active_readers - 1 } }

abbrev free : System → System
free s = record s { lock = record s.lock { writing = false }; writers = s.writers - 1 }

no_tasks-append {ℓ} : {A : Type ℓ} (x : A) (xs ys : List A) → no_tasks (xs ++ x ∷ ys) ≡ false
no_tasks-append x [] ys = refl
no_tasks-append x (y ∷ xs) ys = refl

admit-IsAwake : (ts : List Task) (s : System) → s.writer_queue ≡ ts → IsAwake (admit ts s)
unfolding admit
admit-IsAwake [] s e h = ground arith
admit-IsAwake (t ∷ ts) s e h = ground (arith, no_tasks-append (writer t) s.woken [])

release_read-IsAwake : (s : System) → IsAwake s → IsAwake (release_read s)
unfolding release_read admit_next
release_read-IsAwake s h = elim (Bool-cases (s.active_readers - 1 == 0)) [
  | inl e ↦ rw e (admit-IsAwake s.writer_queue (left s) refl)
  | inr e ↦ rw e (ground arith)
]

Turn-IsAwake : {s s' : System} → Turn s s' → IsAwake s → IsAwake s'
unfolding acquire_read acquire_write release_write admit_next resume
Turn-IsAwake {s} (read_begins t) h = ground (arith, no_tasks-append t s.reader_queue [])
Turn-IsAwake {s} (write_begins t) h = ground (arith, no_tasks-append t s.writer_queue [])
Turn-IsAwake {s} (read_ends p) h = release_read-IsAwake s h
Turn-IsAwake {s} (write_ends p) h = admit-IsAwake s.writer_queue (free s) refl
Turn-IsAwake {s} (runs {w = reader t} e) h = ground arith
Turn-IsAwake {s} (runs {w = writer t} e) h = ground arith

Reachable-IsAwake : {s : System} → Reachable s → IsAwake s
Reachable-IsAwake initial = λ h. refl
Reachable-IsAwake (after r turn) = Turn-IsAwake turn (Reachable-IsAwake r)

-- No wakeup is lost, whatever the order of the turns: while a task waits for the lock, some task is
-- inside, or one that has been woken is about to run.
pub Reachable-waits : {s : System} → Reachable s → nobody_waits s ≡ false → idle s ≡ false
Reachable-waits r h = let awake = Reachable-IsAwake r in ground arith
