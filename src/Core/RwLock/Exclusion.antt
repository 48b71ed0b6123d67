-- ===== src/Core/RwLock/Exclusion.antt =====
-- src/core/rwlock.ts: who is inside together.
use toaa.Base.{
  ◌+◌, ◌-◌, ◌≤◌, true, false, List, [], ◌∷◌, map, append-nil, ◌↔◌, not, ◌&&◌, ◌≡◌, refl, ◌∙◌, arith,
  ◌==◌, Bool-cases, inl, inr, ◌<◌,
}
use toaa.Core.RwLock.{
  Task, Waiter, reader, writer, System, no_tasks, acquire_read, acquire_write, admit, admit_next,
  release_read, release_write, resume, Turn, read_begins, write_begins, read_ends, write_ends, runs,
  IsCalm, Leads, then_turn, Reachable, CalmlyReachable, initial, after,
}

-- No writer is inside and none is about to come in; the readers that come in next are known.
record IsReading (s : System) (ts : List Task) : Type 0 where
  pub unlocked : s.writing ≡ false
  pub alone : s.writers ≡ 0
  pub next : s.woken ≡ map reader ts

data IsExclusive (s : System) : Type 0 where
  reading : IsReading s [] → IsExclusive s
  writing : s.writing ≡ true → s.writers ≡ 1 → s.active_readers ≡ 0 → s.woken ≡ [] → IsExclusive s
  to_write :
      (t : Task)
      → s.writing ≡ false
      → s.writers ≡ 0
      → s.active_readers ≡ 0
      → s.woken ≡ writer t ∷ []
      → IsExclusive s
  to_read :
      (ts : List Task) → IsReading s ts → s.reader_queue ≡ [] → s.writer_queue ≡ [] → IsExclusive s

abbrev left : System → System
left s = record s { lock = record s.lock { active_readers = s.active_readers - 1 } }

-- `admitNext` on a lock that nobody holds.
admit-IsExclusive :
    (ts : List Task) (s : System)
    → s.writer_queue ≡ ts
    → s.writing ≡ false
    → s.writers ≡ 0
    → s.active_readers ≡ 0
    → s.woken ≡ []
    → IsExclusive (admit ts s)
unfolding admit
admit-IsExclusive [] s e a b c d =
    to_read s.reader_queue (record { unlocked = a; alone = b; next = rw d refl }) refl e
admit-IsExclusive (t ∷ ts) s e a b c d = to_write t a b c (rw d refl)

admit-to_read :
    (ts ws : List Task) (s : System)
    → s.writer_queue ≡ ws
    → IsReading s ts
    → s.reader_queue ≡ []
    → s.writer_queue ≡ []
    → IsExclusive (admit ws s)
unfolding admit
admit-to_read ts [] s e x q r =
    to_read ts
      (record { unlocked = x.unlocked; alone = x.alone; next = rw q (append-nil s.woken) ∙ x.next })
      refl r
admit-to_read ts (t ∷ ws) s e x q r = absurd (ground arith)

read_begins-IsExclusive :
    (t : Task) (s : System) → s.woken ≡ [] → IsExclusive s → IsExclusive (acquire_read t s)
unfolding acquire_read
read_begins-IsExclusive t s calm (reading x) =
    elim (Bool-cases (not s.writing && no_tasks s.writer_queue)) [
      | inl e ↦ rw e (reading (record { unlocked = x.unlocked; alone = x.alone; next = calm }))
      | inr e ↦ rw e (reading (record { unlocked = x.unlocked; alone = x.alone; next = calm }))
    ]
read_begins-IsExclusive t s calm (writing a b c d) =
    let e : (not s.writing && no_tasks s.writer_queue) ≡ false = ground arith in
    rw e (writing a b c d)
read_begins-IsExclusive t s calm (to_write u a b c d) = absurd (ground arith)
read_begins-IsExclusive t s calm (to_read ts x q r) =
    let e : (not s.writing && no_tasks s.writer_queue) ≡ true =
      let u = x.unlocked in ground arith in
    rw e (reading (record { unlocked = x.unlocked; alone = x.alone; next = calm }))

free-write_begins :
    (t : Task) (s : System) → s.woken ≡ [] → IsReading s [] → IsExclusive (acquire_write t s)
unfolding acquire_write
free-write_begins t s calm x = elim (Bool-cases (not s.writing && s.active_readers == 0)) [
  | inl e ↦
      let alone = x.alone in
      let none_reads : s.active_readers ≡ 0 = ground arith in
      rw e (writing refl (omega arith) none_reads calm)
  | inr e ↦ rw e (reading (record { unlocked = x.unlocked; alone = x.alone; next = calm }))
]

write_begins-IsExclusive :
    (t : Task) (s : System) → s.woken ≡ [] → IsExclusive s → IsExclusive (acquire_write t s)
unfolding acquire_write
write_begins-IsExclusive t s calm (reading x) = free-write_begins t s calm x
write_begins-IsExclusive t s calm (writing a b c d) =
    let e : (not s.writing && s.active_readers == 0) ≡ false = ground arith in
    rw e (writing a b c d)
write_begins-IsExclusive t s calm (to_write u a b c d) = absurd (ground arith)
write_begins-IsExclusive t s calm (to_read ts x q r) =
    free-write_begins t s calm (record { unlocked = x.unlocked; alone = x.alone; next = calm })

read_ends-IsExclusive :
    (s : System) → 0 < s.active_readers → IsExclusive s → IsExclusive (release_read s)
unfolding release_read admit_next
read_ends-IsExclusive s p (reading x) = elim (Bool-cases (s.active_readers - 1 == 0)) [
  | inl e ↦
      rw e (admit-IsExclusive s.writer_queue (left s) refl x.unlocked x.alone (ground arith) x.next)
  | inr e ↦ rw e (reading (record { unlocked = x.unlocked; alone = x.alone; next = x.next }))
]
read_ends-IsExclusive s p (writing a b c d) = absurd (omega arith)
read_ends-IsExclusive s p (to_write t a b c d) = absurd (omega arith)
read_ends-IsExclusive s p (to_read ts x q r) = elim (Bool-cases (s.active_readers - 1 == 0)) [
  | inl e ↦ rw e (
      admit-to_read ts s.writer_queue (left s) refl
        (record { unlocked = x.unlocked; alone = x.alone; next = x.next }) q r)
  | inr e ↦ rw e (to_read ts (record { unlocked = x.unlocked; alone = x.alone; next = x.next }) q r)
]

write_ends-IsExclusive :
    (s : System) → 0 < s.writers → IsExclusive s → IsExclusive (release_write s)
unfolding release_write admit_next
write_ends-IsExclusive s p (reading x) = let alone = x.alone in absurd (omega arith)
write_ends-IsExclusive s p (writing a b c d) =
    admit-IsExclusive s.writer_queue _ refl refl (omega arith) c d
write_ends-IsExclusive s p (to_write t a b c d) = absurd (omega arith)
write_ends-IsExclusive s p (to_read ts x q r) = let alone = x.alone in absurd (omega arith)

runs-IsExclusive :
    (w : Waiter) (ws : List Waiter) (s : System)
    → s.woken ≡ w ∷ ws
    → IsExclusive s
    → IsExclusive (resume w (record s { woken = ws }))
unfolding resume
runs-IsExclusive w ws s e (reading x) = let next = x.next in absurd (ground arith)
runs-IsExclusive w ws s e (writing a b c d) = absurd (ground arith)
runs-IsExclusive (reader u) ws s e (to_write t a b c d) = absurd (ground arith)
runs-IsExclusive (writer u) ws s e (to_write t a b c d) =
    writing refl (omega arith) c (ground arith)
runs-IsExclusive w ws s e (to_read [] x q r) = let next = x.next in absurd (ground arith)
runs-IsExclusive (reader u) ws s e (to_read (t ∷ ts) x q r) =
    let next = x.next in
    to_read ts (record { unlocked = x.unlocked; alone = x.alone; next = ground arith }) q r
runs-IsExclusive (writer u) ws s e (to_read (t ∷ ts) x q r) =
    let next = x.next in absurd (ground arith)

Turn-IsExclusive : {s s' : System} (turn : Turn s s') → IsCalm turn → IsExclusive s → IsExclusive s'
Turn-IsExclusive {s} (read_begins t) calm x = read_begins-IsExclusive t s calm x
Turn-IsExclusive {s} (write_begins t) calm x = write_begins-IsExclusive t s calm x
Turn-IsExclusive {s} (read_ends p) calm x = read_ends-IsExclusive s p x
Turn-IsExclusive {s} (write_ends p) calm x = write_ends-IsExclusive s p x
Turn-IsExclusive {s} (runs {w = w} {ws = ws} e) calm x = runs-IsExclusive w ws s e x

Reachable-IsExclusive : {s : System} → CalmlyReachable s → IsExclusive s
Reachable-IsExclusive initial = reading (record { unlocked = refl; alone = refl; next = refl })
Reachable-IsExclusive (after r turn calm) = Turn-IsExclusive turn calm (Reachable-IsExclusive r)

-- If no task comes to the lock between the waking of another and its run, a writer is alone inside:
-- there is one at most, the lock says so, and no reader is inside with it.
pub CalmlyReachable-alone :
    {s : System}
    → CalmlyReachable s
    → (s.writers ≤ 1)
      × ((s.writing ≡ true) ↔ (s.writers ≡ 1))
      × (s.writers ≡ 1 → s.active_readers ≡ 0)
CalmlyReachable-alone r = alone (Reachable-IsExclusive r)
  where
    alone :
        {s : System}
        → IsExclusive s
        → (s.writers ≤ 1)
          × ((s.writing ≡ true) ↔ (s.writers ≡ 1))
          × (s.writers ≡ 1 → s.active_readers ≡ 0)
    alone (reading x) =
        let u = x.unlocked in
        let v = x.alone in
        (
          omega arith,
          (λ e. absurd (ground arith), λ e. absurd (omega arith)),
          λ e. absurd (omega arith),
        )
    alone (writing a b c d) = (omega arith, (λ e. b, λ e. a), λ e. c)
    alone (to_write t a b c d) =
        (omega arith, (λ e. absurd (ground arith), λ e. absurd (omega arith)), λ e. c)
    alone (to_read ts x q r) =
        let u = x.unlocked in
        let v = x.alone in
        (
          omega arith,
          (λ e. absurd (ground arith), λ e. absurd (omega arith)),
          λ e. absurd (omega arith),
        )

-- Between the waking of a writer and its run the lock looks free, and a task that comes then is let
-- in: from every reachable state in which the lock is free by its fields, no writer is queued and a
-- writer alone is woken, turns lead to one where a reader is inside with the writer, and to one where two writers are
-- inside.
pub gap_lets_in :
    {s : System} (t u : Task)
    → Reachable s
    → s.writing ≡ false
    → s.active_readers ≡ 0
    → s.writer_queue ≡ []
    → s.woken ≡ writer t ∷ []
    → ((s' : System) × Leads s s'
        × Reachable s'
        × (s'.writers ≡ s.writers + 1)
        × (s'.writing ≡ true)
        × (s'.active_readers ≡ 1))
      × ((s' : System) × Leads s s' × Reachable s' × (s'.writers ≡ s.writers + 2))
unfolding resume acquire_read acquire_write
gap_lets_in {s} t u r a b c d =
    let read_in : (acquire_read u s).woken ≡ writer t ∷ [] = ground arith in
    let write_in : (acquire_write u s).woken ≡ writer t ∷ [] = ground arith in
    (
      (
        _,
        then_turn (read_begins u) (then_turn (runs read_in) Leads.here),
        Reachable.after (Reachable.after r (read_begins u)) (runs read_in),
        ground arith,
        refl,
        ground arith,
      ),
      (
        _,
        then_turn (write_begins u) (then_turn (runs write_in) Leads.here),
        Reachable.after (Reachable.after r (write_begins u)) (runs write_in),
        ground arith,
      ),
    )
