-- ===== src/Core/RwLock.antt =====
-- src/core/rwlock.ts: the lock around the shared file tree, and the tasks that use it. A task that has
-- to wait leaves the `resolve` of a promise in a queue; what that calls is not run at once, but stands
-- in the queue of microtasks, `woken`, until the event loop comes to it.
use toaa.Base.{
  ℕ, suc, ◌+◌, ◌-◌, ◌<◌, Bool, true, false, not, ◌&&◌, List, [], ◌∷◌, ◌++◌, map, ◌≡◌, ◌==◌, length,
  if◌then◌else◌,
}
pub mod Awake
pub mod Exclusion

abbrev pub Task : Type 0
Task = ℕ

-- The fields of a `ReadWriteLock`. A queued `resolve` is the task that awaits it.
pub record ReadWriteLock : Type 0 where
  pub active_readers : ℕ
  pub writing : Bool
  pub reader_queue : List Task
  pub writer_queue : List Task

-- A microtask: what is left of `acquireRead` or of `acquireWrite` behind its `await`.
pub data Waiter : Type 0 where
  reader writer : Task → Waiter

-- The lock with the microtasks, and the number of tasks that run inside of `write`.
pub record System : Type 0 where
  pub lock : ReadWriteLock
  pub open lock use *
  pub woken : List Waiter
  pub writers : ℕ

abbrev pub no_tasks {ℓ} : {A : Type ℓ} → List A → Bool
no_tasks [] = true
no_tasks (x ∷ xs) = false

-- `acquireRead` to its end or to its `await`.
unfoldable pub acquire_read : Task → System → System
acquire_read t s =
    if not s.writing && no_tasks s.writer_queue
    then record s { lock = record s.lock { active_readers = s.active_readers + 1 } }
    else record s { lock = record s.lock { reader_queue = s.reader_queue ++ t ∷ [] } }

-- `acquireWrite` to its end or to its `await`.
unfoldable pub acquire_write : Task → System → System
acquire_write t s =
    if not s.writing && s.active_readers == 0
    then record s { lock = record s.lock { writing = true }; writers = s.writers + 1 }
    else record s { lock = record s.lock { writer_queue = s.writer_queue ++ t ∷ [] } }

-- `admitNext` by the writers that wait.
unfoldable pub admit : List Task → System → System
admit [] s = record s {
  lock = record s.lock { reader_queue = [] };
  woken = s.woken ++ map reader s.reader_queue;
}
admit (t ∷ ts) s = record s {
  lock = record s.lock { writer_queue = ts };
  woken = s.woken ++ writer t ∷ [];
}

-- `admitNext`
unfoldable pub admit_next : System → System
unfolding admit
admit_next s = admit s.writer_queue s

-- `releaseRead`
unfoldable pub release_read : System → System
unfolding admit_next
release_read s =
    let left = record s { lock = record s.lock { active_readers = s.active_readers - 1 } } in
    if left.active_readers == 0 then admit_next left else left

-- `releaseWrite`
unfoldable pub release_write : System → System
unfolding admit_next
release_write s =
    admit_next (record s { lock = record s.lock { writing = false }; writers = s.writers - 1 })

-- What is left of an acquisition behind its `await`.
unfoldable pub resume : Waiter → System → System
resume (reader t) s = record s { lock = record s.lock { active_readers = s.active_readers + 1 } }
resume (writer t) s = record s { lock = record s.lock { writing = true }; writers = s.writers + 1 }

abbrev pub free_lock : ReadWriteLock
free_lock = record { active_readers = 0; writing = false; reader_queue = []; writer_queue = [] }

-- One turn of the event loop.
pub data Turn : System → System → Type 0 where
  read_begins : {s : System} (t : Task) → Turn s (acquire_read t s)
  write_begins : {s : System} (t : Task) → Turn s (acquire_write t s)
  read_ends : {s : System} → 0 < s.active_readers → Turn s (release_read s)
  write_ends : {s : System} → 0 < s.writers → Turn s (release_write s)
  runs :
      {s : System} {w : Waiter} {ws : List Waiter}
      → s.woken ≡ w ∷ ws
      → Turn s (resume w (record s { woken = ws }))

-- A turn in which no task comes to the lock while another has been woken and has not yet run.
abbrev pub IsCalm : {s s' : System} → Turn s s' → Type 0
IsCalm {s} (read_begins t) = s.woken ≡ []
IsCalm {s} (write_begins t) = s.woken ≡ []
IsCalm (read_ends p) = Unit
IsCalm (write_ends p) = Unit
IsCalm (runs e) = Unit

-- The systems that turns lead to from a free lock.
pub data Reachable : System → Type 0 where
  initial : Reachable (record { lock = free_lock; woken = []; writers = 0 })
  after : {s s' : System} → Reachable s → Turn s s' → Reachable s'

-- Turns lead from one system to another.
pub data Leads : System → System → Type 0 where
  here : {s : System} → Leads s s
  then_turn : {s s' s'' : System} → Turn s s' → Leads s' s'' → Leads s s''

-- The systems that calm turns lead to from a free lock.
pub data CalmlyReachable : System → Type 0 where
  initial : CalmlyReachable (record { lock = free_lock; woken = []; writers = 0 })
  after :
      {s s' : System} → CalmlyReachable s → (turn : Turn s s') → IsCalm turn → CalmlyReachable s'
