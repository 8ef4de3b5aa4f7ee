-- ===== src/Locks/ReadWrite/Reach.antt =====
-- The states that an RWLock can reach.
use libabhi.Base.{◌<◌, ◌≢◌, Bool, List, []}
use libabhi.Tasks.{Ptr, null}
use libabhi.Locks.ReadWrite.{Rw, read_lock, write_lock, read_unlock, write_unlock}
use libabhi.Locks.ReadWrite.Sane.{
  IsSane, read_lock-IsSane, write_lock-IsSane, read_unlock-IsSane, write_unlock-IsSane,
  unlocked-IsSane,
}

abbrev pub unlocked : Rw
unlocked = record { readers = 0; writer = null; rwaiting = []; wwaiting = []; ready = [] }

-- One call by some task, in any order, as long as only readers unlock for reading and only a writer
-- unlocks for writing; or the scheduler changes the run queue.
pub data Step : Rw → Rw → Type 0 where
  reads : (a : Rw) (t : Ptr) (block : Bool) → Step a ((read_lock t block a).1)
  writes : (a : Rw) (t : Ptr) (block : Bool) → t ≢ null → Step a ((write_lock t block a).1)
  read_done : (a : Rw) → 0 < a.readers → Step a (read_unlock a)
  write_done : (a : Rw) → a.writer ≢ null → Step a (write_unlock a)
  schedules : (a : Rw) (ready : List Ptr) → Step a (record a { ready = ready })

pub data Reach (a : Rw) : Rw → Type 0 where
  here : Reach a a
  next : {b c : Rw} → Reach a b → Step b c → Reach a c

Step-IsSane : {a b : Rw} → Step a b → IsSane a → IsSane b
Step-IsSane (reads a t block) s = read_lock-IsSane s t block
Step-IsSane (writes a t block n) s = write_lock-IsSane s t block n
Step-IsSane (read_done a h) s = read_unlock-IsSane s h
Step-IsSane (write_done a h) s = write_unlock-IsSane s
Step-IsSane (schedules a ready) s = record {
  exclusive = s.exclusive;
  readers_wait = s.readers_wait;
  writers_wait = s.writers_wait;
  tasks_only = s.tasks_only;
}

-- Whatever tasks do with a lock that started unlocked: while a writer holds it there are no readers,
-- readers wait only for a writer that holds or awaits it, and writers wait only while it is held.
pub Reach-IsSane : {a : Rw} → Reach unlocked a → IsSane a
Reach-IsSane here = unlocked-IsSane []
Reach-IsSane (next r st) = Step-IsSane st (Reach-IsSane r)
