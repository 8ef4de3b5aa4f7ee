-- ===== src/Tests/Locking.antt =====
-- Tests of the locks and of rendezvous points.
use libabhi.Base.{◌≡◌, refl, true, [], ◌∷◌, arith, Returns}
use libabhi.Base.Int.{pos}
use libabhi.Tasks.{empty_list}
use libabhi.Locks.{QLock, _qlock, qunlock, RwLock, runlock, wunlock, Rendez, taskwakeupall}
use libabhi.Locks.Queuing
use libabhi.Locks.Queuing.{Lock, acquire, release, _qlock_refines, qunlock_refines}
use libabhi.Locks.ReadWrite
use libabhi.Locks.ReadWrite.{Rw, read_lock, write_lock, read_unlock, write_unlock}
use libabhi.Locks.ReadWrite.Refine.{runlock_refines, wunlock_refines}
use libabhi.Locks.ReadWrite.Perform.{wunlocks, perform, said, reply, IsSound, perform_refines}
use libabhi.Locks.ReadWrite.Reach.{schedules, unlocked, Reach, here, next, reads, writes}
use libabhi.Locks.Rendezvous.{Meets, Woke, taskwakeupall_lem}
use libabhi.Tests.Data.{
  world, waiters, runners-Runnable, waiters-Waiting, nobody-Waiting, running-Idle,
}

-- Task 50 holds the lock, and 20 and 30 wait.
abbrev lock : QLock
lock = record { owner = 50; waiting = waiters }

abbrev lock_state : Lock
lock_state = record { owner = 50; waiting = 20 ∷ 30 ∷ []; ready = 40 ∷ [] }

lock-Represents : Queuing.Represents lock world lock_state
lock-Represents = record { owner_eq = refl; waiting = waiters-Waiting; runnable = runners-Runnable }

_qlock_refines_example :
    Returns (Queuing.Attempted (acquire 10 true lock_state)) (_qlock lock true world)
_qlock_refines_example = _qlock_refines lock-Represents true running-Idle refl

qunlock_refines_example :
    Returns (λ (l', w'). Queuing.Represents l' w' (release lock_state)) (qunlock lock world)
qunlock_refines_example = qunlock_refines lock-Represents (omega arith)

-- 20 and 30 wait to read while 50 writes.
abbrev rw_lock : RwLock
rw_lock = record { readers = pos 0; writer = 50; rwaiting = waiters; wwaiting = empty_list }

abbrev rw_state : Rw
rw_state = record {
  readers = 0;
  writer = 50;
  rwaiting = 20 ∷ 30 ∷ [];
  wwaiting = [];
  ready = 40 ∷ [];
}

rw_lock-Represents : ReadWrite.Represents rw_lock world rw_state
rw_lock-Represents = record {
  readers_eq = refl;
  writer_eq = refl;
  rqueue = waiters-Waiting;
  wqueue = nobody-Waiting;
  apart = λ a i. refl;
  runnable = runners-Runnable;
}

-- 20 and 30 wait to write while one task reads.
abbrev read_rw_lock : RwLock
read_rw_lock = record { readers = pos 1; writer = 0; rwaiting = empty_list; wwaiting = waiters }

abbrev read_state : Rw
read_state = record {
  readers = 1;
  writer = 0;
  rwaiting = [];
  wwaiting = 20 ∷ 30 ∷ [];
  ready = 40 ∷ [];
}

read_rw_lock-Represents : ReadWrite.Represents read_rw_lock world read_state
read_rw_lock-Represents = record {
  readers_eq = refl;
  writer_eq = refl;
  rqueue = nobody-Waiting;
  wqueue = waiters-Waiting;
  apart = λ a i. cc;
  runnable = runners-Runnable;
}

runlock_refines_example :
    Returns
      (λ (l', w'). ReadWrite.Represents l' w' (read_unlock read_state))
      (runlock read_rw_lock world)
runlock_refines_example = runlock_refines read_rw_lock-Represents (omega arith)

wunlock_refines_example :
    Returns
      (λ (l', w'). ReadWrite.Represents l' w' (write_unlock rw_state))
      (wunlock 3 rw_lock world)
wunlock_refines_example = wunlock_refines rw_lock-Represents 3 (omega arith) refl (omega arith)

-- One task reads, another waits to write, and the reader leaves.
abbrev meeting : Rendez
meeting = record { waiting = waiters }

meeting-Meets : Meets meeting world (20 ∷ 30 ∷ []) (40 ∷ [])
meeting-Meets = record { waiting = waiters-Waiting; runnable = runners-Runnable }

taskwakeupall_lem_example : Returns (Woke 2 [] (40 ∷ 20 ∷ 30 ∷ [])) (taskwakeupall 3 meeting world)
taskwakeupall_lem_example = taskwakeupall_lem (20 ∷ 30 ∷ []) (40 ∷ []) meeting-Meets 3 (omega arith)

-- Task 50 has the lock for writing, and 20 and 30 wait to read.
rw_state-Reach : Reach unlocked rw_state
unfolding read_lock write_lock
rw_state-Reach =
    next
      (next (next (next here (writes _ 50 true (omega arith))) (reads _ 20 true)) (reads _ 30 true))
      (schedules _ (40 ∷ []))

perform_refines_example :
    Returns
      (λ (v, l', w').
        (v ≡ reply (wunlocks 3) world rw_state) × IsSound (said (wunlocks 3) world rw_state) l' w')
      (perform (wunlocks 3) rw_lock world)
perform_refines_example =
    perform_refines (wunlocks 3) rw_state rw_lock world rw_lock-Represents rw_state-Reach
      (omega arith, omega arith)
