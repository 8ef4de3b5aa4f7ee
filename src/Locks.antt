-- ===== src/Locks.antt =====
-- libtask/qlock.c and libtask/rendez.c: queuing locks, reader-writer locks and rendezvous points.
-- A call that may block is cut at taskswitch; the part after it is a function of its own.
pub mod Queuing
pub mod ReadWrite
pub mod Rendezvous
use libabhi.Base.{
  ℕ, zero, suc, Bool, true, false, not, ◌&&◌, Option, none, some, Outcome, ok, err, Stop, fault,
  abort, no_fuel, ◌>>=◌, ◌==◌, if◌then◌else◌, ◌+◌,
}
use libabhi.Base.Int.{ℤ, pos, inc, dec, is_zero}
use libabhi.Tasks.{Ptr, null, Tasklist}
use libabhi.Sched.{World, wake, park}

-- How an attempt to lock ends: it returned 1, it returned 0, or the task waits.
pub data Attempt : Type 0 where
  got busy blocked : Attempt

pub record QLock : Type 0 where
  pub owner : Ptr
  pub waiting : Tasklist

unfoldable pub _qlock : QLock → (block : Bool) → World → Outcome (Attempt × QLock × World)
_qlock l block w =
    if l.owner == null
    then ok (got, record l { owner = w.taskrunning }, w)
    else if not block
    then ok (busy, l, w)
    else (do (q, w') ← park l.waiting w; ok (blocked, record l { waiting = q }, w'))

-- What _qlock does when the task runs again.
unfoldable pub _qlock_resume : QLock → World → Outcome (Unit {0})
_qlock_resume l w = if l.owner == w.taskrunning then ok tt else err abort

unfoldable pub qlock : QLock → World → Outcome (Attempt × QLock × World)
unfolding _qlock
qlock l w = _qlock l true w

unfoldable pub canqlock : QLock → World → Outcome (Attempt × QLock × World)
unfolding _qlock
canqlock l w = _qlock l false w

unfoldable pub qunlock : QLock → World → Outcome (QLock × World)
qunlock l w =
    let ready = l.waiting.head in
    if l.owner == null
    then err abort
    else if ready == null
    then ok (record l { owner = null }, w)
    else (do (q, w') ← wake l.waiting ready w; ok (record { owner = ready; waiting = q }, w'))

pub record RwLock : Type 0 where
  pub readers : ℤ
  pub writer : Ptr
  pub rwaiting : Tasklist
  pub wwaiting : Tasklist

unfoldable pub _rlock : RwLock → (block : Bool) → World → Outcome (Attempt × RwLock × World)
_rlock l block w =
    if (l.writer == null) && (l.wwaiting.head == null)
    then ok (got, record l { readers = inc l.readers }, w)
    else if not block
    then ok (busy, l, w)
    else (do (q, w') ← park l.rwaiting w; ok (blocked, record l { rwaiting = q }, w'))

unfoldable pub _wlock : RwLock → (block : Bool) → World → Outcome (Attempt × RwLock × World)
_wlock l block w =
    if (l.writer == null) && is_zero l.readers
    then ok (got, record l { writer = w.taskrunning }, w)
    else if not block
    then ok (busy, l, w)
    else (do (q, w') ← park l.wwaiting w; ok (blocked, record l { wwaiting = q }, w'))

unfoldable pub rlock : RwLock → World → Outcome (Attempt × RwLock × World)
unfolding _rlock
rlock l w = _rlock l true w

unfoldable pub canrlock : RwLock → World → Outcome (Attempt × RwLock × World)
unfolding _rlock
canrlock l w = _rlock l false w

unfoldable pub wlock : RwLock → World → Outcome (Attempt × RwLock × World)
unfolding _wlock
wlock l w = _wlock l true w

unfoldable pub canwlock : RwLock → World → Outcome (Attempt × RwLock × World)
unfolding _wlock
canwlock l w = _wlock l false w

-- `deltask(&l->wwaiting, t); l->writer = t; taskready(t);`
hand_to_writer : RwLock → World → Outcome (RwLock × World)
hand_to_writer l w = do
  (q, w') ← wake l.wwaiting l.wwaiting.head w
  ok (record l { wwaiting = q; writer = l.wwaiting.head }, w')

unfoldable pub runlock : RwLock → World → Outcome (RwLock × World)
unfolding hand_to_writer
runlock l w =
    let l' = record l { readers = dec l.readers } in
    if is_zero l'.readers && not (l'.wwaiting.head == null) then hand_to_writer l' w else ok (l', w)

-- The while loop of wunlock, on fuel.
unfoldable pub wake_readers : ℕ → RwLock → World → Outcome (RwLock × World)
wake_readers zero l w = err no_fuel
wake_readers (suc n) l w =
    let t = l.rwaiting.head in
    let round : Outcome (RwLock × World) = (do
      (q, w') ← wake l.rwaiting t w
      wake_readers n (record l { rwaiting = q; readers = inc l.readers }) w') in
    if t == null then ok (l, w) else round

unfoldable pub wunlock : (fuel : ℕ) → RwLock → World → Outcome (RwLock × World)
unfolding hand_to_writer
wunlock n l w =
    if l.writer == null then err abort else if not (is_zero l.readers) then err abort else (do
      (l', w') ← wake_readers n (record l { writer = null }) w
      (if is_zero l'.readers && not (l'.wwaiting.head == null)
          then hand_to_writer l' w'
          else ok (l', w')))

-- `l` is NULL for `none`: then no lock is released and taken. Otherwise it is the lock that the
-- rendezvous point names, passed beside it.
pub record Rendez : Type 0 where
  pub waiting : Tasklist

release_for_sleep : Option QLock → World → Outcome (Option QLock × World)
unfolding qunlock
release_for_sleep none w = ok (none, w)
release_for_sleep (some l) w = do (l', w') ← qunlock l w; ok (some l', w')

-- tasksleep up to taskswitch; when the task runs again it calls qlock(r->l), if there is a lock.
unfoldable pub tasksleep : Rendez → Option QLock → World → Outcome (Rendez × Option QLock × World)
unfolding release_for_sleep
tasksleep r l w = do
  (q, w') ← park r.waiting w
  (l', w'') ← release_for_sleep l w'
  ok (record r { waiting = q }, l', w'')

-- The loop of _taskwakeup from its `i`-th round, on fuel.
unfoldable pub wakeup_loop : ℕ → (all : Bool) → ℕ → Rendez → World → Outcome (ℕ × Rendez × World)
wakeup_loop zero all i r w = err no_fuel
wakeup_loop (suc n) all i r w =
    let t = r.waiting.head in
    let round : Outcome (ℕ × Rendez × World) = (do
      (q, w') ← wake r.waiting t w
      wakeup_loop n all (i + 1) (record r { waiting = q }) w') in
    if (i == 1) && not all then ok (i, r, w) else if t == null then ok (i, r, w) else round

unfoldable pub _taskwakeup :
    (fuel : ℕ) → Rendez → (all : Bool) → World → Outcome (ℕ × Rendez × World)
unfolding wakeup_loop
_taskwakeup n r all w = wakeup_loop n all 0 r w

unfoldable pub taskwakeup : (fuel : ℕ) → Rendez → World → Outcome (ℕ × Rendez × World)
unfolding _taskwakeup
taskwakeup n r w = _taskwakeup n r false w

unfoldable pub taskwakeupall : (fuel : ℕ) → Rendez → World → Outcome (ℕ × Rendez × World)
unfolding _taskwakeup
taskwakeupall n r w = _taskwakeup n r true w
