-- ===== src/Fd/Timeout.antt =====
-- A task that sleeps for a time: taskdelay and a round of fdtask, of libtask/fd.c, one after the other.
use libabhi.Base.{ℕ, ◌<◌, ◌≤◌, ◌≡◌, some, List, ◌++◌, ◌∈◌, ◌∉◌}
use libabhi.Tasks.{Ptr}
use libabhi.Tasks.Place.{udata_of}
use libabhi.Sched.{World}
use libabhi.Sched.Ready.{Idle, Runnable}
use libabhi.Sched.Wake.{Waiting}
use libabhi.Fd.{deadline, taskdelay_end, libtask_timeout}
use libabhi.Fd.Order.{IsSorted}

-- The task `r` is ready, with those that were ready before; its data is LIBTASK_TIMEOUT; and it has
-- slept long enough.
pub record Woke (r now ms later : ℕ) (ready : List Ptr) (w : World) : Type 0 where
  pub due : deadline now ms ≤ later
  pub woken : List Ptr
  pub among : r ∈ woken
  pub runnable : Runnable w (ready ++ woken)
  pub told : udata_of w.heap r ≡ some libtask_timeout
  pub slept : ms ≤ taskdelay_end now later

-- The task `r` still sleeps, and its time has not come.
pub record SleepsOn (r now ms later : ℕ) (w : World) : Type 0 where
  pub early : later < deadline now ms
  pub asleep : List Ptr
  pub among : r ∈ asleep
  pub waiting : Waiting w.heap w.sleeping asleep
  pub sorted : IsSorted w.heap asleep

module _ (now ms : ℕ) (w : World) (xs ready : List Ptr) (k : Waiting w.heap w.sleeping xs)
    (s : IsSorted w.heap xs) (run : Runnable w ready) (idle : Idle w.heap w.taskrunning)
    (out : w.taskrunning ∉ xs) where
  abbrev r : Ptr
  r = w.taskrunning
