-- ===== src/Tests/Sleeping.antt =====
-- Tests of sleeping tasks.
use libabhi.Base.{
  ◌≡◌, refl, List, [], ◌∷◌, arith, Returns, returns, true, false, ok, ◌==◌, if◌then◌else◌,
}
use libabhi.Tasks.{Ptr}
use libabhi.Sched.{World}
use libabhi.Sched.Wake.{Waiting}
use libabhi.Fd.Await.{events}
use libabhi.Fd.Loop.{Passes, Asleep, Fits, Over, fdtask, answered, fdtask_ends}
use libabhi.Fd.{deadline, taskdelay_start, fdtask_round}
use libabhi.Fd.Order.{IsSorted, Sleeps, taskdelay_sorted}
use libabhi.Fd.Events.{Leaves}
use libabhi.Fd.Round.{Round, LastRound, fdtask_round_goes_on, fdtask_round_ends}
use libabhi.Tests.Data.{
  memory, world, waiters-IsQueue, running-IsTask, waiters-Waiting, runners-Runnable,
}

pub waiters-IsSorted : IsSorted memory (20 ∷ 30 ∷ [])
waiters-IsSorted = (λ a i. let e : a ≡ 30 = ground arith in rw e (omega arith), (λ a i. cc, tt))

-- The task goes between those that wake at 5 and at 9 milliseconds.
taskdelay_sorted_example :
    Returns (Sleeps 10 (deadline 1000000 6) (20 ∷ 30 ∷ [])) (taskdelay_start 3 1000000 6 world)
taskdelay_sorted_example =
    taskdelay_sorted 3 1000000 6 world (20 ∷ 30 ∷ []) waiters-IsQueue waiters-IsSorted
      running-IsTask refl (omega arith)

-- An event for the second sleeper.
second-Leaves : Leaves (20 ∷ 30 ∷ []) (30 ∷ []) (20 ∷ [])
second-Leaves = (20 ∷ [], [], refl, refl)

-- At 6 milliseconds the first one is due.
fdtask_round_goes_on_example :
    Returns
      (Round 6000000 world (30 ∷ []) (20 ∷ []) (40 ∷ []))
      (fdtask_round 2 (30 ∷ []) 6000000 false world)
fdtask_round_goes_on_example =
    fdtask_round_goes_on 2 6000000 (30 ∷ []) (20 ∷ 30 ∷ []) (20 ∷ []) (40 ∷ []) second-Leaves
      runners-Runnable waiters-Waiting waiters-IsSorted (omega arith)

-- At 3 milliseconds the first one is interrupted.
fdtask_round_ends_example :
    Returns
      (LastRound 3000000 world (30 ∷ []) (20 ∷ []) (40 ∷ []))
      (fdtask_round 2 (30 ∷ []) 3000000 true world)
fdtask_round_ends_example =
    fdtask_round_ends 2 3000000 (30 ∷ []) (20 ∷ 30 ∷ []) (20 ∷ []) (40 ∷ []) second-Leaves
      runners-Runnable waiters-Waiting waiters-IsSorted (omega arith)

-- In each pass there is an event for the first sleeper; the loop function asks to stop in the second.
first_sleeper : Ptr → List Ptr
first_sleeper t = if t == 0 then [] else t ∷ []

abbrev passes : Passes
passes = record {
  others = λ i w. ok w;
  epoll_wait = λ i ms w. events (first_sleeper w.sleeping.head);
  before = λ i. 0;
  after = λ i. 0;
  stop = λ i. i == 1;
}

passes-named :
    (w : World) (xs : List Ptr)
    → Waiting w.heap w.sleeping xs
    → Fits xs (events (first_sleeper w.sleeping.head))
unfolding first_sleeper
passes-named w [] k = rw k.queue.head_eq ([], refl)
passes-named w (x ∷ xs) k =
    let some_task : (x == 0) ≡ false = ground (arith, k.queue.chain.0.ne_null) in
    rw (k.queue.head_eq, some_task) (xs, ([], xs, refl, refl))

world-Asleep : Asleep 3 world
world-Asleep = record {
  sleepers = 20 ∷ 30 ∷ [];
  ready = 40 ∷ [];
  waiting = waiters-Waiting;
  sorted = waiters-IsSorted;
  runnable = runners-Runnable;
  few = omega arith;
}

fdtask_ends_example : Returns Over (fdtask passes 3 2 0 world)
unfolding answered
fdtask_ends_example =
    fdtask_ends passes 3 (λ i w s. returns s) (λ i ms w xs k. passes-named w xs k) 1 0 world
      world-Asleep refl (λ ms w. refl)
