-- ===== src/Tests/Data.antt =====
-- A small memory: task 10 runs, 20 and 30 wait, and 40 is ready.
use libabhi.Base.{◌⊎◌, inl, inr, ℕ, ◌≡◌, refl, none, some, [], ◌∷◌, arith, ◌==◌, if◌then◌else◌, ◌∈◌}
use libabhi.Tasks.{Ptr, Task, Heap, Tasklist, empty_list}
use libabhi.Tasks.Links.{IsQueue, IsTask}
use libabhi.Sched.{World, initial}
use libabhi.Sched.Ready.{Idle, Runnable}
use libabhi.Sched.Wake.{Waiting}

abbrev pub task : (next prev state alarm : ℕ) → Task
task next prev state alarm = record {
  next = next;
  prev = prev;
  alarmtime = alarm;
  id = 1;
  stksize = 32768;
  _state = state;
  alltaskslot = 0;
  startfn = 0;
  startarg = 0;
  udata = 0;
}

abbrev pub memory : Heap
memory p =
    if p == 10
    then some (task 0 0 0 0)
    else if p == 20
    then some (task 30 0 0 5000000)
    else if p == 30
    then some (task 0 20 0 9000000)
    else if p == 40
    then some (task 0 0 1 0)
    else none

abbrev pub waiters : Tasklist
waiters = record { head = 20; tail = 30 }

abbrev pub runners : Tasklist
runners = record { head = 40; tail = 40 }

abbrev pub world : World
world = record initial {
  heap = memory;
  taskrunning = 10;
  taskrunqueue = runners;
  sleeping = waiters;
}

pub waiters-IsQueue : IsQueue memory waiters (20 ∷ 30 ∷ [])
waiters-IsQueue = record {
  head_eq = refl;
  tail_eq = refl;
  chain = (
    record {
      ne_null = omega arith;
      cell = task 30 0 0 5000000;
      holds = refl;
      prev_eq = refl;
      next_eq = refl;
    },
    (
      record {
        ne_null = omega arith;
        cell = task 0 20 0 9000000;
        holds = refl;
        prev_eq = refl;
        next_eq = refl;
      },
      tt,
    ),
  );
  distinct = (refl, (refl, tt));
}

pub runners-Runnable : Runnable world (40 ∷ [])
runners-Runnable = record {
  queue = record {
    head_eq = refl;
    tail_eq = refl;
    chain = (
      record {
        ne_null = omega arith;
        cell = task 0 0 1 0;
        holds = refl;
        prev_eq = refl;
        next_eq = refl;
      },
      tt,
    );
    distinct = (refl, tt);
  };
  marked = λ a i. let e : a ≡ 40 = ground arith in rw e;
}

pub running-IsTask : IsTask memory 10
running-IsTask = record { ne_null = omega arith; cell = task 0 0 0 0; holds = refl }

pub running-Idle : Idle memory 10
running-Idle = record { live = running-IsTask; state = refl }

pub twenty-Idle : Idle memory 20
twenty-Idle = record {
  live = record { ne_null = omega arith; cell = task 30 0 0 5000000; holds = refl };
  state = refl;
}

thirty-Idle : Idle memory 30
thirty-Idle = record {
  live = record { ne_null = omega arith; cell = task 0 20 0 9000000; holds = refl };
  state = refl;
}

pub waiters-Waiting : Waiting memory waiters (20 ∷ 30 ∷ [])
waiters-Waiting = record { queue = waiters-IsQueue; idle = λ a i. which a (either a i) }
  where
    either : (a : Ptr) → a ∈ (20 ∷ 30 ∷ []) → (a ≡ 20) ⊎ (a ≡ 30)
    either a i = ground arith

    which : (a : Ptr) → (a ≡ 20) ⊎ (a ≡ 30) → Idle memory a
    which a (inl e) = rw e twenty-Idle
    which a (inr e) = rw e thirty-Idle

pub nobody-Waiting : Waiting memory empty_list []
nobody-Waiting = record {
  queue = record { head_eq = refl; tail_eq = refl; chain = tt; distinct = tt };
  idle = λ a i. cc;
}
