-- ===== src/Tests/Scheduling.antt =====
-- Tests of the task lists and of the run queue.
use libabhi.Base.{
  ◌≡◌, ◌%◌, ◌^◌, ◌+◌, true, ℕ, zero, suc, ◌<◌, ◌==◌, refl, some, none, [], ◌∷◌, arith,
  if◌then◌else◌, replicate, length-replicate, Returns,
}
use libabhi.Tasks.{addtask, deltask}
use libabhi.Tasks.Links.{Queued, addtask_lem}
use libabhi.Tasks.Unlink.{Removed, deltask_lem}
use libabhi.Sched.{World, reap, taskcreateraw}
use libabhi.Sched.Slots.{Entry, IsSlotted, Reaped, reap_lem}
use libabhi.Sched.Create.{Created, taskcreateraw_lem}
use libabhi.Sched.Start.{pointer_words, joined_words, joined-pointer_words}
use libabhi.Tests.Data.{task, memory, waiters, world, waiters-IsQueue, running-IsTask}

-- A third task joins two that wait.
addtask_lem_example : Returns (Queued memory 10 (20 ∷ 30 ∷ [])) (addtask waiters 10 memory)
addtask_lem_example = addtask_lem running-IsTask (20 ∷ 30 ∷ []) waiters-IsQueue refl

-- The second of two tasks leaves.
deltask_lem_example : Returns (Removed memory 30 (20 ∷ []) []) (deltask waiters 30 memory)
deltask_lem_example = deltask_lem memory waiters 30 (20 ∷ []) [] waiters-IsQueue

-- Two tasks in the array: 10 and 50.
abbrev pub two_tasks : World
two_tasks = record world {
  heap = λ p.
      if p == 10
      then some (task 0 0 2 0)
      else if p == 50
      then some (record (task 0 0 0 0) { alltaskslot = 1 })
      else none;
  alltask = 10 ∷ 50 ∷ replicate 1022 0;
  nalltask = 2;
}

pub two_tasks-IsSlotted : IsSlotted two_tasks
two_tasks-IsSlotted = record {
  blocks = 1;
  sized = omega (arith, length-replicate {0} {A = ℕ} 1022 0);
  fits = omega arith;
  entry = entries;
  owns = λ a c h. ground arith;
}
  where
    entries : (i : ℕ) → i < 2 → Entry two_tasks.heap two_tasks.alltask i
    entries zero h = record {
      task = 10;
      at = refl;
      live = record { ne_null = omega arith; cell = task 0 0 2 0; holds = refl };
      slot = refl;
    }
    entries (suc zero) h = record {
      task = 50;
      at = refl;
      live = record {
        ne_null = omega arith;
        cell = record (task 0 0 0 0) { alltaskslot = 1 };
        holds = refl;
      };
      slot = refl;
    }
    entries (suc (suc i)) h = absurd (omega arith)

-- The first of them has exited: the second takes its place.
reap_lem_example : Returns (Reaped two_tasks 10 0) (reap 10 (task 0 0 2 0) two_tasks)
reap_lem_example = reap_lem 10 (task 0 0 2 0) two_tasks-IsSlotted refl

taskcreateraw_lem_example :
    Returns (Created two_tasks 90) (taskcreateraw true 90 1 2 32768 two_tasks)
taskcreateraw_lem_example = taskcreateraw_lem 90 1 2 32768 two_tasks-IsSlotted (omega arith) refl

-- An address of 47 bits arrives, one of 49 bits does not.
joined-pointer_words_example :
    joined_words ((pointer_words (2 ^ 46 + 4096)).0) ((pointer_words (2 ^ 46 + 4096)).1)
    ≡ (2 ^ 46 + 4096) % 2 ^ 48
joined-pointer_words_example = joined-pointer_words (2 ^ 46 + 4096) (omega arith)

lost : joined_words 4096 (2 ^ 16) ≡ 4096
unfolding joined_words
lost = refl
