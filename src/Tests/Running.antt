-- ===== src/Tests/Running.antt =====
-- Tests of whole runs: a task that yields a few times and then exits, and one that waits for ever.
use mathlib.Core.Option
use libabhi.Base.{
  ℕ, zero, suc, ◌<◌, ◌≡◌, refl, sym, ap, ◌∙◌, inl, inr, ◌==◌, some, none, [], ◌∷◌, arith,
  if◌then◌else◌, replicate, length-replicate, Returns, returns, Returns-bind, Outcome, ok, ◌>>=◌,
  ◌∈◌, ◌++◌, List, has-append,
}
use libabhi.Base.Int.{pos}
use libabhi.Tasks.{Ptr, Task, modify, task_state_exiting}
use libabhi.Tasks.Chain.{write_self, write_ne}
use libabhi.Tasks.Place.{slot_of-write}
use libabhi.Tasks.Links.{IsQueue-frame, IsQueue-IsTask}
use libabhi.Sched.{World, taskexit, taskyield_start, scheduler_loop, taskscheduler}
use libabhi.Sched.Ready.{Runnable, Readied, Idle, Idle-∉, load-holds, taskready_lem}
use libabhi.Sched.Slots.{Entry}
use libabhi.Sched.Census.{Census, Census-same}
use libabhi.Sched.Run.{Ran, IsProgram, Finished, scheduler_loop_lem}
use libabhi.Sched.Free.{taskscheduler_lem}
use libabhi.Tests.Data.{task, world}
use libabhi.Base.{ne-of-mem}

-- The memory of the program is how often tasks still yield; then they exit.
exit_later : Ptr → World → ℕ → Outcome (World × ℕ)
exit_later t w zero = do w' ← taskexit 0 w; ok (w', 0)
exit_later t w (suc k) = do (n, w') ← taskyield_start w; ok (w', k)

exits :
    (w : World) (ready : List Ptr)
    → Idle w.heap w.taskrunning
    → Runnable w ready
    → Census w
    → Returns (Ran (λ s. s) w.taskrunning w 0) (exit_later w.taskrunning w 0)
unfolding exit_later taskexit modify
exits w ready idle r k =
    let t = w.taskrunning in
    let c : Task = record (idle.live.cell) { _state = task_state_exiting } in
    let out = Idle-∉ ready t r idle in
    rw (load-holds idle.live) (
      returns (record {
        ready = ready;
        runnable = record {
          queue =
              IsQueue-frame ready r.queue
                λ a i. write_ne w.heap t a (some c) (ne-of-mem a t ready i out);
          marked = λ a i.
              ap (Option.map (λ x. x._state))
                (write_ne w.heap t a (some c) (ne-of-mem a t ready i out))
              ∙ r.marked a i;
        };
        census =
            Census-same (λ a. slot_of-write w.heap t a idle.live.cell c idle.live.holds refl) refl
              refl refl k;
        live = record {
          ne_null = idle.live.ne_null;
          cell = c;
          holds = write_self w.heap t (some c);
        };
        how = inl (refl, omega arith);
      }))

yields :
    (w : World) (ready : List Ptr) (s : ℕ)
    → Idle w.heap w.taskrunning
    → Runnable w ready
    → Census w
    → Returns (Ran (λ s. s) w.taskrunning w (suc s)) (exit_later w.taskrunning w (suc s))
unfolding exit_later taskyield_start
yields w ready s idle r k =
    let t = w.taskrunning in
    let started : Returns (λ (n, w'). Readied w t ready w') (taskyield_start w) =
      Returns-bind (taskready_lem t ready r idle) λ w' m. returns m in
    Returns-bind started λ (n, w') m.
      let member : t ∈ (ready ++ (t ∷ [])) = ground (arith, has-append t ready (t ∷ [])) in
      let live = IsQueue-IsTask (ready ++ (t ∷ [])) t m.runnable.queue member in
      let marked = sym (ap (Option.map (λ x. x._state)) live.holds) ∙ m.runnable.marked t member in
      let same_n : w'.nalltask ≡ w.nalltask = ap (λ x. x.nalltask) m.globals in
      returns (record {
        ready = ready ++ (t ∷ []);
        runnable = m.runnable;
        census =
            Census-same m.slots (ap (λ x. x.alltask) m.globals) same_n
              (ap (λ x. x.taskcount) m.globals) k;
        live = live;
        how = inr (ground arith, omega (arith, same_n));
      })

exit_later-IsProgram : IsProgram exit_later (λ s. s)
exit_later-IsProgram = record { runs = go }
  where
    go :
        (t : Ptr) (w : World) (s : ℕ) (ready : List Ptr)
        → w.taskrunning ≡ t
        → Idle w.heap t
        → Runnable w ready
        → Census w
        → Returns (Ran (λ n. n) t w s) (exit_later t w s)
    go t w zero ready e = rw (← e) (exits w ready)
    go t w (suc s) ready e = rw (← e) (yields w ready s)

-- Task 40 is ready, and 50 waits.
abbrev two_left : World
two_left = record world {
  heap = λ p.
      if p == 40
      then some (task 0 0 1 0)
      else if p == 50
      then some (record (task 0 0 0 0) { alltaskslot = 1 })
      else none;
  alltask = 40 ∷ 50 ∷ replicate 1022 0;
  nalltask = 2;
  taskcount = pos 2;
}

two_left-Runnable : Runnable two_left (40 ∷ [])
two_left-Runnable = record {
  queue = record {
    head_eq = refl;
    tail_eq = refl;
    chain = (
      record {
        ne_null = omega arith;
        cell = task 0 0 1 0;
        holds = refl;
        prev_eq = refl;
        next_eq = refl;
      },
      tt,
    );
    distinct = (refl, tt);
  };
  marked = λ a i. let e : a ≡ 40 = ground arith in rw e;
}

two_left-Census : Census two_left
two_left-Census = record {
  slotted = record {
    blocks = 1;
    sized = omega (arith, length-replicate {0} {A = ℕ} 1022 0);
    fits = omega arith;
    entry = entries;
    owns = λ a c h. ground arith;
  };
  counted = refl;
}
  where
    entries : (i : ℕ) → i < 2 → Entry two_left.heap two_left.alltask i
    entries zero h = record {
      task = 40;
      at = refl;
      live = record { ne_null = omega arith; cell = task 0 0 1 0; holds = refl };
      slot = refl;
    }
    entries (suc zero) h = record {
      task = 50;
      at = refl;
      live = record {
        ne_null = omega arith;
        cell = record (task 0 0 0 0) { alltaskslot = 1 };
        holds = refl;
      };
      slot = refl;
    }
    entries (suc (suc i)) h = absurd (omega arith)

-- Task 40 yields three times and exits; task 50 is left.
scheduler_loop_lem_example : Returns Finished (scheduler_loop exit_later 6 two_left 3)
scheduler_loop_lem_example =
    scheduler_loop_lem exit_later (λ s. s) exit_later-IsProgram 6 two_left 3 (40 ∷ [])
      two_left-Runnable two_left-Census (omega arith)

taskscheduler_lem_example :
    Returns
      (λ (w', s'). (w'.nalltask ≡ 0) × ((a : Ptr) → w'.heap a ≡ none))
      (taskscheduler exit_later 6 two_left 3)
taskscheduler_lem_example =
    taskscheduler_lem exit_later (λ s. s) exit_later-IsProgram 6 two_left 3 (40 ∷ [])
      two_left-Runnable two_left-Census (omega arith)
