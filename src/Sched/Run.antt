-- ===== src/Sched/Run.antt =====
-- Whole runs of taskscheduler of libtask/task.c.
use mathlib.Core.Option
use libabhi.Base.{
  ℕ, zero, suc, ◌+◌, ◌<◌, ◌≤◌, ◌≡◌, ◌≢◌, refl, sym, ap, ◌∙◌, subst, true, false, Option, none, some,
  List, [], ◌∷◌, arith, ◌==◌, inl, inr, ◌⊎◌, ◌∈◌, Returns, returns, Returns-bind, Returns-mono,
  Bool-cases, Outcome, ok, ◌>>=◌,
}
use libabhi.Base.Int.{pos, dec, is_zero}
use libabhi.Tasks.{Ptr, null, Task, task_state_exiting, task_state_ready}
use libabhi.Tasks.Chain.{not_null}
use libabhi.Tasks.Links.{IsTask, IsQueue, links, IsQueue-links}
use libabhi.Sched.{World, Ended, all_done, stalled, dispatch, switched_back, scheduler_loop}
use libabhi.Sched.Ready.{state_of, Idle, Runnable, load-holds}
use libabhi.Sched.Slots.{placeless, reap_lem}
use libabhi.Sched.Census.{Census, Census-same}
use libabhi.Sched.Dispatch.{dispatch_lem}

-- What a task `t` may leave when it gives up the CPU: a run queue and an array of tasks in order, and
-- either it has exited, or less is left to do. `rest` bounds what the program still does beside
-- letting each task exit.
pub record Ran {S : Type 0} (rest : S → ℕ) (t : Ptr) (w : World) (s : S) (r : World × S)
    : Type 0 where
  pub ready : List Ptr
  pub runnable : Runnable (r.0) ready
  pub census : Census (r.0)
  pub live : IsTask (r.0.heap) t
  pub how :
      ((live.cell._state ≡ task_state_exiting) × (rest (r.1) + r.0.nalltask ≤ rest s + w.nalltask))
      ⊎ ((live.cell._state ≢ task_state_exiting)
          × (rest (r.1) + r.0.nalltask < rest s + w.nalltask))

-- A program whose tasks keep the scheduler's data in order, and which ends. A task may wake, create
-- or let wait other tasks, or wait itself.
pub record IsProgram {S : Type 0} (run : Ptr → World → S → Outcome (World × S)) (rest : S → ℕ)
    : Type 0 where
  pub runs :
      (t : Ptr) (w : World) (s : S) (ready : List Ptr)
      → w.taskrunning ≡ t
      → Idle w.heap t
      → Runnable w ready
      → Census w
      → Returns (Ran rest t w s) (run t w s)

placeless-map :
    {A : Type 0} (f : Task → A)
    → ((c : Task) → f (placeless c) ≡ f c)
    → (x y : Option Task) → Option.map placeless x ≡ Option.map placeless y
    → Option.map f x ≡ Option.map f y
placeless-map f same x y e = sym (go x) ∙ ap (Option.map f) e ∙ go y
  where
    go : (z : Option Task) → Option.map f (Option.map placeless z) ≡ Option.map f z
    go none = refl
    go (some c) = ap some (same c)

dec-pos : (n m : ℕ) → m + 1 ≡ n → dec (pos n) ≡ pos m
dec-pos zero m e = absurd (omega arith)
dec-pos (suc n) m e = let same : n ≡ m = omega arith in ap pos same

-- What is left when an exited task is gone.
record After (w : World) (ready : List Ptr) (w' : World) : Type 0 where
  runnable : Runnable w' ready
  census : Census w'
  fewer : w'.nalltask + 1 ≡ w.nalltask

-- No exited task is in the run queue.
exited-out :
    {w : World} (t : Ptr) (ready : List Ptr) (live : IsTask w.heap t)
    → Runnable w ready
    → live.cell._state ≡ task_state_exiting
    → (a : Ptr) → a ∈ ready
    → a ≢ t
exited-out {w} t ready live r e a i same =
    let marked = sym (ap (state_of w.heap) same) ∙ r.marked a i in
    clash (sym marked ∙ ap (Option.map (λ c. c._state)) live.holds ∙ ap some e)
  where
    clash : some task_state_ready ≡ some task_state_exiting → ⊥
    clash p = ground arith

idle_cpu : World → World
idle_cpu w = record w { taskrunning = null }

idle_cpu-Runnable : (w : World) (ready : List Ptr) → Runnable w ready → Runnable (idle_cpu w) ready
unfolding idle_cpu
idle_cpu-Runnable w ready r = record { queue = r.queue; marked = r.marked }

idle_cpu-Census : (w : World) → Census w → Census (idle_cpu w)
unfolding idle_cpu
idle_cpu-Census w k = Census-same (λ a. refl) refl refl refl k

idle_cpu-nalltask : (w : World) → (idle_cpu w).nalltask ≡ w.nalltask
unfolding idle_cpu
idle_cpu-nalltask w = refl

switched_back-exited :
    {w : World} (t : Ptr) (ready : List Ptr) (live : IsTask w.heap t)
    → Runnable w ready
    → Census w
    → live.cell._state ≡ task_state_exiting
    → Returns (After w ready) (switched_back t w)
unfolding switched_back idle_cpu
switched_back-exited {w} t ready live r k e =
    let test : (live.cell._state == task_state_exiting) ≡ true = ground (arith, e) in
    let k' : Census (idle_cpu w) = Census-same (λ a. refl) refl refl refl k in
    rw (load-holds live, test)
      (Returns-mono (reap_lem t live.cell k'.slotted live.holds) λ w' m.
        let core : (a : Ptr)
            → a ∈ ready
            → Option.map placeless (w'.heap a) ≡ Option.map placeless (w.heap a) =
          λ a i. m.others a (exited-out t ready live r e a i) in
        record {
          runnable = record {
            queue =
                subst (λ q. IsQueue w'.heap q ready) (sym m.queue)
                  (IsQueue-links ready r.queue
                    λ a i. placeless-map links (λ c. refl) (w'.heap a) (w.heap a) (core a i));
            marked = λ a i.
                placeless-map (λ c. c._state) (λ c. refl) (w'.heap a) (w.heap a) (core a i)
                ∙ r.marked a i;
          };
          census = record {
            slotted = m.slotted;
            counted = m.uncounted ∙ ap dec k.counted ∙ dec-pos w.nalltask w'.nalltask m.fewer;
          };
          fewer = m.fewer;
        })

switched_back-goes_on :
    (w : World) (t : Ptr) (live : IsTask w.heap t)
    → live.cell._state ≢ task_state_exiting
    → switched_back t w ≡ ok (idle_cpu w)
unfolding switched_back idle_cpu
switched_back-goes_on w t live n =
    let test : (live.cell._state == task_state_exiting) ≡ false = ground (arith, n) in
    rw (load-holds live, test) refl

-- The loop has ended: all tasks have exited, or tasks are left of which none is ready.
pub data HasEnded (w : World) : Ended → Type 0 where
  nobody_left : w.nalltask ≡ 0 → HasEnded w all_done
  nobody_ready : 0 < w.nalltask → Runnable w [] → HasEnded w stalled

abbrev pub Finished : {S : Type 0} → Ended × World × S → Type 0
Finished (e, w, s) = Census w × HasEnded w e

pos-zero : (n : ℕ) → is_zero (pos n) ≡ true → n ≡ 0
pos-zero zero e = refl
pos-zero (suc n) e = cc

pos-suc : (n : ℕ) → is_zero (pos n) ≡ false → 0 < n
pos-suc zero e = cc
pos-suc (suc n) e = omega arith

module _ {S : Type 0} (run : Ptr → World → S → Outcome (World × S)) (rest : S → ℕ)
    (program : IsProgram run rest) where
  abbrev Again : ℕ → Type 0
  Again fuel =
      (w : World) (s : S) (ready : List Ptr)
      → Runnable w ready
      → Census w
      → rest s + w.nalltask < fuel
      → Returns Finished (scheduler_loop run fuel w s)

  -- What follows the run of a task in a round.
  next_round :
      (fuel : ℕ)
      → Again fuel
      → (t : Ptr) (w : World) (s : S) → rest s + w.nalltask < suc fuel
      → (r : World × S) → Ran rest t w s r
      → Returns Finished (switched_back t (r.0) >>= λ w₃. scheduler_loop run fuel w₃ (r.1))
  next_round fuel again t w s enough (w₂, s') m = elim m.how [
    | inl (exits, less) ↦
        Returns-bind (switched_back-exited t m.ready m.live m.runnable m.census exits)
          λ w₃ a. again w₃ s' m.ready a.runnable a.census (omega (arith, a.fewer))
    | inr (goes_on, less) ↦ rw (switched_back-goes_on w₂ t m.live goes_on) (
        again (idle_cpu w₂) s' m.ready (idle_cpu-Runnable w₂ m.ready m.runnable)
          (idle_cpu-Census w₂ m.census) (fewer less))
  ]
    where
      fewer : rest s' + w₂.nalltask < rest s + w.nalltask → rest s' + (idle_cpu w₂).nalltask < fuel
      fewer less = omega (arith, idle_cpu-nalltask w₂)

  whole_round :
      (fuel : ℕ)
      → Again fuel
      → (w : World) (s : S) (others : List Ptr) → Runnable w (w.taskrunqueue.head ∷ others)
      → Census w
      → rest s + w.nalltask < suc fuel
      → Returns Finished (
          dispatch w >>= λ w₁. run w.taskrunqueue.head w₁ s >>= λ r.
          switched_back w.taskrunqueue.head (r.0) >>= λ w₃. scheduler_loop run fuel w₃ (r.1))
  whole_round fuel again w s others r k enough =
      let t = w.taskrunqueue.head in
      Returns-bind (dispatch_lem t others r) λ w₁ d.
        let (same_array, same_n, same_count) = d.array in
        let k₁ : Census w₁ = Census-same d.slots same_array same_n same_count k in
        Returns-bind (program.runs t w₁ s others d.runs d.idle d.runnable k₁)
          λ r₂ m. next_round fuel again t w₁ s (omega (arith, same_n)) r₂ m

  busy_round :
      (fuel : ℕ)
      → Again fuel
      → (w : World) (s : S) (ready : List Ptr) → Runnable w ready
      → Census w
      → is_zero w.taskcount ≡ false
      → rest s + w.nalltask < suc fuel
      → Returns Finished (scheduler_loop run (suc fuel) w s)
  unfolding scheduler_loop
  busy_round fuel again w s [] r k busy enough =
      let test : (w.taskrunqueue.head == null) ≡ true = ap (λ p. p == null) r.queue.head_eq in
      let some_left = pos-suc w.nalltask (sym (ap is_zero k.counted) ∙ busy) in
      rw (busy, test) (returns (k, nobody_ready some_left r))
  busy_round fuel again w s (t ∷ others) r k busy enough =
      let test : (w.taskrunqueue.head == null) ≡ false =
        ap (λ p. p == null) r.queue.head_eq ∙ not_null (r.queue.chain.0) in
      rw (busy, test)
        (whole_round fuel again w s others
          (subst (λ p. Runnable w (p ∷ others)) (sym r.queue.head_eq) r) k enough)

  -- Whatever a program does that keeps the scheduler's data in order and ends, the scheduler's loop
  -- ends without a fault: by its first test when all tasks have exited, and otherwise with tasks left
  -- of which none is ready. As many rounds are enough as the program has things left to do and tasks,
  -- and one more.
  pub scheduler_loop_lem :
      (fuel : ℕ) (w : World) (s : S) (ready : List Ptr)
      → Runnable w ready
      → Census w
      → rest s + w.nalltask < fuel
      → Returns Finished (scheduler_loop run fuel w s)
  unfolding scheduler_loop
  scheduler_loop_lem zero w s ready r k enough = absurd (omega arith)
  scheduler_loop_lem (suc fuel) w s ready r k enough = elim (Bool-cases (is_zero w.taskcount)) [
    | inl e ↦ rw e (returns (k, nobody_left (pos-zero w.nalltask (sym (ap is_zero k.counted) ∙ e))))
    | inr n ↦ busy_round fuel (scheduler_loop_lem fuel) w s ready r k n enough
  ]
