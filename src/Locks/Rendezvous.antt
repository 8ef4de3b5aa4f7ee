-- ===== src/Locks/Rendezvous.antt =====
-- tasksleep and taskwakeup of libtask/rendez.c.
use libabhi.Base.{
  ℕ, zero, suc, ◌+◌, ◌<◌, ◌≡◌, refl, true, false, not, ◌&&◌, List, [], ◌∷◌, ◌++◌, arith, ◌==◌,
  length, take, drop, min, Returns, returns, Returns-bind, Returns-mono, append_assoc, append-nil,
}
use libabhi.Tasks.{Ptr}
use libabhi.Sched.{World}
use libabhi.Sched.Ready.{Runnable}
use libabhi.Sched.Wake.{Waiting, wake_head, head-nil, head-cons}
use libabhi.Locks.{Rendez, wakeup_loop, taskwakeup, taskwakeupall}

-- `sleeping` wait at `r`, and `ready` is the run queue.
pub record Meets (r : Rendez) (w : World) (sleeping ready : List Ptr) : Type 0 where
  pub waiting : Waiting w.heap r.waiting sleeping
  pub runnable : Runnable w ready

abbrev pub Woke : ℕ → List Ptr → List Ptr → ℕ × Rendez × World → Type 0
Woke count sleeping ready (i, r, w) = (i ≡ count) × Meets r w sleeping ready

never : (i : ℕ) → ((i == 1) && not true) ≡ false
never i = ground arith

wakeup_loop_all :
    (n i : ℕ) {r : Rendez} {w : World} (sleeping ready : List Ptr)
    → Meets r w sleeping ready
    → length sleeping < n
    → Returns (Woke (i + length sleeping) [] (ready ++ sleeping)) (wakeup_loop n true i r w)
unfolding wakeup_loop
wakeup_loop_all zero i sleeping ready m fuel = absurd (omega arith)
wakeup_loop_all (suc n) i [] ready m fuel =
    rw (never i, head-nil m.waiting, append-nil ready) (returns (omega arith, m))
wakeup_loop_all (suc n) i {r} (t ∷ rest) ready m fuel =
    rw (never i, head-cons m.waiting)
      (Returns-bind (wake_head r.waiting t rest ready m.runnable m.waiting) λ (q, w') k.
        Returns-mono
          (wakeup_loop_all n (i + 1) rest (ready ++ (t ∷ []))
            (record { waiting = k.waiting; runnable = k.runnable }) (omega arith))
          λ (j, r', w'') (count, m'). (omega arith, rw (← append_assoc ready (t ∷ []) rest) m'))

module _ {r : Rendez} {w : World} (sleeping ready : List Ptr) (m : Meets r w sleeping ready) where
  -- taskwakeupall, given more rounds than tasks sleep, makes all of them ready in the order in which
  -- they fell asleep, and returns their number.
  pub taskwakeupall_lem :
      (n : ℕ)
      → length sleeping < n
      → Returns (Woke (length sleeping) [] (ready ++ sleeping)) (taskwakeupall n r w)
  unfolding taskwakeupall
  taskwakeupall_lem n fuel =
      Returns-mono (wakeup_loop_all n 0 sleeping ready m fuel)
        λ (i, r', w') (count, k). (omega arith, k)

-- taskwakeup makes the task that fell asleep first ready, if there is one, and returns how many it
-- woke. Two rounds are enough.
pub taskwakeup_lem :
    (k : ℕ) {r : Rendez} {w : World} (sleeping ready : List Ptr)
    → Meets r w sleeping ready
    → Returns
        (Woke (min 1 (length sleeping)) (drop 1 sleeping) (ready ++ take 1 sleeping))
        (taskwakeup (suc (suc k)) r w)
unfolding taskwakeup
taskwakeup_lem k [] ready m = rw (head-nil m.waiting, append-nil ready) (returns (refl, m))
taskwakeup_lem k {r} (t ∷ rest) ready m = rw (head-cons m.waiting) (
    Returns-bind (wake_head r.waiting t rest ready m.runnable m.waiting)
      λ (q, w') c. returns (omega arith, record { waiting = c.waiting; runnable = c.runnable }))
