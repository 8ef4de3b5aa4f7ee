-- ===== src/Sched/Dispatch.antt =====
-- The scheduler of libtask/task.c runs the task that became ready first.
use mathlib.Core.Option
use libabhi.Base.{
  ◌+◌, ◌%◌, ◌^◌, ◌≡◌, ◌≢◌, refl, sym, ap, ◌∙◌, subst, some, List, [], ◌∷◌, arith, ◌∈◌, ne-of-mem,
  Returns, returns, Returns-bind,
}
use libabhi.Tasks.{Ptr, Heap, modify}
use libabhi.Tasks.Chain.{write_self, write_ne}
use libabhi.Tasks.Links.{IsTask, IsQueue-frame, IsQueue-IsTask}
use libabhi.Tasks.Unlink.{deltask_lem}
use libabhi.Tasks.Place.{slot_of, slot_of-write, slot_of-Changed}
use libabhi.Sched.{World, dispatch, set_state}
use libabhi.Sched.Ready.{state_of-Changed, cell_of_state, load-holds, Idle, Runnable}

-- `t` runs and is idle, and the others stay in the run queue.
pub record Dispatched (w : World) (t : Ptr) (rest : List Ptr) (w' : World) : Type 0 where
  pub runs : w'.taskrunning ≡ t
  pub idle : Idle w'.heap t
  pub runnable : Runnable w' rest
  pub slots : (a : Ptr) → slot_of w'.heap a ≡ slot_of w.heap a
  pub array : (w'.alltask ≡ w.alltask) × (w'.nalltask ≡ w.nalltask) × (w'.taskcount ≡ w.taskcount)
  pub switched : w'._tasknswitch ≡ (w._tasknswitch + 1) % 2 ^ 32

set_state_lem :
    {h : Heap} {t : Ptr} (live : IsTask h t)
    → Returns
        (λ g. Idle g t × ((a : Ptr) → a ≢ t → g a ≡ h a) × ((a : Ptr) → slot_of g a ≡ slot_of h a))
        (set_state t 0 h)
unfolding modify
set_state_lem {h} {t} live =
    let c = record (live.cell) { _state = 0 } in
    rw (load-holds live) (
      returns (
        record {
          live = record { ne_null = live.ne_null; cell = c; holds = write_self h t (some c) };
          state = ap (Option.map (λ x. x._state)) (write_self h t (some c));
        },
        λ a n. write_ne h t a (some c) n,
        λ a. slot_of-write h t a live.cell c live.holds refl,
      ))

dispatch_head :
    (w : World) (rest : List Ptr)
    → Runnable w (w.taskrunqueue.head ∷ rest)
    → Returns (Dispatched w w.taskrunqueue.head rest) (dispatch w)
unfolding dispatch
dispatch_head w rest r =
    let t = w.taskrunqueue.head in
    let task = IsQueue-IsTask (t ∷ rest) t r.queue (ground arith) in
    let out = r.queue.distinct.0 in
    Returns-bind (deltask_lem w.heap w.taskrunqueue t [] rest r.queue) λ (q, h) (queue, changed).
      let ready_still = state_of-Changed t changed ∙ r.marked t (ground arith) in
      let (c, e) = cell_of_state (h t) ready_still in
      Returns-bind (set_state_lem (record { ne_null = task.ne_null; cell = c; holds = e }))
        λ g (idle, same, slots).
          let others : (a : Ptr) → a ∈ rest → g a ≡ h a =
            λ a i. same a (ne-of-mem a t rest i out) in
          returns (record {
            runs = refl;
            idle = idle;
            runnable = record {
              queue = IsQueue-frame rest queue others;
              marked = λ a i.
                  ap (Option.map (λ x. x._state)) (others a i)
                  ∙ state_of-Changed a changed
                  ∙ r.marked a (later a i);
            };
            slots = λ a. slots a ∙ slot_of-Changed a changed;
            array = (refl, refl, refl);
            switched = refl;
          })
  where
    later : (a : Ptr) → a ∈ rest → a ∈ (w.taskrunqueue.head ∷ rest)
    later a i = ground arith

-- A round of the scheduler takes the first task from the run queue and lets it run, no longer marked
-- as ready; the other tasks stay in the queue, in order. It never stops with a fault.
pub dispatch_lem :
    {w : World} (t : Ptr) (rest : List Ptr)
    → Runnable w (t ∷ rest)
    → Returns (Dispatched w t rest) (dispatch w)
dispatch_lem {w} t rest r =
    let first : w.taskrunqueue.head ≡ t = r.queue.head_eq in
    subst (λ p. Returns (Dispatched w p rest) (dispatch w)) first
      (dispatch_head w rest (subst (λ p. Runnable w (p ∷ rest)) (sym first) r))
