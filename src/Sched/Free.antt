-- ===== src/Sched/Free.antt =====
-- What taskscheduler of libtask/task.c does when its loop has ended: it frees the tasks left.
use libabhi.Base.{
  ℕ, zero, suc, ◌+◌, ◌<◌, ◌≡◌, ◌≢◌, refl, sym, ap, ◌∙◌, Option, none, some, List, arith, ◌==◌, inl,
  inr, get_elem?, Returns, returns, Returns-bind, Returns-mono, Bool-cases, Outcome,
}
use libabhi.Tasks.{Ptr, Task, Heap, write}
use libabhi.Tasks.Chain.{write_self, write_ne}
use libabhi.Sched.{World, free_all, taskscheduler}
use libabhi.Sched.Ready.{Runnable, load-holds}
use libabhi.Sched.Slots.{Entry, read_at-some, apart_slots}
use libabhi.Sched.Census.{Census}
use libabhi.Sched.Run.{IsProgram, scheduler_loop_lem}

-- The first `n` tasks of the array are freed, and none is allocated anew.
record Freed (n : ℕ) (a : List Ptr) (h g : Heap) : Type 0 where
  listed : (i : ℕ) → i < n → (x : Ptr) → get_elem? a i ≡ some x → g x ≡ none
  others : (x : Ptr) → h x ≡ none → g x ≡ none

Entry-write :
    {h : Heap} {a : List Ptr} {i : ℕ} (x : Ptr)
    → (e : Entry h a i) → e.task ≢ x
    → Entry (write h x none) a i
Entry-write {h} x e n = record {
  task = e.task;
  at = e.at;
  live = record {
    ne_null = e.live.ne_null;
    cell = e.live.cell;
    holds = write_ne h x e.task none n ∙ e.live.holds;
  };
  slot = e.slot;
}

Ptr-inj : {x y : Ptr} → some x ≡ some y → x ≡ y
Ptr-inj e = ground arith

free_all_lem :
    (n : ℕ) (a : List Ptr) (h : Heap)
    → ((i : ℕ) → i < n → Entry h a i)
    → Returns (Freed n a h) (free_all n a h)
unfolding free_all
free_all_lem zero a h entry =
    returns (record { listed = λ i small x e. absurd (omega arith); others = λ x e. e })
free_all_lem (suc n) a h entry =
    let last = entry n (omega arith) in
    let x = last.task in
    let h' = write h x none in
    let before : (i : ℕ) → i < n → Entry h' a i = λ i small.
      let e = entry i (omega arith) in
      Entry-write x e (apart_slots e last.live.holds (omega (arith, last.slot))) in
    rw (read_at-some a n x last.at, load-holds last.live)
      (Returns-mono (free_all_lem n a h' before) λ g f. record {
        listed = λ i small y here. elim (Bool-cases (i == n)) [
          | inl e ↦
              let at : i ≡ n = ground arith in
              let same : y ≡ x = Ptr-inj (sym here ∙ ap (get_elem? a) at ∙ last.at) in
              ap g same ∙ f.others x (write_self h x none)
          | inr e ↦ let other : i ≢ n = ground arith in f.listed i (omega arith) y here
        ];
        others = λ y gone. f.others y (still_gone y x h gone);
      })
  where
    still_gone : (y x : Ptr) (h : Heap) → h y ≡ none → write h x none y ≡ none
    still_gone y x h gone = elim (Bool-cases (y == x)) [
      | inl e ↦ let same : y ≡ x = ground arith in ap (write h x none) same ∙ write_self h x none
      | inr n ↦ write_ne h x y none (ground arith) ∙ gone
    ]

-- Whatever a program does that keeps the scheduler's data in order and ends, taskscheduler returns,
-- and then every task that was ever created has been freed, none of them twice.
pub taskscheduler_lem :
    {S : Type 0} (run : Ptr → World → S → Outcome (World × S)) (rest : S → ℕ)
    (program : IsProgram run rest) (fuel : ℕ) (w : World) (s : S) (ready : List Ptr)
    → Runnable w ready
    → Census w
    → rest s + w.nalltask < fuel
    → Returns
        (λ (w', s'). (w'.nalltask ≡ 0) × ((a : Ptr) → w'.heap a ≡ none))
        (taskscheduler run fuel w s)
unfolding taskscheduler
taskscheduler_lem run rest program fuel w s ready r k enough =
    Returns-bind (scheduler_loop_lem run rest program fuel w s ready r k enough)
      λ (e, w', s') (k', ended).
        Returns-bind (free_all_lem w'.nalltask w'.alltask w'.heap k'.slotted.entry)
          λ g f. returns (refl, λ a. all_gone w' g f k' a (w'.heap a) refl)
  where
    all_gone :
        (w' : World) (g : Heap)
        → Freed w'.nalltask w'.alltask w'.heap g
        → Census w'
        → (a : Ptr) (x : Option Task) → w'.heap a ≡ x
        → g a ≡ none
    all_gone w' g f k' a none e = f.others a e
    all_gone w' g f k' a (some c) e =
        let (below, at) = k'.slotted.owns a c e in f.listed c.alltaskslot below a at
