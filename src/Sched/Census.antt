-- ===== src/Sched/Census.antt =====
-- The tasks of a thread are those of the array `alltask` of libtask/task.c, and taskcount is their
-- number.
use mathlib.Core.Option
use libabhi.Base.{
  ℕ, ◌≡◌, refl, sym, ap, ◌∙◌, subst, Option, none, some, List, arith, get_elem?, length,
}
use libabhi.Base.Int.{pos}
use libabhi.Tasks.{Ptr, Task, Heap}
use libabhi.Tasks.Place.{slot_of}
use libabhi.Sched.{World}
use libabhi.Sched.Slots.{Entry, IsSlotted}

pub record Census (w : World) : Type 0 where
  pub slotted : IsSlotted w
  pub counted : w.taskcount ≡ pos w.nalltask

cell_of_slot :
    {n : ℕ} (x : Option Task)
    → Option.map (λ c. c.alltaskslot) x ≡ some n
    → (c : Task) × (x ≡ some c) × (c.alltaskslot ≡ n)
cell_of_slot none e = cc
cell_of_slot (some c) e = (c, refl, ground arith)

Entry-same :
    {h g : Heap} {a : List Ptr} {i : ℕ}
    → ((x : Ptr) → slot_of g x ≡ slot_of h x)
    → Entry h a i
    → Entry g a i
Entry-same {h} {g} same e =
    let slot = same e.task ∙ ap (Option.map (λ c. c.alltaskslot)) e.live.holds ∙ ap some e.slot in
    let (c, holds, eq) = cell_of_slot (g e.task) slot in
    record {
      task = e.task;
      at = e.at;
      live = record { ne_null = e.live.ne_null; cell = c; holds = holds };
      slot = eq;
    }

-- Code that neither creates nor frees a task, nor touches the array, keeps the census.
pub Census-same :
    {w w' : World}
    → ((a : Ptr) → slot_of w'.heap a ≡ slot_of w.heap a)
    → w'.alltask ≡ w.alltask
    → w'.nalltask ≡ w.nalltask
    → w'.taskcount ≡ w.taskcount
    → Census w
    → Census w'
Census-same {w} {w'} same array n count k = record {
  slotted = record {
    blocks = k.slotted.blocks;
    sized = ap length array ∙ k.slotted.sized;
    fits = omega (arith, k.slotted.fits, n, ap length array);
    entry = λ i h.
        subst (λ l. Entry w'.heap l i) (sym array)
          (Entry-same same (k.slotted.entry i (omega (arith, n))));
    owns = λ a c h.
        let old = sym (same a) ∙ ap (Option.map (λ x. x.alltaskslot)) h in
        let (d, holds, slot) = cell_of_slot (w.heap a) old in
        let (below, at) = k.slotted.owns a d holds in
        (
          omega (arith, below, slot, n),
          ap (λ l. get_elem? l c.alltaskslot) array ∙ ap (get_elem? w.alltask) (sym slot) ∙ at,
        );
  };
  counted = count ∙ k.counted ∙ ap pos (sym n);
}
