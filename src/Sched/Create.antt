-- ===== src/Sched/Create.antt =====
-- taskcreateraw of libtask/task.c puts a new task into the array of all tasks.
use libabhi.Base.{
  ℕ, ◌+◌, ◌-◌, ◌*◌, ◌/◌, ◌%◌, ◌<◌, ◌≤◌, ◌≡◌, ◌≢◌, refl, sym, ap, ◌∙◌, none, some, List, arith, ◌==◌,
  inl, inr, true, false, length, get_elem?, set, take, replicate, length-set, length-take,
  length-append, length-replicate, get_elem?-set, get_elem?-set_other, get_elem?-take_append,
  Returns, returns, Returns-bind, Bool-cases, ok,
}
use libabhi.Base.Int.{inc}
use libabhi.Tasks.{Ptr, null, Task, Heap, write, modify}
use libabhi.Tasks.Chain.{write_self, write_ne}
use libabhi.Tasks.Links.{IsTask}
use libabhi.Sched.{World, realloc, grow_alltask, taskalloc, taskcreateraw}
use libabhi.Sched.Ready.{load-holds}
use libabhi.Sched.Slots.{Entry, Place, IsSlotted, store_at-inside}

-- Only the array grows; it has room for one more task, and keeps its tasks.
record Grown (w w' : World) : Type 0 where
  rest : w' ≡ record w { alltask = w'.alltask }
  blocks : ℕ
  sized : length w'.alltask ≡ 1024 * blocks
  room : w.nalltask < length w'.alltask
  keeps : (i : ℕ) → i < w.nalltask → get_elem? w'.alltask i ≡ get_elem? w.alltask i

length-realloc : (xs : List Ptr) (n : ℕ) → length (realloc xs n) ≡ n
unfolding realloc
length-realloc xs n = omega (
  arith,
  length-append (take n xs) (replicate (n - length xs) null),
  length-take n xs,
  length-replicate {0} {A = ℕ} (n - length xs) null,
)

grow_lem :
    (w : World) (blocks : ℕ)
    → length w.alltask ≡ 1024 * blocks
    → w.nalltask ≤ length w.alltask
    → Returns (Grown w) (grow_alltask true w)
unfolding grow_alltask realloc
grow_lem w blocks sized fits = elim (Bool-cases ((w.nalltask % 1024) == 0)) [
  | inl full ↦
      let n = w.nalltask + 1024 in
      let long = length-realloc w.alltask n in
      rw full (
        returns (record {
          rest = refl;
          blocks = w.nalltask / 1024 + 1;
          sized = ground (arith, long);
          room = omega (arith, long);
          keeps = λ i h. kept i h;
        }))
  | inr free ↦ rw free (
      returns (record {
        rest = refl;
        blocks = blocks;
        sized = sized;
        room = ground arith;
        keeps = λ i h. refl;
      }))
]
  where
    kept :
        (i : ℕ)
        → i < w.nalltask
        → get_elem? (realloc w.alltask (w.nalltask + 1024)) i ≡ get_elem? w.alltask i
    kept i h =
        get_elem?-take_append w.alltask (replicate (w.nalltask + 1024 - length w.alltask) null)
          (w.nalltask + 1024) i (omega arith) (omega arith)

-- What creating the task `fresh` does: it has the last place, and the others keep theirs.
pub record Created (w : World) (fresh : Ptr) (w' : World) : Type 0 where
  pub slotted : IsSlotted w'
  pub more : w'.nalltask ≡ w.nalltask + 1
  pub counted : w'.taskcount ≡ inc w.taskcount
  pub last : get_elem? w'.alltask w.nalltask ≡ some fresh
  pub keeps : (i : ℕ) → i < w.nalltask → get_elem? w'.alltask i ≡ get_elem? w.alltask i

fresh-apart :
    {h : Heap} {a : List Ptr} {j : ℕ} {x : Ptr} (e : Entry h a j) → h x ≡ none → e.task ≢ x
fresh-apart {h} e free same = clash (sym e.live.holds ∙ ap h same ∙ free)
  where
    clash : {c : Task} → some c ≡ none → ⊥
    clash p = cc

abbrev new_task : (fn arg stack : ℕ) → World → Task
new_task fn arg stack w = record {
  next = null;
  prev = null;
  alarmtime = 0;
  id = w.taskidgen + 1;
  stksize = stack;
  _state = 0;
  alltaskslot = 0;
  startfn = fn;
  startarg = arg;
  udata = 0;
}

taskalloc-new :
    (fresh fn arg stack : ℕ) (w : World)
    → fresh ≢ null
    → taskalloc fresh fn arg stack w
      ≡ ok (record w {
        heap = write w.heap fresh (some (new_task fn arg stack w));
        taskidgen = w.taskidgen + 1;
      })
unfolding taskalloc
taskalloc-new fresh fn arg stack w ne =
    let malloced : (fresh == null) ≡ false = ground (arith, ne) in rw malloced refl

Task-inj : {c d : Task} → some c ≡ some d → c ≡ d
Task-inj e = cc

new-Place :
    {w w₂ : World} (fresh fn arg stack : ℕ)
    → IsSlotted w
    → fresh ≢ null
    → w.heap fresh ≡ none
    → (let c = new_task fn arg stack w in
        Grown
          (record w {
            heap = write w.heap fresh (some c);
            taskidgen = w.taskidgen + 1;
            taskcount = inc w.taskcount;
          })
          w₂
        → (a : Ptr) (d : Task)
        → write w₂.heap fresh (some (record c { alltaskslot = w₂.nalltask })) a ≡ some d
        → Place (set w₂.alltask w₂.nalltask fresh) (w₂.nalltask + 1) a d)
new-Place {w} {w₂} fresh fn arg stack k ne free g a d h = elim (Bool-cases (a == fresh)) [
  | inl e ↦
      let same : a ≡ fresh = ground arith in
      let c' = record (new_task fn arg stack w) { alltaskslot = w₂.nalltask } in
      let g' = write w₂.heap fresh (some c') in
      let d_eq : c' ≡ d =
        Task-inj (sym (write_self w₂.heap fresh (some c')) ∙ sym (ap g' same) ∙ h) in
      let slot : w₂.nalltask ≡ d.alltaskslot = ap (λ x. x.alltaskslot) d_eq in
      (
        omega (arith, slot),
        ap (get_elem? (set w₂.alltask w₂.nalltask fresh)) (sym slot)
            ∙ get_elem?-set w₂.alltask w₂.nalltask fresh (omega (arith, g.room, n_eq))
            ∙ ap some (sym same),
      )
  | inr e ↦
      let n : a ≢ fresh = ground arith in
      let old : w.heap a ≡ some d =
        sym (write_ne w.heap fresh a _ n)
        ∙ sym (ap (λ x. x.heap a) g.rest)
        ∙ sym (write_ne w₂.heap fresh a _ n)
        ∙ h in
      let (below, here) = k.owns a d old in
      (
        omega (arith, below, n_eq),
        get_elem?-set_other w₂.alltask w₂.nalltask d.alltaskslot fresh (omega (arith, below, n_eq))
            ∙ g.keeps d.alltaskslot below
            ∙ here,
      )
]
  where
    n_eq : w₂.nalltask ≡ w.nalltask
    n_eq = ap (λ x. x.nalltask) g.rest

-- When malloc and realloc succeed, taskcreateraw gives the new task the first free place of the
-- array, which grows where it is full, and counts it; the other tasks keep their places.
pub taskcreateraw_lem :
    {w : World} (fresh fn arg stack : ℕ)
    → IsSlotted w
    → fresh ≢ null
    → w.heap fresh ≡ none
    → Returns (Created w fresh) (taskcreateraw true fresh fn arg stack w)
unfolding taskcreateraw modify
taskcreateraw_lem {w} fresh fn arg stack k ne free =
    let c = new_task fn arg stack w in
    let h₁ : Heap = write w.heap fresh (some c) in
    rw (taskalloc-new fresh fn arg stack w ne) (
      Returns-bind
        (grow_lem (record w { heap = h₁; taskidgen = w.taskidgen + 1; taskcount = inc w.taskcount })
          k.blocks k.sized k.fits)
        λ w₂ g.
          let heap_eq : w₂.heap ≡ h₁ = ap (λ x. x.heap) g.rest in
          let n_eq : w₂.nalltask ≡ w.nalltask = ap (λ x. x.nalltask) g.rest in
          let n = w₂.nalltask in
          let live : IsTask w₂.heap fresh = record {
            ne_null = ne;
            cell = c;
            holds = ap (λ h. h fresh) heap_eq ∙ write_self w.heap fresh (some c);
          } in
          let room : n < length w₂.alltask = omega (arith, g.room, n_eq) in
          rw (load-holds live, store_at-inside w₂.alltask n fresh room)
            (returns (record {
              slotted = record {
                owns = new-Place fresh fn arg stack k ne free g;
                blocks = g.blocks;
                sized = length-set w₂.alltask n fresh ∙ g.sized;
                fits = omega (arith, room, length-set w₂.alltask n fresh);
                entry = λ j h. elim (Bool-cases (j == n)) [
                  | inl e ↦
                      let at : j ≡ n = ground arith in
                      record {
                        task = fresh;
                        at =
                            ap (get_elem? (set w₂.alltask n fresh)) at
                            ∙ get_elem?-set w₂.alltask n fresh room;
                        live = record {
                          ne_null = ne;
                          cell = record c { alltaskslot = n };
                          holds = write_self w₂.heap fresh _;
                        };
                        slot = sym at;
                      }
                  | inr e ↦
                      let other : j ≢ n = ground arith in
                      let old : j < w.nalltask = omega (arith, h, other, n_eq) in
                      let en = k.entry j old in
                      let apart = fresh-apart en free in
                      record {
                        task = en.task;
                        at = get_elem?-set_other w₂.alltask n j fresh other ∙ g.keeps j old ∙ en.at;
                        live = record {
                          ne_null = en.live.ne_null;
                          cell = en.live.cell;
                          holds =
                              write_ne w₂.heap fresh en.task _ apart
                              ∙ ap (λ x. x en.task) heap_eq
                              ∙ write_ne w.heap fresh en.task (some c) apart
                              ∙ en.live.holds;
                        };
                        slot = en.slot;
                      }
                ];
              };
              more = ap (λ x. x + 1) n_eq;
              counted = ap (λ x. x.taskcount) g.rest;
              last =
                  ap (get_elem? (set w₂.alltask n fresh)) (sym n_eq)
                  ∙ get_elem?-set w₂.alltask n fresh room;
              keeps = λ i h.
                  get_elem?-set_other w₂.alltask n i fresh (omega (arith, n_eq)) ∙ g.keeps i h;
            })))
