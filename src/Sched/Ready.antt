-- ===== src/Sched/Ready.antt =====
-- taskready of libtask/task.c, and the run queue that it fills.
use mathlib.Core.Option
use libabhi.Base.{
  ℕ, ◌≡◌, ◌≢◌, refl, sym, ap, ◌∙◌, Option, none, some, List, [], ◌∷◌, ◌++◌, arith, inl, inr,
  Bool-cases, ◌∈◌, ◌∉◌, ∉-split, ne-of-mem, mem-snoc, ∉-ne, has, Returns, returns, Returns-bind, ok,
}
use libabhi.Tasks.{Ptr, Task, Heap, write, load, modify, task_state_ready}
use libabhi.Tasks.Chain.{Changed, unlinked, write_self, write_ne}
use libabhi.Tasks.Links.{IsQueue, IsTask, IsQueue-frame, IsQueue-IsTask, addtask_lem}
use libabhi.Tasks.Place.{
  slot_of, slot_of-write, slot_of-Changed, udata_of, udata_of-Changed, udata_of-write,
}
use libabhi.Sched.{World, taskready}

-- the state of an allocated task
abbrev pub state_of : Heap → Ptr → Option ℕ
state_of h a = Option.map (λ c. c._state) (h a)

state_unlinked :
    (x : Option Task)
    → Option.map (λ c. c._state) (Option.map unlinked x) ≡ Option.map (λ c. c._state) x
state_unlinked none = refl
state_unlinked (some c) = refl

pub state_of-Changed :
    {s : List Ptr} {h g : Heap} (a : Ptr) → Changed s h g → state_of g a ≡ state_of h a
state_of-Changed {h} {g} a c =
    sym (state_unlinked (g a))
    ∙ ap (Option.map (λ c. c._state)) (c.same_data a)
    ∙ state_unlinked (h a)

-- A task whose state is neither READY nor EXITING: it runs, or it waits somewhere.
pub record Idle (h : Heap) (t : Ptr) : Type 0 where
  pub live : IsTask h t
  pub state : state_of h t ≡ some 0

pub Idle-frame : {h g : Heap} (t : Ptr) → g t ≡ h t → Idle h t → Idle g t
Idle-frame t e k = record {
  live = record { ne_null = k.live.ne_null; cell = k.live.cell; holds = e ∙ k.live.holds };
  state = ap (Option.map (λ c. c._state)) e ∙ k.state;
}

pub cell_of_state :
    {n : ℕ} (x : Option Task) → Option.map (λ c. c._state) x ≡ some n → (c : Task) × (x ≡ some c)
cell_of_state none e = cc
cell_of_state (some c) e = (c, refl)

pub Idle-Changed : {s : List Ptr} {h g : Heap} (t : Ptr) → Changed s h g → Idle h t → Idle g t
Idle-Changed {g} t c k =
    let same = state_of-Changed t c ∙ k.state in
    let (d, e) = cell_of_state (g t) same in
    record { live = record { ne_null = k.live.ne_null; cell = d; holds = e }; state = same }

-- The run queue holds the tasks `ready`, in order, and all of them are marked READY.
pub record Runnable (w : World) (ready : List Ptr) : Type 0 where
  pub queue : IsQueue w.heap w.taskrunqueue ready
  pub marked : (a : Ptr) → a ∈ ready → state_of w.heap a ≡ some task_state_ready

-- An idle task is not in the run queue.
pub Idle-∉ : {w : World} (ready : List Ptr) (t : Ptr) → Runnable w ready → Idle w.heap t → t ∉ ready
Idle-∉ {w} ready t r k = elim (Bool-cases (has t ready)) [
  | inl i ↦ absurd (clash (r.marked t i) k.state)
  | inr o ↦ o
]
  where
    clash : {x : Option ℕ} → x ≡ some 1 → x ≡ some 0 → ⊥
    clash p q = ground arith

-- What taskready does: `t` stands last in the run queue, and no other task changes but by its links.
pub record Readied (w : World) (t : Ptr) (ready : List Ptr) (w' : World) : Type 0 where
  pub runnable : Runnable w' (ready ++ (t ∷ []))
  pub outside : (a : Ptr) → a ∉ (ready ++ (t ∷ [])) → w'.heap a ≡ w.heap a
  pub states : (a : Ptr) → a ≢ t → state_of w'.heap a ≡ state_of w.heap a
  pub slots : (a : Ptr) → slot_of w'.heap a ≡ slot_of w.heap a
  pub udatas : (a : Ptr) → udata_of w'.heap a ≡ udata_of w.heap a
  pub globals : w' ≡ record w { heap = w'.heap; taskrunqueue = w'.taskrunqueue }

pub load-holds : {h : Heap} {t : Ptr} (k : IsTask h t) → load t h ≡ ok k.cell
unfolding load
load-holds k = ground (arith, k.ne_null, k.holds)

some-inj : {n m : ℕ} → some n ≡ some m → n ≡ m
some-inj e = ground arith

marked-state :
    {h : Heap} {t : Ptr} {n : ℕ} (k : IsTask h t) → state_of h t ≡ some n → k.cell._state ≡ n
marked-state k e = some-inj (sym (ap (Option.map (λ c. c._state)) k.holds) ∙ e)

Idle-state : {h : Heap} {t : Ptr} (k : Idle h t) → k.live.cell._state ≡ 0
Idle-state k = marked-state k.live k.state

module _ {w : World} (t : Ptr) (ready : List Ptr) (r : Runnable w ready) where
  -- taskready of an idle task puts it at the end of the run queue.
  pub taskready_lem : Idle w.heap t → Returns (Readied w t ready) (taskready t w)
  unfolding taskready modify
  taskready_lem k =
      let out = Idle-∉ ready t r k in
      let c' = record (k.live.cell) { _state = task_state_ready } in
      let h₁ : Heap = write w.heap t (some c') in
      let same : (a : Ptr) → a ≢ t → h₁ a ≡ w.heap a = λ a n. write_ne w.heap t a (some c') n in
      rw (load-holds k.live, Idle-state k)
        (Returns-bind
          (addtask_lem {h = h₁}
            (record { ne_null = k.live.ne_null; cell = c'; holds = write_self w.heap t (some c') })
            ready (IsQueue-frame ready r.queue λ a i. same a (ne-of-mem a t ready i out)) out)
          λ (q, h₂) (queue, changed).
            let other : (a : Ptr) → a ≢ t → state_of h₂ a ≡ state_of w.heap a =
              λ a n. state_of-Changed a changed ∙ ap (Option.map (λ c. c._state)) (same a n) in
            returns (record {
              runnable = record {
                queue = queue;
                marked = λ a i. elim (mem-snoc a t ready i) [
                  | inl e ↦ rw e (
                      state_of-Changed t changed
                      ∙ ap (Option.map (λ c. c._state)) (write_self w.heap t (some c')))
                  | inr (n, j) ↦ other a n ∙ r.marked a j
                ];
              };
              outside =
                  λ a o. changed.outside a o ∙ same a (∉-ne a t (∉-split a ready (t ∷ []) o).1);
              states = other;
              slots = λ a.
                  slot_of-Changed a changed
                  ∙ slot_of-write w.heap t a k.live.cell c' k.live.holds refl;
              udatas = λ a.
                  udata_of-Changed a changed
                  ∙ udata_of-write w.heap t a k.live.cell c' k.live.holds refl;
              globals = refl;
            }))

  -- taskready of a task in the run queue changes nothing.
  pub taskready_again : t ∈ ready → taskready t w ≡ ok w
  unfolding taskready
  taskready_again i =
      let k = IsQueue-IsTask ready t r.queue i in
      rw (load-holds k, marked-state k (r.marked t i)) refl
