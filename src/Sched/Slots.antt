-- ===== src/Sched/Slots.antt =====
-- The array `alltask` of libtask/task.c: each task knows its place in it.
use mathlib.Core.Option
use libabhi.Base.{
  ℕ, ◌+◌, ◌-◌, ◌*◌, ◌<◌, ◌≤◌, ◌≡◌, ◌≢◌, refl, sym, ap, subst, ◌∙◌, none, some, List, arith, ◌==◌,
  inl, inr, false, length, get_elem?, set, length-set, get_elem?-set, get_elem?-set_other, Returns,
  returns, Bool-cases, ok,
}
use libabhi.Base.Int.{dec}
use libabhi.Tasks.{Ptr, Task, Heap, write, modify}
use libabhi.Tasks.Chain.{write_self, write_ne}
use libabhi.Tasks.Links.{IsTask}
use libabhi.Sched.{World, read_at, store_at, reap}
use libabhi.Sched.Ready.{load-holds}

-- Place `i` of the array holds a task that knows it.
pub record Entry (h : Heap) (a : List Ptr) (i : ℕ) : Type 0 where
  pub task : Ptr
  pub at : get_elem? a i ≡ some task
  pub live : IsTask h task
  pub slot : live.cell.alltaskslot ≡ i

-- The task `a` knows the place among the first `n` that holds it.
abbrev pub Place : List Ptr → ℕ → Ptr → Task → Type 0
Place array n a c = (c.alltaskslot < n) × (get_elem? array c.alltaskslot ≡ some a)

-- The first `nalltask` places hold tasks, each a different one, and these are all tasks that are
-- allocated; there are 1024 places or a multiple.
pub record IsSlotted (w : World) : Type 0 where
  pub blocks : ℕ
  pub sized : length w.alltask ≡ 1024 * blocks
  pub fits : w.nalltask ≤ length w.alltask
  pub entry : (i : ℕ) → i < w.nalltask → Entry w.heap w.alltask i
  pub owns : (a : Ptr) (c : Task) → w.heap a ≡ some c → Place w.alltask w.nalltask a c

pub read_at-some : (a : List Ptr) (i : ℕ) (v : Ptr) → get_elem? a i ≡ some v → read_at a i ≡ ok v
unfolding read_at
read_at-some a i v e = rw (e, read_at) refl

pub store_at-inside : (a : List Ptr) (i v : ℕ) → i < length a → store_at a i v ≡ ok (set a i v)
unfolding store_at
store_at-inside a i v h = ground arith

some-inj : {c d : Task} → some c ≡ some d → c ≡ d
some-inj e = cc

-- Tasks at different places are different.
pub apart_slots :
    {h : Heap} {a : List Ptr} {j : ℕ} {x : Ptr} {d : Task} (e : Entry h a j)
    → h x ≡ some d
    → j ≢ d.alltaskslot
    → e.task ≢ x
apart_slots {h} {d} e there n same =
    n (sym e.slot ∙ ap (λ c. c.alltaskslot) (some-inj (sym e.live.holds ∙ ap h same ∙ there)))

-- A task less its place.
abbrev pub placeless : Task → Task
placeless c = record c { alltaskslot = 0 }

-- What the scheduler leaves of a task that has exited.
pub record Reaped (w : World) (t : Ptr) (i : ℕ) (w' : World) : Type 0 where
  pub slotted : IsSlotted w'
  pub gone : w'.heap t ≡ none
  pub fewer : w'.nalltask + 1 ≡ w.nalltask
  pub uncounted : w'.taskcount ≡ dec w.taskcount
  pub others :
      (a : Ptr) → a ≢ t → Option.map placeless (w'.heap a) ≡ Option.map placeless (w.heap a)
  pub queue : w'.taskrunqueue ≡ w.taskrunqueue

Ptr-inj : {a b : Ptr} → some a ≡ some b → a ≡ b
Ptr-inj e = ground arith

module _ {w : World} (t : Ptr) (c : Task) (k : IsSlotted w) (holds : w.heap t ≡ some c) where
  small : c.alltaskslot < w.nalltask
  small = (k.owns t c holds).0

  at : get_elem? w.alltask c.alltaskslot ≡ some t
  at = (k.owns t c holds).1

  last-Entry : Entry w.heap w.alltask (w.nalltask - 1)
  last-Entry = k.entry (w.nalltask - 1) (omega (arith, small))

  -- The memory and the array that reap leaves.
  abbrev moved : Task
  moved = record (last-Entry.live.cell) { alltaskslot = c.alltaskslot }

  abbrev middle : Heap
  middle = write w.heap last-Entry.task (some moved)

  abbrev after : Heap
  after = write middle t none

  abbrev left : List Ptr
  left = set w.alltask c.alltaskslot last-Entry.task

  moved-Entry : (j : ℕ) → j < w.nalltask - 1 → j ≡ c.alltaskslot → Entry after left j
  moved-Entry j h e = record {
    task = last-Entry.task;
    at =
        ap (get_elem? left) e
        ∙ get_elem?-set w.alltask c.alltaskslot last-Entry.task (omega (arith, small, k.fits));
    live = record {
      ne_null = last-Entry.live.ne_null;
      cell = record (last-Entry.live.cell) { alltaskslot = c.alltaskslot };
      holds =
          write_ne _ t last-Entry.task none (apart_slots last-Entry holds (omega arith))
          ∙ write_self w.heap last-Entry.task _;
    };
    slot = sym e;
  }

  other-Entry : (j : ℕ) → j < w.nalltask - 1 → j ≢ c.alltaskslot → Entry after left j
  other-Entry j h n =
      let e = k.entry j (omega arith) in
      record {
        task = e.task;
        at = get_elem?-set_other w.alltask c.alltaskslot j last-Entry.task n ∙ e.at;
        live = record {
          ne_null = e.live.ne_null;
          cell = e.live.cell;
          holds =
              write_ne _ t e.task none (apart_slots e holds n)
              ∙ write_ne w.heap last-Entry.task e.task _
                  (apart_slots e last-Entry.live.holds (omega (arith, last-Entry.slot)))
              ∙ e.live.holds;
        };
        slot = e.slot;
      }

  -- Two tasks have one place only if they are the same.
  apart :
      (a : Ptr) (i : ℕ) (b : Ptr)
      → get_elem? w.alltask i ≡ some b
      → a ≢ b
      → (d : Task) → get_elem? w.alltask d.alltaskslot ≡ some a
      → d.alltaskslot ≢ i
  apart a i b there n d here same = n (Ptr-inj (sym here ∙ ap (get_elem? w.alltask) same ∙ there))

  moved-Place : last-Entry.task ≢ t → Place left (w.nalltask - 1) last-Entry.task moved
  moved-Place n =
      let differ = apart t (w.nalltask - 1) last-Entry.task last-Entry.at (λ e. n (sym e)) c at in
      (
        omega (arith, small, differ),
        get_elem?-set w.alltask c.alltaskslot last-Entry.task (omega (arith, small, k.fits)),
      )

  other-Place :
      (a : Ptr) (d : Task)
      → w.heap a ≡ some d
      → a ≢ t
      → a ≢ last-Entry.task
      → Place left (w.nalltask - 1) a d
  other-Place a d h n n' =
      let (below, here) = k.owns a d h in
      let not_t = apart a c.alltaskslot t at n d here in
      let not_last = apart a (w.nalltask - 1) last-Entry.task last-Entry.at n' d here in
      (
        omega (arith, below, not_last),
        get_elem?-set_other w.alltask c.alltaskslot d.alltaskslot last-Entry.task not_t ∙ here,
      )

  places : (a : Ptr) (d : Task) → after a ≡ some d → Place left (w.nalltask - 1) a d
  places a d h = elim (Bool-cases (a == t)) [
    | inl e ↦
        let same : a ≡ t = ground arith in
        absurd (clash (sym (ap after same ∙ write_self _ t none) ∙ h))
    | inr e ↦
        let n : a ≢ t = ground arith in
        let h₁ = sym (write_ne _ t a none n) ∙ h in
        elim (Bool-cases (a == last-Entry.task)) [
          | inl e' ↦
              let same : a ≡ last-Entry.task = ground arith in
              let n' : last-Entry.task ≢ t = λ p. n (same ∙ p) in
              let d_eq : moved ≡ d = some-inj (
                sym (write_self w.heap last-Entry.task (some moved)) ∙ sym (ap middle same) ∙ h₁) in
              subst (λ x. Place left (w.nalltask - 1) x d) (sym same)
                (subst (λ x. Place left (w.nalltask - 1) last-Entry.task x) d_eq (moved-Place n'))
          | inr e' ↦
              let n' : a ≢ last-Entry.task = ground arith in
              other-Place a d (sym (write_ne w.heap last-Entry.task a _ n') ∙ h₁) n n'
        ]
  ]
    where
      clash : {d : Task} → none ≡ some d → ⊥
      clash p = cc

  unmoved : (a : Ptr) → a ≢ t → Option.map placeless (after a) ≡ Option.map placeless (w.heap a)
  unmoved a n =
      ap (Option.map placeless) (write_ne middle t a none n)
      ∙ elim (Bool-cases (a == last-Entry.task)) [
        | inl e ↦
            let same : a ≡ last-Entry.task = ground arith in
            ap (λ x. Option.map placeless (middle x)) same
            ∙ ap (Option.map placeless) (write_self w.heap last-Entry.task (some moved))
            ∙ sym (ap (Option.map placeless) last-Entry.live.holds)
            ∙ sym (ap (λ x. Option.map placeless (w.heap x)) same)
        | inr e ↦
            ap (Option.map placeless)
              (write_ne w.heap last-Entry.task a (some moved) (ground arith))
      ]

  -- When a task of the array has exited, the scheduler frees it and fills its place with the last
  -- task: the array holds exactly the remaining tasks, and each knows its place. It never stops with
  -- a fault.
  pub reap_lem : Returns (Reaped w t c.alltaskslot) (reap t c w)
  unfolding reap modify
  reap_lem =
      let some_tasks : (w.nalltask == 0) ≡ false = ground (arith, small) in
      let slot = c.alltaskslot in
      let in_array : slot < length w.alltask = omega (arith, small, k.fits) in
      let there = get_elem?-set w.alltask slot last-Entry.task in_array in
      rw
        (
          some_tasks,
          read_at-some w.alltask (w.nalltask - 1) last-Entry.task last-Entry.at,
          store_at-inside w.alltask slot last-Entry.task in_array,
          read_at-some left slot last-Entry.task there,
          load-holds last-Entry.live,
        )
        (returns (record {
          slotted = record {
            blocks = k.blocks;
            sized = length-set w.alltask slot last-Entry.task ∙ k.sized;
            fits = omega (arith, k.fits, length-set w.alltask c.alltaskslot last-Entry.task);
            entry = λ j h. elim (Bool-cases (j == c.alltaskslot)) [
              | inl e ↦ moved-Entry j h (ground arith)
              | inr e ↦ other-Entry j h (ground arith)
            ];
            owns = places;
          };
          gone = write_self _ t none;
          fewer = omega (arith, small);
          uncounted = refl;
          others = unmoved;
          queue = refl;
        }))
