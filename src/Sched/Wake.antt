-- ===== src/Sched/Wake.antt =====
-- Waiting lists beside the run queue: a task enters one when it blocks, and leaves it when woken.
use libabhi.Base.{
  ◌≡◌, ◌≢◌, refl, sym, ap, ◌∙◌, subst, true, false, List, [], ◌∷◌, ◌++◌, arith, ◌==◌, inl, inr, ◌∈◌,
  ◌∉◌, ∉-join, ∉-singleton, ne-of-mem, mem-snoc, Returns, returns, Returns-bind, Apart,
  Distinct-Around, Apart-sym, has-append,
}
use libabhi.Tasks.{Ptr, null, Heap, Tasklist}
use libabhi.Tasks.Chain.{Changed, not_null}
use libabhi.Tasks.Links.{IsQueue, IsQueue-frame, addtask_lem}
use libabhi.Tasks.Unlink.{deltask_lem}
use libabhi.Tasks.Place.{slot_of, slot_of-Changed}
use libabhi.Sched.{World, wake, park}
use libabhi.Sched.Ready.{
  state_of, state_of-Changed, Idle, Idle-frame, Idle-Changed, Runnable, Idle-∉, taskready_lem,
}

-- The list `l` holds the idle tasks `xs`, in order.
pub record Waiting (h : Heap) (l : Tasklist) (xs : List Ptr) : Type 0 where
  pub queue : IsQueue h l xs
  pub idle : (a : Ptr) → a ∈ xs → Idle h a

pub Waiting-frame :
    {h g : Heap} {l : Tasklist} (xs : List Ptr)
    → Waiting h l xs
    → ((a : Ptr) → a ∈ xs → g a ≡ h a)
    → Waiting g l xs
Waiting-frame xs k same = record {
  queue = IsQueue-frame xs k.queue same;
  idle = λ a i. Idle-frame a (same a i) (k.idle a i);
}

pub Waiting-Apart :
    {w : World} {l : Tasklist} (xs ready : List Ptr)
    → Runnable w ready
    → Waiting w.heap l xs
    → Apart xs ready
Waiting-Apart xs ready r k a i = Idle-∉ ready a r (k.idle a i)

pub Runnable-Changed :
    {w : World} {s : List Ptr} {g : Heap} (ready : List Ptr)
    → Runnable w ready
    → Changed s w.heap g
    → ((a : Ptr) → a ∈ ready → a ∉ s)
    → Runnable (record w { heap = g }) ready
Runnable-Changed ready r c out = record {
  queue = IsQueue-frame ready r.queue λ a i. c.outside a (out a i);
  marked = λ a i. state_of-Changed a c ∙ r.marked a i;
}

-- What waking `t` does, when `rest` are the other tasks of its list.
pub record Woken (w : World) (t : Ptr) (rest ready : List Ptr) (r : Tasklist × World) : Type 0 where
  pub waiting : Waiting (r.1.heap) (r.0) rest
  pub runnable : Runnable (r.1) (ready ++ (t ∷ []))
  pub outside : (a : Ptr) → a ∉ rest → a ∉ (ready ++ (t ∷ [])) → r.1.heap a ≡ w.heap a
  pub states : (a : Ptr) → a ≢ t → state_of (r.1.heap) a ≡ state_of w.heap a
  pub slots : (a : Ptr) → slot_of (r.1.heap) a ≡ slot_of w.heap a
  pub globals : r.1 ≡ record w { heap = r.1.heap; taskrunqueue = r.1.taskrunqueue }

pub wake_lem :
    {w : World} (l : Tasklist) (t : Ptr) (pre post ready : List Ptr)
    → Runnable w ready
    → Waiting w.heap l (pre ++ (t ∷ post))
    → Returns (Woken w t (pre ++ post) ready) (wake l t w)
unfolding wake
wake_lem {w} l t pre post ready r k =
    let around = Distinct-Around pre t post k.queue.distinct in
    let apart = Waiting-Apart (pre ++ (t ∷ post)) ready r k in
    let inside : (a : Ptr) → a ∈ (pre ++ post) → a ∈ (pre ++ (t ∷ post)) = λ a. grow a in
    let idle_t = k.idle t (middle t) in
    Returns-bind (deltask_lem w.heap l t pre post k.queue) λ (l₁, h₁) (queue, changed).
      let w₁ = record w { heap = h₁ } in
      let idle : (a : Ptr) → a ∈ (pre ++ post) → Idle h₁ a =
        λ a i. Idle-Changed a changed (k.idle a (inside a i)) in
      let r₁ : Runnable w₁ ready =
        Runnable-Changed ready r changed
          (Apart-sym (pre ++ post) ready (λ a i. apart a (inside a i))) in
      Returns-bind (taskready_lem t ready r₁ (Idle-Changed t changed idle_t)) λ w₂ m.
        let same : (a : Ptr) → a ∈ (pre ++ post) → w₂.heap a ≡ h₁ a = λ a i. m.outside a (
          ∉-join a ready (t ∷ []) (apart a (inside a i)) (
            ∉-singleton (
              ne-of-mem a t (pre ++ post) i (∉-join t pre post around.out_pre around.out_post)))) in
        returns (record {
          waiting = Waiting-frame (pre ++ post) (record { queue = queue; idle = idle }) same;
          runnable = m.runnable;
          outside = λ a o p. m.outside a p ∙ changed.outside a o;
          states = λ a n. m.states a n ∙ state_of-Changed a changed;
          slots = λ a. m.slots a ∙ slot_of-Changed a changed;
          globals = m.globals;
        })
  where
    grow : (a : Ptr) → a ∈ (pre ++ post) → a ∈ (pre ++ (t ∷ post))
    grow a i = ground (arith, has-append a pre post, has-append a pre (t ∷ post))

    middle : (t : Ptr) → t ∈ (pre ++ (t ∷ post))
    middle t = ground (arith, has-append t pre (t ∷ post))

-- What blocking does: the running task stands last in the list.
pub record Parked (w : World) (xs ready : List Ptr) (r : Tasklist × World) : Type 0 where
  pub waiting : Waiting (r.1.heap) (r.0) (xs ++ (w.taskrunning ∷ []))
  pub runnable : Runnable (r.1) ready
  pub outside : (a : Ptr) → a ∉ (xs ++ (w.taskrunning ∷ [])) → r.1.heap a ≡ w.heap a
  pub slots : (a : Ptr) → slot_of (r.1.heap) a ≡ slot_of w.heap a
  pub globals : r.1 ≡ record w { heap = r.1.heap }

pub park_lem :
    {w : World} (l : Tasklist) (xs ready : List Ptr)
    → Runnable w ready
    → Waiting w.heap l xs
    → Idle w.heap w.taskrunning
    → w.taskrunning ∉ xs
    → Returns (Parked w xs ready) (park l w)
unfolding park
park_lem {w} l xs ready r k live out =
    let t = w.taskrunning in
    Returns-bind (addtask_lem live.live xs k.queue out) λ (l₁, h₁) (queue, changed).
      returns (record {
        waiting = record {
          queue = queue;
          idle = λ a i. elim (mem-snoc a t xs i) [
            | inl e ↦ rw e (Idle-Changed t changed live)
            | inr (n, j) ↦ Idle-Changed a changed (k.idle a j)
          ];
        };
        runnable = Runnable-Changed ready r changed (
            Apart-sym (xs ++ (t ∷ [])) ready λ a i. elim (mem-snoc a t xs i) [
              | inl e ↦ rw e (Idle-∉ ready t r live)
              | inr (n, j) ↦ Idle-∉ ready a r (k.idle a j)
            ]);
        outside = changed.outside;
        slots = λ a. slot_of-Changed a changed;
        globals = refl;
      })

-- The tests `l->head == NULL` of the callers, and waking the head.
pub head-nil : {h : Heap} {l : Tasklist} → Waiting h l [] → (l.head == null) ≡ true
head-nil k = ap (λ p. p == null) k.queue.head_eq

pub head-cons :
    {h : Heap} {l : Tasklist} {t : Ptr} {rest : List Ptr}
    → Waiting h l (t ∷ rest)
    → (l.head == null) ≡ false
head-cons k = ap (λ p. p == null) k.queue.head_eq ∙ not_null (k.queue.chain.0)

pub wake_head :
    {w : World} (l : Tasklist) (t : Ptr) (rest ready : List Ptr)
    → Runnable w ready
    → Waiting w.heap l (t ∷ rest)
    → Returns (Woken w t rest ready) (wake l l.head w)
wake_head {w} l t rest ready r k =
    subst (λ p. Returns (Woken w t rest ready) (wake l p w)) (sym k.queue.head_eq)
      (wake_lem l t [] rest ready r k)
