-- ===== src/Fd/Ending.antt =====
-- How the fd task of libtask/fd.c takes one task from the sleeping ones and makes it ready.
use mathlib.Core.Option
use libabhi.Base.{
  ℕ, ◌≡◌, ◌≢◌, refl, sym, ap, ◌∙◌, subst, none, Option, some, List, [], ◌∷◌, ◌++◌, arith, inl, inr,
  ◌∈◌, ◌∉◌, ∉-join, ∉-singleton, ne-of-mem, Returns, returns, Returns-bind, Returns-mono,
  Bool-cases, Apart-sym, Distinct-Around, has-append,
}
use libabhi.Base.Int.{ℤ, dec, is_zero}
use libabhi.Tasks.{Ptr, Heap, Tasklist, modify, deltask}
use libabhi.Tasks.Chain.{write_self, write_ne}
use libabhi.Tasks.Links.{IsQueue, IsQueue-frame}
use libabhi.Tasks.Place.{udata_of, udata_of-Changed}
use libabhi.Tasks.Unlink.{deltask_lem}
use libabhi.Sched.{World, taskready}
use libabhi.Sched.Ready.{
  Idle, Idle-frame, Idle-Changed, Idle-∉, Runnable, load-holds, taskready_lem,
}
use libabhi.Sched.Wake.{Waiting, Waiting-frame, Waiting-Apart, Runnable-Changed}
use libabhi.Fd.{set_udata, uncount_sleeper, end_sleep}
use libabhi.Fd.Sleep.{alarm}
use libabhi.Fd.Insert.{alarm-unlinked}

-- What is left when `t` has left a list of idle tasks: `t` is idle, and nobody's deadline changes.
pub record Left (w : World) (t : Ptr) (rest ready : List Ptr) (r : Tasklist × Heap) : Type 0 where
  pub waiting : Waiting (r.1) (r.0) rest
  pub runnable : Runnable (record w { heap = r.1 }) ready
  pub idle : Idle (r.1) t
  pub out : t ∉ rest
  pub alarms : (a : Ptr) → alarm (r.1) a ≡ alarm w.heap a
  pub udatas : (a : Ptr) → udata_of (r.1) a ≡ udata_of w.heap a

pub leave_lem :
    {w : World} (l : Tasklist) (t : Ptr) (pre post ready : List Ptr)
    → Runnable w ready
    → Waiting w.heap l (pre ++ (t ∷ post))
    → Returns (Left w t (pre ++ post) ready) (deltask l t w.heap)
leave_lem {w} l t pre post ready r k =
    let around = Distinct-Around pre t post k.queue.distinct in
    let apart = Waiting-Apart (pre ++ (t ∷ post)) ready r k in
    Returns-mono (deltask_lem w.heap l t pre post k.queue) λ (l₁, h₁) (queue, changed). record {
      waiting = record {
        queue = queue;
        idle = λ a i. Idle-Changed a changed (k.idle a (grow a i));
      };
      runnable =
          Runnable-Changed ready r changed
            (Apart-sym (pre ++ post) ready (λ a i. apart a (grow a i)));
      idle = Idle-Changed t changed (k.idle t middle);
      out = ∉-join t pre post around.out_pre around.out_post;
      alarms = λ a. alarm-unlinked w.heap h₁ a (changed.same_data a);
      udatas = λ a. udata_of-Changed a changed;
    }
  where
    grow : (a : Ptr) → a ∈ (pre ++ post) → a ∈ (pre ++ (t ∷ post))
    grow a i = ground (arith, has-append a pre post, has-append a pre (t ∷ post))

    middle : t ∈ (pre ++ (t ∷ post))
    middle = ground (arith, has-append t pre (t ∷ post))

pub set_udata_lem :
    {h : Heap} {t : Ptr} (v : ℕ) (k : Idle h t)
    → Returns
        (λ g.
          Idle g t
          × ((a : Ptr) → a ≢ t → g a ≡ h a)
          × (g t ≡ some (record (k.live.cell) { udata = v })))
        (set_udata t v h)
unfolding modify
set_udata_lem {h} {t} v k =
    let c = record (k.live.cell) { udata = v } in
    rw (load-holds k.live) (
      returns (
        record {
          live = record { ne_null = k.live.ne_null; cell = c; holds = write_self h t (some c) };
          state =
              ap (Option.map (λ x. x._state)) (write_self h t (some c))
              ∙ sym (ap (Option.map (λ x. x._state)) k.live.holds)
              ∙ k.state;
        },
        λ a n. write_ne h t a (some c) n,
        write_self h t (some c),
      ))

-- `u` has the memory and the lists of `w`, and `count` as its counter of sleepers.
pub record Uncounted (count : ℤ) (w u : World) : Type 0 where
  pub heap_eq : u.heap ≡ w.heap
  pub queue_eq : u.taskrunqueue ≡ w.taskrunqueue
  pub sleeping_eq : u.sleeping ≡ w.sleeping
  pub counted : u.sleepingcounted ≡ count

pub uncount_lem : (w : World) → Uncounted (dec w.sleepingcounted) w (uncount_sleeper w)
unfolding uncount_sleeper
uncount_lem w = elim (Bool-cases (is_zero (dec w.sleepingcounted))) [
  | inl e ↦ rw e (record { heap_eq = refl; queue_eq = refl; sleeping_eq = refl; counted = refl })
  | inr e ↦ rw e (record { heap_eq = refl; queue_eq = refl; sleeping_eq = refl; counted = refl })
]

-- What ending the sleep of `t` does, when `rest` are the other sleeping tasks: `v` is what `t` gets as
-- its data.
pub record Ended (count : ℤ) (v : Option ℕ) (w : World) (t : Ptr) (rest ready : List Ptr)
    (w' : World) : Type 0 where
  pub waiting : Waiting w'.heap w'.sleeping rest
  pub runnable : Runnable w' (ready ++ (t ∷ []))
  pub alarms : (a : Ptr) → a ∈ rest → alarm w'.heap a ≡ alarm w.heap a
  pub counted : w'.sleepingcounted ≡ count
  pub told : udata_of w'.heap t ≡ v
  pub untold : (a : Ptr) → a ≢ t → udata_of w'.heap a ≡ udata_of w.heap a

pub alarm_same : (h g : Heap) (a : Ptr) → g a ≡ h a → alarm g a ≡ alarm h a
alarm_same h g a e = ap (λ x. elim x [ none ↦ 0 | some c ↦ c.alarmtime ]) e

-- The second half of end_sleep, when `t` has left the list `l`.
pub ready_again :
    {count : ℤ} {w u : World} (t : Ptr) (rest ready : List Ptr)
    → Uncounted count w u
    → Runnable w ready
    → Waiting w.heap w.sleeping rest
    → Idle w.heap t
    → t ∉ rest
    → Returns (Ended count (udata_of w.heap t) w t rest ready) (taskready t u)
ready_again {count} {w} {u} t rest ready n r k i out =
    let same_heap : (a : Ptr) → u.heap a ≡ w.heap a = λ a. ap (λ h. h a) n.heap_eq in
    let queue = IsQueue-frame ready r.queue (λ a j. same_heap a) in
    let r_u : Runnable u ready = record {
      queue = subst (λ q. IsQueue u.heap q ready) (sym n.queue_eq) queue;
      marked = λ a j. ap (Option.map (λ c. c._state)) (same_heap a) ∙ r.marked a j;
    } in
    let apart = Waiting-Apart rest ready r k in
    Returns-mono (taskready_lem t ready r_u (Idle-frame t (same_heap t) i)) λ w' m.
      let same : (a : Ptr) → a ∈ rest → w'.heap a ≡ w.heap a = λ a j.
        m.outside a (∉-join a ready (t ∷ []) (apart a j) (∉-singleton (ne-of-mem a t rest j out)))
        ∙ same_heap a in
      let sleeping = ap (λ x. x.sleeping) m.globals ∙ n.sleeping_eq in
      record {
        waiting = subst (λ l. Waiting w'.heap l rest) (sym sleeping) (Waiting-frame rest k same);
        runnable = m.runnable;
        alarms = λ a j. alarm_same w.heap w'.heap a (same a j);
        counted = ap (λ x. x.sleepingcounted) m.globals ∙ n.counted;
        told = m.udatas t ∙ ap (λ h. udata_of h t) n.heap_eq;
        untold = λ a o. m.udatas a ∙ ap (λ h. udata_of h a) n.heap_eq;
      }

pub end_sleep_lem :
    {w : World} (v : ℕ) (t : Ptr) (pre post ready : List Ptr)
    → Runnable w ready
    → Waiting w.heap w.sleeping (pre ++ (t ∷ post))
    → Returns (Ended (dec w.sleepingcounted) (some v) w t (pre ++ post) ready) (end_sleep t v w)
unfolding end_sleep
end_sleep_lem {w} v t pre post ready r k =
    Returns-bind (leave_lem w.sleeping t pre post ready r k) λ (l₁, h₁) m.
      Returns-bind (set_udata_lem v m.idle) λ h₂ (idle, same, now).
        let w₂ = record w { sleeping = l₁; heap = h₂ } in
        let others : (a : Ptr) → a ∈ (pre ++ post) → h₂ a ≡ h₁ a =
          λ a i. same a (ne-of-mem a t (pre ++ post) i m.out) in
        let busy : (a : Ptr) → a ∈ ready → h₂ a ≡ h₁ a =
          λ a i. same a (ne-of-mem a t ready i (Idle-∉ ready t m.runnable m.idle)) in
        let r₂ : Runnable w₂ ready = record {
          queue = IsQueue-frame ready m.runnable.queue busy;
          marked = λ a i. ap (Option.map (λ c. c._state)) (busy a i) ∙ m.runnable.marked a i;
        } in
        Returns-mono
          (ready_again t (pre ++ post) ready (uncount_lem w₂) r₂
            (Waiting-frame (pre ++ post) m.waiting others) idle m.out)
          λ w' e. record {
            waiting = e.waiting;
            runnable = e.runnable;
            alarms = λ a i. e.alarms a i ∙ alarm_same h₁ h₂ a (others a i) ∙ m.alarms a;
            counted = e.counted;
            told = e.told ∙ ap (Option.map (λ c. c.udata)) now;
            untold = λ a o. e.untold a o ∙ ap (Option.map (λ c. c.udata)) (same a o) ∙ m.udatas a;
          }
