-- ===== src/Fd/Event.antt =====
-- An event wakes a task that sleeps until it comes: fdtask of libtask/fd.c.
use mathlib.Core.Option
use libabhi.Base.{
  ℕ, ◌≡◌, ◌≢◌, refl, sym, ap, ◌∙◌, some, List, [], ◌∷◌, ◌++◌, arith, ◌==◌, inl, inr, ◌∈◌, Returns,
  Returns-bind, Returns-mono, Bool-cases, has-append, ne-of-mem,
}
use libabhi.Tasks.{Ptr, null, Task, Heap}
use libabhi.Tasks.Chain.{Points, Seg, Points-frame}
use libabhi.Tasks.Links.{IsQueue, IsQueue-frame}
use libabhi.Sched.{World}
use libabhi.Sched.Ready.{Idle, Idle-frame, Idle-∉, Runnable}
use libabhi.Sched.Wake.{Waiting}
use libabhi.Tasks.Place.{udata_of}
use libabhi.Fd.{wake_event}
use libabhi.Fd.Sleep.{alarm}
use libabhi.Fd.Ending.{leave_lem, set_udata_lem, ready_again, alarm_same}

module _ {h g : Heap} (t : Ptr) (k : Idle h t) (v : ℕ)
    (now : g t ≡ some (record (k.live.cell) { udata = v }))
    (same : (a : Ptr) → a ≢ t → g a ≡ h a) where
  -- The links of a task whose data has changed are the same.
  Points-kept : {x b n : Ptr} → Points h x b n → Points g x b n
  Points-kept {x} {b} {n} p = elim (Bool-cases (x == t)) [
    | inl e ↦
        let at : x ≡ t = ground arith in
        let held : p.cell ≡ k.live.cell = some-inj (sym p.holds ∙ ap h at ∙ k.live.holds) in
        record {
          ne_null = p.ne_null;
          cell = record (k.live.cell) { udata = v };
          holds = ap g at ∙ now;
          prev_eq = ap (λ c. c.prev) (sym held) ∙ p.prev_eq;
          next_eq = ap (λ c. c.next) (sym held) ∙ p.next_eq;
        }
    | inr e ↦ Points-frame p (same x (ground arith))
  ]
    where
      some-inj : {c d : Task} → some c ≡ some d → c ≡ d
      some-inj e = cc

  Seg-kept : (b : Ptr) (xs : List Ptr) (q : Ptr) → Seg h b xs q → Seg g b xs q
  Seg-kept b [] q s = tt
  Seg-kept b (x ∷ xs) q (p, s) = (Points-kept p, Seg-kept x xs q s)

-- What an event does to the sleeping task `t`, when `rest` are the others.
pub record Roused (w : World) (t : Ptr) (rest ready : List Ptr) (w' : World) : Type 0 where
  pub waiting : Waiting w'.heap w'.sleeping rest
  pub runnable : Runnable w' (ready ++ (t ∷ []))
  pub still_counted : w'.sleepingcounted ≡ w.sleepingcounted
  pub alarms : (a : Ptr) → a ∈ rest → alarm w'.heap a ≡ alarm w.heap a
  pub told : udata_of w'.heap t ≡ some 0
  pub untold : (a : Ptr) → a ≢ t → udata_of w'.heap a ≡ udata_of w.heap a

-- An event takes the sleeping task that it names from the others, wherever it stands, and puts it at
-- the end of the run queue, with 0 as its data; but the counter of sleepers stays as it is.
pub wake_event_lem :
    {w : World} (t : Ptr) (pre post ready : List Ptr)
    → Runnable w ready
    → Waiting w.heap w.sleeping (pre ++ (t ∷ post))
    → Returns (Roused w t (pre ++ post) ready) (wake_event t w)
unfolding wake_event
wake_event_lem {w} t pre post ready r k =
    let idle_t = k.idle t (ground (arith, has-append t pre (t ∷ post))) in
    Returns-bind (set_udata_lem 0 idle_t) λ g (idle, same, now).
      let queue : IsQueue g w.sleeping (pre ++ (t ∷ post)) = record {
        head_eq = k.queue.head_eq;
        tail_eq = k.queue.tail_eq;
        chain = Seg-kept t idle_t 0 now same null (pre ++ (t ∷ post)) null k.queue.chain;
        distinct = k.queue.distinct;
      } in
      let busy : (a : Ptr) → a ∈ ready → g a ≡ w.heap a =
        λ a i. same a (ne-of-mem a t ready i (Idle-∉ ready t r idle_t)) in
      let r₁ : Runnable (record w { heap = g }) ready = record {
        queue = IsQueue-frame ready r.queue busy;
        marked = λ a i. ap (Option.map (λ c. c._state)) (busy a i) ∙ r.marked a i;
      } in
      let k₁ : Waiting g w.sleeping (pre ++ (t ∷ post)) = record {
        queue = queue;
        idle = λ a i. elim (Bool-cases (a == t)) [
          | inl e ↦ let at : a ≡ t = ground arith in rw at idle
          | inr e ↦ Idle-frame a (same a (ground arith)) (k.idle a i)
        ];
      } in
      Returns-bind (leave_lem {w = record w { heap = g }} w.sleeping t pre post ready r₁ k₁)
        λ (l, h) m.
          Returns-mono
            (ready_again {count = w.sleepingcounted} {w = record w { sleeping = l; heap = h }} t
              (pre ++ post) ready
              (record { heap_eq = refl; queue_eq = refl; sleeping_eq = refl; counted = refl })
              (record { queue = m.runnable.queue; marked = m.runnable.marked }) m.waiting m.idle
              m.out)
            λ w' e. record {
              waiting = e.waiting;
              runnable = e.runnable;
              still_counted = e.counted;
              alarms = λ a i.
                  e.alarms a i
                  ∙ m.alarms a
                  ∙ alarm_same w.heap g a (same a (ne-of-mem a t (pre ++ post) i m.out));
              told = e.told ∙ m.udatas t ∙ ap (Option.map (λ c. c.udata)) now;
              untold = λ a o. e.untold a o ∙ m.udatas a ∙ ap (Option.map (λ c. c.udata)) (same a o);
            }
