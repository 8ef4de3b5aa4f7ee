-- ===== src/Fd/Order.antt =====
-- taskdelay of libtask/fd.c as a whole: the sleeping tasks stay sorted by the time at which they wake.
use libabhi.Base.{
  ℕ, ◌<◌, ◌≤◌, ◌≡◌, ◌≢◌, sym, ap, List, [], ◌∷◌, ◌++◌, arith, ◌==◌, inl, inr, ◌⊎◌, ◌∈◌, ◌∉◌,
  ∉-split, ∉-join, mem-snoc, has-append, length, Returns, returns, Returns-bind, Returns-mono, refl,
  Bool-cases, subst, append-nil, ne-of-mem, last_or,
}
use libabhi.Base.Int.{is_zero}
use libabhi.Tasks.{Ptr, null, Heap}
use libabhi.Tasks.Chain.{Seg}
use libabhi.Tasks.Links.{IsQueue, IsTask}
use libabhi.Sched.{World}
use libabhi.Sched.Ready.{state_of}
use libabhi.Fd.{deadline, find_slot, insert_behind, count_sleeper, taskdelay_start}
use libabhi.Fd.Sleep.{alarm, Slot, find_from}
use libabhi.Fd.Insert.{Inserted, insert_lem}

-- No task wakes before one that stands in front of it.
abbrev pub IsSorted : Heap → List Ptr → Type 0
IsSorted h [] = Unit {0}
IsSorted h (x ∷ xs) = ((a : Ptr) → a ∈ xs → alarm h x ≤ alarm h a) × IsSorted h xs

-- The last task of a sorted list wakes last.
sorted_last :
    (h : Heap) (ys : List Ptr) (y : Ptr) (back : List Ptr)
    → IsSorted h ((ys ++ (y ∷ [])) ++ back)
    → (a : Ptr) → a ∈ (ys ++ (y ∷ []))
    → alarm h a ≤ alarm h y
sorted_last h [] y back s a i = elim (mem-snoc a y [] i) [
  | inl e ↦ rw e (omega arith)
  | inr (n, j) ↦ cc
]
sorted_last h (z ∷ ys) y back (low, s) a i = elim (Bool-cases (a == z)) [
  | inl e ↦
      let same : a ≡ z = ground arith in
      rw same (low y (ground (arith, has-append y (ys ++ (y ∷ [])) back, has-append y ys (y ∷ []))))
  | inr n ↦ sorted_last h ys y back s a (ground arith)
]

front_early :
    (h : Heap) (when : ℕ) (front back : List Ptr)
    → IsSorted h (front ++ back)
    → (front ≡ []) ⊎ ((ys : List Ptr) × (y : Ptr) × (front ≡ ys ++ (y ∷ [])) × (alarm h y < when))
    → (a : Ptr) → a ∈ front
    → alarm h a < when
front_early h when front back s (inl e) a i = absurd (nothing (subst (λ l. a ∈ l) e i))
  where
    nothing : a ∈ [] → ⊥
    nothing j = cc
front_early h when front back s (inr (ys, y, e, early)) a i =
    let bound =
      sorted_last h ys y back (subst (λ l. IsSorted h (l ++ back)) e s) a
        (subst (λ l. a ∈ l) e i) in
    omega arith

module _ (h g : Heap) (r when : ℕ) (set : alarm g r ≡ when)
    (kept : (a : Ptr) → a ≢ r → alarm g a ≡ alarm h a) where
  IsSorted-kept : (xs : List Ptr) → IsSorted h xs → r ∉ xs → IsSorted g xs
  IsSorted-kept [] s o = tt
  IsSorted-kept (x ∷ xs) (low, s) o =
      let (o₁, o₂) = ∉-split r (x ∷ []) xs o in
      (
        λ a i. omega (
          arith,
          low a i,
          kept a (ne-of-mem a r xs i o₂),
          kept x (ne-of-mem x r (x ∷ []) (ground arith) o₁),
        ),
        IsSorted-kept xs s o₂,
      )

  IsSorted-insert :
      (front back : List Ptr)
      → IsSorted h (front ++ back)
      → r ∉ front
      → r ∉ back
      → ((a : Ptr) → a ∈ front → alarm h a < when)
      → ((a : Ptr) → a ∈ back → when ≤ alarm h a)
      → IsSorted g (front ++ (r ∷ back))
  IsSorted-insert [] back s o_f o_b early late = (
    λ a i. omega (arith, set, late a i, kept a (ne-of-mem a r back i o_b)),
    IsSorted-kept back s o_b,
  )
  IsSorted-insert (x ∷ xs) back (low, s) o_f o_b early late =
      let (o₁, o₂) = ∉-split r (x ∷ []) xs o_f in
      let kept_x = kept x (ne-of-mem x r (x ∷ []) (ground arith) o₁) in
      let early_x = early x (ground arith) in
      (
        λ a i. elim (Bool-cases (a == r)) [
          | inl e ↦
              let same : a ≡ r = ground arith in
              omega (arith, set, kept_x, early_x, ap (alarm g) same)
          | inr n ↦
              let other : a ≢ r = ground arith in
              omega (
                arith,
                kept_x,
                kept a other,
                low a (ground (arith, has-append a xs (r ∷ back), has-append a xs back)),
              )
        ],
        IsSorted-insert xs back s o₂ o_b (λ a i. early a (ground arith)) late,
      )

-- The task `r` sleeps until `when` behind those that wake earlier and in front of the others.
pub record Sleeps (r when : ℕ) (xs : List Ptr) (w : World) : Type 0 where
  pub front : List Ptr
  pub back : List Ptr
  pub parts : xs ≡ front ++ back
  pub queue : IsQueue w.heap w.sleeping (front ++ (r ∷ back))
  pub sorted : IsSorted w.heap (front ++ (r ∷ back))
  pub wakes : alarm w.heap r ≡ when
  pub early : (a : Ptr) → a ∈ front → alarm w.heap a < when
  pub late : (a : Ptr) → a ∈ back → when ≤ alarm w.heap a

count_sleeper-Sleeps :
    {r when : ℕ} {xs : List Ptr} (w : World)
    → Sleeps r when xs w
    → Sleeps r when xs (count_sleeper w)
unfolding count_sleeper
count_sleeper-Sleeps w s = elim (Bool-cases (is_zero w.sleepingcounted)) [
  | inl e ↦ rw e (record {
    front = s.front;
    back = s.back;
    parts = s.parts;
    queue = s.queue;
    sorted = s.sorted;
    wakes = s.wakes;
    early = s.early;
    late = s.late;
  })
  | inr n ↦ rw n (record {
    front = s.front;
    back = s.back;
    parts = s.parts;
    queue = s.queue;
    sorted = s.sorted;
    wakes = s.wakes;
    early = s.early;
    late = s.late;
  })
]

found_at :
    (fuel when : ℕ) (w : World) (xs : List Ptr)
    → IsQueue w.heap w.sleeping xs
    → length xs < fuel
    → Returns (Slot w.heap when xs) (find_slot fuel w.sleeping.tail when w.heap)
found_at fuel when w xs k enough =
    let whole = append-nil xs in
    let search =
      find_from fuel when w.heap [] xs (subst (λ l. Seg w.heap null l null) (sym whole) k.chain)
        (λ a i. cc) enough in
    subst (λ p. Returns (Slot w.heap when xs) (find_slot fuel p when w.heap)) (sym k.tail_eq)
      (subst (λ l. Returns (Slot w.heap when l) (find_slot fuel (last_or xs null) when w.heap))
        whole search)

-- What taskdelay leaves as it was: states, the run queue, and tasks that do not sleep.
pub record Kept (w : World) (r : Ptr) (xs : List Ptr) (w' : World) : Type 0 where
  pub states : (a : Ptr) → state_of w'.heap a ≡ state_of w.heap a
  pub outside : (a : Ptr) → a ∉ xs → a ≢ r → w'.heap a ≡ w.heap a
  pub runqueue : w'.taskrunqueue ≡ w.taskrunqueue

count_sleeper-Kept :
    {v : World} {r : Ptr} {xs : List Ptr} (w : World)
    → Kept v r xs w
    → Kept v r xs (count_sleeper w)
unfolding count_sleeper
count_sleeper-Kept w k = elim (Bool-cases (is_zero w.sleepingcounted)) [
  | inl e ↦ rw e (record { states = k.states; outside = k.outside; runqueue = k.runqueue })
  | inr n ↦ rw n (record { states = k.states; outside = k.outside; runqueue = k.runqueue })
]

pub taskdelay_lem :
    (fuel now ms : ℕ) (w : World) (xs : List Ptr)
    → IsQueue w.heap w.sleeping xs
    → IsSorted w.heap xs
    → IsTask w.heap w.taskrunning
    → w.taskrunning ∉ xs
    → length xs < fuel
    → Returns
        (λ w'. Sleeps w.taskrunning (deadline now ms) xs w' × Kept w w.taskrunning xs w')
        (taskdelay_start fuel now ms w)
unfolding taskdelay_start
taskdelay_lem fuel now ms w xs k s live out enough =
    let r = w.taskrunning in
    let when = deadline now ms in
    let found = found_at fuel when w xs k enough in
    Returns-bind found λ t slot.
      let k' = subst (λ l. IsQueue w.heap w.sleeping l) slot.parts k in
      let s' = subst (IsSorted w.heap) slot.parts s in
      let out' = subst (λ l. r ∉ l) slot.parts out in
      let (o_f, o_b) = ∉-split r slot.front slot.back out' in
      let early = front_early w.heap when slot.front slot.back s' slot.early in
      Returns-bind
        (subst
          (λ p.
            Returns (Inserted w.heap r when slot.front slot.back)
              (insert_behind r p when w.sleeping w.heap))
          (sym slot.stop)
          (insert_lem w.heap w.sleeping r when slot.front slot.back k' live o_f o_b))
        λ (l, h) m. returns (
          (
            count_sleeper-Sleeps (record w { sleeping = l; heap = h })
                (record {
                  front = slot.front;
                  back = slot.back;
                  parts = slot.parts;
                  queue = m.queue;
                  sorted =
                      IsSorted-insert w.heap h r when m.alarm_set m.alarms slot.front slot.back s'
                        o_f o_b early slot.late;
                  wakes = m.alarm_set;
                  early =
                      λ a i. omega (arith, early a i, m.alarms a (ne-of-mem a r slot.front i o_f));
                  late = λ a i.
                      omega (arith, slot.late a i, m.alarms a (ne-of-mem a r slot.back i o_b));
                }),
            count_sleeper-Kept (record w { sleeping = l; heap = h })
                (record {
                  states = m.states;
                  outside = λ a o n.
                      let (o₁, o₂) =
                        ∉-split a slot.front slot.back (subst (λ l. a ∉ l) slot.parts o) in
                      let apart : a ∉ (r ∷ []) = ground (arith, n) in
                      m.outside a (
                        ∉-join a slot.front (r ∷ slot.back) o₁
                          (∉-join a (r ∷ []) slot.back apart o₂));
                  runqueue = refl;
                }),
          ))

-- taskdelay puts the running task among the sleeping ones at its deadline, behind all that wake earlier,
-- and keeps them sorted. One round more than there are sleeping tasks is enough, and it never stops with
-- a fault.
pub taskdelay_sorted :
    (fuel now ms : ℕ) (w : World) (xs : List Ptr)
    → IsQueue w.heap w.sleeping xs
    → IsSorted w.heap xs
    → IsTask w.heap w.taskrunning
    → w.taskrunning ∉ xs
    → length xs < fuel
    → Returns (Sleeps w.taskrunning (deadline now ms) xs) (taskdelay_start fuel now ms w)
taskdelay_sorted fuel now ms w xs k s live out enough =
    Returns-mono (taskdelay_lem fuel now ms w xs k s live out enough) λ w' (sleeps, same). sleeps
