-- ===== src/Fd/Events.antt =====
-- The events of a round of fdtask of libtask/fd.c: each wakes the task that it names.
use libabhi.Base.{
  ◌≡◌, refl, sym, ◌∙◌, subst, some, List, [], ◌∷◌, ◌++◌, arith, ◌==◌, inl, inr, ◌∈◌, ◌∉◌, has,
  ∉-split, ∉-ne, ∉-join, Returns, returns, Returns-bind, Returns-mono, Bool-cases, has-append,
  append_assoc, append-nil, Distinct-Around,
}
use libabhi.Tasks.{Ptr, Heap}
use libabhi.Tasks.Place.{udata_of}
use libabhi.Sched.{World}
use libabhi.Sched.Ready.{Runnable}
use libabhi.Sched.Wake.{Waiting}
use libabhi.Fd.{wake_events}
use libabhi.Fd.Sleep.{alarm}
use libabhi.Fd.Event.{Roused, wake_event_lem}
use libabhi.Fd.Expire.{IsSorted-same}
use libabhi.Fd.Order.{IsSorted}

-- The tasks `ts` leave `xs` one after the other, and `rest` are left.
abbrev pub Leaves : List Ptr → List Ptr → List Ptr → Type 0
Leaves xs [] rest = xs ≡ rest
Leaves xs (t ∷ ts) rest =
    (pre : List Ptr) × (post : List Ptr) × (xs ≡ pre ++ (t ∷ post)) × Leaves (pre ++ post) ts rest

-- Who leaves or is left was there.
Leaves-∉ : (xs ts rest : List Ptr) (a : Ptr) → Leaves xs ts rest → a ∉ xs → (a ∉ ts) × (a ∉ rest)
Leaves-∉ xs [] rest a e o = (refl, subst (λ l. a ∉ l) e o)
Leaves-∉ xs (t ∷ ts) rest a (pre, post, e, l) o =
    let (o₁, o₂) = ∉-split a pre (t ∷ post) (subst (λ l. a ∉ l) e o) in
    let (o₃, o₄) = ∉-split a (t ∷ []) post o₂ in
    let (o₅, o₆) = Leaves-∉ (pre ++ post) ts rest a l (∉-join a pre post o₁ o₄) in
    (∉-join a (t ∷ []) ts o₃ o₅, o₆)

IsSorted-without :
    (h : Heap) (pre : List Ptr) (t : Ptr) (post : List Ptr)
    → IsSorted h (pre ++ (t ∷ post))
    → IsSorted h (pre ++ post)
IsSorted-without h [] t post (low, s) = s
IsSorted-without h (x ∷ pre) t post (low, s) = (
  λ a i. low a (ground (arith, has-append a pre post, has-append a pre (t ∷ post))),
  IsSorted-without h pre t post s,
)

-- The tasks that the events name are ready, in the order of the events, and find 0 in their data.
pub record RousedEach (w : World) (ts rest ready : List Ptr) (w' : World) : Type 0 where
  pub waiting : Waiting w'.heap w'.sleeping rest
  pub runnable : Runnable w' (ready ++ ts)
  pub sorted : IsSorted w'.heap rest
  pub still_counted : w'.sleepingcounted ≡ w.sleepingcounted
  pub alarms : (a : Ptr) → a ∈ rest → alarm w'.heap a ≡ alarm w.heap a
  pub told : (a : Ptr) → a ∈ ts → (udata_of w'.heap a ≡ some 0) × (a ∉ rest)
  pub untold : (a : Ptr) → a ∉ ts → udata_of w'.heap a ≡ udata_of w.heap a

wake_events_nil :
    {w : World} (xs rest ready : List Ptr)
    → Leaves xs [] rest
    → Runnable w ready
    → Waiting w.heap w.sleeping xs
    → IsSorted w.heap xs
    → RousedEach w [] rest ready w
wake_events_nil {w} xs rest ready e r k s = record {
  waiting = subst (Waiting w.heap w.sleeping) e k;
  runnable = subst (Runnable w) (sym (append-nil ready)) r;
  sorted = subst (IsSorted w.heap) e s;
  still_counted = refl;
  alarms = λ a i. refl;
  told = λ a i. cc;
  untold = λ a o. refl;
}

one_event_more :
    {w w₁ w₂ : World} (t : Ptr) (ts left rest ready : List Ptr)
    → (t ∉ ts) × (t ∉ rest)
    → ((a : Ptr) → a ∈ rest → a ∈ left)
    → Roused w t left ready w₁
    → RousedEach w₁ ts rest (ready ++ (t ∷ [])) w₂
    → RousedEach w (t ∷ ts) rest ready w₂
one_event_more {w} {w₁} {w₂} t ts left rest ready (out, gone) among e x = record {
  waiting = x.waiting;
  runnable = subst (Runnable w₂) (append_assoc ready (t ∷ []) ts) x.runnable;
  sorted = x.sorted;
  still_counted = x.still_counted ∙ e.still_counted;
  alarms = λ a i. x.alarms a i ∙ e.alarms a (among a i);
  told = λ a i. elim (Bool-cases (a == t)) [
    | inl p ↦ let same : a ≡ t = ground arith in rw same (x.untold t out ∙ e.told, gone)
    | inr p ↦ x.told a (ground arith)
  ];
  untold = λ a o.
      let (other, later) = ∉-split a (t ∷ []) ts o in
      x.untold a later ∙ e.untold a (∉-ne a t other);
}

-- Each event takes the task that it names from the sleepers and makes it ready.
pub wake_events_lem :
    {w : World} (ts xs rest ready : List Ptr)
    → Leaves xs ts rest
    → Runnable w ready
    → Waiting w.heap w.sleeping xs
    → IsSorted w.heap xs
    → Returns (RousedEach w ts rest ready) (wake_events ts w)
unfolding wake_events
wake_events_lem [] xs rest ready e r k s = returns (wake_events_nil xs rest ready e r k s)
wake_events_lem {w} (t ∷ ts) xs rest ready (pre, post, e, l) r k s =
    let k' = subst (Waiting w.heap w.sleeping) e k in
    let around = Distinct-Around pre t post k'.queue.distinct in
    let s' = IsSorted-without w.heap pre t post (subst (IsSorted w.heap) e s) in
    Returns-bind (wake_event_lem t pre post ready r k') λ w₁ m.
      Returns-mono
        (wake_events_lem ts (pre ++ post) rest (ready ++ (t ∷ [])) l m.runnable m.waiting
          (IsSorted-same w.heap w₁.heap (pre ++ post) m.alarms s'))
        λ w₂ x.
          one_event_more t ts (pre ++ post) rest ready
            (Leaves-∉ (pre ++ post) ts rest t l (∉-join t pre post around.out_pre around.out_post))
            (λ a i. Leaves-among (pre ++ post) ts rest a l i) m x
  where
    Leaves-among : (xs ts rest : List Ptr) (a : Ptr) → Leaves xs ts rest → a ∈ rest → a ∈ xs
    Leaves-among xs ts rest a l i = elim (Bool-cases (has a xs)) [
      | inl j ↦ j
      | inr o ↦ let out = (Leaves-∉ xs ts rest a l o).1 in cc
    ]
