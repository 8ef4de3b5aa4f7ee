-- ===== src/Fd/Expire.antt =====
-- The fd task of libtask/fd.c wakes the tasks whose time has come.
use libabhi.Base.{
  ℕ, zero, suc, ◌<◌, ◌≤◌, ◌≡◌, refl, sym, ap, ◌∙◌, subst, none, some, List, [], ◌∷◌, ◌++◌, arith,
  ok, ◌==◌, leb, inl, inr, ◌∈◌, ◌∉◌, ∉-split, ∉-ne, length, Returns, returns, Returns-bind,
  Returns-mono, Bool-cases, has-append, append_assoc, append-nil,
}
use libabhi.Base.Int.{ℤ, dec}
use libabhi.Tasks.{Ptr, Heap, load}
use libabhi.Tasks.Place.{udata_of}
use libabhi.Sched.{World}
use libabhi.Sched.Ready.{Runnable, load-holds}
use libabhi.Sched.Wake.{Waiting, head-nil, head-cons}
use libabhi.Fd.{end_sleep, wake_expired, libtask_timeout}
use libabhi.Fd.Sleep.{alarm}
use libabhi.Fd.Ending.{Ended, end_sleep_lem}
use libabhi.Fd.Order.{IsSorted}

pub IsSorted-same :
    (h g : Heap) (xs : List Ptr)
    → ((a : Ptr) → a ∈ xs → alarm g a ≡ alarm h a)
    → IsSorted h xs
    → IsSorted g xs
IsSorted-same h g [] same s = tt
IsSorted-same h g (x ∷ xs) same (low, s) = (
  λ a i. omega (arith, low a i, same a (ground arith), same x (ground arith)),
  IsSorted-same h g xs (λ a i. same a (ground arith)) s,
)

-- Counted down `n` times.
abbrev pub decs : ℕ → ℤ → ℤ
decs zero z = z
decs (suc n) z = decs n (dec z)

-- `front` are the sleepers whose time has come: they are ready, in order, and not counted any more;
-- `back` are the others, which sleep on. Those woken find LIBTASK_TIMEOUT in their data.
pub record Expired (now : ℕ) (w : World) (xs ready : List Ptr) (w' : World) : Type 0 where
  pub front : List Ptr
  pub back : List Ptr
  pub parts : xs ≡ front ++ back
  pub waiting : Waiting w'.heap w'.sleeping back
  pub runnable : Runnable w' (ready ++ front)
  pub early : (a : Ptr) → a ∈ front → alarm w.heap a ≤ now
  pub late : (a : Ptr) → a ∈ back → now < alarm w.heap a
  pub counted : w'.sleepingcounted ≡ decs (length front) w.sleepingcounted
  pub alarms : (a : Ptr) → a ∈ back → alarm w'.heap a ≡ alarm w.heap a
  pub told : (a : Ptr) → a ∈ front → udata_of w'.heap a ≡ some libtask_timeout
  pub untold : (a : Ptr) → a ∉ front → udata_of w'.heap a ≡ udata_of w.heap a

none-Expired :
    {w : World} (now : ℕ) (xs ready : List Ptr)
    → Runnable w ready
    → Waiting w.heap w.sleeping xs
    → ((a : Ptr) → a ∈ xs → now < alarm w.heap a)
    → Expired now w xs ready w
none-Expired {w} now xs ready r k late = record {
  front = [];
  back = xs;
  parts = refl;
  waiting = k;
  runnable = subst (Runnable w) (sym (append-nil ready)) r;
  early = λ a i. cc;
  late = late;
  counted = refl;
  alarms = λ a i. refl;
  told = λ a i. cc;
  untold = λ a o. refl;
}

one_more :
    {w w₁ w₂ : World} (now : ℕ) (t : Ptr) (rest ready : List Ptr)
    → alarm w.heap t ≤ now
    → t ∉ rest
    → Ended (dec w.sleepingcounted) (some libtask_timeout) w t rest ready w₁
    → Expired now w₁ rest (ready ++ (t ∷ [])) w₂
    → Expired now w (t ∷ rest) ready w₂
one_more {w} {w₁} {w₂} now t rest ready due out e x = record {
  front = t ∷ x.front;
  back = x.back;
  parts = ap (λ l. t ∷ l) x.parts;
  waiting = x.waiting;
  runnable = subst (Runnable w₂) (append_assoc ready (t ∷ []) x.front) x.runnable;
  early = λ a i. elim (Bool-cases (a == t)) [
    | inl p ↦ let same : a ≡ t = ground arith in rw same due
    | inr p ↦
        let j : a ∈ x.front = ground arith in
        omega
          (arith, x.early a j, e.alarms a (in_rest a (ground (arith, has-append a x.front x.back))))
  ];
  late = λ a i.
      omega
        (arith, x.late a i, e.alarms a (in_rest a (ground (arith, has-append a x.front x.back))));
  counted = x.counted ∙ ap (decs (length x.front)) e.counted;
  alarms =
      λ a i. x.alarms a i ∙ e.alarms a (in_rest a (ground (arith, has-append a x.front x.back)));
  told = λ a i. elim (Bool-cases (a == t)) [
    | inl p ↦ let same : a ≡ t = ground arith in rw same (x.untold t first_out ∙ e.told)
    | inr p ↦ x.told a (ground arith)
  ];
  untold = λ a o.
      let (other, later) = ∉-split a (t ∷ []) x.front o in
      x.untold a later ∙ e.untold a (∉-ne a t other);
}
  where
    in_rest : (a : Ptr) → a ∈ (x.front ++ x.back) → a ∈ rest
    in_rest a i = subst (λ l. a ∈ l) (sym x.parts) i

    first_out : t ∉ x.front
    first_out = (∉-split t x.front x.back (subst (λ l. t ∉ l) x.parts out)).0

-- With the sleeping tasks in the order of their deadlines, the loop of the fd task makes those
-- ready whose deadline has passed, in order, with LIBTASK_TIMEOUT as their data, leaves the others
-- asleep, and counts the sleepers down once for each task woken. One round more than there are
-- sleepers is enough; it never stops with a fault.
pub wake_expired_lem :
    (n now : ℕ) {w : World} (xs ready : List Ptr)
    → Runnable w ready
    → Waiting w.heap w.sleeping xs
    → IsSorted w.heap xs
    → length xs < n
    → Returns (Expired now w xs ready) (wake_expired n now w)
unfolding wake_expired
wake_expired_lem zero now xs ready r k s fuel = absurd (omega arith)
wake_expired_lem (suc n) now [] ready r k s fuel =
    rw (head-nil k) (returns (none-Expired now [] ready r k λ a i. cc))
wake_expired_lem (suc n) now {w} (t ∷ rest) ready r k (low, s) fuel =
    let live = (k.idle t (ground arith)).live in
    let timed : alarm w.heap t ≡ live.cell.alarmtime =
      ap (λ x. elim x [ none ↦ 0 | some c ↦ c.alarmtime ]) live.holds in
    let head : w.sleeping.head ≡ t = k.queue.head_eq in
    let loaded : load w.sleeping.head w.heap ≡ ok live.cell =
      ap (λ p. load p w.heap) head ∙ load-holds live in
    let ended : Returns (Ended (dec w.sleepingcounted) (some libtask_timeout) w t rest ready)
        (end_sleep w.sleeping.head libtask_timeout w) =
      subst
        (λ p.
          Returns (Ended (dec w.sleepingcounted) (some libtask_timeout) w t rest ready)
            (end_sleep p libtask_timeout w))
        (sym head) (end_sleep_lem libtask_timeout t [] rest ready r k) in
    rw (head-cons k, loaded)
      (elim (Bool-cases (leb live.cell.alarmtime now)) [
        | inl due ↦
            let passed : alarm w.heap t ≤ now = ground (arith, timed) in
            rw due (
              Returns-bind ended λ w₁ e.
                Returns-mono
                  (wake_expired_lem n now rest (ready ++ (t ∷ [])) e.runnable e.waiting
                    (IsSorted-same w.heap w₁.heap rest e.alarms s) (omega arith))
                  λ w₂ x. one_more now t rest ready passed (k.queue.distinct.0) e x)
        | inr early ↦
            let first : now < alarm w.heap t = ground (arith, timed) in
            rw early (
              returns (
                none-Expired now (t ∷ rest) ready r k λ a i. elim (Bool-cases (a == t)) [
                  | inl p ↦ let same : a ≡ t = ground arith in rw same first
                  | inr p ↦ omega (arith, first, low a (ground arith))
                ]))
      ])
