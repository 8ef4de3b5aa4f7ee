-- ===== src/Fd/Round.antt =====
-- A round of fdtask of libtask/fd.c, from the events of epoll_wait to the end of the round.
use libabhi.Base.{
  ℕ, zero, suc, ◌+◌, ◌<◌, ◌≤◌, ◌≡◌, refl, sym, ap, ◌∙◌, subst, true, false, some, List, [], ◌∷◌,
  ◌++◌, arith, inl, inr, ◌∈◌, ◌∉◌, has, length-append, ∉-split, length, Returns, returns,
  Returns-bind, Bool-cases, has-append, append_assoc,
}
use libabhi.Base.Int.{ℤ, dec}
use libabhi.Tasks.{Ptr, Heap}
use libabhi.Tasks.Place.{udata_of}
use libabhi.Sched.{World}
use libabhi.Sched.Ready.{Runnable}
use libabhi.Sched.Wake.{Waiting}
use libabhi.Fd.{fdtask_round, libtask_timeout, eio}
use libabhi.Fd.Sleep.{alarm}
use libabhi.Fd.Events.{Leaves, RousedEach, wake_events_lem}
use libabhi.Fd.Everyone.{AllRoused, wake_all_lem}
use libabhi.Fd.Expire.{Expired, IsSorted-same, decs, wake_expired_lem}
use libabhi.Fd.Order.{IsSorted}

-- What a round leaves, once the events have woken `ts` and `rest` were still asleep. `front` are those
-- whose time has come.
pub record Round (now : ℕ) (w : World) (ts rest ready : List Ptr) (w' : World) : Type 0 where
  pub front : List Ptr
  pub back : List Ptr
  pub parts : rest ≡ front ++ back
  pub waiting : Waiting w'.heap w'.sleeping back
  pub sorted : IsSorted w'.heap back
  pub runnable : Runnable w' ((ready ++ ts) ++ front)
  pub early : (a : Ptr) → a ∈ front → alarm w.heap a ≤ now
  pub late : (a : Ptr) → a ∈ back → now < alarm w.heap a
  pub counted : w'.sleepingcounted ≡ decs (length front) w.sleepingcounted
  pub events : (a : Ptr) → a ∈ ts → udata_of w'.heap a ≡ some 0
  pub timeouts : (a : Ptr) → a ∈ front → udata_of w'.heap a ≡ some libtask_timeout

-- What is left of a sorted list is sorted.
IsSorted-back : (h : Heap) (front back : List Ptr) → IsSorted h (front ++ back) → IsSorted h back
IsSorted-back h [] back s = s
IsSorted-back h (x ∷ front) back (low, s) = IsSorted-back h front back s

both_Round :
    {now : ℕ} {w w₁ w₂ : World} (ts rest ready : List Ptr)
    → RousedEach w ts rest ready w₁
    → Expired now w₁ rest (ready ++ ts) w₂
    → Round now w ts rest ready w₂
both_Round {now} {w} {w₁} {w₂} ts rest ready m x = record {
  front = x.front;
  back = x.back;
  parts = x.parts;
  waiting = x.waiting;
  sorted =
      IsSorted-same w₁.heap w₂.heap x.back x.alarms
        (IsSorted-back w₁.heap x.front x.back (subst (IsSorted w₁.heap) x.parts m.sorted));
  runnable = x.runnable;
  early = λ a i.
      omega
        (arith, x.early a i, m.alarms a (whole a (ground (arith, has-append a x.front x.back))));
  late = λ a i.
      omega (arith, x.late a i, m.alarms a (whole a (ground (arith, has-append a x.front x.back))));
  counted = x.counted ∙ ap (decs (length x.front)) m.still_counted;
  events = λ a i.
      let (zeroed, gone) = m.told a i in
      x.untold a ((∉-split a x.front x.back (subst (λ l. a ∉ l) x.parts gone)).0) ∙ zeroed;
  timeouts = x.told;
}
  where
    whole : (a : Ptr) → a ∈ (x.front ++ x.back) → a ∈ rest
    whole a i = subst (λ l. a ∈ l) (sym x.parts) i

-- What the last round leaves: nobody sleeps, and those whose time has not come find EIO in their data.
pub record LastRound (now : ℕ) (w : World) (ts rest ready : List Ptr) (w' : World) : Type 0 where
  pub front : List Ptr
  pub back : List Ptr
  pub parts : rest ≡ front ++ back
  pub waiting : Waiting w'.heap w'.sleeping []
  pub runnable : Runnable w' ((ready ++ ts) ++ rest)
  pub early : (a : Ptr) → a ∈ front → alarm w.heap a ≤ now
  pub late : (a : Ptr) → a ∈ back → now < alarm w.heap a
  pub counted : w'.sleepingcounted ≡ decs (length rest) w.sleepingcounted
  pub events : (a : Ptr) → a ∈ ts → udata_of w'.heap a ≡ some 0
  pub timeouts : (a : Ptr) → a ∈ front → udata_of w'.heap a ≡ some libtask_timeout
  pub interrupted : (a : Ptr) → a ∈ back → udata_of w'.heap a ≡ some eio
  pub over : w'.startedfdtask ≡ false

decs_add : (n m : ℕ) (z : ℤ) → decs m (decs n z) ≡ decs (n + m) z
decs_add zero m z = let e : m ≡ 0 + m = omega arith in ap (λ k. decs k z) e
decs_add (suc n) m z =
    let e : suc (n + m) ≡ suc n + m = omega arith in decs_add n m (dec z) ∙ ap (λ k. decs k z) e

last_Round :
    {now : ℕ} {w w₂ w₃ : World} (ts rest ready : List Ptr) (b : Round now w ts rest ready w₂)
    → ((a : Ptr) → a ∈ ts → a ∉ rest)
    → AllRoused eio w₂ b.back ((ready ++ ts) ++ b.front) w₃
    → LastRound now w ts rest ready (record w₃ { startedfdtask = false })
last_Round {now} {w} {w₂} {w₃} ts rest ready b gone y =
    let order = append_assoc (ready ++ ts) b.front b.back in
    let all = subst (Runnable w₃) (order ∙ ap (λ l. (ready ++ ts) ++ l) (sym b.parts)) y.runnable in
    let whole : length b.front + length b.back ≡ length rest =
      omega (arith, ap length b.parts, length-append b.front b.back) in
    record {
      front = b.front;
      back = b.back;
      parts = b.parts;
      waiting = y.waiting;
      runnable = record { queue = all.queue; marked = all.marked };
      early = b.early;
      late = b.late;
      counted =
          y.counted
          ∙ ap (decs (length b.back)) b.counted
          ∙ decs_add (length b.front) (length b.back) w.sleepingcounted
          ∙ ap (λ k. decs k w.sleepingcounted) whole;
      events = λ a i.
          y.untold a ((∉-split a b.front b.back (subst (λ l. a ∉ l) b.parts (gone a i))).1)
          ∙ b.events a i;
      timeouts = λ a i. y.untold a (due a i) ∙ b.timeouts a i;
      interrupted = y.told;
      over = refl;
    }
  where
    due : (a : Ptr) → a ∈ b.front → a ∉ b.back
    due a i = elim (Bool-cases (has a b.back)) [
      | inl j ↦ absurd (omega (arith, b.early a i, b.late a j))
      | inr o ↦ o
    ]

module _ (n now : ℕ) {w : World} (ts xs rest ready : List Ptr) (leaves : Leaves xs ts rest)
    (r : Runnable w ready) (k : Waiting w.heap w.sleeping xs) (s : IsSorted w.heap xs)
    (enough : length rest < n) where
  -- A round of the fd task while the loop function lets it go on, when each event names another
  -- sleeper: those named are ready first, in the order of the events, with 0 as their data; then those
  -- whose deadline has passed, in order, with LIBTASK_TIMEOUT; all others sleep on, sorted. The counter
  -- of sleepers is counted down for the second group only.
  pub fdtask_round_goes_on : Returns (Round now w ts rest ready) (fdtask_round n ts now false w)
  unfolding fdtask_round
  fdtask_round_goes_on = Returns-bind (wake_events_lem ts xs rest ready leaves r k s) λ w₁ m.
      Returns-bind (wake_expired_lem n now rest (ready ++ ts) m.runnable m.waiting m.sorted enough)
        λ w₂ x. returns (both_Round ts rest ready m x)

  -- The last round of the fd task, when each event names another sleeper: afterwards nobody sleeps, all
  -- are ready, those named by events first, the fd task can be started again, and whoever was neither
  -- named nor due finds EIO in its data.
  pub fdtask_round_ends : Returns (LastRound now w ts rest ready) (fdtask_round n ts now true w)
  unfolding fdtask_round
  fdtask_round_ends = Returns-bind (wake_events_lem ts xs rest ready leaves r k s) λ w₁ m.
      Returns-bind (wake_expired_lem n now rest (ready ++ ts) m.runnable m.waiting m.sorted enough)
        λ w₂ x.
          let b = both_Round ts rest ready m x in
          let fewer : length b.back < n =
            omega (arith, enough, ap length b.parts, length-append b.front b.back) in
          Returns-bind (wake_all_lem n b.back ((ready ++ ts) ++ b.front) b.runnable b.waiting fewer)
            λ w₃ y. returns (last_Round ts rest ready b (λ a i. (m.told a i).1) y)
