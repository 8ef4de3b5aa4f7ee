-- ===== src/Fd/Everyone.antt =====
-- The last loop of fdtask of libtask/fd.c, which wakes every sleeping task.
use libabhi.Base.{
  ℕ, zero, suc, ◌<◌, ◌≡◌, refl, sym, ap, ◌∙◌, subst, some, List, [], ◌∷◌, ◌++◌, arith, ◌==◌, inl,
  inr, ◌∈◌, ◌∉◌, ∉-split, ∉-ne, length, Returns, returns, Returns-bind, Returns-mono, Bool-cases,
  append_assoc, append-nil,
}
use libabhi.Base.Int.{dec}
use libabhi.Tasks.{Ptr}
use libabhi.Tasks.Place.{udata_of}
use libabhi.Sched.{World}
use libabhi.Sched.Ready.{Runnable}
use libabhi.Sched.Wake.{Waiting, head-nil, head-cons}
use libabhi.Fd.{end_sleep, wake_all, eio}
use libabhi.Fd.Ending.{Ended, end_sleep_lem}
use libabhi.Fd.Expire.{decs}

-- All sleepers `xs` are ready, in order, find `v` in their data, and are not counted any more.
pub record AllRoused (v : ℕ) (w : World) (xs ready : List Ptr) (w' : World) : Type 0 where
  pub waiting : Waiting w'.heap w'.sleeping []
  pub runnable : Runnable w' (ready ++ xs)
  pub counted : w'.sleepingcounted ≡ decs (length xs) w.sleepingcounted
  pub told : (a : Ptr) → a ∈ xs → udata_of w'.heap a ≡ some v
  pub untold : (a : Ptr) → a ∉ xs → udata_of w'.heap a ≡ udata_of w.heap a

-- The last loop of fdtask wakes every sleeper, with EIO as its data.
pub wake_all_lem :
    (n : ℕ) {w : World} (xs ready : List Ptr)
    → Runnable w ready
    → Waiting w.heap w.sleeping xs
    → length xs < n
    → Returns (AllRoused eio w xs ready) (wake_all n w)
unfolding wake_all
wake_all_lem zero xs ready r k fuel = absurd (omega arith)
wake_all_lem (suc n) {w} [] ready r k fuel = rw (head-nil k) (
    returns (record {
      waiting = k;
      runnable = subst (Runnable w) (sym (append-nil ready)) r;
      counted = refl;
      told = λ a i. cc;
      untold = λ a o. refl;
    }))
wake_all_lem (suc n) {w} (t ∷ rest) ready r k fuel =
    let ended : Returns (Ended (dec w.sleepingcounted) (some eio) w t rest ready)
        (end_sleep w.sleeping.head eio w) =
      subst
        (λ p. Returns (Ended (dec w.sleepingcounted) (some eio) w t rest ready) (end_sleep p eio w))
        (sym k.queue.head_eq) (end_sleep_lem eio t [] rest ready r k) in
    rw (head-cons k) (
      Returns-bind ended λ w₁ e.
        Returns-mono (wake_all_lem n rest (ready ++ (t ∷ [])) e.runnable e.waiting (omega arith))
          λ w₂ x. record {
            waiting = x.waiting;
            runnable = subst (Runnable w₂) (append_assoc ready (t ∷ []) rest) x.runnable;
            counted = x.counted ∙ ap (decs (length rest)) e.counted;
            told = λ a i. elim (Bool-cases (a == t)) [
              | inl p ↦
                  let same : a ≡ t = ground arith in
                  rw same (x.untold t k.queue.distinct.0 ∙ e.told)
              | inr p ↦ x.told a (ground arith)
            ];
            untold = λ a o.
                let (other, later) = ∉-split a (t ∷ []) rest o in
                x.untold a later ∙ e.untold a (∉-ne a t other);
          })
