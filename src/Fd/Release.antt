-- ===== src/Fd/Release.antt =====
-- fdwait of libtask/fd.c gives back what it takes from epoll.
use libabhi.Base.{
  ℕ, ◌<◌, ◌≡◌, refl, sym, ap, ◌∙◌, subst, Bool, true, false, Option, none, some, List, ◌∷◌, ◌==◌,
  ◌∉◌, Outcome, ◌>>=◌, ok, err, abort, length, Returns, returns, Returns-bind, if◌then◌else◌,
}
use libabhi.Tasks.{Ptr}
use libabhi.Tasks.Links.{IsQueue, IsTask}
use libabhi.Sched.{World}
use libabhi.Fd.{deadline, _startfdtask, taskdelay, taskdelay_start}
use libabhi.Fd.Await.{Epoll, eexist, epoll_bits, watch_duplicate, watch, fdwait_start, fdwait_end}
use libabhi.Fd.Order.{IsSorted, Sleeps, taskdelay_sorted}

-- EPOLL_CTL_ADD: the descriptor is watched besides `before`, or was already, or cannot be.
pub data Added {S : Type 0} (watched : S → List ℕ) (before : List ℕ) (fd : ℕ)
    : Option ℕ × S → Type 0 where
  joins : (s : S) → watched s ≡ fd ∷ before → Added watched before fd (none, s)
  there : (s : S) → watched s ≡ before → Added watched before fd (some eexist, s)
  refuses :
      (e : ℕ) (s : S)
      → watched s ≡ before
      → (e == eexist) ≡ false
      → fd ∉ before
      → Added watched before fd (some e, s)

-- What the code relies on: how the calls change the descriptors that epoll watches, and those open. A
-- duplicate is a new descriptor, which is not watched yet; without one nothing changes.
pub record EpollLaws {S : Type 0} (watched opened : S → List ℕ) (k : Epoll S) : Type 0 where
  pub adds : (fd bits : ℕ) (t : Ptr) (s : S) → Added watched (watched s) fd (k.add fd bits t s)
  pub add_opens : (fd bits : ℕ) (t : Ptr) (s : S) → opened ((k.add fd bits t s).1) ≡ opened s
  pub dups :
      (fd d : ℕ) (s s' : S)
      → k.dup fd s ≡ (some d, s')
      → (opened s' ≡ d ∷ opened s) × (watched s' ≡ watched s) × (d ∉ watched s)
  pub dels : (fd : ℕ) (s : S) (l : List ℕ) → watched s ≡ fd ∷ l → watched (k.del fd s) ≡ l
  pub del_absent : (fd : ℕ) (s : S) → fd ∉ watched s → watched (k.del fd s) ≡ watched s
  pub del_opens : (fd : ℕ) (s : S) → opened (k.del fd s) ≡ opened s
  pub closes : (fd : ℕ) (s : S) (l : List ℕ) → opened s ≡ fd ∷ l → opened (k.close fd s) ≡ l
  pub close_watches : (fd : ℕ) (s : S) → fd ∉ watched s → watched (k.close fd s) ≡ watched s

-- The descriptor is watched already, and it cannot be duplicated, or the duplicate cannot be watched.
pub data Unwatchable {S : Type 0} (k : Epoll S) (fd bits : ℕ) (t : Ptr) (s : S) : Type 0 where
  no_duplicate :
      (s₁ s₂ : S)
      → k.add fd bits t s ≡ (some eexist, s₁)
      → k.dup fd s₁ ≡ (none, s₂)
      → Unwatchable k fd bits t s
  no_room :
      (d e : ℕ) (s₁ s₂ s₃ : S)
      → k.add fd bits t s ≡ (some eexist, s₁)
      → k.dup fd s₁ ≡ (some d, s₂)
      → k.add d bits t s₂ ≡ (some e, s₃)
      → Unwatchable k fd bits t s

-- A run that returns something with `P`, or stops by abort, for which `Q` is the reason.
pub data ReturnsUnless {A : Type 0} (Q : Type 0) (P : A → Type 0) : Outcome A → Type 0 where
  comes : {a : A} → P a → ReturnsUnless Q P (ok a)
  aborts : Q → ReturnsUnless Q P (err abort)

ReturnsUnless-bind :
    {A B : Type 0} {Q : Type 0} {P : A → Type 0} {R : B → Type 0} {r : Outcome A}
    {f : A → Outcome B}
    → ReturnsUnless Q P r
    → ((a : A) → P a → Returns R (f a))
    → ReturnsUnless Q R (r >>= f)
ReturnsUnless-bind {A} {B} {Q} {P} {R} (comes {a} p) next = go (next a p)
  where
    go : {m : Outcome B} → Returns R m → ReturnsUnless Q R m
    go (returns x) = comes x
ReturnsUnless-bind (aborts q) next = aborts q

-- The fd task is not started twice.
module _ (epoll room : Bool) (fresh fdtask loop_fn : ℕ) (w : World)
    (started : w.startedfdtask ≡ true) where
  _startfdtask-again : _startfdtask epoll room fresh fdtask loop_fn w ≡ ok w
  unfolding _startfdtask
  _startfdtask-again = rw started refl

  taskdelay-again :
      (fuel now ms : ℕ)
      → taskdelay epoll room fresh fdtask loop_fn fuel now ms w ≡ taskdelay_start fuel now ms w
  unfolding taskdelay
  taskdelay-again fuel now ms = rw _startfdtask-again refl

module _ {S : Type 0} (watched opened : S → List ℕ) (k : Epoll S) (law : EpollLaws watched opened k)
    (others : S → S) (keep_watched : (s : S) → watched (others s) ≡ watched s)
    (keep_opened : (s : S) → opened (others s) ≡ opened s) where
  -- After the wait, epoll watches what it watched in `s`, and the same descriptors are open.
  abbrev Released : S → (ℕ × Bool) × S → Type 0
  Released s ((fd, duped), s') =
      (watched (fdwait_end k fd duped (others s')) ≡ watched s)
      × (opened (fdwait_end k fd duped (others s')) ≡ opened s)

  once_added :
      (fd : ℕ) (s s' : S)
      → watched s' ≡ fd ∷ watched s
      → opened s' ≡ opened s
      → Released s ((fd, false), s')
  unfolding fdwait_end
  once_added fd s s' w o = (
    law.dels fd (others s') (watched s) (keep_watched s' ∙ w),
    law.del_opens fd (others s') ∙ keep_opened s' ∙ o,
  )

  never_added :
      (fd : ℕ) (s s' : S)
      → watched s' ≡ watched s
      → opened s' ≡ opened s
      → fd ∉ watched s
      → Released s ((fd, false), s')
  unfolding fdwait_end
  never_added fd s s' w o out = (
    law.del_absent fd (others s') (subst (λ l. fd ∉ l) (sym (keep_watched s' ∙ w)) out)
        ∙ keep_watched s'
        ∙ w,
    law.del_opens fd (others s') ∙ keep_opened s' ∙ o,
  )

  duplicate_added :
      (fd : ℕ) (s s' : S)
      → watched s' ≡ fd ∷ watched s
      → opened s' ≡ fd ∷ opened s
      → fd ∉ watched s
      → Released s ((fd, true), s')
  unfolding fdwait_end
  duplicate_added fd s s' w o out =
      let t = k.del fd (others s') in
      let gone : watched t ≡ watched s =
        law.dels fd (others s') (watched s) (keep_watched s' ∙ w) in
      (
        law.close_watches fd t (subst (λ l. fd ∉ l) (sym gone) out) ∙ gone,
        law.closes fd t (opened s) (law.del_opens fd (others s') ∙ keep_opened s' ∙ o),
      )

  -- The duplicate `d` of the descriptor, which is watched in `s₁`.
  second_lem :
      (fd bits d : ℕ) (t : Ptr) (s s₁ s₂ : S)
      → k.add fd bits t s ≡ (some eexist, s₁)
      → watched s₁ ≡ watched s
      → opened s₁ ≡ opened s
      → k.dup fd s₁ ≡ (some d, s₂)
      → (r : Option ℕ × S) → k.add d bits t s₂ ≡ r
      → Added watched (watched s₂) d r
      → opened (r.1) ≡ opened s₂
      → ReturnsUnless
          (Unwatchable k fd bits t s)
          (Released s)
          (elim (r.0) [ none ↦ ok ((d, true), r.1) | some e ↦ err abort ])
  second_lem fd bits d t s s₁ s₂ call w o duped _ call' (joins s₃ w') o' =
      let (dup_opens, dup_watches, unwatched) = law.dups fd d s₁ s₂ duped in
      comes (
        duplicate_added d s s₃ (w' ∙ ap (λ l. d ∷ l) (dup_watches ∙ w))
          (o' ∙ dup_opens ∙ ap (λ l. d ∷ l) o) (subst (λ l. d ∉ l) w unwatched))
  second_lem fd bits d t s s₁ s₂ call w o duped _ call' (there s₃ w') o' =
      aborts (no_room d eexist s₁ s₂ s₃ call duped call')
  second_lem fd bits d t s s₁ s₂ call w o duped _ call' (refuses e s₃ w' n out) o' =
      aborts (no_room d e s₁ s₂ s₃ call duped call')

  duplicate_lem :
      (fd bits : ℕ) (t : Ptr) (s s₁ : S)
      → k.add fd bits t s ≡ (some eexist, s₁)
      → watched s₁ ≡ watched s
      → opened s₁ ≡ opened s
      → (d : Option ℕ × S) → k.dup fd s₁ ≡ d
      → ReturnsUnless (Unwatchable k fd bits t s) (Released s) (watch_duplicate k bits t d)
  unfolding watch_duplicate
  duplicate_lem fd bits t s s₁ call w o (none, s₂) e = aborts (no_duplicate s₁ s₂ call e)
  duplicate_lem fd bits t s s₁ call w o (some d, s₂) e =
      second_lem fd bits d t s s₁ s₂ call w o e (k.add d bits t s₂) refl (law.adds d bits t s₂)
        (law.add_opens d bits t s₂)

  watch_lem :
      (fd bits : ℕ) (t : Ptr) (s : S)
      → ReturnsUnless (Unwatchable k fd bits t s) (Released s) (watch k fd bits t s)
  unfolding watch
  watch_lem fd bits t s =
      go (k.add fd bits t s) refl (law.adds fd bits t s) (law.add_opens fd bits t s)
    where
      go :
          (r : Option ℕ × S)
          → k.add fd bits t s ≡ r
          → Added watched (watched s) fd r
          → opened (r.1) ≡ opened s
          → ReturnsUnless (Unwatchable k fd bits t s) (Released s) (elim (r.0) [
            | none ↦ ok ((fd, false), r.1)
            | some e ↦
                if e == eexist
                then watch_duplicate k bits t (k.dup fd (r.1))
                else ok ((fd, false), r.1)
          ])
      go _ call (joins s₁ w) o = comes (once_added fd s s₁ w o)
      go _ call (refuses e s₁ w n out) o = rw n (comes (never_added fd s s₁ w o out))
      go _ call (there s₁ w) o = duplicate_lem fd bits t s s₁ call w o (k.dup fd s₁) refl

  -- When the fd task runs and the calls behave as documented, fdwait puts the running task to sleep
  -- with a deadline 30 seconds ahead, in its place among the sorted sleepers; and if the other
  -- tasks leave what epoll watches and what is open as it is, so does fdwait as a whole, whether or
  -- not it needs a duplicate of the descriptor. It stops by abort only where it needs one and
  -- cannot have it, or cannot have it watched, and never with a fault.
  pub fdwait_lem :
      (epoll room : Bool) (fresh fdtask loop_fn fuel now fd mode : ℕ) (w : World) (s : S)
      (xs : List Ptr)
      → w.startedfdtask ≡ true
      → IsQueue w.heap w.sleeping xs
      → IsSorted w.heap xs
      → IsTask w.heap w.taskrunning
      → w.taskrunning ∉ xs
      → length xs < fuel
      → ReturnsUnless
          (Unwatchable k fd (epoll_bits mode) w.taskrunning s)
          (λ (used, w', s').
            Sleeps w.taskrunning (deadline now 30000) xs w'
            × (watched (fdwait_end k (used.0) (used.1) (others s')) ≡ watched s)
            × (opened (fdwait_end k (used.0) (used.1) (others s')) ≡ opened s))
          (fdwait_start k epoll room fresh fdtask loop_fn fuel now fd mode w s)
  unfolding fdwait_start
  fdwait_lem epoll room fresh fdtask loop_fn fuel now fd mode w s xs started queue sorted live out
        enough =
      rw
        (
          _startfdtask-again epoll room fresh fdtask loop_fn w started,
          taskdelay-again epoll room fresh fdtask loop_fn w started fuel now 30000,
        )
        (ReturnsUnless-bind (watch_lem fd (epoll_bits mode) w.taskrunning s)
          λ (used, s') (kept, open_kept).
            Returns-bind (taskdelay_sorted fuel now 30000 w xs queue sorted live out enough)
              λ w' z. returns (z, kept, open_kept))
