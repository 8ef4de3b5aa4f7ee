-- ===== src/Tests/Awaiting.antt =====
-- Tests of fdwait on a machine whose state are the descriptors watched and those open.
use libabhi.Base.{
  ℕ, suc, ◌+◌, ◌<◌, ◌≡◌, refl, ap, true, false, none, some, List, [], ◌∷◌, arith, ◌==◌, ◌∉◌, has,
  if◌then◌else◌, Bool-cases, inl, inr, sym, subst, ◌∙◌,
}
use libabhi.Sched.{World}
use libabhi.Fd.{deadline}
use libabhi.Fd.Await.{Epoll, eexist, epoll_bits, fdwait_start, fdwait_end}
use libabhi.Fd.Order.{Sleeps}
use libabhi.Fd.Release.{joins, there, EpollLaws, ReturnsUnless, Unwatchable, fdwait_lem}
use libabhi.Tests.Data.{world, waiters-IsQueue, running-IsTask}
use libabhi.Tests.Dialing.{without_first, without_first-head}
use libabhi.Tests.Sleeping.{waiters-IsSorted}

record Kernel : Type 0 where
  watched : List ℕ
  opened : List ℕ

total : List ℕ → ℕ
total [] = 0
total (x ∷ xs) = x + total xs

above_total : (n : ℕ) (xs : List ℕ) → total xs < n → n ∉ xs
unfolding total
above_total n [] h = refl
above_total n (x ∷ xs) h =
    let later = above_total n xs (omega (arith, h)) in ground (arith, h, later)

abbrev epoll : Epoll Kernel
epoll = record {
  add = λ fd bits t s.
      if has fd s.watched then (some eexist, s) else (none, record s { watched = fd ∷ s.watched });
  del = λ fd s. record s { watched = without_first fd s.watched };
  dup = λ fd s.
      (some (suc (total s.watched)), record s { opened = suc (total s.watched) ∷ s.opened });
  close = λ fd s. record s { opened = without_first fd s.opened };
}

without_absent : (fd : ℕ) (l : List ℕ) → fd ∉ l → without_first fd l ≡ l
unfolding without_first
without_absent fd [] o = refl
without_absent fd (x ∷ xs) o =
    let other : (x == fd) ≡ false = ground (arith, o) in
    let later : fd ∉ xs = ground (arith, o) in
    rw other (ap (λ l. x ∷ l) (without_absent fd xs later))

fresh : (s : Kernel) → suc (total s.watched) ∉ s.watched
fresh s = above_total (suc (total s.watched)) s.watched (omega arith)

kernel_dups :
    (fd d : ℕ) (s s' : Kernel)
    → epoll.dup fd s ≡ (some d, s')
    → (s'.opened ≡ d ∷ s.opened) × (s'.watched ≡ s.watched) × (d ∉ s.watched)
kernel_dups fd d s s' e =
    let new : suc (total s.watched) ≡ d = some-inj (ap (λ r. r.0) e) in
    let left = ap (λ r. r.1) e in
    (
      sym (ap (λ r. r.opened) left) ∙ ap (λ x. x ∷ s.opened) new,
      sym (ap (λ r. r.watched) left),
      subst (λ x. x ∉ s.watched) new (fresh s),
    )
  where
    some-inj : {a b : ℕ} → some a ≡ some b → a ≡ b
    some-inj h = ground arith

documented : EpollLaws (λ s. s.watched) (λ s. s.opened) epoll
documented = record {
  adds = λ fd bits t s. elim (Bool-cases (has fd s.watched)) [
    | inl i ↦ rw i (there s refl)
    | inr o ↦ rw o (joins (record s { watched = fd ∷ s.watched }) refl)
  ];
  add_opens =
      λ fd bits t s. elim (Bool-cases (has fd s.watched)) [ inl i ↦ rw i refl | inr o ↦ rw o refl ];
  dups = kernel_dups;
  dels = λ fd s l e. without_first-head fd s.watched l e;
  del_absent = λ fd s o. without_absent fd s.watched o;
  del_opens = λ fd s. refl;
  closes = λ fd s l e. without_first-head fd s.opened l e;
  close_watches = λ fd s o. refl;
}

abbrev waiting_world : World
waiting_world = record world { startedfdtask = true }

abbrev kernel : Kernel
kernel = record { watched = 5 ∷ []; opened = 5 ∷ 1 ∷ [] }

-- The descriptor 5 is watched already, so a duplicate is made.
fdwait_lem_example :
    ReturnsUnless
      (Unwatchable epoll 5 (epoll_bits b'r') 10 kernel)
      (λ (used, w', s').
        Sleeps 10 (deadline 1000000 30000) (20 ∷ 30 ∷ []) w'
        × ((fdwait_end epoll (used.0) (used.1) s').watched ≡ 5 ∷ [])
        × ((fdwait_end epoll (used.0) (used.1) s').opened ≡ 5 ∷ 1 ∷ []))
      (fdwait_start epoll true true 50 60 70 3 1000000 5 b'r' waiting_world kernel)
fdwait_lem_example =
    fdwait_lem (λ s. s.watched) (λ s. s.opened) epoll documented (λ s. s) (λ s. refl) (λ s. refl)
      true true 50 60 70 3 1000000 5 b'r' waiting_world kernel (20 ∷ 30 ∷ []) refl waiters-IsQueue
      waiters-IsSorted running-IsTask refl (omega arith)
