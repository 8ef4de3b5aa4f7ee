-- ===== src/Tests/Polling.antt =====
-- Tests of fdtask where there is no epoll.
use libabhi.Base.{ℕ, ◌≡◌, refl, none, some, List, [], ◌∷◌, Outcome, ok, err}
use libabhi.Sched.{World, taskready}
use libabhi.Tasks.{Ptr, addtask}
use libabhi.Fd.Poll.{Polled, wake_polled}
use libabhi.Tests.Data.{world}

-- Data is there for the task 20, which sleeps in front of the task 30.
abbrev ready_entry : Polled
ready_entry = record { fd = 5; events = 1; revents = 1; task = 20 }

abbrev next_of : Ptr → Outcome (List Polled × World) → ℕ
next_of t (ok (p, w)) = elim (w.heap t) [ none ↦ 99 | some c ↦ c.next ]
next_of t (err e) = 99

abbrev head_of : Outcome (List Polled × World) → ℕ
head_of (ok (p, w)) = w.sleeping.head
head_of (err e) = 99

-- Afterwards the first sleeper is still 20, but no task follows it, so that 30 is lost.
loses_sleepers :
    (head_of (wake_polled 9 0 (ready_entry ∷ []) world) ≡ 20)
    × (next_of 20 (wake_polled 9 0 (ready_entry ∷ []) world) ≡ 0)
unfolding wake_polled taskready addtask libabhi.Tasks.load libabhi.Tasks.modify libabhi.Tasks.write
loses_sleepers = (refl, refl)
