-- ===== src/Tests/Listing.antt =====
-- Tests of the list of all tasks.
use libabhi.Base.{ℕ, ◌≡◌, List, [], ◌∷◌, ◌++◌, arith, ok, take, length}
use libabhi.Base.Int.{ℤ, pos}
use libabhi.Tasks.{Ptr}
use libabhi.Sched.Debug.{Label, title, taskinfo}
use libabhi.Sched.Listing.{write_lines, taskinfo_lem}
use libabhi.Tests.Scheduling.{two_tasks, two_tasks-IsSlotted}

-- Task 10 is called "a", and what is written is kept.
abbrev label : Ptr → Label
label t = record { name = b'a' ∷ []; state = [] }

abbrev keep : (fd : ℕ) → List ℕ → List (List ℕ) → ℤ × List (List ℕ)
keep fd text s = (pos (length text), s ++ (text ∷ []))

taskinfo_lem_example :
    taskinfo keep [] label two_tasks []
    ≡ ok (write_lines keep [] label two_tasks (take 2 two_tasks.alltask) (title ∷ []))
taskinfo_lem_example =
    taskinfo_lem keep [] label two_tasks [] two_tasks-IsSlotted λ t c h. (ground arith, omega arith)
