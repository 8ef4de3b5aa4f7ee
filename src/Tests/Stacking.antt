-- ===== src/Tests/Stacking.antt =====
-- Tests of the first contexts of tasks: libtask/context.c.
use libabhi.Base.{ℕ, ◌+◌, ◌^◌, [], ◌∷◌, arith, Returns}
use libabhi.Context.{Memory, task_stack, makecontext_amd64, makecontext_x86}
use libabhi.Context.Stacks.{StartsAmd64, StartsX86, makecontext_amd64_lem, makecontext_x86_lem}
use libabhi.Sched.Start.{pointer_words}

abbrev mem : Memory
mem p = p

abbrev task : ℕ
task = 2 ^ 46 + 4097

makecontext_amd64_lem_example : Returns (StartsAmd64 4660 task 20000 32768 mem) (
    makecontext_amd64
      (task_stack 64 20000 32768)
      4660
      ((pointer_words task).0 ∷ (pointer_words task).1 ∷ [])
      mem)
makecontext_amd64_lem_example =
    makecontext_amd64_lem 4660 task 20000 32768 mem (omega arith) (omega arith) (omega arith)

makecontext_x86_lem_example :
    StartsX86 4660 7 0 20000 32768 mem
      (makecontext_x86 (task_stack 32 20000 32768) 4660 (7 ∷ 0 ∷ []) mem)
makecontext_x86_lem_example =
    makecontext_x86_lem 4660 7 0 20000 32768 mem (omega arith) (omega arith) (omega arith)
      (omega arith)
