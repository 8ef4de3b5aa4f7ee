-- ===== src/Sched/Switch.antt =====
-- taskswitch, contextswitch and taskdebug of libtask/task.c. Elsewhere a
-- function that calls taskswitch is cut there.
use libabhi.Base.{
  ℕ, ◌+◌, ◌-◌, ◌≤◌, ◌≡◌, ◌≢◌, refl, ◌==◌, false, List, arith, Outcome, ok, err, abort, ◌>>=◌, ltb,
  leb, Returns, returns,
}
use libabhi.Base.Int.{ℤ, pos, negsuc}
use libabhi.Context.{swapcontext}
use libabhi.Print.{Arg, vfprint}
use libabhi.Tasks.{null}
use libabhi.Sched.{World, needstack}

-- The call of swapcontext is a parameter, on a machine of state `S`.
unfoldable pub contextswitch : {S : Type 0} (swap : S → ℤ × S) → S → Outcome S
contextswitch swap s = let (r, s') = swap s in elim r [ pos n ↦ ok s' | negsuc n ↦ err abort ]

-- `sp` is the address of a local variable, `stk` the start of the running task's stack.
unfoldable pub taskswitch :
    {S : Type 0} (swap : S → ℤ × S) → (sp stk : ℕ) → World × S → Outcome (World × S)
unfolding contextswitch
taskswitch swap sp stk (w, s) = do w' ← needstack sp stk 0 w; s' ← contextswitch swap s; ok (w', s')

-- What stands behind its `return` is not reached.
unfoldable pub taskdebug :
    {S : Type 0} (real_write : (fd : ℕ) → List ℕ → S → ℤ × S) (message : List ℕ)
    → List ℕ
    → List Arg
    → S
    → Outcome S
taskdebug real_write message fmt args s = do
  (n, s') ← vfprint message real_write 1 fmt args s
  ok s'

-- With a task that runs, 256 bytes of its stack left and the swapcontext of libtask/context.c, a
-- switch comes back, whatever happens between the two contexts, and does not touch the variables of
-- the scheduler itself.
taskswitch_returns :
    {S : Type 0} (getcontext : S → ℕ × S) (setcontext : S → S) (sp stk : ℕ) (w : World) (s : S)
    → w.taskrunning ≢ null
    → stk + 256 ≤ sp
    → Returns
        (λ (w', s'). w' ≡ w)
        (taskswitch
          (λ t. let (r, t') = swapcontext getcontext setcontext t in (pos r, t'))
          sp
          stk
          (w, s))
unfolding taskswitch contextswitch needstack
taskswitch_returns getcontext setcontext sp stk w s runs h =
    let somebody : (w.taskrunning == null) ≡ false = ground arith in
    let above : leb sp stk ≡ false = ground arith in
    let room : ltb (sp - stk) (256 + 0) ≡ false = ground arith in
    rw (somebody, above, room) (returns refl)
