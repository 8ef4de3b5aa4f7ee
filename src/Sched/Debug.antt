-- ===== src/Sched/Debug.antt =====
-- The names and states that tasks keep for debugging, and the list of all tasks: taskname, taskstate and
-- taskinfo of libtask/task.c, which stand there with VERSION_DEBUG.
use libabhi.Base.{
  ℕ, zero, suc, ◌+◌, ◌-◌, Bool, List, [], ◌∷◌, Outcome, ok, ◌>>=◌, ◌==◌, if◌then◌else◌, take,
  length,
}
use libabhi.Base.Int.{ℤ}
use libabhi.Tasks.{Ptr, load}
use libabhi.Print.{Arg, word, text, vsnprint, fprint}
use libabhi.Sched.{World, task_state_ready, read_at}

-- The texts of a task's `name` and `state`, without their NUL. Each has 256 bytes.
pub record Label : Type 0 where
  pub name : List ℕ
  pub state : List ℕ

-- The labels `f` with another one for the task `t`.
abbrev pub relabel : (Ptr → Label) → Ptr → Label → Ptr → Label
relabel f t l a = if a == t then l else f a

module _ (message : List ℕ) where
  unfoldable pub taskname : List ℕ → List Arg → World → (Ptr → Label) → Outcome (Ptr → Label)
  taskname fmt args w f = do
    c ← load w.taskrunning w.heap
    out ← vsnprint message 256 fmt args
    ok (relabel f w.taskrunning (record (f w.taskrunning) { name = take (length out - 1) out }))

  unfoldable pub taskstate : List ℕ → List Arg → World → (Ptr → Label) → Outcome (Ptr → Label)
  taskstate fmt args w f = do
    c ← load w.taskrunning w.heap
    out ← vsnprint message 256 fmt args
    ok (relabel f w.taskrunning (record (f w.taskrunning) { state = take (length out - 1) out }))

unfoldable pub taskgetname : World → (Ptr → Label) → Outcome (List ℕ)
taskgetname w f = do c ← load w.taskrunning w.heap; ok (f w.taskrunning).name

unfoldable pub taskgetstate : World → (Ptr → Label) → Outcome (List ℕ)
taskgetstate w f = do c ← load w.taskrunning w.heap; ok (f w.taskrunning).state

-- " (running)"
abbrev pub running_mark : List ℕ
running_mark = b' ' ∷ b'(' ∷ b'r' ∷ b'u' ∷ b'n' ∷ b'n' ∷ b'i' ∷ b'n' ∷ b'g' ∷ b')' ∷ []

-- " (ready)"
abbrev pub ready_mark : List ℕ
ready_mark = b' ' ∷ b'(' ∷ b'r' ∷ b'e' ∷ b'a' ∷ b'd' ∷ b'y' ∷ b')' ∷ []

abbrev pub extra : (running : Bool) → (state : ℕ) → List ℕ
extra running state =
    if running then running_mark else if state == task_state_ready then ready_mark else []

-- "task list:\n"
abbrev pub title : List ℕ
title = b't' ∷ b'a' ∷ b's' ∷ b'k' ∷ b' ' ∷ b'l' ∷ b'i' ∷ b's' ∷ b't' ∷ b':' ∷ 10 ∷ []

-- "%6d %-20s %s%s\n"
abbrev pub line_format : List ℕ
line_format =
    b'%' ∷ b'6' ∷ b'd' ∷ b' ' ∷ b'%' ∷ b'-' ∷ b'2' ∷ b'0' ∷ b's' ∷ b' ' ∷ b'%' ∷ b's' ∷ b'%' ∷ b's'
    ∷ 10 ∷ []

module _ {S : Type 0} (real_write : (fd : ℕ) → List ℕ → S → ℤ × S) (message : List ℕ)
    (f : Ptr → Label) where
  unfoldable pub taskinfo_line : Ptr → World → S → Outcome S
  taskinfo_line t w s = do
    c ← load t w.heap
    (n, s') ←
        fprint message real_write 2 line_format
          (word c.id
            ∷ text (f t).name
            ∷ text (f t).state
            ∷ text (extra (t == w.taskrunning) c._state)
            ∷ [])
          s
    ok s'

  -- `for(i=0; i<nalltask; i++)`, with `k` rounds left
  unfoldable pub taskinfo_loop : (k i : ℕ) → World → S → Outcome S
  unfolding taskinfo_line
  taskinfo_loop zero i w s = ok s
  taskinfo_loop (suc k) i w s = do
    t ← read_at w.alltask i
    s' ← taskinfo_line t w s
    taskinfo_loop k (i + 1) w s'

  unfoldable pub taskinfo : World → S → Outcome S
  unfolding taskinfo_loop
  taskinfo w s = do
    (n, s') ← fprint message real_write 2 title [] s
    taskinfo_loop w.nalltask 0 w s'
