-- ===== src/Fd/Await.antt =====
-- fdwait and startfdtask of libtask/fd.c, and the step of fdtask that looks at the answer of
-- epoll_wait. epoll is a parameter.
use libabhi.Base.{
  ℕ, Bool, true, false, Option, none, some, List, Outcome, ok, err, abort, ◌>>=◌, ◌==◌,
  if◌then◌else◌,
}
use libabhi.Tasks.{Ptr}
use libabhi.Sched.{World, taskexitall}
use libabhi.Fd.{_startfdtask, taskdelay, fdtask_round}

-- What startfdtask keeps for the fd task.
pub record PoolLoop : Type 0 where
  pub _pool_loop_fn : ℕ
  pub _pool_loop_arg : ℕ

unfoldable pub startfdtask :
    (epoll room : Bool) (fresh fdtask fn arg : ℕ) → World → Outcome (PoolLoop × World)
startfdtask epoll room fresh fdtask fn arg w = do
  w' ← _startfdtask epoll room fresh fdtask fn w
  ok (record { _pool_loop_fn = fn; _pool_loop_arg = arg }, w')

-- What epoll_wait gives: the tasks that its events name, or -1 with EINTR, or -1 with another errno.
pub data EpollAnswer : Type 0 where
  events : List Ptr → EpollAnswer
  interrupted failed : EpollAnswer

-- A round of the fd task, from the answer of epoll_wait on.
unfoldable pub fdtask_answer :
    (fuel : ℕ) → EpollAnswer → (now : ℕ) → (stop : Bool) → World → Outcome World
fdtask_answer fuel (events ts) now stop w = fdtask_round fuel ts now stop w
fdtask_answer fuel interrupted now stop w = ok w
fdtask_answer fuel failed now stop w = taskexitall 0 w

abbrev pub eexist : ℕ
eexist = 17

-- The bits EPOLLIN, EPOLLPRI and EPOLLERR for 'r', EPOLLOUT and EPOLLERR for 'w'.
unfoldable pub epoll_bits : (mode : ℕ) → ℕ
epoll_bits mode = if mode == b'r' then 11 else if mode == b'w' then 12 else 0

-- The calls of fdwait on a machine of state `S`. `add` gives the errno with which it fails, if it
-- does, and `dup` nothing if it fails.
pub record Epoll (S : Type 0) : Type 0 where
  pub add : (fd bits : ℕ) → Ptr → S → Option ℕ × S
  pub del : (fd : ℕ) → S → S
  pub dup : (fd : ℕ) → S → Option ℕ × S
  pub close : (fd : ℕ) → S → S

module _ {S : Type 0} (k : Epoll S) where
  -- The second epoll_ctl of fdwait, on the duplicate, whose success is asserted. Without a duplicate the
  -- descriptor is -1, on which epoll_ctl fails.
  unfoldable pub watch_duplicate : (bits : ℕ) → Ptr → Option ℕ × S → Outcome ((ℕ × Bool) × S)
  watch_duplicate bits t (none, s) = err abort
  watch_duplicate bits t (some d, s) =
      let (r, s') = k.add d bits t s in elim r [ none ↦ ok ((d, true), s') | some e ↦ err abort ]

  -- How fdwait has its descriptor watched: the one that is used, and whether it is a duplicate.
  unfoldable pub watch : (fd bits : ℕ) → Ptr → S → Outcome ((ℕ × Bool) × S)
  unfolding watch_duplicate
  watch fd bits t s =
      let (r, s₁) = k.add fd bits t s in
      let again : Outcome ((ℕ × Bool) × S) = watch_duplicate bits t (k.dup fd s₁) in
      elim r [
        | none ↦ ok ((fd, false), s₁)
        | some e ↦ if e == eexist then again else ok ((fd, false), s₁)
      ]

  -- fdwait up to the switch in taskdelay, and what follows it.
  unfoldable pub fdwait_start :
      (epoll room : Bool) (fresh fdtask loop_fn : ℕ) (fuel now : ℕ)
      → (fd mode : ℕ) → World
      → S
      → Outcome ((ℕ × Bool) × World × S)
  unfolding watch
  fdwait_start epoll room fresh fdtask loop_fn fuel now fd mode w s = do
    w₁ ← _startfdtask epoll room fresh fdtask loop_fn w
    (used, s') ← watch fd (epoll_bits mode) w₁.taskrunning s
    w₂ ← taskdelay epoll room fresh fdtask loop_fn fuel now 30000 w₁
    ok (used, w₂, s')

  unfoldable pub fdwait_end : (fd : ℕ) (duped : Bool) → S → S
  fdwait_end fd duped s = let t = k.del fd s in if duped then k.close fd t else t
