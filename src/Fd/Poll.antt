-- ===== src/Fd/Poll.antt =====
-- The arrays `pollfd` and `polltask` with which libtask/fd.c waits for descriptors where there is no
-- epoll: fdwait, and the loop of fdtask behind poll.
use libabhi.Base.{
  true, ℕ, zero, suc, ◌+◌, ◌-◌, Bool, none, some, List, [], ◌∷◌, ◌++◌, Outcome, ok, err, abort,
  fault, no_fuel, ◌>>=◌, ◌==◌, ltb, if◌then◌else◌, get_elem?, set, take, length,
}
use libabhi.Tasks.{Ptr}
use libabhi.Sched.{World, taskready}
use libabhi.Fd.{_startfdtask, taskdelay}

abbrev pub maxfd : ℕ
maxfd = 1024

-- `pollfd[i]` and `polltask[i]`. The arrays are the list of their first `npollfd` entries.
pub record Polled : Type 0 where
  pub fd : ℕ
  pub events : ℕ
  pub revents : ℕ
  pub task : Ptr

-- POLLIN for 'r' and POLLOUT for 'w'
unfoldable pub poll_bits : (mode : ℕ) → ℕ
poll_bits mode = if mode == b'r' then 1 else if mode == b'w' then 4 else 0

-- fdwait up to the switch in taskdelay, after which it returns.
unfoldable pub fdwait_poll :
    (room : Bool) (fresh fdtask loop_fn : ℕ) (fuel now : ℕ)
    → (fd mode : ℕ) → List Polled
    → World
    → Outcome (List Polled × World)
unfolding poll_bits
fdwait_poll room fresh fdtask loop_fn fuel now fd mode p w = do
  w₁ ← _startfdtask true room fresh fdtask loop_fn w
  let mine : Polled = record {
    fd = fd;
    events = poll_bits mode;
    revents = 0;
    task = w₁.taskrunning;
  }
  (if ltb (length p) maxfd
      then (do
        w₂ ← taskdelay true room fresh fdtask loop_fn fuel now 30000 w₁
        ok (p ++ (mine ∷ []), w₂))
      else err abort)

-- `--npollfd; pollfd[i] = pollfd[npollfd]; polltask[i] = polltask[npollfd];`
unfoldable pub drop_polled : List Polled → ℕ → Outcome (List Polled)
drop_polled p i =
    let n = length p - 1 in
    elim (get_elem? p n) [ none ↦ err fault | some last ↦ ok (take n (set p i last)) ]

-- The two loops that wake those whose descriptor is ready, from index `i` on, on fuel.
unfoldable pub wake_polled : ℕ → (i : ℕ) → List Polled → World → Outcome (List Polled × World)
unfolding drop_polled
wake_polled zero i p w = err no_fuel
wake_polled (suc n) i p w =
    let next : Outcome (List Polled × World) = wake_polled n (i + 1) p w in
    elim (get_elem? p i) [
      | none ↦ ok (p, w)
      | some e ↦
          let again : Outcome (List Polled × World) = (do
            w' ← taskready e.task w
            p' ← drop_polled p i
            wake_polled n i p' w') in
          if e.revents == 0 then next else again
    ]
