-- ===== src/Fd/PollLoop.antt =====
-- fdtask of libtask/fd.c for systems without epoll.
use libabhi.Base.{
  ℕ, zero, suc, ◌+◌, Bool, false, List, Outcome, ok, err, no_fuel, ◌>>=◌, ◌==◌, if◌then◌else◌,
}
use libabhi.Tasks.{null, load}
use libabhi.Sched.{World, taskexitall}
use libabhi.Fd.{poll_ms, wake_expired, wake_all}
use libabhi.Fd.Poll.{Polled, wake_polled}

-- What poll gives: the array with `revents` filled in, or -1 with EINTR, or -1 with another errno.
pub data PollAnswer : Type 0 where
  polled : List Polled → PollAnswer
  interrupted failed : PollAnswer

-- What the fd task meets in its pass `i`.
pub record PollPasses : Type 0 where
  -- `while(taskyield() > 0)`: what the other tasks do until only the fd task can run
  pub others : (i : ℕ) → List Polled → World → Outcome (List Polled × World)
  pub poll : (i ms : ℕ) → List Polled → PollAnswer
  -- what nsec() gives before and after poll
  pub before : (i : ℕ) → ℕ
  pub after : (i : ℕ) → ℕ
  -- whether the loop function gives -1
  pub stop : (i : ℕ) → Bool

unfoldable pub wait_poll_ms : (now : ℕ) → World → Outcome ℕ
wait_poll_ms now w =
    if w.sleeping.head == null
    then ok 0
    else (do c ← load w.sleeping.head w.heap; ok (poll_ms now c.alarmtime))

-- The passes from `i` on, on fuel; `fuel` is for the loops within a pass.
unfoldable pub fdtask_poll :
    PollPasses → (fuel : ℕ) → ℕ → (i : ℕ) → List Polled → World → Outcome (List Polled × World)
unfolding wait_poll_ms
fdtask_poll m fuel zero i p w = err no_fuel
fdtask_poll m fuel (suc n) i p w = do
  (p₁, w₁) ← m.others i p w
  ms ← wait_poll_ms (m.before i) w₁
  elim (m.poll i ms p₁) [
    | interrupted ↦ fdtask_poll m fuel n (i + 1) p₁ w₁
    | failed ↦ (do w₂ ← taskexitall 0 w₁; ok (p₁, w₂))
    | polled p₂ ↦ (do
      (p₃, w₃) ← wake_polled fuel 0 p₂ w₁
      w₄ ← wake_expired fuel (m.after i) w₃
      (let next : Outcome (List Polled × World) = fdtask_poll m fuel n (i + 1) p₃ w₄ in
          if m.stop i
          then (do w₅ ← wake_all fuel w₄; ok (p₃, record w₅ { startedfdtask = false }))
          else next))
  ]
