-- ===== src/Fd/Wait.antt =====
-- The times that libtask/fd.c computes.
use libabhi.Base.{ℕ, ◌+◌, ◌*◌, ◌^◌, ◌<◌, ◌≤◌, ◌≡◌, ◌-◌, ◌/◌, min, max, arith}
use libabhi.Fd.{deadline, taskdelay_end, epoll_ms, poll_ms}

-- With the first deadline at `t`, the fd task waits for the whole milliseconds that are left, at most
-- 20, and so never past the deadline.
pub epoll_ms_bounds :
    (now t : ℕ)
    → (epoll_ms now t ≡ min 20 ((t - now) / 1000000)) × (now + epoll_ms now t * 1000000 ≤ max now t)
unfolding epoll_ms
epoll_ms_bounds now t = ground arith

-- Where poll is used, and the clock is 100 ms away from its end, the fd task waits for the whole
-- milliseconds that are left, at most 100, and so never past the deadline.
pub poll_ms_bounds :
    (now t : ℕ)
    → now + 100 * 1000 * 1000 < 2 ^ 64
    → (poll_ms now t ≡ min 100 ((t - now) / 1000000)) × (now + poll_ms now t * 1000000 ≤ max now t)
unfolding poll_ms
poll_ms_bounds now t h = ground arith

-- A task that is woken at its deadline or later has slept at least the time that it asked for, and
-- taskdelay says so, as long as the clock does not pass its end.
pub taskdelay_at_least :
    (now ms later : ℕ)
    → now + ms * 1000000 < 2 ^ 64
    → deadline now ms ≤ later
    → later < 2 ^ 64
    → ms ≤ taskdelay_end now later
unfolding deadline taskdelay_end
taskdelay_at_least now ms later h h' h'' = omega arith
