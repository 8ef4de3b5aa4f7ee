-- ===== src/Fd.antt =====
-- libtask/fd.c: sleeping tasks, and the task that wakes them.
pub mod Await
pub mod Poll
pub mod PollLoop
pub mod Sleep
pub mod Ending
pub mod Event
pub mod Events
pub mod Everyone
pub mod Expire
pub mod Insert
pub mod Loop
pub mod Order
pub mod Release
pub mod Round
pub mod Sweep
pub mod Timeout
pub mod Wait
use libabhi.Base.{
  abort, ℕ, zero, suc, ◌+◌, ◌-◌, ◌*◌, ◌/◌, ◌%◌, ◌^◌, Bool, true, false, Option, none, some, List,
  [], ◌∷◌, Outcome, ok, err, Stop, no_fuel, ◌>>=◌, ◌==◌, ltb, leb, if◌then◌else◌,
}
use libabhi.Base.Int.{ℤ, pos, inc, dec, is_zero}
use libabhi.Tasks.{Ptr, null, Task, Heap, load, modify, set_next, set_prev, Tasklist, deltask}
use libabhi.Sched.{World, taskready, taskcreate}

abbrev pub libtask_timeout : ℕ
libtask_timeout = 1989

-- The errno value EIO.
abbrev pub eio : ℕ
eio = 5

-- `for(t=sleeping.tail; t!=NULL && t->alarmtime >= when; t=t->prev)`, on fuel: where it stops.
unfoldable pub find_slot : ℕ → Ptr → (when : ℕ) → Heap → Outcome Ptr
find_slot zero t when h = err no_fuel
find_slot (suc n) t when h =
    let visit : Outcome Ptr = (do
      c ← load t h
      (let earlier : Outcome Ptr = find_slot n c.prev when h in
          if leb when c.alarmtime then earlier else ok t)) in
    if t == null then ok null else visit

-- The links of the task `r` that goes behind `t`, or to the front if `t` is NULL.
set_links : Ptr → Ptr → Tasklist → Heap → Outcome Heap
set_links r t l h =
    if t == null
    then (do h' ← set_next r l.head h; set_prev r null h')
    else (do h' ← set_prev r t h; c ← load t h'; set_next r c.next h')

-- The two tests that link the neighbours to `r`.
link_front : Ptr → Tasklist → Heap → Outcome (Tasklist × Heap)
link_front r l h = do
  c ← load r h
  (if c.prev == null
      then ok (record l { head = r }, h)
      else (do h' ← set_next c.prev r h; ok (l, h')))

link_back : Ptr → Tasklist → Heap → Outcome (Tasklist × Heap)
link_back r l h = do
  c ← load r h
  (if c.next == null
      then ok (record l { tail = r }, h)
      else (do h' ← set_prev c.next r h; ok (l, h')))

unfoldable pub insert_behind : (r t : Ptr) (when : ℕ) → Tasklist → Heap → Outcome (Tasklist × Heap)
unfolding set_links link_front link_back
insert_behind r t when l h = do
  h₁ ← set_links r t l h
  h₂ ← modify r (λ c. record c { alarmtime = when }) h₁
  (l₃, h₃) ← link_front r l h₂
  link_back r l₃ h₃

-- Nanoseconds, from what gettimeofday gives; -1 if it fails.
unfoldable pub nsec : Option (ℕ × ℕ) → ℕ
nsec none = 2 ^ 64 - 1
nsec (some (tv_sec, tv_usec)) = (tv_sec * 1000 * 1000 * 1000 + tv_usec * 1000) % 2 ^ 64

-- `uint64` time: `now + ms*1000000`
unfoldable pub deadline : (now ms : ℕ) → ℕ
deadline now ms = (now + ms * 1000000) % 2 ^ 64

-- `if(sleepingcounted++ == 0) taskcount++;`
unfoldable pub count_sleeper : World → World
count_sleeper w =
    if is_zero w.sleepingcounted
    then record w { sleepingcounted = inc w.sleepingcounted; taskcount = inc w.taskcount }
    else record w { sleepingcounted = inc w.sleepingcounted }

-- `if(--sleepingcounted == 0) taskcount--;`
unfoldable pub uncount_sleeper : World → World
uncount_sleeper w =
    let left = dec w.sleepingcounted in
    if is_zero left
    then record w { sleepingcounted = left; taskcount = dec w.taskcount }
    else record w { sleepingcounted = left }

-- taskdelay up to taskswitch, once the fd task is started; `now` is what nsec() gives.
unfoldable pub taskdelay_start : (fuel now ms : ℕ) → World → Outcome World
unfolding count_sleeper
taskdelay_start fuel now ms w = do
  t ← find_slot fuel w.sleeping.tail (deadline now ms) w.heap
  (l, h) ← insert_behind w.taskrunning t (deadline now ms) w.sleeping w.heap
  ok (count_sleeper (record w { sleeping = l; heap = h }))

-- What taskdelay returns, when nsec() gives `later`.
unfoldable pub taskdelay_end : (now later : ℕ) → ℕ
taskdelay_end now later = ((later + 2 ^ 64 - now) % 2 ^ 64) / 1000000

-- _startfdtask: `fn` is the address of fdtask, `loop_fn` that of the function called in each round, and
-- `epoll` says whether epoll_create succeeds, which is asserted; without epoll it is not called.
unfoldable pub _startfdtask : (epoll room : Bool) (fresh fn loop_fn : ℕ) → World → Outcome World
_startfdtask epoll room fresh fn loop_fn w =
    let started : Outcome World = (do
      (id, w') ← taskcreate room fresh fn loop_fn (32 * 1024) (record w { startedfdtask = true })
      ok w') in
    if w.startedfdtask then ok w else if epoll then started else err abort

unfoldable pub taskdelay :
    (epoll room : Bool) (fresh fn loop_fn : ℕ) (fuel now ms : ℕ) → World → Outcome World
unfolding _startfdtask taskdelay_start
taskdelay epoll room fresh fn loop_fn fuel now ms w = do
  w' ← _startfdtask epoll room fresh fn loop_fn w
  taskdelay_start fuel now ms w'

-- The wait of epoll_wait in milliseconds, by the deadline of the first sleeper.
unfoldable pub epoll_ms : (now alarmtime : ℕ) → ℕ
epoll_ms now alarmtime =
    if leb alarmtime now
    then 0
    else if ltb (20 * 1000 * 1000) (alarmtime - now)
    then 20
    else (alarmtime - now) / 1000000

-- The same in the fdtask of other systems, which calls poll.
unfoldable pub poll_ms : (now alarmtime : ℕ) → ℕ
poll_ms now alarmtime =
    if leb alarmtime now
    then 0
    else if leb alarmtime ((now + 100 * 1000 * 1000) % 2 ^ 64)
    then (alarmtime - now) / 1000000
    else 100

unfoldable pub wait_ms : (now : ℕ) → World → Outcome ℕ
unfolding epoll_ms
wait_ms now w =
    if w.sleeping.head == null
    then ok 0
    else (do c ← load w.sleeping.head w.heap; ok (epoll_ms now c.alarmtime))

abbrev pub set_udata : Ptr → ℕ → Heap → Outcome Heap
set_udata t v = modify t (λ c. record c { udata = v })

-- `deltask(&sleeping, t); if(--sleepingcounted == 0) taskcount--; t->udata = v; taskready(t);`
unfoldable pub end_sleep : Ptr → ℕ → World → Outcome World
unfolding uncount_sleeper
end_sleep t v w = do
  (l, h) ← deltask w.sleeping t w.heap
  h' ← set_udata t v h
  taskready t (uncount_sleeper (record w { sleeping = l; heap = h' }))

-- `while((t= sleeping.head) && now >= t->alarmtime)`, on fuel
unfoldable pub wake_expired : ℕ → (now : ℕ) → World → Outcome World
unfolding end_sleep
wake_expired zero now w = err no_fuel
wake_expired (suc n) now w =
    let t = w.sleeping.head in
    let visit : Outcome World = (do
      c ← load t w.heap
      (let round : Outcome World = (do w' ← end_sleep t libtask_timeout w; wake_expired n now w') in
          if leb c.alarmtime now then round else ok w)) in
    if t == null then ok w else visit

-- `while((t= sleeping.head) != NULL)` when the loop function asks to stop, on fuel
unfoldable pub wake_all : ℕ → World → Outcome World
unfolding end_sleep
wake_all zero w = err no_fuel
wake_all (suc n) w =
    let t = w.sleeping.head in
    let round : Outcome World = (do w' ← end_sleep t eio w; wake_all n w') in
    if t == null then ok w else round

-- What the fd task does for one event: `t` is the task that the event names.
unfoldable pub wake_event : Ptr → World → Outcome World
wake_event t w = do
  h ← set_udata t 0 w.heap
  (l, h') ← deltask w.sleeping t h
  taskready t (record w { sleeping = l; heap = h' })

unfoldable pub wake_events : List Ptr → World → Outcome World
unfolding wake_event
wake_events [] w = ok w
wake_events (t ∷ ts) w = do w' ← wake_event t w; wake_events ts w'

-- The part of a round of fdtask after epoll_wait has given `events`. `stop` says whether the loop
-- function returns -1; then the fd task ends.
unfoldable pub fdtask_round :
    (fuel : ℕ) → List Ptr → (now : ℕ) → (stop : Bool) → World → Outcome World
unfolding wake_events wake_expired wake_all
fdtask_round fuel events now stop w = do
  w₁ ← wake_events events w
  w₂ ← wake_expired fuel now w₁
  (if stop then (do w₃ ← wake_all fuel w₂; ok (record w₃ { startedfdtask = false })) else ok w₂)
