-- ===== src/Sched.antt =====
-- The scheduler of libtask/task.c. The thread-local variables of task.c and fd.c are one record.
-- Code that gives up the CPU is cut at taskswitch: the part before it ends when the scheduler has
-- the CPU, and what follows the call is a function of its own.
pub mod Free
pub mod Listing
pub mod Ready
pub mod Run
pub mod Census
pub mod Create
pub mod Debug
pub mod Dispatch
pub mod Slots
pub mod Start
pub mod Switch
pub mod Wake
use libabhi.Base.{
  ℕ, zero, suc, ◌+◌, ◌-◌, ◌%◌, ◌^◌, Bool, true, false, Option, none, some, List, [], ◌++◌, Outcome,
  ok, err, Stop, fault, abort, no_fuel, exit, ◌>>=◌, ◌>>◌, ◌==◌, ltb, leb, if◌then◌else◌, get_elem?,
  set, take, length, replicate,
}
use libabhi.Base.Int.{ℤ, pos, inc, dec, is_zero}
use libabhi.Tasks.{
  Ptr, null, Task, Heap, write, load, modify, Tasklist, empty_list, addtask, deltask,
  task_state_ready, task_state_exiting,
}

pub record World : Type 0 where
  pub heap : Heap
  pub taskcount : ℤ
  pub _tasknswitch : ℕ
  pub taskexitval : ℕ
  pub taskrunning : Ptr
  pub taskrunqueue : Tasklist
  pub alltask : List Ptr
  pub nalltask : ℕ
  pub taskidgen : ℕ
  pub sleeping : Tasklist
  pub sleepingcounted : ℤ
  pub startedfdtask : Bool

-- A thread before its first task.
abbrev pub initial : World
initial = record {
  heap = λ p. none;
  taskcount = pos 0;
  _tasknswitch = 0;
  taskexitval = 0;
  taskrunning = null;
  taskrunqueue = empty_list;
  alltask = [];
  nalltask = 0;
  taskidgen = 0;
  sleeping = empty_list;
  sleepingcounted = pos 0;
  startedfdtask = false;
}

abbrev pub set_state : Ptr → ℕ → Heap → Outcome Heap
set_state t s = modify t (λ c. record c { _state = s })

unfoldable pub taskready : Ptr → World → Outcome World
taskready t w = do
  c ← load t w.heap
  if c._state == task_state_ready then ok w else (do
    h ← set_state t task_state_ready w.heap
    (q, h') ← addtask w.taskrunqueue t h
    ok (record w { heap = h'; taskrunqueue = q }))

-- The two calls with which locks, rendezvous points and timers wake a task of a waiting list:
-- `deltask(l, t); taskready(t)`.
unfoldable pub wake : Tasklist → Ptr → World → Outcome (Tasklist × World)
wake l t w = do (l', h) ← deltask l t w.heap; w' ← taskready t (record w { heap = h }); ok (l', w')

-- `addtask(l, taskrunning)`
unfoldable pub park : Tasklist → World → Outcome (Tasklist × World)
park l w = do (l', h) ← addtask l w.taskrunning w.heap; ok (l', record w { heap = h })

-- taskalloc: `fresh` is what malloc returns. The context is not modelled; getcontext, for which POSIX
-- defines no errors, is taken to succeed; `stk` follows the task.
unfoldable pub taskalloc : (fresh fn arg stack : ℕ) → World → Outcome World
taskalloc fresh fn arg stack w =
    if fresh == null
    then err abort
    else ok (record w {
      heap = write w.heap fresh (
          some (record {
            next = null;
            prev = null;
            alarmtime = 0;
            id = w.taskidgen + 1;
            stksize = stack;
            _state = 0;
            alltaskslot = 0;
            startfn = fn;
            startarg = arg;
            udata = 0;
          }));
      taskidgen = w.taskidgen + 1;
    })

-- What realloc leaves: the old elements that fit, and new ones of no known value.
realloc : List Ptr → ℕ → List Ptr
realloc a n = take n a ++ replicate (n - length a) null

-- The test on `nalltask % 1024`; `room` says whether realloc succeeds.
grow_alltask : (room : Bool) → World → Outcome World
unfolding realloc
grow_alltask room w =
    if (w.nalltask % 1024) == 0
    then (if room
        then ok (record w { alltask = realloc w.alltask (w.nalltask + 1024) })
        else err abort)
    else ok w

-- `a[i] = v`, a fault outside the array
unfoldable pub store_at : List Ptr → ℕ → Ptr → Outcome (List Ptr)
store_at a i v = if ltb i (length a) then ok (set a i v) else err fault

unfoldable pub read_at : List Ptr → ℕ → Outcome Ptr
read_at a i = elim (get_elem? a i) [ none ↦ err fault | some v ↦ ok v ]

abbrev pub set_slot : Ptr → ℕ → Heap → Outcome Heap
set_slot t i = modify t (λ c. record c { alltaskslot = i })

unfoldable pub taskcreateraw : (room : Bool) (fresh fn arg stack : ℕ) → World → Outcome World
unfolding grow_alltask
taskcreateraw room fresh fn arg stack w = do
  w₁ ← taskalloc fresh fn arg stack w
  w₂ ← grow_alltask room (record w₁ { taskcount = inc w₁.taskcount })
  h ← set_slot fresh w₂.nalltask w₂.heap
  a ← store_at w₂.alltask w₂.nalltask fresh
  ok (record w₂ { heap = h; alltask = a; nalltask = w₂.nalltask + 1 })

-- The result is the id of the new task.
unfoldable pub taskcreate : (room : Bool) (fresh fn arg stack : ℕ) → World → Outcome (ℕ × World)
taskcreate room fresh fn arg stack w = do
  w' ← taskcreateraw room fresh fn arg stack w
  w'' ← taskready fresh w'
  c ← load fresh w''.heap
  ok (c.id, w'')

-- taskyield up to taskswitch, with the count that it keeps on its stack, and what follows. `int`
-- arithmetic is modulo 2 ^ 32.
unfoldable pub taskyield_start : World → Outcome (ℕ × World)
taskyield_start w = do w' ← taskready w.taskrunning w; ok (w._tasknswitch, w')

unfoldable pub taskyield_end : ℕ → World → ℕ
taskyield_end n w = (w._tasknswitch + 2 ^ 32 - n + 2 ^ 32 - 1) % 2 ^ 32

unfoldable pub anyready : World → Bool
anyready w = if w.taskrunqueue.head == null then false else true

-- taskexit up to taskswitch, which does not return.
unfoldable pub taskexit : ℕ → World → Outcome World
taskexit val w = do
  h ← modify w.taskrunning (λ c. record c { _state = task_state_exiting }) w.heap
  ok (record w { heap = h; taskexitval = val })

unfoldable pub taskexitall : ℕ → World → Outcome World
taskexitall val w = err (exit val)

-- `sp` is the address of a local variable, `stk` the start of the running task's stack.
unfoldable pub needstack : (sp stk n : ℕ) → World → Outcome World
needstack sp stk n w =
    if w.taskrunning == null
    then err fault
    else if leb sp stk
    then err abort
    else if ltb (sp - stk) (256 + n)
    then err abort
    else ok w

-- taskthis
abbrev pub taskthis : World → Ptr
taskthis w = w.taskrunning

-- The two functions named taskdata.
unfoldable pub taskdata : World → Outcome ℕ
taskdata w = if w.taskrunning == null then ok 0 else (do c ← load w.taskrunning w.heap; ok c.udata)

unfoldable pub taskdata_set : ℕ → World → Outcome (ℕ × World)
taskdata_set v w = if w.taskrunning == null then ok (0, w) else (do
  c ← load w.taskrunning w.heap
  h ← modify w.taskrunning (λ c. record c { udata = v }) w.heap
  ok (c.udata, record w { heap = h }))

unfoldable pub taskid : World → Outcome ℕ
taskid w = do c ← load w.taskrunning w.heap; ok c.id

-- The body of the scheduler's loop up to the switch to `t`, the head of the run queue.
unfoldable pub dispatch : World → Outcome World
dispatch w =
    let t = w.taskrunqueue.head in
    do
      (q, h) ← deltask w.taskrunqueue t w.heap
      h' ← set_state t 0 h
      ok (record w {
        heap = h';
        taskrunqueue = q;
        taskrunning = t;
        _tasknswitch = (w._tasknswitch + 1) % 2 ^ 32;
      })

-- What the scheduler does with a task that has exited. With no task in the array it would read
-- `alltask[-1]`.
unfoldable pub reap : Ptr → Task → World → Outcome World
reap t c w =
    let i = c.alltaskslot in
    if w.nalltask == 0 then err fault else (do
      last ← read_at w.alltask (w.nalltask - 1)
      a ← store_at w.alltask i last
      moved ← read_at a i
      h ← set_slot moved i w.heap
      ok (record w {
        heap = write h t none;
        taskcount = dec w.taskcount;
        alltask = a;
        nalltask = w.nalltask - 1;
      }))

-- The rest of the loop's body, when `t` has switched back.
unfoldable pub switched_back : Ptr → World → Outcome World
switched_back t w = do
  c ← load t w.heap
  (if c._state == task_state_exiting
      then reap t c (record w { taskrunning = null })
      else ok (record w { taskrunning = null }))

pub data Ended : Type 0 where
  all_done : Ended
  stalled : Ended

-- The loop of taskscheduler, and why it ends. `run t` is what task `t` does until it switches back;
-- `S` is the memory of the program, which the scheduler does not touch.
unfoldable pub scheduler_loop :
    {S : Type 0} (run : Ptr → World → S → Outcome (World × S))
    → ℕ
    → World
    → S
    → Outcome (Ended × World × S)
scheduler_loop run zero w s = err no_fuel
scheduler_loop {S} run (suc n) w s =
    let t = w.taskrunqueue.head in
    let round : Outcome (Ended × World × S) = (do
      w₁ ← dispatch w
      (w₂, s') ← run t w₁ s
      w₃ ← switched_back t w₂
      scheduler_loop run n w₃ s') in
    if is_zero w.taskcount
    then ok (all_done, w, s)
    else if t == null
    then ok (stalled, w, s)
    else round

-- `while(nalltask > 0) free(alltask[--nalltask])`
unfoldable pub free_all : ℕ → List Ptr → Heap → Outcome Heap
free_all zero a h = ok h
free_all (suc n) a h = do t ← read_at a n; _ ← load t h; free_all n a (write h t none)

unfoldable pub taskscheduler :
    {S : Type 0} (run : Ptr → World → S → Outcome (World × S)) → ℕ → World → S → Outcome (World × S)
unfolding scheduler_loop free_all
taskscheduler run n w s = do
  (_, w', s') ← scheduler_loop run n w s
  h ← free_all w'.nalltask w'.alltask w'.heap
  ok (record w' { heap = h; nalltask = 0; alltask = [] }, s')
