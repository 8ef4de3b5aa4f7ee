-- ===== src/Tasks.antt =====
-- `struct Task` of libtask/taskimpl.h, the memory that holds the tasks, and `struct Tasklist` of
-- libtask/task.h with addtask and deltask of libtask/task.c.
pub mod Chain
pub mod Links
pub mod Place
pub mod Unlink
use libabhi.Base.{
  ℕ, Option, none, some, Outcome, ok, err, Stop, fault, ◌>>=◌, ◌>>◌, ◌==◌, if◌then◌else◌,
}

-- An address of a task; 0 is NULL.
abbrev pub Ptr : Type 0
Ptr = ℕ

abbrev pub null : Ptr
null = 0

-- `context` and the debug texts `name` and `state` are left out, and so are `allnext` and `allprev`,
-- which nothing reads. A function is known by its address.
pub record Task : Type 0 where
  pub next : Ptr
  pub prev : Ptr
  pub alarmtime : ℕ
  pub id : ℕ
  pub stksize : ℕ
  pub _state : ℕ
  pub alltaskslot : ℕ
  pub startfn : ℕ
  pub startarg : ℕ
  pub udata : ℕ

abbrev pub task_state_ready : ℕ
task_state_ready = 1

abbrev pub task_state_exiting : ℕ
task_state_exiting = 2

-- The tasks that malloc has given out and free has not taken back.
abbrev pub Heap : Type 0
Heap = Ptr → Option Task

unfoldable pub write : Heap → Ptr → Option Task → Heap
write h p c a = if a == p then c else h a

-- `*p`: a fault at NULL and at an address that holds no task
unfoldable pub load : Ptr → Heap → Outcome Task
load p h = if p == null then err fault else elim (h p) [ none ↦ err fault | some c ↦ ok c ]

-- `p->f = v`, for the field that `change` assigns
unfoldable pub modify : Ptr → (Task → Task) → Heap → Outcome Heap
unfolding load
modify p change h = do c ← load p h; ok (write h p (some (change c)))

abbrev pub set_next : Ptr → Ptr → Heap → Outcome Heap
set_next p q = modify p (λ c. record c { next = q })

abbrev pub set_prev : Ptr → Ptr → Heap → Outcome Heap
set_prev p q = modify p (λ c. record c { prev = q })

pub record Tasklist : Type 0 where
  pub head : Ptr
  pub tail : Ptr

abbrev pub empty_list : Tasklist
empty_list = record { head = null; tail = null }

-- The first branch of addtask, up to the writes that both branches share.
link_behind : Tasklist → Ptr → Heap → Outcome (Tasklist × Heap)
link_behind l t h =
    if l.tail == null
    then (do h' ← set_prev t null h; ok (record l { head = t }, h'))
    else (do h' ← set_next l.tail t h; h'' ← set_prev t l.tail h'; ok (l, h''))

unfoldable pub addtask : Tasklist → Ptr → Heap → Outcome (Tasklist × Heap)
unfolding link_behind
addtask l t h = do
  (l', h') ← link_behind l t h
  h'' ← set_next t null h'
  ok (record l' { tail = t }, h'')

-- The two tests of deltask: the link into `t` from the front, and the one from behind.
unlink_front : Tasklist → Task → Heap → Outcome (Tasklist × Heap)
unlink_front l c h =
    if c.prev == null
    then ok (record l { head = c.next }, h)
    else (do h' ← set_next c.prev c.next h; ok (l, h'))

unlink_back : Tasklist → Task → Heap → Outcome (Tasklist × Heap)
unlink_back l c h =
    if c.next == null
    then ok (record l { tail = c.prev }, h)
    else (do h' ← set_prev c.next c.prev h; ok (l, h'))

unfoldable pub deltask : Tasklist → Ptr → Heap → Outcome (Tasklist × Heap)
unfolding unlink_front unlink_back
deltask l t h = do c ← load t h; (l', h') ← unlink_front l c h; c' ← load t h'; unlink_back l' c' h'
