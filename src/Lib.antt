-- ===== src/Lib.antt =====
-- Libtask (libtask/): coroutines for C programs. A thread runs one task at a time; tasks give up the
-- CPU where they block. The parts, the files that model them, and the code:
--
--   Tasks    libtask/task.c: addtask and deltask, the doubly linked lists of tasks, on which all
--            waiting rests; Task and Tasklist of taskimpl.h and task.h
--   Sched    libtask/task.c: creating, waking and ending tasks, the loop of taskscheduler, and the list
--            of tasks that taskinfo prints
--   Context  libtask/context.c: the first stack frame and registers of a task, for each machine
--   Locks    libtask/qlock.c and rendez.c: QLock, RWLock and Rendez
--   Channel  libtask/channel.c: channels, and Alts that wait at several of them
--   Print    libtask/print.c: the formatted output
--   Fd       libtask/fd.c: taskdelay and fdwait, and the task that wakes those whose time or event has
--            come; epoll and poll are parameters
--   Calls    libtask/fd.c: read, write, accept and connect that wait for their descriptor; the system
--            calls and fdwait are a parameter
--   Net      libtask/net.c: parseip, netlookup, netannounce, netaccept6 and netdial; strtoul,
--            gethostbyname and the calls on sockets are parameters
--   Base     numbers, lists of tasks without repetition, and runs of C code
--   Tests    witnesses, at small concrete memories
--
-- Memory. A pointer is a number, NULL is 0, and the heap maps pointers to the Tasks that are
-- allocated. Code that may stop gives an Outcome: a value; a fault, where C would follow a NULL or
-- dangling pointer, leave an array or do what C does not define; an overrun, for a write behind a
-- buffer of text; an abort, for abort() and assert; an exit. Functions have the names of the C
-- functions. A lock, a channel's arrays or a rendezvous point is a record of the C structure's
-- fields, passed and returned beside the World, which holds the heap and the variables of a thread.
--
-- Switching. A function that calls taskswitch is cut there: `_start` or the function itself ends
-- when the scheduler has the CPU, `_end` or `_resume` is what follows. scheduler_loop takes as a
-- parameter what a task does between two switches, to the World and to the memory of the program.
--
-- Loops over linked lists and the wakeup loops are recursion on fuel. The theorems about them say
-- how much is enough: one round more than there are tasks in the list. Counters of type int
-- (taskcount, sleepingcounted) are integers without bound, since they count tasks in memory; times,
-- array sizes and format arguments wrap around as in C, and so do the lengths and counts that the C
-- code keeps in an int, in printstr, in read and in write.
--
-- Channels move machine words, one for each element, and the array of waiting Alts holds pointers.
-- A random choice is a parameter; the stack of the running task, the channels that are open and
-- whether realloc finds memory are part of the state. The channels at which other tasks wait are
-- taken to stay open. How a task meets another at a channel is in three steps: Channel/Block, how
-- it comes to wait; Channel/Deliver and Channel/Meet, how another one finds it and wakes it;
-- Channel/Leave, how its Alts leave all channels. Channel/Buffered is the case in which nobody
-- waits and the buffer serves; Channel/Queue puts such calls together to a bounded queue, and
-- Channel/Exchange puts a receiver that waits and a sender together.
--
-- A round of fdtask is modelled from the answer of epoll_wait on, in Fd/Events (its events),
-- Fd/Expire (the deadlines), Fd/Everyone (its end) and Fd/Round (all of it); Fd/Loop puts the
-- passes together, and Fd/Poll, Fd/PollLoop and Fd/Sweep are about systems without epoll.
-- Fd/Timeout is a sleep, from taskdelay to the round that ends it.
--
-- Print/Render gives an independent account of what a format prints; a format is a list of items
-- there. Locks/ReadWrite/Perform takes all calls on an RWLock together.
--
-- Not modelled: what the function that fdtask calls in each pass does to tasks, of which only the
-- answer is kept; a failure of getcontext, which has no errors defined; the switch of registers
-- itself (asm.S and the ucontext headers), which is assembly and the layout of registers, and the
-- example programs.
pub mod Base
pub mod Tasks
pub mod Sched
pub mod Context
pub mod Locks
pub mod Channel
pub mod Print
pub mod Fd
pub mod Calls
pub mod Net
pub mod Tests
