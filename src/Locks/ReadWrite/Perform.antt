-- ===== src/Locks/ReadWrite/Perform.antt =====
-- Any call on an RWLock of libtask/qlock.c, when the lock is in a state that it can reach.
use libabhi.Base.{
  ℕ, ◌<◌, ◌≡◌, ◌≢◌, ap, ◌∙◌, Bool, ◌∉◌, Outcome, ok, ◌>>=◌, length, Returns, Option, none, some,
  refl, Returns-bind, returns,
}
use libabhi.Base.Int.{pos}
use libabhi.Tasks.{null}
use libabhi.Sched.{World}
use libabhi.Sched.Ready.{Idle}
use libabhi.Locks.{Attempt, RwLock, _rlock, _wlock, runlock, wunlock}
use libabhi.Locks.ReadWrite.{Rw, Represents, read_lock, write_lock, read_unlock, write_unlock}
use libabhi.Locks.ReadWrite.Reach.{
  Reach, next, reads, writes, read_done, write_done, unlocked, Reach-IsSane,
}
use libabhi.Locks.ReadWrite.Refine.{
  _rlock_refines, _wlock_refines, runlock_refines, wunlock_refines,
}

pub data Call : Type 0 where
  rlocks wlocks : (block : Bool) → Call
  runlocks : Call
  wunlocks : (rounds : ℕ) → Call

-- The answer of a call by the running task, if it gives one, and the lock and the World after it.
unfoldable pub perform : Call → RwLock → World → Outcome (Option Attempt × RwLock × World)
perform (rlocks block) l w = do (v, l', w') ← _rlock l block w; ok (some v, l', w')
perform (wlocks block) l w = do (v, l', w') ← _wlock l block w; ok (some v, l', w')
perform runlocks l w = do (l', w') ← runlock l w; ok (none, l', w')
perform (wunlocks rounds) l w = do (l', w') ← wunlock rounds l w; ok (none, l', w')

-- What the operation says of the state of the lock.
abbrev pub said : Call → World → Rw → Rw
said (rlocks block) w a = (read_lock w.taskrunning block a).1
said (wlocks block) w a = (write_lock w.taskrunning block a).1
said runlocks w a = read_unlock a
said (wunlocks rounds) w a = write_unlock a

-- What the operation answers.
abbrev pub reply : Call → World → Rw → Option Attempt
reply (rlocks block) w a = some ((read_lock w.taskrunning block a).0)
reply (wlocks block) w a = some ((write_lock w.taskrunning block a).0)
reply runlocks w a = none
reply (wunlocks rounds) w a = none

-- A task that locks does not wait for the lock already, and only who holds the lock unlocks it, with more
-- rounds than readers wait.
abbrev pub IsAllowed : Call → World → Rw → Type 0
IsAllowed (rlocks block) w a =
    Idle w.heap w.taskrunning × (w.taskrunning ∉ a.rwaiting) × (w.taskrunning ∉ a.wwaiting)
IsAllowed (wlocks block) w a =
    Idle w.heap w.taskrunning × (w.taskrunning ∉ a.rwaiting) × (w.taskrunning ∉ a.wwaiting)
IsAllowed runlocks w a = 0 < a.readers
IsAllowed (wunlocks rounds) w a = (a.writer ≢ null) × (length a.rwaiting < rounds)

-- The lock is in the state `a`, which it can reach, and while a writer has it, nobody reads.
pub record IsSound (a : Rw) (l : RwLock) (w : World) : Type 0 where
  pub represents : Represents l w a
  pub reached : Reach unlocked a
  pub exclusive : l.writer ≢ null → l.readers ≡ pos 0

sound : {a : Rw} {l : RwLock} {w : World} → Represents l w a → Reach unlocked a → IsSound a l w
sound rep r = record {
  represents = rep;
  reached = r;
  exclusive = λ n. rep.readers_eq ∙ ap pos ((Reach-IsSane r).exclusive λ e. n (rep.writer_eq ∙ e));
}

-- A call on a lock in a state that it can reach, by a task that may make it, returns, answers and
-- does what the operation says, and leaves the lock in a state that it can reach; in none of these
-- do a writer and a reader have the lock together. No call stops with a fault or by abort.
pub perform_refines :
    (call : Call) (a : Rw) (l : RwLock) (w : World)
    → Represents l w a
    → Reach unlocked a
    → IsAllowed call w a
    → Returns
        (λ (v, l', w'). (v ≡ reply call w a) × IsSound (said call w a) l' w')
        (perform call l w)
unfolding perform
perform_refines (rlocks block) a l w rep r (live, out, out') =
    Returns-bind (_rlock_refines rep live out out' block) λ (v, l', w') (e, rep').
      returns (ap some e, sound rep' (next r (reads a w.taskrunning block)))
perform_refines (wlocks block) a l w rep r (live, out, out') =
    Returns-bind (_wlock_refines rep live out out' block) λ (v, l', w') (e, rep').
      returns (ap some e, sound rep' (next r (writes a w.taskrunning block live.live.ne_null)))
perform_refines runlocks a l w rep r some_reader =
    Returns-bind (runlock_refines rep some_reader)
      λ (l', w') rep'. returns (refl, sound rep' (next r (read_done a some_reader)))
perform_refines (wunlocks rounds) a l w rep r (held, enough) =
    Returns-bind (wunlock_refines rep rounds held ((Reach-IsSane r).exclusive held) enough)
      λ (l', w') rep'. returns (refl, sound rep' (next r (write_done a held)))
