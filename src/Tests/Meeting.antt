-- ===== src/Tests/Meeting.antt =====
-- Tests of tasks that meet at a channel: task 20 waits with the Alts 3 and 4 at the channels 1 and 2,
-- to send or to receive, and the running task comes to the channel 1, with its Alts at 9.
use libabhi.Base.{
  true, ok, ◌≡◌, ◌<◌, ◌^◌, ◌+◌, ◌*◌, refl, Bool-cases, inl, inr, ◌==◌, if◌then◌else◌, [], ◌∷◌,
  arith, Returns, ◌>>=◌,
}
use libabhi.Sched.{World}
use libabhi.Sched.Ready.{Runnable}
use libabhi.Tests.Data.{world, runners-Runnable, twenty-Idle, running-Idle}
use libabhi.Tasks.{empty_list}
use libabhi.Channel.{
  Ptr, Alt, Altarray, Channel, System, Side, send, recv, no_alts, chanend, altalldequeue,
  altcanexec, chanarray, side_of, put_side,
}
use libabhi.Channel.Arrays.{IsArray}
use libabhi.Channel.Delarray.{occ}
use libabhi.Channel.Exec.{
  source, target, queue_all, chansend, chanrecv, chose, chanalt, count_alts, count_can, claim,
  waits,
}
use libabhi.Channel.Waiting.{at, op_of, IsRoomy, Same}
use libabhi.Channel.Leave.{IsSelect, AllWait, queue_all-altalldequeue}
use libabhi.Channel.Meet.{IsWaiting, Met}
use libabhi.Channel.Block.{chanalt_waits}
use libabhi.Channel.Deliver.{IsApart, chansend_meets, chanrecv_meets}

abbrev alt_at : Side → Ptr → Alt
alt_at d p =
    if p == 3
    then record { c = 1; v = 8; op = op_of d; task = 20; xalt = 3 }
    else if p == 4
    then record { c = 2; v = 6; op = op_of d; task = 20; xalt = 3 }
    else record { c = 0; v = 0; op = chanend; task = 0; xalt = 0 }

abbrev empty : Channel
empty = record {
  bufsize = 0;
  elemsize = 8;
  buf = [];
  nbuf = 0;
  off = 0;
  asend = no_alts;
  arecv = no_alts;
}

abbrev only : Ptr → Altarray
only p = record { a = p ∷ []; n = 1; m = 1 }

abbrev meeting_world : World
meeting_world = record world { sleeping = empty_list }

abbrev meeting : Side → System
meeting d = record {
  mem = λ p. 100 + p;
  alt = alt_at d;
  chan = λ c.
      if c == 1
      then put_side d (only 3) empty
      else if c == 2
      then put_side d (only 4) empty
      else empty;
  world = meeting_world;
  machine = record { sp = 9000; stk = 1000; opened = λ c. true; grows = true };
}

-- the same before task 20 waits
abbrev before : System
before = record (meeting recv) { chan = λ c. empty }

select : (d : Side) → IsSelect 2 3 (alt_at d)
select send = (inl (send, refl), (inl (send, refl), refl))
select recv = (inl (recv, refl), (inl (recv, refl), refl))

abbrev Fits : Altarray → Type 0
Fits r = IsArray r × (r.m + 16 * 1 < 2 ^ 32)

only-Fits : (p : Ptr) → Fits (only p)
only-Fits p = (record { room = refl; used = omega arith; small = omega arith }, omega arith)

no_alts-IsArray : IsArray no_alts
no_alts-IsArray = record { room = refl; used = omega arith; small = omega arith }

before-IsRoomy : IsRoomy 2 before
before-IsRoomy c send = (no_alts-IsArray, omega arith)
before-IsRoomy c recv = (no_alts-IsArray, omega arith)

with_only-Fits : (p : Ptr) (d e : Side) → Fits (side_of e (put_side d (only p) empty))
with_only-Fits p send send = only-Fits p
with_only-Fits p send recv = (no_alts-IsArray, omega arith)
with_only-Fits p recv send = (no_alts-IsArray, omega arith)
with_only-Fits p recv recv = only-Fits p

empty-Fits : (e : Side) → Fits (side_of e empty)
empty-Fits send = (no_alts-IsArray, omega arith)
empty-Fits recv = (no_alts-IsArray, omega arith)

meeting-IsRoomy : (d : Side) → IsRoomy 0 (meeting d)
meeting-IsRoomy d c e = elim (Bool-cases (c == 1)) [
  | inl one ↦ rw one (with_only-Fits 3 d e)
  | inr other ↦ elim (Bool-cases (c == 2)) [
    | inl two ↦ rw (other, two) (with_only-Fits 4 d e)
    | inr third ↦ rw (other, third) (empty-Fits e)
  ]
]

meeting-AllWait : (d : Side) → AllWait (meeting d) 2 3
meeting-AllWait send c send q = ground arith
meeting-AllWait send c recv q = omega arith
meeting-AllWait recv c send q = omega arith
meeting-AllWait recv c recv q = ground arith

meeting-Runnable : Runnable meeting_world (40 ∷ [])
meeting-Runnable = record { queue = runners-Runnable.queue; marked = runners-Runnable.marked }

waiting : (d : Side) → IsWaiting (meeting d) 3 2
waiting d = record { select = select d; all_wait = meeting-AllWait d; idle = twenty-Idle }

meeting-IsApart : (d : Side) → IsApart (meeting d) 9 3 2
meeting-IsApart d = record {
  waiting = waiting d;
  above = omega arith;
  below = omega arith;
  away = inl (omega arith);
}

chansend_meets_example :
    Returns
      (λ (r, σ').
        (r ≡ chose 0)
        × Met
            (meeting recv)
            3
            2
            (40 ∷ [])
            (target 8 (source 7 (meeting recv).mem) (meeting recv).mem)
            σ')
      (chansend 3 0 5 9 1 7 (meeting recv))
chansend_meets_example =
    chansend_meets 1 0 5 9 1 7 (meeting recv) 3 2 0 (40 ∷ []) (meeting-IsApart recv)
      (meeting-IsRoomy recv) meeting-Runnable (omega arith) refl refl
      ((omega arith, omega arith), refl) (omega arith) refl refl

chanrecv_meets_example :
    Returns
      (λ (r, σ').
        (r ≡ chose 0)
        × Met
            (meeting send)
            3
            2
            (40 ∷ [])
            (target 7 (source 8 (meeting send).mem) (meeting send).mem)
            σ')
      (chanrecv 3 0 5 9 1 7 (meeting send))
chanrecv_meets_example =
    chanrecv_meets 1 0 5 9 1 7 (meeting send) 3 2 0 (40 ∷ []) (meeting-IsApart send)
      (meeting-IsRoomy send) meeting-Runnable (omega arith) refl refl
      ((omega arith, omega arith), refl) (omega arith) refl refl

queue_all-altalldequeue_example :
    Returns
      (λ σ'.
        Same before σ'
        × ((c : Ptr) (d : Side) (q : Ptr) → occ q (at σ' c d) ≡ occ q (at before c d)))
      (queue_all 2 3 0 before >>= λ σ₁. altalldequeue 3 3 σ₁)
queue_all-altalldequeue_example =
    queue_all-altalldequeue 3 2 3 before 0 (select recv) before-IsRoomy refl (omega arith)

counted : count_alts 3 3 0 before ≡ ok 2
unfolding count_alts
counted = refl

none_can : count_can 2 3 0 (claim 2 3 0 before) ≡ 0
unfolding count_can claim altcanexec chanarray
none_can = refl

-- Task 10 waits with the Alts 3 and 4.
chanalt_waits_example :
    Returns
      (λ (r, σ').
        (r ≡ waits)
        × IsWaiting σ' 4 2
        × ((σ'.alt 4).task ≡ 10)
        × ((σ'.alt 4).xalt ≡ 3)
        × (σ'.world ≡ meeting_world))
      (chanalt 3 7 5 3 before)
chanalt_waits_example =
    chanalt_waits 3 7 5 3 before 2 0 counted none_can refl (select recv) before-IsRoomy running-Idle
      (omega arith, omega arith) (inr refl, (inr refl, tt)) refl 1 (omega arith)

-- Task 10 receives at the channel 1, and then task 40 sends.
abbrev switch : World → World
switch w = record w { taskrunning = 40; taskrunqueue = empty_list }
