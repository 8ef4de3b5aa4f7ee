-- ===== src/Locks/ReadWrite.antt =====
-- The RWLock of libtask/qlock.c against a lock with a count of readers, a writer and two queues.
pub mod Perform
pub mod Reach
pub mod Refine
pub mod Sane
use libabhi.Base.{
  ℕ, zero, suc, ◌+◌, ◌-◌, ◌<◌, ◌≡◌, ◌≢◌, refl, sym, ap, ◌∙◌, Bool, true, false, not, ◌&&◌, List, [],
  ◌∷◌, ◌++◌, arith, ◌==◌, ◌∈◌, ◌∉◌, ∉-join, ∉-singleton, ne-of-mem, Apart, Apart-sym, length,
  Returns, returns, Returns-bind, Returns-mono, if◌then◌else◌, ◌>>=◌, append_assoc, append-nil,
  subst, mem-snoc, inl, inr, err, abort, Outcome, Stop,
}
use libabhi.Base.Int.{ℤ, pos, inc, dec, is_zero}
use libabhi.Tasks.{Ptr, null, Heap}
use libabhi.Sched.{World, wake, park}
use libabhi.Sched.Ready.{Idle, Runnable}
use libabhi.Sched.Wake.{
  Waiting, Waiting-frame, Waiting-Apart, Woken, wake_head, head-nil, head-cons, Parked, park_lem,
}
use libabhi.Locks.{
  Attempt, got, busy, blocked, RwLock, _rlock, _wlock, hand_to_writer, runlock, wake_readers,
  wunlock,
}

pub record Rw : Type 0 where
  pub readers : ℕ
  pub writer : Ptr
  pub rwaiting : List Ptr
  pub wwaiting : List Ptr
  pub ready : List Ptr

abbrev pub is_nil : List Ptr → Bool
is_nil [] = true
is_nil (x ∷ xs) = false

unfoldable pub read_lock : Ptr → (block : Bool) → Rw → Attempt × Rw
read_lock t block a =
    if (a.writer == null) && is_nil a.wwaiting
    then (got, record a { readers = suc a.readers })
    else if block
    then (blocked, record a { rwaiting = a.rwaiting ++ (t ∷ []) })
    else (busy, a)

unfoldable pub write_lock : Ptr → (block : Bool) → Rw → Attempt × Rw
write_lock t block a =
    if (a.writer == null) && (a.readers == 0)
    then (got, record a { writer = t })
    else if block
    then (blocked, record a { wwaiting = a.wwaiting ++ (t ∷ []) })
    else (busy, a)

-- With no reader left, the first writer that waits has the lock and becomes ready.
admit : List Ptr → Rw → Rw
admit [] a = a
admit (t ∷ rest) a = record a { writer = t; wwaiting = rest; ready = a.ready ++ (t ∷ []) }

unfoldable pub admit_writer : Rw → Rw
unfolding admit
admit_writer a = if a.readers == 0 then admit a.wwaiting a else a

unfoldable pub read_unlock : Rw → Rw
unfolding admit_writer
read_unlock a = admit_writer (record a { readers = a.readers - 1 })

-- All readers that wait have the lock; if there is none, the first writer that waits.
unfoldable pub write_unlock : Rw → Rw
unfolding admit_writer
write_unlock a = admit_writer (record a {
  readers = a.readers + length a.rwaiting;
  writer = null;
  rwaiting = [];
  ready = a.ready ++ a.rwaiting;
})

pub record Represents (l : RwLock) (w : World) (a : Rw) : Type 0 where
  pub readers_eq : l.readers ≡ pos a.readers
  pub writer_eq : l.writer ≡ a.writer
  pub rqueue : Waiting w.heap l.rwaiting a.rwaiting
  pub wqueue : Waiting w.heap l.wwaiting a.wwaiting
  pub apart : Apart a.rwaiting a.wwaiting
  pub runnable : Runnable w a.ready

-- A second list is left alone when `t` of a first one is woken, and when a task joins the first.
undisturbed :
    (a t : Ptr) (rest others ready : List Ptr)
    → Apart (t ∷ rest) others
    → Apart others ready
    → a ∈ others
    → (a ∉ rest) × (a ∉ (ready ++ (t ∷ [])))
undisturbed a t rest others ready apart away i =
    let out = Apart-sym (t ∷ rest) others apart a i in
    (tail_out a t rest out, ∉-join a ready (t ∷ []) (away a i) (head_out a t rest out))
  where
    tail_out : (a t : Ptr) (rest : List Ptr) → a ∉ (t ∷ rest) → a ∉ rest
    tail_out a t rest o = ground arith

    head_out : (a t : Ptr) (rest : List Ptr) → a ∉ (t ∷ rest) → a ∉ (t ∷ [])
    head_out a t rest o = ground arith

tail_Apart : (t : Ptr) (xs ys : List Ptr) → Apart (t ∷ xs) ys → Apart xs ys
tail_Apart t xs ys apart a i = apart a (ground arith)

module _ {l : RwLock} {w : World} (k : ℕ) (owner t : Ptr) (rs ws ready : List Ptr) where
  wake_reader :
      Represents l w
        (record { readers = k; writer = owner; rwaiting = t ∷ rs; wwaiting = ws; ready = ready })
      → Returns
          (λ (q, w').
            Represents
              (record l { rwaiting = q; readers = inc l.readers })
              w'
              (record {
                readers = suc k;
                writer = owner;
                rwaiting = rs;
                wwaiting = ws;
                ready = ready ++ (t ∷ []);
              }))
          (wake l.rwaiting l.rwaiting.head w)
  wake_reader rep =
      Returns-mono (wake_head l.rwaiting t rs ready rep.runnable rep.rqueue) λ (q, w') m. record {
        readers_eq = ap inc rep.readers_eq;
        writer_eq = rep.writer_eq;
        rqueue = m.waiting;
        wqueue = Waiting-frame ws rep.wqueue λ a i.
            let (o, p) =
              undisturbed a t rs ws ready rep.apart (Waiting-Apart ws ready rep.runnable rep.wqueue)
                i in
            m.outside a o p;
        apart = tail_Apart t rs ws rep.apart;
        runnable = m.runnable;
      }

  wake_writer :
      Represents l w
        (record { readers = k; writer = owner; rwaiting = rs; wwaiting = t ∷ ws; ready = ready })
      → Returns
          (λ (l', w'). Represents l' w' (record {
            readers = k;
            writer = t;
            rwaiting = rs;
            wwaiting = ws;
            ready = ready ++ (t ∷ []);
          }))
          (hand_to_writer l w)
  unfolding hand_to_writer
  wake_writer rep =
      let apart = Apart-sym rs (t ∷ ws) rep.apart in
      Returns-bind (wake_head l.wwaiting t ws ready rep.runnable rep.wqueue) λ (q, w') m.
        returns (record {
          readers_eq = rep.readers_eq;
          writer_eq = rep.wqueue.queue.head_eq;
          rqueue = Waiting-frame rs rep.rqueue λ a i.
              let (o, p) =
                undisturbed a t ws rs ready apart (Waiting-Apart rs ready rep.runnable rep.rqueue)
                  i in
              m.outside a o p;
          wqueue = m.waiting;
          apart = Apart-sym ws rs (tail_Apart t ws rs apart);
          runnable = m.runnable;
        })
