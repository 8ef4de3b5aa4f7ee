-- ===== src/Locks/ReadWrite/Refine.antt =====
-- The functions of libtask/qlock.c on an RWLock do what the operations of `Rw` say.
use libabhi.Base.{
  ℕ, zero, suc, ◌+◌, ◌-◌, ◌<◌, ◌≡◌, ◌≢◌, refl, ap, ◌∙◌, Bool, true, false, not, ◌&&◌, List, [], ◌∷◌,
  ◌++◌, arith, ◌==◌, ◌∉◌, Apart, Apart-sym, length, Returns, returns, Returns-bind, Returns-mono,
  if◌then◌else◌, append_assoc, append-nil, subst, mem-snoc, inl, inr, ok, Bool-cases,
}
use libabhi.Base.Int.{pos, inc, dec, is_zero}
use libabhi.Tasks.{Ptr, null, Tasklist}
use libabhi.Sched.{World}
use libabhi.Sched.Ready.{Idle}
use libabhi.Sched.Wake.{Waiting, Waiting-frame, head-nil, head-cons, Parked, park_lem}
use libabhi.Locks.{Attempt, RwLock, _rlock, _wlock, hand_to_writer, runlock, wake_readers, wunlock}
use libabhi.Locks.ReadWrite.{
  Rw, is_nil, read_lock, write_lock, admit_writer, read_unlock, write_unlock, Represents,
  wake_reader, wake_writer,
}

is_zero-pos : (k : ℕ) → is_zero (pos k) ≡ (k == 0)
is_zero-pos zero = refl
is_zero-pos (suc k) = ground arith

suc_test : (k : ℕ) → (suc k == 0) ≡ false
suc_test k = ground arith

readers_test :
    {l : RwLock} {w : World} {a : Rw} → Represents l w a → is_zero l.readers ≡ (a.readers == 0)
readers_test {a} rep = ap is_zero rep.readers_eq ∙ is_zero-pos a.readers

writer_test :
    {l : RwLock} {w : World} {a : Rw} → Represents l w a → (l.writer == null) ≡ (a.writer == null)
writer_test rep = ap (λ p. p == null) rep.writer_eq

queue_test :
    {l : RwLock} {w : World} {a : Rw} (ws : List Ptr)
    → Represents l w a
    → a.wwaiting ≡ ws
    → (l.wwaiting.head == null) ≡ is_nil ws
queue_test {l} {w} [] rep e = head-nil (subst (Waiting w.heap l.wwaiting) e rep.wqueue)
queue_test {l} {w} (t ∷ ws) rep e = head-cons (subst (Waiting w.heap l.wwaiting) e rep.wqueue)

abbrev pub Attempted : Attempt × Rw → Attempt × RwLock × World → Type 0
Attempted (v', a) (v, l, w) = (v ≡ v') × Represents l w a

-- the test that ends runlock and wunlock
settle :
    {l : RwLock} {w : World} (k : ℕ) (owner : Ptr) (rs ws ready : List Ptr)
    → (let a : Rw = record {
      readers = k;
      writer = owner;
      rwaiting = rs;
      wwaiting = ws;
      ready = ready;
    } in
        Represents l w a
        → Returns
            (λ (l', w'). Represents l' w' (admit_writer a))
            (if is_zero l.readers && not (l.wwaiting.head == null)
              then hand_to_writer l w
              else ok (l, w)))
unfolding admit_writer
settle (suc k) owner rs ws ready rep = rw (readers_test rep, suc_test k) (returns rep)
settle zero owner rs [] ready rep = rw (readers_test rep, queue_test [] rep refl) (returns rep)
settle zero owner rs (t ∷ ws) ready rep =
    rw (readers_test rep, queue_test (t ∷ ws) rep refl) (wake_writer zero owner t rs ws ready rep)

-- The loop of wunlock wakes all readers that wait, in order, in as many rounds and one more.
wake_readers_lem :
    (n : ℕ) {l : RwLock} {w : World} (k : ℕ) (owner : Ptr) (rs ws ready : List Ptr)
    → Represents l w
        (record { readers = k; writer = owner; rwaiting = rs; wwaiting = ws; ready = ready })
    → length rs < n
    → Returns
        (λ (l', w'). Represents l' w' (record {
          readers = k + length rs;
          writer = owner;
          rwaiting = [];
          wwaiting = ws;
          ready = ready ++ rs;
        }))
        (wake_readers n l w)
unfolding wake_readers
wake_readers_lem zero k owner rs ws ready rep fuel = absurd (omega arith)
wake_readers_lem (suc n) k owner [] ws ready rep fuel =
    rw (head-nil rep.rqueue, append-nil ready)
      (returns (record {
        readers_eq = rep.readers_eq ∙ ap pos (omega arith);
        writer_eq = rep.writer_eq;
        rqueue = rep.rqueue;
        wqueue = rep.wqueue;
        apart = rep.apart;
        runnable = rep.runnable;
      }))
wake_readers_lem (suc n) k owner (t ∷ rs) ws ready rep fuel = rw (head-cons rep.rqueue) (
    Returns-bind (wake_reader k owner t rs ws ready rep) λ (q, w') rep'.
      let step : suc k + length rs ≡ k + suc (length rs) = omega arith in
      let order : (ready ++ (t ∷ [])) ++ rs ≡ ready ++ (t ∷ rs) = append_assoc ready (t ∷ []) rs in
      Returns-mono (wake_readers_lem n (suc k) owner rs ws (ready ++ (t ∷ [])) rep' (omega arith))
        λ (l', w'') r. rw (← step, ← order) r)

module _ {l : RwLock} {w : World} {a : Rw} (rep : Represents l w a) where
  -- runlock by one of the readers does what `read_unlock` says: when the last reader leaves, the first
  -- writer that waits has the lock and is ready. It never stops with a fault.
  pub runlock_refines :
      0 < a.readers → Returns (λ (l', w'). Represents l' w' (read_unlock a)) (runlock l w)
  unfolding runlock read_unlock
  runlock_refines some_reader =
      settle (a.readers - 1) a.writer a.rwaiting a.wwaiting a.ready (record {
        readers_eq = ap dec rep.readers_eq ∙ dec-pos a.readers some_reader;
        writer_eq = rep.writer_eq;
        rqueue = rep.rqueue;
        wqueue = rep.wqueue;
        apart = rep.apart;
        runnable = rep.runnable;
      })
    where
      dec-pos : (k : ℕ) → 0 < k → dec (pos k) ≡ pos (k - 1)
      dec-pos zero h = absurd (omega arith)
      dec-pos (suc k) h = ap pos (omega arith)

  -- wunlock by the writer, given more rounds than readers wait, does what `write_unlock` says: all
  -- readers that wait have the lock and are ready, in order; if none waits, the first writer that
  -- waits has it. It never stops with a fault, by abort or for want of rounds.
  pub wunlock_refines :
      (n : ℕ)
      → a.writer ≢ null
      → a.readers ≡ 0
      → length a.rwaiting < n
      → Returns (λ (l', w'). Represents l' w' (write_unlock a)) (wunlock n l w)
  unfolding wunlock write_unlock
  wunlock_refines n held none_reads fuel =
      let held' : (l.writer == null) ≡ false = writer_test rep ∙ ne_null_test a.writer held in
      let none_reads' : is_zero l.readers ≡ true = readers_test rep ∙ ap (λ k. k == 0) none_reads in
      rw (held', none_reads')
        (Returns-bind
          (wake_readers_lem n a.readers null a.rwaiting a.wwaiting a.ready
            (record {
              readers_eq = rep.readers_eq;
              writer_eq = refl;
              rqueue = rep.rqueue;
              wqueue = rep.wqueue;
              apart = rep.apart;
              runnable = rep.runnable;
            })
            fuel)
          λ (l', w') r.
            settle (a.readers + length a.rwaiting) null [] a.wwaiting (a.ready ++ a.rwaiting) r)
    where
      ne_null_test : (p : Ptr) → p ≢ null → (p == null) ≡ false
      ne_null_test p n = ground (arith, n)

-- Joining one queue keeps the two queues apart, and leaves the other alone.
join_Apart : (t : Ptr) (xs ys : List Ptr) → Apart xs ys → t ∉ ys → Apart (xs ++ (t ∷ [])) ys
join_Apart t xs ys apart out a i = elim (mem-snoc a t xs i) [
  | inl e ↦ rw e out
  | inr (n, j) ↦ apart a j
]

module _ {l : RwLock} {w : World} {a : Rw} (rep : Represents l w a) where
  join_readers :
      {q' : Tasklist} {w' : World}
      → Parked w a.rwaiting a.ready (q', w')
      → w.taskrunning ∉ a.wwaiting
      → Represents
          (record l { rwaiting = q' })
          w'
          (record a { rwaiting = a.rwaiting ++ (w.taskrunning ∷ []) })
  join_readers m out =
      let apart = join_Apart w.taskrunning a.rwaiting a.wwaiting rep.apart out in
      record {
        readers_eq = rep.readers_eq;
        writer_eq = rep.writer_eq;
        rqueue = m.waiting;
        wqueue = Waiting-frame a.wwaiting rep.wqueue λ b i.
            m.outside b (Apart-sym (a.rwaiting ++ (w.taskrunning ∷ [])) a.wwaiting apart b i);
        apart = apart;
        runnable = m.runnable;
      }

  join_writers :
      {q' : Tasklist} {w' : World}
      → Parked w a.wwaiting a.ready (q', w')
      → w.taskrunning ∉ a.rwaiting
      → Represents
          (record l { wwaiting = q' })
          w'
          (record a { wwaiting = a.wwaiting ++ (w.taskrunning ∷ []) })
  join_writers m out =
      let apart =
        join_Apart w.taskrunning a.wwaiting a.rwaiting (Apart-sym a.rwaiting a.wwaiting rep.apart)
          out in
      record {
        readers_eq = rep.readers_eq;
        writer_eq = rep.writer_eq;
        rqueue = Waiting-frame a.rwaiting rep.rqueue λ b i.
            m.outside b (Apart-sym (a.wwaiting ++ (w.taskrunning ∷ [])) a.rwaiting apart b i);
        wqueue = m.waiting;
        apart = Apart-sym (a.wwaiting ++ (w.taskrunning ∷ [])) a.rwaiting apart;
        runnable = m.runnable;
      }

  read_got :
      Represents (record l { readers = inc l.readers }) w (record a { readers = suc a.readers })
  read_got = record {
    readers_eq = ap inc rep.readers_eq;
    writer_eq = rep.writer_eq;
    rqueue = rep.rqueue;
    wqueue = rep.wqueue;
    apart = rep.apart;
    runnable = rep.runnable;
  }

  write_got :
      Represents (record l { writer = w.taskrunning }) w (record a { writer = w.taskrunning })
  write_got = record {
    readers_eq = rep.readers_eq;
    writer_eq = refl;
    rqueue = rep.rqueue;
    wqueue = rep.wqueue;
    apart = rep.apart;
    runnable = rep.runnable;
  }

  module _ (live : Idle w.heap w.taskrunning) (out : w.taskrunning ∉ a.rwaiting)
      (out' : w.taskrunning ∉ a.wwaiting) where
    -- _rlock by a running task that does not wait for this lock does what `read_lock` says.
    pub _rlock_refines :
        (block : Bool) → Returns (Attempted (read_lock w.taskrunning block a)) (_rlock l block w)
    unfolding _rlock read_lock
    _rlock_refines true =
        rw (writer_test rep, queue_test a.wwaiting rep refl)
          (elim (Bool-cases ((a.writer == null) && is_nil a.wwaiting)) [
            | inl free ↦ rw free (returns (refl, read_got))
            | inr held ↦ rw held (
                Returns-bind
                  (park_lem l.rwaiting a.rwaiting a.ready rep.runnable rep.rqueue live out)
                  λ (q, w') m. returns (refl, join_readers m out'))
          ])
    _rlock_refines false =
        rw (writer_test rep, queue_test a.wwaiting rep refl)
          (elim (Bool-cases ((a.writer == null) && is_nil a.wwaiting)) [
            | inl free ↦ rw free (returns (refl, read_got))
            | inr held ↦ rw held (returns (refl, rep))
          ])

    -- _wlock by a running task that does not wait for this lock does what `write_lock` says.
    pub _wlock_refines :
        (block : Bool) → Returns (Attempted (write_lock w.taskrunning block a)) (_wlock l block w)
    unfolding _wlock write_lock
    _wlock_refines true =
        rw (writer_test rep, readers_test rep)
          (elim (Bool-cases ((a.writer == null) && (a.readers == 0))) [
            | inl free ↦ rw free (returns (refl, write_got))
            | inr held ↦ rw held (
                Returns-bind
                  (park_lem l.wwaiting a.wwaiting a.ready rep.runnable rep.wqueue live out')
                  λ (q, w') m. returns (refl, join_writers m out))
          ])
    _wlock_refines false =
        rw (writer_test rep, readers_test rep)
          (elim (Bool-cases ((a.writer == null) && (a.readers == 0))) [
            | inl free ↦ rw free (returns (refl, write_got))
            | inr held ↦ rw held (returns (refl, rep))
          ])
