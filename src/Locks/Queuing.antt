-- ===== src/Locks/Queuing.antt =====
-- The QLock of libtask/qlock.c against a lock with an owner and a queue of waiting tasks.
use libabhi.Base.{
  ◌≡◌, ◌≢◌, refl, sym, ap, ◌∙◌, Bool, true, false, List, [], ◌∷◌, ◌++◌, arith, ◌==◌, ◌∉◌, err,
  abort, Returns, returns, Returns-bind, if◌then◌else◌, Bool-cases, inl, inr,
}
use libabhi.Tasks.{Ptr, null}
use libabhi.Sched.{World}
use libabhi.Sched.Ready.{Idle, Runnable}
use libabhi.Sched.Wake.{Waiting, wake_head, head-nil, head-cons, park_lem}
use libabhi.Locks.{Attempt, got, busy, blocked, QLock, _qlock, qunlock}

-- A lock, the tasks that wait for it, and the run queue.
pub record Lock : Type 0 where
  pub owner : Ptr
  pub waiting : List Ptr
  pub ready : List Ptr

-- What an attempt by task `t` does.
unfoldable pub acquire : Ptr → (block : Bool) → Lock → Attempt × Lock
acquire t block a =
    if a.owner == null
    then (got, record a { owner = t })
    else if block
    then (blocked, record a { waiting = a.waiting ++ (t ∷ []) })
    else (busy, a)

-- Unlocking hands the lock to the first task that waits, which becomes ready.
hand_over : Lock → List Ptr → Lock
hand_over a [] = record a { owner = null }
hand_over a (t ∷ rest) = record { owner = t; waiting = rest; ready = a.ready ++ (t ∷ []) }

unfoldable pub release : Lock → Lock
unfolding hand_over
release a = hand_over a a.waiting

pub record Represents (l : QLock) (w : World) (a : Lock) : Type 0 where
  pub owner_eq : l.owner ≡ a.owner
  pub waiting : Waiting w.heap l.waiting a.waiting
  pub runnable : Runnable w a.ready

-- The outcome of an attempt is that of `acquire`.
abbrev pub Attempted : Attempt × Lock → Attempt × QLock × World → Type 0
Attempted (v', a) (v, l, w) = (v ≡ v') × Represents l w a

owner_test : (p q : Ptr) → p ≡ q → q ≢ null → (p == null) ≡ false
owner_test p q e n = ground (arith, n)

qunlock_of :
    {l : QLock} {w : World} (owner : Ptr) (waiting ready : List Ptr)
    → Represents l w (record { owner = owner; waiting = waiting; ready = ready })
    → owner ≢ null
    → Returns
        (λ (l', w').
          Represents l' w' (release (record { owner = owner; waiting = waiting; ready = ready })))
        (qunlock l w)
unfolding qunlock release
qunlock_of {l} owner [] ready rep held =
    let test : (l.owner == null) ≡ false = owner_test l.owner owner rep.owner_eq held in
    rw (test, head-nil rep.waiting)
      (returns (record { owner_eq = refl; waiting = rep.waiting; runnable = rep.runnable }))
qunlock_of {l} owner (t ∷ rest) ready rep held =
    let test : (l.owner == null) ≡ false = owner_test l.owner owner rep.owner_eq held in
    rw (test, head-cons rep.waiting)
      (Returns-bind (wake_head l.waiting t rest ready rep.runnable rep.waiting) λ (q, w') m.
        returns (record {
          owner_eq = rep.waiting.queue.head_eq;
          waiting = m.waiting;
          runnable = m.runnable;
        }))

module _ {l : QLock} {w : World} {a : Lock} (rep : Represents l w a) where
  -- _qlock by the running task does what `acquire` says: it takes a free lock, it answers 0 when it
  -- may not block, and otherwise puts the task behind those that wait. It never stops with a fault.
  pub _qlock_refines :
      (block : Bool)
      → Idle w.heap w.taskrunning
      → w.taskrunning ∉ a.waiting
      → Returns (Attempted (acquire w.taskrunning block a)) (_qlock l block w)
  unfolding _qlock acquire
  _qlock_refines true live out = elim (Bool-cases (a.owner == null)) [
    | inl free ↦
        rw (ap (λ p. p == null) rep.owner_eq, free)
          (returns
            (refl, record { owner_eq = refl; waiting = rep.waiting; runnable = rep.runnable }))
    | inr held ↦
        rw (ap (λ p. p == null) rep.owner_eq, held)
          (Returns-bind (park_lem l.waiting a.waiting a.ready rep.runnable rep.waiting live out)
            λ (q, w') m. returns (
              refl,
              record { owner_eq = rep.owner_eq; waiting = m.waiting; runnable = m.runnable },
            ))
  ]
  _qlock_refines false live out = elim (Bool-cases (a.owner == null)) [
    | inl free ↦
        rw (ap (λ p. p == null) rep.owner_eq, free)
          (returns
            (refl, record { owner_eq = refl; waiting = rep.waiting; runnable = rep.runnable }))
    | inr held ↦ rw (ap (λ p. p == null) rep.owner_eq, held) (returns (refl, rep))
  ]

  -- qunlock of a lock that is held does what `release` says: it hands the lock to the first task
  -- that waits and makes that one ready, or it frees the lock. It never stops with a fault.
  pub qunlock_refines :
      a.owner ≢ null → Returns (λ (l', w'). Represents l' w' (release a)) (qunlock l w)
  qunlock_refines held = qunlock_of a.owner a.waiting a.ready rep held

  -- qunlock of a lock that nobody holds aborts.
  pub qunlock_free : a.owner ≡ null → qunlock l w ≡ err abort
  unfolding qunlock
  qunlock_free free = rw (ap (λ p. p == null) (rep.owner_eq ∙ free))

-- The tasks that attempt to lock, and whether each may block.
abbrev pub Attempts : Type 0
Attempts = List (Ptr × Bool)

abbrev pub acquire_all : Attempts → Lock → Lock
acquire_all [] a = a
acquire_all ((t, block) ∷ more) a = acquire_all more ((acquire t block a).1)

acquire-held :
    (t : Ptr) (block : Bool) (a : Lock) → a.owner ≢ null → (acquire t block a).1.owner ≡ a.owner
unfolding acquire
acquire-held t block a held = ground (arith, held)

-- However many tasks attempt to take a lock that is held, blocking or not, its owner keeps it.
pub acquire_all-owner :
    (more : Attempts) (a : Lock) → a.owner ≢ null → (acquire_all more a).owner ≡ a.owner
acquire_all-owner [] a held = refl
acquire_all-owner ((t, block) ∷ more) a held =
    let same = acquire-held t block a held in
    acquire_all-owner more ((acquire t block a).1) (λ e. held (sym same ∙ e)) ∙ same
