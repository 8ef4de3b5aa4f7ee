-- ===== src/Locks/ReadWrite/Sane.antt =====
-- Readers and a writer exclude one another, and nobody waits for a lock that is free.
use libabhi.Base.{
  ℕ, zero, suc, ◌+◌, ◌-◌, ◌<◌, ◌≡◌, ◌≢◌, refl, Bool, List, [], ◌∷◌, ◌++◌, arith, length, ◌∉◌,
  has-append,
}
use libabhi.Tasks.{Ptr, null}
use libabhi.Locks.ReadWrite.{Rw, read_lock, write_lock, admit_writer, read_unlock, write_unlock}

pub record IsSane (a : Rw) : Type 0 where
  -- while a writer holds the lock there are no readers
  pub exclusive : a.writer ≢ null → a.readers ≡ 0
  -- readers wait only for a writer, one that holds the lock or one that waits
  pub readers_wait : a.writer ≡ null → a.wwaiting ≡ [] → a.rwaiting ≡ []
  -- writers wait only while somebody holds the lock
  pub writers_wait : a.writer ≡ null → a.readers ≡ 0 → a.wwaiting ≡ []
  pub tasks_only : null ∉ a.wwaiting

-- A free lock that nobody waits for.
pub unlocked-IsSane :
    (ready : List Ptr)
    → IsSane (record { readers = 0; writer = null; rwaiting = []; wwaiting = []; ready = ready })
unlocked-IsSane ready = record {
  exclusive = λ n. refl;
  readers_wait = λ e f. refl;
  writers_wait = λ e f. refl;
  tasks_only = refl;
}

module _ {a : Rw} (s : IsSane a) where
  -- An attempt to read, by any task, keeps the lock sane.
  pub read_lock-IsSane : (t : Ptr) (block : Bool) → IsSane ((read_lock t block a).1)
  unfolding read_lock
  read_lock-IsSane t block = record {
    exclusive = ground (arith, s.exclusive);
    readers_wait = ground (arith, s.readers_wait);
    writers_wait = ground (arith, s.writers_wait);
    tasks_only = ground (arith, s.tasks_only);
  }

  -- An attempt to write, by a task that is not NULL, keeps the lock sane.
  pub write_lock-IsSane : (t : Ptr) (block : Bool) → t ≢ null → IsSane ((write_lock t block a).1)
  unfolding write_lock
  write_lock-IsSane t block n = record {
    exclusive = ground (arith, s.exclusive, n);
    readers_wait = ground (arith, s.readers_wait, n);
    writers_wait = ground (arith, s.writers_wait, n);
    tasks_only = ground (arith, s.tasks_only, n, has-append null a.wwaiting (t ∷ []));
  }

admit_writer-IsSane :
    (k : ℕ) (rs ws ready : List Ptr)
    → null ∉ ws
    → (ws ≡ [] → rs ≡ [])
    → IsSane (
        admit_writer
          (record { readers = k; writer = null; rwaiting = rs; wwaiting = ws; ready = ready }))
unfolding admit_writer
admit_writer-IsSane k rs [] ready tasks waits = ground (arith, waits)
admit_writer-IsSane zero rs (t ∷ ws) ready tasks waits = ground arith
admit_writer-IsSane (suc k) rs (t ∷ ws) ready tasks waits = ground arith

module _ {a : Rw} (s : IsSane a) where
  -- When a reader unlocks, the lock stays sane.
  pub read_unlock-IsSane : 0 < a.readers → IsSane (read_unlock a)
  unfolding read_unlock
  read_unlock-IsSane some_reader =
      let free : a.writer ≡ null = ground (arith, s.exclusive) in
      rw free (
        admit_writer-IsSane (a.readers - 1) a.rwaiting a.wwaiting a.ready s.tasks_only
          (s.readers_wait free))

  -- When the writer unlocks, the lock stays sane.
  pub write_unlock-IsSane : IsSane (write_unlock a)
  unfolding write_unlock
  write_unlock-IsSane =
      admit_writer-IsSane (a.readers + length a.rwaiting) [] a.wwaiting (a.ready ++ a.rwaiting)
        s.tasks_only (λ e. refl)
