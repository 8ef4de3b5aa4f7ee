-- ===== src/Tests/Wrapping.antt =====
-- Tests of the wrapped system calls.
use libabhi.Base.{
  ℕ, ◌-◌, refl, true, false, List, [], ◌∷◌, ◌++◌, arith, take, drop, length, min, ◌==◌,
  if◌then◌else◌, Returns, Bool-cases, inl, inr,
}
use libabhi.Calls.{
  Calls, Answer, gave, again, failed, wrap_write, wrap_read, wrap_connect, einprogress,
}
use libabhi.Calls.Connect.{IsAnswered, wrap_connect_lem}
use libabhi.Calls.Read.{Read, ReadLaws, Took, wrap_read_lem}
use libabhi.Calls.Write.{Documented, Written, Wrote, wrap_write_lem}

-- A descriptor: what was written, and how often it will still refuse. It takes two bytes at a time.
record Device : Type 0 where
  out : List ℕ
  busy : ℕ

device_write : List ℕ → Device → Answer × Device
device_write bs s =
    if s.busy == 0
    then (gave (min 2 (length bs)), record s { out = s.out ++ take (min 2 (length bs)) bs })
    else (again, record s { busy = s.busy - 1 })

abbrev device : Calls Device
device = record {
  real_read = λ n s. (failed 5, s);
  real_write = device_write;
  real_accept = λ s. (failed 5, s);
  real_connect = λ s. (failed 5, s);
  fdwait = λ s. s;
  take_error = λ s. (0, s);
  peek_error = λ s. 0;
  fdnoblock = λ s. s;
  set_options = λ n s. s;
  getpeername = λ s. (false, s);
  socket_error = λ s. (0, s);
}

device_writes :
    (bs : List ℕ) (s : Device)
    → Wrote (λ d. d.out) (λ d. d.busy) bs s ((device_write bs s).0) ((device_write bs s).1)
unfolding device_write
device_writes bs s = elim (Bool-cases (s.busy == 0)) [
  | inl e ↦ rw e (omega arith, refl, omega arith)
  | inr e ↦ rw e (refl, ground arith)
]

device-Documented : Documented device (λ d. d.out) (λ d. d.busy)
device-Documented = record {
  writes = device_writes;
  waits = λ s. (refl, omega arith);
  takes = λ s. (refl, omega arith);
}

-- The device refuses three times and then takes three bytes in two parts.
abbrev slow : Device
slow = record { out = 9 ∷ []; busy = 3 }

wrap_write_lem_example :
    Returns
      (Written device (λ d. d.out) (9 ∷ []) (5 ∷ 6 ∷ 7 ∷ []))
      (wrap_write device 7 (5 ∷ 6 ∷ 7 ∷ []) slow)
wrap_write_lem_example =
    wrap_write_lem device (λ d. d.out) (λ d. d.busy) (5 ∷ 6 ∷ 7 ∷ []) 7 slow device-Documented
      (omega arith) (omega arith)

-- A descriptor to read from: what can be read, and how often it will still refuse.
record Source : Type 0 where
  input : List ℕ
  silent : ℕ

source_read : (n : ℕ) → Source → Answer × Source
source_read n s =
    if s.silent == 0
    then (gave (min 2 n), record s { input = drop (min 2 n) s.input })
    else (again, record s { silent = s.silent - 1 })

abbrev source : Calls Source
source = record {
  real_read = source_read;
  real_write = λ bytes s. (failed 5, s);
  real_accept = λ s. (failed 5, s);
  real_connect = λ s. (failed 5, s);
  fdwait = λ s. s;
  take_error = λ s. (0, s);
  peek_error = λ s. 0;
  fdnoblock = λ s. s;
  set_options = λ n s. s;
  getpeername = λ s. (false, s);
  socket_error = λ s. (0, s);
}

source_reads :
    (n : ℕ) (s : Source)
    → Took (λ d. d.input) (λ d. d.silent) n s ((source_read n s).0) ((source_read n s).1)
unfolding source_read
source_reads n s = elim (Bool-cases (s.silent == 0)) [
  | inl e ↦ rw e (omega arith, refl)
  | inr e ↦ rw e (refl, ground arith)
]

source-ReadLaws : ReadLaws source (λ d. d.input) (λ d. d.silent)
source-ReadLaws = record {
  reads = source_reads;
  waits = λ s. (refl, omega arith);
  takes = λ s. (refl, omega arith);
}

-- It refuses twice and then gives two bytes.
wrap_read_lem_example :
    Returns
      (Read source (λ d. d.input) (5 ∷ 6 ∷ 7 ∷ []) 3)
      (wrap_read source 3 3 (record { input = 5 ∷ 6 ∷ 7 ∷ []; silent = 2 }))
wrap_read_lem_example =
    wrap_read_lem source (λ d. d.input) (λ d. d.silent) 3 3
      (record { input = 5 ∷ 6 ∷ 7 ∷ []; silent = 2 }) source-ReadLaws (omega arith) (omega arith)

-- A connection that is under way and then succeeds.
abbrev connector : Calls Device
connector = record device {
  real_connect = λ s. (failed einprogress, s);
  getpeername = λ s. (true, s);
}

wrap_connect_lem_example :
    IsAnswered connector (failed einprogress) slow (wrap_connect connector slow)
wrap_connect_lem_example = wrap_connect_lem connector slow
