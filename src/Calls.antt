-- ===== src/Calls.antt =====
-- The system calls that libtask/fd.c wraps. The calls themselves are a parameter: the operations of
-- a record on the state `S` of the machine, for one descriptor, which is not shown.
pub mod Connect
pub mod Read
pub mod Sockets
pub mod Write
use Prim.Native.Nat.{bit_or}
use libabhi.Base.Int.{ℤ}
use libabhi.Base.{
  ℕ, zero, suc, ◌+◌, ◌-◌, ◌%◌, ◌^◌, leb, fault, Bool, true, false, List, Outcome, ok, err, Stop,
  no_fuel, ◌>>=◌, ◌==◌, ltb, if◌then◌else◌, length, drop,
}

-- What a call gives: a count or descriptor, -1 with EAGAIN or EWOULDBLOCK, or -1 with another errno.
pub data Answer : Type 0 where
  gave : ℕ → Answer
  again : Answer
  failed : ℕ → Answer

-- What a wrapper returns: a count or descriptor, or -1 with an errno.
pub data Result : Type 0 where
  returned : ℕ → Result
  error : ℕ → Result

-- `take_error` is taskdata(NULL), which gives the error that is left with the task, 0 if there is
-- none, and clears it. `fdwait` gives up the CPU until the descriptor is ready or time is up.
pub record Calls (S : Type 0) : Type 0 where
  pub real_read : (n : ℕ) → S → Answer × S
  pub real_write : List ℕ → S → Answer × S
  pub real_accept : S → Answer × S
  pub real_connect : S → Answer × S
  pub fdwait : S → S
  pub take_error : S → ℕ × S
  pub peek_error : S → ℕ
  pub fdnoblock : S → S
  pub set_options : ℕ → S → S
  pub getpeername : S → Bool × S
  pub socket_error : S → ℕ × S

abbrev pub einprogress : ℕ
einprogress = 115

abbrev pub econnrefused : ℕ
econnrefused = 111

-- The bits O_NONBLOCK and O_NDELAY, which are the same on Linux.
abbrev o_nonblock : ℕ
o_nonblock = 2048

abbrev o_ndelay : ℕ
o_ndelay = 2048

-- fdnoblock, when fcntl gives and sets the flags of a descriptor.
unfoldable pub fdnoblock : {S : Type 0} (getfl : S → ℕ) (setfl : ℕ → S → ℤ × S) → S → ℤ × S
fdnoblock getfl setfl s = setfl (bit_or (bit_or (getfl s) o_nonblock) o_ndelay) s

-- What `int m` holds of a count. One from 2^31 on turns negative, and what the code then does hangs on an
-- errno of an earlier call: it is a fault here.
unfoldable pub as_int : ℕ → Outcome ℕ
as_int m = let low = m % 2 ^ 32 in if ltb low (2 ^ 31) then ok low else err fault

module _ {S : Type 0} (c : Calls S) where
  -- The loop of __wrap_read, on fuel.
  unfoldable pub read_loop : ℕ → (n : ℕ) → S → Outcome (Result × S)
  read_loop zero n s = err no_fuel
  read_loop (suc k) n s =
      let (a, s₁) = c.real_read n s in
      let (e, s₂) = c.take_error (c.fdwait s₁) in
      let retry : Outcome (Result × S) = read_loop k n s₂ in
      elim a [
        | gave m ↦ (do m' ← as_int m; ok (returned m', s₁))
        | failed e' ↦ ok (error e', s₁)
        | again ↦ if e == 0 then retry else ok (error e, s₂)
      ]

  unfoldable pub wrap_read : (fuel n : ℕ) → S → Outcome (Result × S)
  unfolding read_loop
  wrap_read fuel n s = read_loop fuel n ((c.take_error s).1)

  -- What __wrap_write does with an answer when `tot` bytes were written before: `next` goes on. The
  -- total is an int, whose overflow is undefined.
  after_write : (next : ℕ → S → Outcome (Result × S)) → ℕ → Answer → S → Outcome (Result × S)
  after_write next tot (gave m) s = do
    m' ← as_int m
    let rest : Outcome (Result × S) =
        if leb (2 ^ 31) (tot + m') then err fault else next (tot + m') s
    (if m' == 0 then ok (returned tot, s) else rest)
  after_write next tot (failed e) s = ok (error e, s)
  after_write next tot again s =
      let (e, s') = c.take_error (c.fdwait s) in
      let retry : Outcome (Result × S) = next tot s' in
      let timed_out : Result = if ltb 0 tot then returned tot else error e in
      if e == 0 then retry else ok (timed_out, s')

  -- The two loops of __wrap_write, on fuel, when `tot` bytes are written.
  unfoldable pub write_loop : ℕ → (tot : ℕ) → List ℕ → S → Outcome (Result × S)
  unfolding after_write
  write_loop zero tot buf s = err no_fuel
  write_loop (suc k) tot buf s =
      let (a, s₁) = c.real_write (drop tot buf) s in
      let call : Outcome (Result × S) = after_write (λ t s'. write_loop k t buf s') tot a s₁ in
      if ltb tot (length buf) then call else ok (returned tot, s)

  unfoldable pub wrap_write : (fuel : ℕ) → List ℕ → S → Outcome (Result × S)
  unfolding write_loop
  wrap_write fuel buf s = write_loop fuel 0 buf ((c.take_error s).1)

  unfoldable pub fdread : (fuel n : ℕ) → S → Outcome (Result × S)
  unfolding wrap_read
  fdread fuel n s = wrap_read fuel n s

  unfoldable pub fdwrite : (fuel : ℕ) → List ℕ → S → Outcome (Result × S)
  unfolding wrap_write
  fdwrite fuel buf s = wrap_write fuel buf s

  -- read1 waits before each attempt.
  unfoldable pub read1 : (fuel n : ℕ) → S → Outcome (Result × S)
  read1 zero n s = err no_fuel
  read1 (suc k) n s =
      let (e, s₁) = c.take_error s in
      let (a, s₂) = c.real_read n (c.fdwait s₁) in
      let retry : Outcome (Result × S) = read1 k n s₂ in
      let attempt : Outcome (Result × S) = elim a [
        | gave m ↦ (do m' ← as_int m; ok (returned m', s₂))
        | failed e' ↦ ok (error e', s₂)
        | again ↦ retry
      ] in
      if e == 0 then attempt else ok (error e, s₁)

  -- The new descriptor is made non-blocking and gets the options TCP_NODELAY and TCP_USER_TIMEOUT.
  unfoldable pub wrap_accept : S → Result × S
  wrap_accept s =
      let (a, s₁) = c.real_accept (c.fdwait s) in
      elim a [
        | gave cfd ↦ (returned cfd, c.set_options cfd s₁)
        | failed e ↦ (error e, s₁)
        | again ↦ (error 11, s₁)
      ]

  -- What __wrap_connect does when the connection is under way.
  unfoldable pub connecting : S → Result × S
  connecting s =
      let s₁ = c.fdwait s in
      let e = c.peek_error s₁ in
      let (connected, s₂) = c.getpeername s₁ in
      let (n, s₃) = c.socket_error s₂ in
      if ltb 0 e
      then (error e, s₁)
      else if connected
      then (returned 0, s₂)
      else (error (if n == 0 then econnrefused else n), s₃)

  unfoldable pub wrap_connect : S → Result × S
  unfolding connecting
  wrap_connect s =
      let (a, s₁) = c.real_connect (c.fdnoblock ((c.take_error s).1)) in
      elim a [
        | gave m ↦ connecting s₁
        | failed e ↦ if e == einprogress then connecting s₁ else (error e, s₁)
        | again ↦ (error 11, s₁)
      ]
