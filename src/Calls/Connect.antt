-- ===== src/Calls/Connect.antt =====
-- __wrap_connect of libtask/fd.c: how a connection succeeds or fails.
use libabhi.Base.{
  ℕ, ◌<◌, ◌≡◌, ◌≢◌, refl, true, false, arith, ◌==◌, ltb, Bool, ap, if◌then◌else◌, inl, inr, ◌⊎◌,
  Bool-cases,
}
use libabhi.Calls.{
  Calls, Answer, gave, again, failed, Result, returned, error, connecting, wrap_connect,
  einprogress, econnrefused,
}

module _ {S : Type 0} (c : Calls S) where
  -- How __wrap_connect ends when the connection is under way in `begun`: after one wait, with the
  -- error that is left with the task; or without one and with a peer, with success; or with
  -- neither, with an errno other than 0.
  pub data Awaited (begun : S) : Result × S → Type 0 where
    timed_out :
        (e : ℕ)
        → c.peek_error (c.fdwait begun) ≡ e
        → 0 < e
        → Awaited begun (error e, c.fdwait begun)
    has_peer :
        (s : S)
        → c.peek_error (c.fdwait begun) ≡ 0
        → c.getpeername (c.fdwait begun) ≡ (true, s)
        → Awaited begun (returned 0, s)
    no_peer :
        (e : ℕ) (s : S)
        → c.peek_error (c.fdwait begun) ≡ 0
        → (c.getpeername (c.fdwait begun)).0 ≡ false
        → 0 < e
        → Awaited begun (error e, s)

  -- How it ends after the answer of connect, which left the state `begun`. Only success and
  -- EINPROGRESS are waited for.
  abbrev pub IsAnswered : Answer → S → Result × S → Type 0
  IsAnswered (gave m) begun r = Awaited begun r
  IsAnswered (failed e) begun r =
      ((e ≡ einprogress) × Awaited begun r) ⊎ ((e ≢ einprogress) × (r ≡ (error e, begun)))
  IsAnswered again begun r = r ≡ (error 11, begun)

  code_positive : (n : ℕ) → 0 < (if n == 0 then econnrefused else n)
  code_positive n = ground arith

  connecting_lem : (s : S) → Awaited s (connecting c s)
  unfolding connecting
  connecting_lem s =
      let w = c.fdwait s in
      elim (Bool-cases (ltb 0 (c.peek_error w))) [
        | inl e ↦ rw e (timed_out (c.peek_error w) refl (ground arith))
        | inr n ↦ let none : c.peek_error w ≡ 0 = ground arith in go none n (c.getpeername w) refl
      ]
    where
      go :
          c.peek_error (c.fdwait s) ≡ 0
          → ltb 0 (c.peek_error (c.fdwait s)) ≡ false
          → (p : Bool × S) → c.getpeername (c.fdwait s) ≡ p
          → Awaited s (
              if ltb 0 (c.peek_error (c.fdwait s))
              then (error (c.peek_error (c.fdwait s)), c.fdwait s)
              else if p.0
              then (returned 0, p.1)
              else (
                error (
                    if (c.socket_error (p.1)).0 == 0
                    then econnrefused
                    else (c.socket_error (p.1)).0),
                (c.socket_error (p.1)).1,
              ))
      go none n (true, s') e = rw n (has_peer s' none e)
      go none n (false, s') e =
          let r = c.socket_error s' in
          rw n (
            no_peer (if r.0 == 0 then econnrefused else r.0) (r.1) none (ap (λ p. p.0) e)
              (code_positive (r.0)))

  -- __wrap_connect makes the descriptor non-blocking and calls connect. An error other than
  -- EINPROGRESS is returned at once. After success or EINPROGRESS it waits once, from the state
  -- that connect left, and returns the error that the wait left with the task, or 0 if there is
  -- none and the socket has a peer, or else an errno other than 0.
  pub wrap_connect_lem :
      (s : S)
      → (let r = c.real_connect (c.fdnoblock ((c.take_error s).1)) in
          IsAnswered (r.0) (r.1) (wrap_connect c s))
  unfolding wrap_connect
  wrap_connect_lem s = go (c.real_connect (c.fdnoblock ((c.take_error s).1)))
    where
      go :
          (r : Answer × S)
          → IsAnswered (r.0) (r.1) (elim (r.0) [
            | gave m ↦ connecting c (r.1)
            | failed e ↦ if e == einprogress then connecting c (r.1) else (error e, r.1)
            | again ↦ (error 11, r.1)
          ])
      go (gave m, s₁) = connecting_lem s₁
      go (again, s₁) = refl
      go (failed e, s₁) = elim (Bool-cases (e == einprogress)) [
        | inl p ↦ rw p (inl (ground arith, connecting_lem s₁))
        | inr n ↦ rw n (inr (ground arith, refl))
      ]
