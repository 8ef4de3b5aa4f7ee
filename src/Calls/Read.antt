-- ===== src/Calls/Read.antt =====
-- __wrap_read and read1 of libtask/fd.c: no byte is lost while they wait.
use libabhi.Base.{
  ℕ, zero, suc, ◌<◌, ◌≤◌, ◌≡◌, ◌∙◌, List, arith, ◌==◌, inl, inr, drop, Returns, returns, Bool-cases,
  ◌^◌, false, ◌>>=◌, refl, ap, ok, if◌then◌else◌,
}
use libabhi.Calls.{
  Calls, Answer, gave, again, failed, Result, returned, error, as_int, read_loop, wrap_read,
}
use libabhi.Calls.Write.{as_int-small}

-- What the code relies on, for the descriptor from which `input` can still be read: read takes bytes
-- from its front, at most as many as asked for, or takes none. `patience` bounds how often it still
-- gives EAGAIN.
abbrev pub Took :
    {S : Type 0} → (input : S → List ℕ) → (patience : S → ℕ) → ℕ → S → Answer → S → Type 0
Took input patience n s (gave m) s' = (m ≤ n) × (input s' ≡ drop m (input s))
Took input patience n s again s' = (input s' ≡ input s) × (patience s' < patience s)
Took input patience n s (failed e) s' = input s' ≡ input s

pub record ReadLaws {S : Type 0} (c : Calls S) (input : S → List ℕ) (patience : S → ℕ)
    : Type 0 where
  pub reads : (n : ℕ) (s : S) → Took input patience n s ((c.real_read n s).0) ((c.real_read n s).1)
  pub waits : (s : S) → (input (c.fdwait s) ≡ input s) × (patience (c.fdwait s) ≤ patience s)
  pub takes :
      (s : S)
      → (input ((c.take_error s).1) ≡ input s) × (patience ((c.take_error s).1) ≤ patience s)

-- How a read of at most `n` bytes ends: with an answer of read other than EAGAIN, or with the error
-- that a wait left with the task, after read gave EAGAIN. The bytes returned are gone from the
-- input, and no others.
pub data Read {S : Type 0} (c : Calls S) (input : S → List ℕ) (before : List ℕ) (n : ℕ)
    : Result × S → Type 0 where
  took :
      (m : ℕ) (t s : S)
      → c.real_read n t ≡ (gave m, s)
      → m ≤ n
      → input s ≡ drop m before
      → Read c input before n (returned m, s)
  refused :
      (e : ℕ) (t s : S)
      → c.real_read n t ≡ (failed e, s)
      → input s ≡ before
      → Read c input before n (error e, s)
  timed_out :
      (e : ℕ) (t s s' : S)
      → c.real_read n t ≡ (again, s)
      → c.take_error (c.fdwait s) ≡ (e, s')
      → (e == 0) ≡ false
      → input s' ≡ before
      → Read c input before n (error e, s')

module _ {S : Type 0} (c : Calls S) (input : S → List ℕ) (patience : S → ℕ)
    (law : ReadLaws c input patience) (before : List ℕ) (n : ℕ) (small : n < 2 ^ 31) where
  read_loop_lem :
      (fuel : ℕ) (s : S)
      → input s ≡ before
      → patience s < fuel
      → Returns (Read c input before n) (read_loop c fuel n s)
  unfolding read_loop
  read_loop_lem zero s e enough = absurd (omega arith)
  read_loop_lem (suc fuel) s e enough =
      let r = c.real_read n s in go (λ t. read_loop_lem fuel t) (r.0) (r.1) refl (law.reads n s)
    where
      go :
          ((t : S)
            → input t ≡ before
            → patience t < fuel
            → Returns (Read c input before n) (read_loop c fuel n t))
          → (a : Answer) (s₁ : S) → c.real_read n s ≡ (a, s₁)
          → Took input patience n s a s₁
          → Returns (Read c input before n) (elim a [
            | gave m ↦ as_int m >>= λ m'. ok (returned m', s₁)
            | failed e' ↦ ok (error e', s₁)
            | again ↦
                if (c.take_error (c.fdwait s₁)).0 == 0
                then read_loop c fuel n ((c.take_error (c.fdwait s₁)).1)
                else ok (error ((c.take_error (c.fdwait s₁)).0), (c.take_error (c.fdwait s₁)).1)
          ])
      go next (gave m) s₁ call (h, kept) =
          rw (as_int-small m (omega arith)) (returns (took m s s₁ call h (kept ∙ ap (drop m) e)))
      go next (failed e') s₁ call kept = returns (refused e' s s₁ call (kept ∙ e))
      go next again s₁ call (kept, less) =
          let (w_in, w_p) = law.waits s₁ in
          let (t_in, t_p) = law.takes (c.fdwait s₁) in
          let r = c.take_error (c.fdwait s₁) in
          let same = t_in ∙ w_in ∙ kept ∙ e in
          elim (Bool-cases (r.0 == 0)) [
            | inl none ↦ rw none (next (r.1) same (omega arith))
            | inr timed ↦ rw timed (returns (timed_out (r.0) s s₁ (r.1) call refl timed same))
          ]

-- If less than 2^31 bytes are asked for, read behaves as documented and gives EAGAIN only finitely
-- often, __wrap_read returns an answer of read other than EAGAIN, or the error that the wait after
-- an EAGAIN left with the task. The bytes returned, not more than asked for, are gone from the
-- front of the input; with an error the input is as it was. One round more than there are refusals
-- is enough.
pub wrap_read_lem :
    {S : Type 0} (c : Calls S) (input : S → List ℕ) (patience : S → ℕ) (fuel n : ℕ) (s : S)
    → ReadLaws c input patience
    → n < 2 ^ 31
    → patience s < fuel
    → Returns (Read c input (input s) n) (wrap_read c fuel n s)
unfolding wrap_read
wrap_read_lem c input patience fuel n s law small enough =
    let (kept, p) = law.takes s in
    read_loop_lem c input patience law (input s) n small fuel ((c.take_error s).1) kept
      (omega arith)
