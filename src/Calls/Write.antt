-- ===== src/Calls/Write.antt =====
-- __wrap_write of libtask/fd.c writes a prefix of its buffer, and says how much.
use libabhi.Base.{
  ℕ, zero, suc, ◌+◌, ◌-◌, ◌<◌, ◌≤◌, ◌≡◌, refl, sym, ap, ◌∙◌, List, [], ◌∷◌, ◌++◌, arith, ◌==◌, ltb,
  inl, inr, length, length-drop, take, drop, append_assoc, append-nil, Returns, returns, Bool-cases,
  Outcome, ok, true, false, subst, ◌^◌, ◌%◌, leb, if◌then◌else◌,
}
use libabhi.Calls.{
  Calls, Answer, gave, again, failed, Result, returned, error, as_int, after_write, write_loop,
  wrap_write,
}

-- What the code relies on, for the descriptor whose output so far is `sent`. write gives the number
-- of bytes that it took from the front of the buffer, or takes none. `patience` bounds how often it
-- still gives EAGAIN.
abbrev pub Wrote :
    {S : Type 0} → (sent : S → List ℕ) → (patience : S → ℕ) → List ℕ → S → Answer → S → Type 0
Wrote sent patience bs s (gave m) s' =
    (m ≤ length bs) × (sent s' ≡ sent s ++ take m bs) × (patience s' ≤ patience s)
Wrote sent patience bs s again s' = (sent s' ≡ sent s) × (patience s' < patience s)
Wrote sent patience bs s (failed e) s' = sent s' ≡ sent s

pub record Documented {S : Type 0} (c : Calls S) (sent : S → List ℕ) (patience : S → ℕ)
    : Type 0 where
  pub writes :
      (bs : List ℕ) (s : S)
      → Wrote sent patience bs s ((c.real_write bs s).0) ((c.real_write bs s).1)
  pub waits : (s : S) → (sent (c.fdwait s) ≡ sent s) × (patience (c.fdwait s) ≤ patience s)
  pub takes :
      (s : S) → (sent ((c.take_error s).1) ≡ sent s) × (patience ((c.take_error s).1) ≤ patience s)

-- A number of bytes below 2^31 is kept by an int.
pub as_int-small : (m : ℕ) → m < 2 ^ 31 → as_int m ≡ ok m
unfolding as_int
as_int-small m h =
    let kept : m % 2 ^ 32 ≡ m = omega arith in
    let small : ltb (m % 2 ^ 32) (2 ^ 31) ≡ true = ground arith in rw (small, kept) refl

-- How wrap_write ends. Either the whole buffer is written; or its first `k` bytes are, fewer than there
-- are, and an attempt to write the others ended the loop: write took nothing, or gave an error other than
-- EAGAIN, or gave EAGAIN and the wait that followed left an error with the task. In the last case the
-- number written is returned if it is not 0, and otherwise that error.
pub data Written {S : Type 0} (c : Calls S) (sent : S → List ℕ) (before buf : List ℕ)
    : Result × S → Type 0 where
  whole : (s : S) → sent s ≡ before ++ buf → Written c sent before buf (returned (length buf), s)
  took_none :
      (k : ℕ) (t s : S)
      → k < length buf
      → c.real_write (drop k buf) t ≡ (gave 0, s)
      → sent s ≡ before ++ take k buf
      → Written c sent before buf (returned k, s)
  refused :
      (k e : ℕ) (t s : S)
      → k < length buf
      → c.real_write (drop k buf) t ≡ (failed e, s)
      → sent s ≡ before ++ take k buf
      → Written c sent before buf (error e, s)
  timed_out :
      (k e : ℕ) (t s s' : S)
      → k < length buf
      → c.real_write (drop k buf) t ≡ (again, s)
      → c.take_error (c.fdwait s) ≡ (e, s')
      → (e == 0) ≡ false
      → sent s' ≡ before ++ take k buf
      → Written c sent before buf (if ltb 0 k then returned k else error e, s')

take-all : (xs : List ℕ) → take (length xs) xs ≡ xs
take-all [] = refl
take-all (x ∷ xs) = ap (λ l. x ∷ l) (take-all xs)

take-nil : (m : ℕ) → take {A = ℕ} m [] ≡ []
take-nil zero = refl
take-nil (suc m) = refl

take-add : (n m : ℕ) (xs : List ℕ) → take (n + m) xs ≡ take n xs ++ take m (drop n xs)
take-add zero m xs = let e : 0 + m ≡ m = omega arith in ap (λ k. take k xs) e
take-add (suc n) m [] = take-nil (suc n + m) ∙ sym (take-nil m)
take-add (suc n) m (x ∷ xs) =
    let e : suc n + m ≡ suc (n + m) = omega arith in
    ap (λ k. take k (x ∷ xs)) e ∙ ap (λ l. x ∷ l) (take-add n m xs)

module _ {S : Type 0} (c : Calls S) (sent : S → List ℕ) (patience : S → ℕ)
    (law : Documented c sent patience) (before buf : List ℕ) (small : length buf < 2 ^ 31) where
  more :
      (tot m : ℕ) (s s' : S)
      → sent s ≡ before ++ take tot buf
      → sent s' ≡ sent s ++ take m (drop tot buf)
      → sent s' ≡ before ++ take (tot + m) buf
  more tot m s s' e e' =
      e'
      ∙ ap (λ l. l ++ take m (drop tot buf)) e
      ∙ append_assoc before (take tot buf) (take m (drop tot buf))
      ∙ ap (λ l. before ++ l) (sym (take-add tot m buf))

  after_write_lem :
      (next : ℕ → S → Outcome (Result × S)) (fuel tot : ℕ) (s : S)
      → ((t : ℕ) (s' : S)
          → t ≤ length buf
          → sent s' ≡ before ++ take t buf
          → (length buf - t) + patience s' < fuel
          → Returns (Written c sent before buf) (next t s'))
      → tot < length buf
      → sent s ≡ before ++ take tot buf
      → (length buf - tot) + patience s < suc fuel
      → (a : Answer) (s' : S) → c.real_write (drop tot buf) s ≡ (a, s')
      → Wrote sent patience (drop tot buf) s a s'
      → Returns (Written c sent before buf) (after_write c next tot a s')
  unfolding after_write
  after_write_lem next fuel tot s go less e enough (gave m) s' call (h, out, p) =
      let long = length-drop tot buf in
      let e' = more tot m s s' e out in
      let bound : leb (2 ^ 31) (tot + m) ≡ false = ground (arith, h, long, small, less) in
      rw (as_int-small m (omega (arith, long))) (elim (Bool-cases (m == 0)) [
        | inl nothing ↦
            let none : m ≡ 0 = ground arith in
            let z : tot + m ≡ tot = omega (arith, none) in
            rw nothing (
              returns (
                took_none tot s s' less (call ∙ ap (λ n. (gave n, s')) none)
                  (e' ∙ ap (λ n. before ++ take n buf) z)))
        | inr some ↦
            let m_pos : 0 < m = ground arith in
            rw (some, bound) (go (tot + m) s' (omega (arith, long)) e' (omega (arith, long)))
      ])
  after_write_lem next fuel tot s go less e enough (failed n) s' call out =
      returns (refused tot n s s' less call (out ∙ e))
  after_write_lem next fuel tot s go less e enough again s' call (out, p) =
      let (w_out, w_p) = law.waits s' in
      let (t_out, t_p) = law.takes (c.fdwait s') in
      let r = c.take_error (c.fdwait s') in
      let kept = t_out ∙ w_out ∙ out ∙ e in
      elim (Bool-cases (r.0 == 0)) [
        | inl none ↦ rw none (go tot (r.1) (omega arith) kept (omega arith))
        | inr timed ↦ rw timed (returns (timed_out tot (r.0) s s' (r.1) less call refl timed kept))
      ]

  write_loop_lem :
      (fuel tot : ℕ) (s : S)
      → tot ≤ length buf
      → sent s ≡ before ++ take tot buf
      → (length buf - tot) + patience s < fuel
      → Returns (Written c sent before buf) (write_loop c fuel tot buf s)
  unfolding write_loop
  write_loop_lem zero tot s h e enough = absurd (omega arith)
  write_loop_lem (suc fuel) tot s h e enough = elim (Bool-cases (ltb tot (length buf))) [
    | inr done ↦
        let all : tot ≡ length buf = ground arith in
        rw done (
          subst (λ n. Returns (Written c sent before buf) (ok (returned n, s))) (sym all)
            (returns (
              whole s
                (e ∙ ap (λ n. before ++ take n buf) all ∙ ap (λ l. before ++ l) (take-all buf)))))
    | inl left ↦
        let less : tot < length buf = ground arith in
        let r = c.real_write (drop tot buf) s in
        rw left (
          after_write_lem (λ t s'. write_loop c fuel t buf s') fuel tot s
            (λ t s'. write_loop_lem fuel t s') less e enough (r.0) (r.1) refl
            (law.writes (drop tot buf) s))
  ]

-- If the buffer has less than 2^31 bytes, write takes bytes from the front of what it is given and gives
-- EAGAIN only finitely often, __wrap_write returns, and it has written the whole buffer, or a part of it
-- after which write took nothing, failed, or gave EAGAIN and the wait left an error. As many rounds are
-- enough as there are bytes and refusals, and one more.
pub wrap_write_lem :
    {S : Type 0} (c : Calls S) (sent : S → List ℕ) (patience : S → ℕ) (buf : List ℕ) (fuel : ℕ)
    (s : S)
    → Documented c sent patience
    → length buf < 2 ^ 31
    → length buf + patience s < fuel
    → Returns (Written c sent (sent s) buf) (wrap_write c fuel buf s)
unfolding wrap_write
wrap_write_lem c sent patience buf fuel s law small enough =
    let (kept, p) = law.takes s in
    write_loop_lem c sent patience law (sent s) buf small fuel 0 ((c.take_error s).1) (omega arith)
      (kept ∙ sym (append-nil (sent s))) (omega arith)
