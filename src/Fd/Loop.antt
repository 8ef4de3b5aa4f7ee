-- ===== src/Fd/Loop.antt =====
-- fdtask of libtask/fd.c as a whole: its passes, from taskyield to the end of the round.
use libabhi.Base.{
  ℕ, zero, suc, ◌+◌, ◌<◌, ◌≡◌, sym, ap, ◌∙◌, subst, Bool, true, false, List, [], ◌∷◌, ◌++◌, arith,
  length, Outcome, ok, err, no_fuel, ◌>>=◌, if◌then◌else◌, Returns, returns, Returns-bind,
  Returns-mono, length-append,
}
use libabhi.Tasks.{Ptr}
use libabhi.Tasks.Chain.{load-ok, not_null}
use libabhi.Sched.{World}
use libabhi.Sched.Ready.{Runnable}
use libabhi.Sched.Wake.{Waiting}
use libabhi.Fd.{wait_ms}
use libabhi.Fd.Await.{EpollAnswer, events, interrupted, failed, fdtask_answer}
use libabhi.Fd.Events.{Leaves}
use libabhi.Fd.Order.{IsSorted}
use libabhi.Fd.Round.{fdtask_round_goes_on, fdtask_round_ends}

-- What the fd task meets in its pass `i`.
pub record Passes : Type 0 where
  -- `while(taskyield() > 0)`: what the other tasks do until only the fd task can run
  pub others : (i : ℕ) → World → Outcome World
  pub epoll_wait : (i ms : ℕ) → World → EpollAnswer
  -- what nsec() gives before and after epoll_wait
  pub before : (i : ℕ) → ℕ
  pub after : (i : ℕ) → ℕ
  -- whether the loop function gives -1; one that changes the World is not modelled
  pub stop : (i : ℕ) → Bool

-- Whether epoll_wait has not failed.
unfoldable pub answered : EpollAnswer → Bool
answered (events ts) = true
answered interrupted = false
answered failed = false

-- The passes from `i` on, on fuel; `fuel` is for the loops over sleeping tasks within a pass.
unfoldable pub fdtask : Passes → (fuel : ℕ) → ℕ → (i : ℕ) → World → Outcome World
unfolding answered
fdtask m fuel zero i w = err no_fuel
fdtask m fuel (suc n) i w = do
  w₁ ← m.others i w
  ms ← wait_ms (m.before i) w₁
  let answer = m.epoll_wait i ms w₁
  w₂ ← fdtask_answer fuel answer (m.after i) (m.stop i) w₁
  (let next : Outcome World = fdtask m fuel n (i + 1) w₂ in
      if answered answer then (if m.stop i then ok w₂ else next) else next)

-- Fewer than `n` tasks sleep, sorted, and the run queue is sound.
pub record Asleep (n : ℕ) (w : World) : Type 0 where
  pub sleepers : List Ptr
  pub ready : List Ptr
  pub waiting : Waiting w.heap w.sleeping sleepers
  pub sorted : IsSorted w.heap sleepers
  pub runnable : Runnable w ready
  pub few : length sleepers < n

-- The answer names sleepers only, each once, and is not an error.
abbrev pub Fits : List Ptr → EpollAnswer → Type 0
Fits xs (events ts) = (rest : List Ptr) × Leaves xs ts rest
Fits xs interrupted = Unit {0}
Fits xs failed = ⊥

-- Nobody sleeps any more, and the fd task can be started again.
pub record Over (w : World) : Type 0 where
  pub ready : List Ptr
  pub nobody : Waiting w.heap w.sleeping []
  pub runnable : Runnable w ready
  pub over : w.startedfdtask ≡ false

wait_ms_lem :
    (now : ℕ) (w : World) (xs : List Ptr)
    → Waiting w.heap w.sleeping xs
    → Returns (λ ms. Unit {0}) (wait_ms now w)
unfolding wait_ms
wait_ms_lem now w [] k = rw k.queue.head_eq (returns tt)
wait_ms_lem now w (x ∷ xs) k =
    let p = k.queue.chain.0 in rw (k.queue.head_eq, not_null p, load-ok p) (returns tt)

Leaves-fewer : (xs ts rest : List Ptr) → Leaves xs ts rest → length ts + length rest ≡ length xs
Leaves-fewer xs [] rest e = omega (arith, ap length e)
Leaves-fewer xs (t ∷ ts) rest (pre, post, e, l) =
    let shorter = Leaves-fewer (pre ++ post) ts rest l in
    ground (arith, ap length e, length-append pre (t ∷ post), length-append pre post)

-- What a pass leaves, by whether epoll_wait gave events and the loop function asks to stop.
abbrev AfterPass : ℕ → (given stop : Bool) → World → Type 0
AfterPass n true true w = Over w
AfterPass n true false w = Asleep n w
AfterPass n false stop w = Asleep n w

answer_lem :
    (n now : ℕ) (answer : EpollAnswer) (stop : Bool) (w : World) (s : Asleep n w)
    → Fits s.sleepers answer
    → Returns (AfterPass n (answered answer) stop) (fdtask_answer n answer now stop w)
unfolding answered fdtask_answer
answer_lem n now interrupted stop w s fits = returns s
answer_lem n now failed stop w s fits = absurd fits
answer_lem n now (events ts) true w s (rest, l) =
    let enough : length rest < n = omega (arith, s.few, Leaves-fewer s.sleepers ts rest l) in
    Returns-mono
      (fdtask_round_ends n now ts s.sleepers rest s.ready l s.runnable s.waiting s.sorted enough)
      λ w' e. record {
        ready = (s.ready ++ ts) ++ rest;
        nobody = e.waiting;
        runnable = e.runnable;
        over = e.over;
      }
answer_lem n now (events ts) false w s (rest, l) =
    let enough : length rest < n = omega (arith, s.few, Leaves-fewer s.sleepers ts rest l) in
    Returns-mono
      (fdtask_round_goes_on n now ts s.sleepers rest s.ready l s.runnable s.waiting s.sorted enough)
      λ w' e. record {
        sleepers = e.back;
        ready = (s.ready ++ ts) ++ e.front;
        waiting = e.waiting;
        sorted = e.sorted;
        runnable = e.runnable;
        few = omega (arith, enough, ap length e.parts, length-append e.front e.back);
      }

-- The loop stops, or goes on with the next pass.
go_on :
    {n : ℕ} {w : World} (given stop : Bool) (next : Outcome World)
    → (Asleep n w → Returns Over next)
    → AfterPass n given stop w
    → Returns Over (if given then (if stop then ok w else next) else next)
go_on true true next more over = returns over
go_on true false next more s = more s
go_on false stop next more s = more s

module _ (m : Passes) (n : ℕ)
    (keep : (i : ℕ) (w : World) → Asleep n w → Returns (Asleep n) (m.others i w))
    (named : (i ms : ℕ) (w : World) (xs : List Ptr)
      → Waiting w.heap w.sleeping xs
      → Fits xs (m.epoll_wait i ms w)) where
  pass :
      (i ms : ℕ) (w : World) (s : Asleep n w)
      → Returns
          (AfterPass n (answered (m.epoll_wait i ms w)) (m.stop i))
          (fdtask_answer n (m.epoll_wait i ms w) (m.after i) (m.stop i) w)
  pass i ms w s =
      answer_lem n (m.after i) (m.epoll_wait i ms w) (m.stop i) w s
        (named i ms w s.sleepers s.waiting)

  -- The fd task ends, at the latest in the first pass in which the loop function asks it to stop
  -- and epoll_wait is not interrupted: then nobody sleeps any more, and it can be started again. So
  -- many passes are enough, with as much fuel for the loops over sleeping tasks as there can be
  -- sleepers, if the other tasks keep the lists sound and epoll_wait names sleepers only, each
  -- once, and does not fail.
  pub fdtask_ends :
      (d i : ℕ) (w : World)
      → Asleep n w
      → m.stop (i + d) ≡ true
      → ((ms : ℕ) (w' : World) → answered (m.epoll_wait (i + d) ms w') ≡ true)
      → Returns Over (fdtask m n (suc d) i w)
  unfolding fdtask
  fdtask_ends zero i w s asked given =
      let now : i + 0 ≡ i = omega arith in
      Returns-bind (keep i w s) λ w₁ s₁.
        Returns-bind (wait_ms_lem (m.before i) w₁ s₁.sleepers s₁.waiting) λ ms _.
          let stops : m.stop i ≡ true = ap m.stop (sym now) ∙ asked in
          let gives = ap (λ k. answered (m.epoll_wait k ms w₁)) (sym now) ∙ given ms w₁ in
          Returns-bind (pass i ms w₁ s₁) λ w₂ after.
            rw (gives, stops)
              (returns (
                subst (λ b. AfterPass n b true w₂) gives
                  (subst (λ b. AfterPass n (answered (m.epoll_wait i ms w₁)) b w₂) stops after)))
  fdtask_ends (suc d) i w s asked given =
      let later : i + suc d ≡ i + 1 + d = omega arith in
      Returns-bind (keep i w s) λ w₁ s₁.
        Returns-bind (wait_ms_lem (m.before i) w₁ s₁.sleepers s₁.waiting) λ ms _.
          Returns-bind (pass i ms w₁ s₁) λ w₂.
            go_on (answered (m.epoll_wait i ms w₁)) (m.stop i) (fdtask m n (suc d) (i + 1) w₂) λ s₂.
              fdtask_ends d (i + 1) w₂ s₂ (ap m.stop (sym later) ∙ asked) (
                subst (λ k. (ms' : ℕ) (w' : World) → answered (m.epoll_wait k ms' w') ≡ true) later
                  given)
