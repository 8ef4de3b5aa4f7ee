-- ===== src/Fd/Sweep.antt =====
-- The loops of fdtask of libtask/fd.c behind poll, where there is no epoll: they leave no
-- descriptor that is ready.
use libabhi.Base.{
  ℕ, zero, suc, ◌+◌, ◌-◌, ◌<◌, ◌≤◌, ◌≡◌, ◌≢◌, refl, sym, ap, subst, ◌∙◌, none, some, List, [], ◌∷◌,
  arith, ◌==◌, if◌then◌else◌, inl, inr, Bool-cases, Option, Outcome, ok, err, fault, overrun, abort,
  no_fuel, exit, ◌>>=◌, get_elem?, set, take, length, length-set, length-take, get_elem?-set_other,
  get_elem?-take_append, append-nil,
}
use libabhi.Tasks.{Ptr, Task, Heap, Tasklist, load, modify, addtask, null, task_state_ready}
use libabhi.Sched.{World, taskready}
use libabhi.Fd.Poll.{Polled, drop_polled, wake_polled}

-- A run that a bound on its rounds has not cut off.
abbrev pub Ends {ℓ} : {A : Type ℓ} → Outcome A → Type 0
Ends (ok a) = Unit {0}
Ends (err no_fuel) = ⊥
Ends (err fault) = Unit {0}
Ends (err abort) = Unit {0}
Ends (err overrun) = Unit {0}
Ends (err (exit n)) = Unit {0}

Ends-bind {ℓ κ} :
    {A : Type ℓ} {B : Type κ} (m : Outcome A) (k : A → Outcome B)
    → Ends m
    → ((a : A) → Ends (k a))
    → Ends (m >>= k)
Ends-bind (ok a) k e h = h a
Ends-bind (err no_fuel) k e h = e
Ends-bind (err fault) k e h = tt
Ends-bind (err abort) k e h = tt
Ends-bind (err overrun) k e h = tt
Ends-bind (err (exit n)) k e h = tt

load-Ends : (p : Ptr) (h : Heap) → Ends (load p h)
unfolding load
load-Ends p h = elim (Bool-cases (p == null)) [ inl e ↦ rw e tt | inr n ↦ rw n (found (h p)) ]
  where
    found : (x : Option Task) → Ends (elim x [ none ↦ err fault | some c ↦ ok c ])
    found none = tt
    found (some c) = tt

modify-Ends : (p : Ptr) (f : Task → Task) (h : Heap) → Ends (modify p f h)
unfolding modify
modify-Ends p f h = Ends-bind (load p h) _ (load-Ends p h) λ c. tt

addtask-Ends : (l : Tasklist) (t : Ptr) (h : Heap) → Ends (addtask l t h)
unfolding addtask
addtask-Ends l t h =
    Ends-bind _ _ (linked l.tail) λ (l', h'). Ends-bind _ _ (modify-Ends t _ h') λ h''. tt
  where
    linked :
        (q : Ptr)
        → Ends {A = Tasklist × Heap} (
            if q == null
            then (modify t (λ c. record c { prev = null }) h >>= λ h'.
                ok (record l { head = t }, h'))
            else (modify q (λ c. record c { next = t }) h >>= λ h'.
                modify t (λ c. record c { prev = q }) h' >>= λ h''. ok (l, h'')))
    linked q = elim (Bool-cases (q == null)) [
      | inl e ↦ rw e (Ends-bind _ _ (modify-Ends t _ h) λ h'. tt)
      | inr n ↦
          rw n
            (Ends-bind _ _ (modify-Ends q _ h) λ h'. Ends-bind _ _ (modify-Ends t _ h') λ h''. tt)
    ]

taskready-Ends : (t : Ptr) (w : World) → Ends (taskready t w)
unfolding taskready
taskready-Ends t w = Ends-bind _ _ (load-Ends t w.heap) λ c.
    elim (Bool-cases (c._state == task_state_ready)) [
      | inl e ↦ rw e tt
      | inr n ↦ rw n (
          Ends-bind _ _ (modify-Ends t _ w.heap)
            λ h. Ends-bind _ _ (addtask-Ends w.taskrunqueue t h) λ (q, h'). tt)
    ]

-- What the loops leave from the index `i` on, if they return: entries before it are as they were, and no
-- entry behind has its `revents` set.
abbrev pub Swept : (i : ℕ) → List Polled → Outcome (List Polled × World) → Type 0
Swept i p (ok (p', w)) =
    ((j : ℕ) → j < i → get_elem? p' j ≡ get_elem? p j)
    × ((j : ℕ) (e : Polled) → i ≤ j → get_elem? p' j ≡ some e → e.revents ≡ 0)
Swept i p (err no_fuel) = ⊥
Swept i p (err fault) = Unit {0}
Swept i p (err abort) = Unit {0}
Swept i p (err overrun) = Unit {0}
Swept i p (err (exit n)) = Unit {0}

Swept-bind {ℓ} :
    {A : Type ℓ} (i : ℕ) (p : List Polled) (m : Outcome A) (k : A → Outcome (List Polled × World))
    → Ends m
    → ((a : A) → m ≡ ok a → Swept i p (k a))
    → Swept i p (m >>= k)
Swept-bind i p (ok a) k e h = h a refl
Swept-bind i p (err no_fuel) k e h = e
Swept-bind i p (err fault) k e h = tt
Swept-bind i p (err abort) k e h = tt
Swept-bind i p (err overrun) k e h = tt
Swept-bind i p (err (exit n)) k e h = tt

beyond : (xs : List Polled) (i j : ℕ) → get_elem? xs i ≡ none → i ≤ j → get_elem? xs j ≡ none
beyond [] i j e h = refl
beyond (x ∷ xs) zero j e h = cc
beyond (x ∷ xs) (suc i) zero e h = absurd (omega arith)
beyond (x ∷ xs) (suc i) (suc j) e h = beyond xs i j e (omega arith)

some-inj : {d e : Polled} → some d ≡ some e → d ≡ e
some-inj e = cc

none-some : {e : Polled} → none ≡ some e → ⊥
none-some e = cc

-- Behind the end of the array there is nothing to sweep.
past_end : (p : List Polled) (i : ℕ) (w : World) → get_elem? p i ≡ none → Swept i p (ok (p, w))
past_end p i w e = (λ j h. refl, λ j e' h at. absurd (none-some (sym (beyond p i j e h) ∙ at)))

-- An entry that is not ready is passed over.
passed :
    (i : ℕ) (p : List Polled) (e : Polled) (r : Outcome (List Polled × World))
    → get_elem? p i ≡ some e
    → e.revents ≡ 0
    → Swept (i + 1) p r
    → Swept i p r
passed i p e (ok (p', w)) at quiet (before, behind) = (
  λ j h. before j (omega arith),
  λ j e' h at'. elim (Bool-cases (j == i)) [
    | inl same ↦
        let here : j ≡ i = ground arith in
        let same_entry = sym at' ∙ ap (get_elem? p') here ∙ before i (omega arith) ∙ at in
        ap (λ x. x.revents) (some-inj same_entry) ∙ quiet
    | inr other ↦ behind j e' (ground arith) at'
  ],
)
passed i p e (err no_fuel) at quiet s = s
passed i p e (err fault) at quiet s = tt
passed i p e (err abort) at quiet s = tt
passed i p e (err overrun) at quiet s = tt
passed i p e (err (exit n)) at quiet s = tt

-- An entry that is ready is replaced by the last one, which is looked at next.
dropped :
    (i : ℕ) (p : List Polled) (last : Polled) (r : Outcome (List Polled × World))
    → i < length p
    → Swept i (take (length p - 1) (set p i last)) r
    → Swept i p r
dropped i p last (ok (p', w)) inside (before, behind) = (
  λ j h.
      let n = length p - 1 in
      let q = set p i last in
      let short : j < n = omega arith in
      let within : j < length q = omega (arith, length-set p i last) in
      let apart : j ≢ i = omega arith in
      before j h
      ∙ ap (λ l. get_elem? l j) (sym (append-nil (take n q)))
      ∙ get_elem?-take_append q [] n j short within
      ∙ get_elem?-set_other p i j last apart,
  behind,
)
dropped i p last (err no_fuel) inside s = s
dropped i p last (err fault) inside s = tt
dropped i p last (err abort) inside s = tt
dropped i p last (err overrun) inside s = tt
dropped i p last (err (exit n)) inside s = tt

drop_polled-Ends : (p : List Polled) (i : ℕ) → Ends (drop_polled p i)
unfolding drop_polled
drop_polled-Ends p i = go (get_elem? p (length p - 1))
  where
    go :
        (x : Option Polled)
        → Ends (elim x [ none ↦ err fault | some last ↦ ok (take (length p - 1) (set p i last)) ])
    go none = tt
    go (some last) = tt

drop_polled-some :
    (p p' : List Polled) (i : ℕ)
    → drop_polled p i ≡ ok p'
    → (last : Polled) × (p' ≡ take (length p - 1) (set p i last))
unfolding drop_polled
drop_polled-some p p' i e = go (get_elem? p (length p - 1)) e
  where
    go :
        (x : Option Polled)
        → elim x [ none ↦ err fault | some last ↦ ok (take (length p - 1) (set p i last)) ] ≡ ok p'
        → (last : Polled) × (p' ≡ take (length p - 1) (set p i last))
    go none e' = cc
    go (some last) e' = (last, cc)

inside : (p : List Polled) (i : ℕ) (e : Polled) → get_elem? p i ≡ some e → i < length p
inside [] i e at = cc
inside (x ∷ p) zero e at = omega arith
inside (x ∷ p) (suc i) e at = omega (arith, inside p i e at)

-- A round of the loops, by what the next one does.
one_round :
    (n i : ℕ) (p : List Polled) (w : World)
    → (i < length p → Swept (i + 1) p (wake_polled n (i + 1) p w))
    → ((p' : List Polled) (w' : World)
        → i < length p
        → length p' + 1 ≡ length p
        → Swept i p' (wake_polled n i p' w'))
    → Swept i p (wake_polled (suc n) i p w)
unfolding wake_polled
one_round n i p w skip again = go (get_elem? p i) refl
  where
    replaced :
        (e : Polled)
        → i < length p
        → Swept i p (taskready e.task w >>= λ w'. drop_polled p i >>= λ p'. wake_polled n i p' w')
    replaced e h = Swept-bind i p (taskready e.task w) _ (taskready-Ends e.task w) λ w' _.
        Swept-bind i p (drop_polled p i) _ (drop_polled-Ends p i) λ p' eq.
          let (last, is) = drop_polled-some p p' i eq in
          let q = take (length p - 1) (set p i last) in
          let shorter : length q + 1 ≡ length p =
            omega (arith, h, length-take (length p - 1) (set p i last), length-set p i last) in
          subst (λ l. Swept i p (wake_polled n i l w')) (sym is)
            (dropped i p last (wake_polled n i q w') h (again q w' h shorter))

    go :
        (x : Option Polled)
        → get_elem? p i ≡ x
        → Swept i p (elim x [
          | none ↦ ok (p, w)
          | some e ↦
              if e.revents == 0
              then wake_polled n (i + 1) p w
              else (taskready e.task w >>= λ w'. drop_polled p i >>= λ p'. wake_polled n i p' w')
        ])
    go none at = past_end p i w at
    go (some e) at = elim (Bool-cases (e.revents == 0)) [
      | inl quiet ↦
          rw quiet
            (passed i p e (wake_polled n (i + 1) p w) at (ground arith) (skip (inside p i e at)))
      | inr ready ↦ rw ready (replaced e (inside p i e at))
    ]

-- Whatever poll has filled in, with more rounds than there are entries from `i` on the two loops
-- end, and if they return, no entry from `i` on has its `revents` set, and those before `i` are as
-- they were.
pub wake_polled_lem :
    (n i : ℕ) (p : List Polled) (w : World) → length p - i < n → Swept i p (wake_polled n i p w)
wake_polled_lem zero i p w enough = absurd (omega arith)
wake_polled_lem (suc n) i p w enough =
    one_round n i p w (λ h. wake_polled_lem n (i + 1) p w (omega arith))
      λ p' w' h shorter. wake_polled_lem n i p' w' (omega arith)
