-- ===== src/Channel/Leave.antt =====
-- A task waits with all its Alts, and leaves with all of them: chanalt and altalldequeue of
-- libtask/channel.c.
use libabhi.Base.{
  ℕ, zero, suc, ◌+◌, ◌<◌, ◌≤◌, ◌≡◌, sym, ap, subst, ◌∙◌, true, false, ◌⊎◌, inl, inr, [], ◌++◌,
  arith, ◌==◌, ◌>>=◌, Returns, returns, Returns-bind, Returns-mono,
}
use libabhi.Channel.{Ptr, Alt, System, Side, send, recv, channop, ends, altalldequeue}
use libabhi.Channel.Delarray.{one, occ, occ-append}
use libabhi.Channel.Exec.{queue_all}
use libabhi.Channel.Waiting.{
  op_of, at, entry, belonging, IsRoomy, Same, Same-refl, Same-trans, entry-here, altdequeue_lem,
  altqueue_lem,
}

-- An Alt of a select sends, receives, or is passed over.
abbrev pub IsValid : Alt → Type 0
IsValid a = ((d : Side) × (a.op ≡ op_of d)) ⊎ (a.op ≡ channop)

-- `k` Alts from `p` on, and the end of the array behind them.
abbrev pub IsSelect : ℕ → Ptr → (Ptr → Alt) → Type 0
IsSelect zero p f = ends (f p).op ≡ true
IsSelect (suc k) p f = IsValid (f p) × IsSelect k (p + 1) f

ends-valid : (d : Side) (op : ℕ) → op ≡ op_of d → (ends op ≡ false) × ((op == channop) ≡ false)
ends-valid send op e = (ground (arith, e), ground (arith, e))
ends-valid recv op e = (ground (arith, e), ground (arith, e))

entry-nop : (a : Alt) (p c : Ptr) (d : Side) → a.op ≡ channop → entry a p c d ≡ []
entry-nop a p c send e = ground (arith, e)
entry-nop a p c recv e = ground (arith, e)

-- Between `small` and `big` the `n` Alts from `p` on have come or gone.
pub record Gathered (σ : System) (n : ℕ) (p : Ptr) (j : ℕ) (big small σ' : System) : Type 0 where
  pub same : Same σ σ'
  pub roomy : IsRoomy j σ'
  pub counts :
      (c : Ptr) (d : Side) (q : Ptr)
      → occ q (at big c d) ≡ occ q (belonging n p σ.alt c d) + occ q (at small c d)

-- Each Alt stands at its channel as often as it belongs there.
abbrev pub AllWait : System → ℕ → Ptr → Type 0
AllWait σ n p = (c : Ptr) (d : Side) (q : Ptr) → occ q (belonging n p σ.alt c d) ≤ occ q (at σ c d)

one_self : (p : Ptr) → one p p ≡ 1
one_self p = ground arith

-- altalldequeue takes all Alts of a task that waits out of the arrays, and nothing else.
pub altalldequeue_lem :
    (fuel n : ℕ) (p : Ptr) (σ : System) (j : ℕ)
    → IsSelect n p σ.alt
    → IsRoomy j σ
    → AllWait σ n p
    → n < fuel
    → Returns (λ σ'. Gathered σ n p j σ σ' σ') (altalldequeue fuel p σ)
unfolding altalldequeue
altalldequeue_lem zero n p σ j sel roomy wait enough = absurd (omega arith)
altalldequeue_lem (suc fuel) zero p σ j sel roomy wait enough =
    rw sel (returns (record { same = Same-refl σ; roomy = roomy; counts = λ c d q. omega arith }))
altalldequeue_lem (suc fuel) (suc n) p σ j (inr nop, sel) roomy wait enough =
    let on : ends (σ.alt p).op ≡ false = ground (arith, nop) in
    let passed : ((σ.alt p).op == channop) ≡ true = ground (arith, nop) in
    let gone : (c : Ptr) (d : Side) (q : Ptr)
        → occ q (belonging (suc n) p σ.alt c d) ≡ occ q (belonging n (p + 1) σ.alt c d) =
      λ c d q.
        ap (λ l. occ q (l ++ belonging n (p + 1) σ.alt c d)) (entry-nop (σ.alt p) p c d nop) in
    rw (on, passed)
      (Returns-mono
        (altalldequeue_lem fuel n (p + 1) σ j sel roomy
          (λ c d q. omega (arith, wait c d q, gone c d q)) (omega arith))
        λ σ' g. record {
          same = g.same;
          roomy = g.roomy;
          counts = λ c d q. omega (arith, g.counts c d q, gone c d q);
        })
altalldequeue_lem (suc fuel) (suc n) p σ j (inl (d₀, is_op), sel) roomy wait enough =
    let (on, used) = ends-valid d₀ (σ.alt p).op is_op in
    let split : (c : Ptr) (d : Side) (q : Ptr)
        → occ q (belonging (suc n) p σ.alt c d)
          ≡ occ q (entry (σ.alt p) p c d) + occ q (belonging n (p + 1) σ.alt c d) =
      λ c d q. occ-append q (entry (σ.alt p) p c d) (belonging n (p + 1) σ.alt c d) in
    let c₀ = (σ.alt p).c in
    let waits : 0 < occ p (at σ c₀ d₀) = omega (
      arith,
      wait c₀ d₀ p,
      split c₀ d₀ p,
      ap (occ p) (entry-here (σ.alt p) p d₀ is_op),
      one_self p,
    ) in
    rw (on, used)
      (Returns-bind (altdequeue_lem σ p d₀ is_op j roomy waits) λ σ₁ m.
        let sel₁ = subst (IsSelect n (p + 1)) (sym m.same.alt_eq) sel in
        let kept : (c : Ptr) (d : Side) (q : Ptr)
            → occ q (belonging n (p + 1) σ₁.alt c d) ≡ occ q (belonging n (p + 1) σ.alt c d) =
          λ c d q. ap (λ f. occ q (belonging n (p + 1) f c d)) m.same.alt_eq in
        Returns-mono
          (altalldequeue_lem fuel n (p + 1) σ₁ j sel₁ m.roomy
            (λ c d q. omega (arith, wait c d q, split c d q, m.counts c d q, kept c d q))
            (omega arith))
          λ σ' g. record {
            same = Same-trans m.same g.same;
            roomy = g.roomy;
            counts =
                λ c d q. omega (arith, g.counts c d q, split c d q, m.counts c d q, kept c d q);
          })

suc_sum : (n j : ℕ) (σ : System) → IsRoomy (suc n + j) σ → IsRoomy (suc (n + j)) σ
suc_sum n j σ r = let e : suc n + j ≡ suc (n + j) = omega arith in subst (λ k. IsRoomy k σ) e r

less_room : (k : ℕ) (σ : System) → IsRoomy (suc k) σ → IsRoomy k σ
less_room k σ r = λ c d. let (array, more) = r c d in (array, omega (arith, more))

next_index : (a i : ℕ) → a + i + 1 ≡ a + (i + 1)
next_index a i = omega arith

shifted :
    (n a i : ℕ) (σ : System) (j : ℕ)
    → Returns (λ σ'. Gathered σ n (a + (i + 1)) j σ' σ σ') (queue_all n a (i + 1) σ)
    → Returns (λ σ'. Gathered σ n (a + i + 1) j σ' σ σ') (queue_all n a (i + 1) σ)
shifted n a i σ j =
    subst (λ x. Returns (λ σ'. Gathered σ n x j σ' σ σ') (queue_all n a (i + 1) σ))
      (sym (next_index a i))

-- The last loop of chanalt puts all Alts of the task into the arrays, and nothing else.
pub queue_all_lem :
    (n : ℕ) (a : Ptr) (i : ℕ) (σ : System) (j : ℕ)
    → IsSelect n (a + i) σ.alt
    → IsRoomy (n + j) σ
    → σ.machine.grows ≡ true
    → Returns (λ σ'. Gathered σ n (a + i) j σ' σ σ') (queue_all n a i σ)
unfolding queue_all
queue_all_lem zero a i σ j sel roomy memory = returns (record {
  same = Same-refl σ;
  roomy = subst (λ k. IsRoomy k σ) (omega arith) roomy;
  counts = λ c d q. omega arith;
})
queue_all_lem (suc n) a i σ j (inr nop, sel) roomy memory =
    let p = a + i in
    let passed : ((σ.alt p).op == channop) ≡ true = ground (arith, nop) in
    let gone : (c : Ptr) (d : Side) (q : Ptr)
        → occ q (belonging (suc n) p σ.alt c d) ≡ occ q (belonging n (p + 1) σ.alt c d) =
      λ c d q.
        ap (λ l. occ q (l ++ belonging n (p + 1) σ.alt c d)) (entry-nop (σ.alt p) p c d nop) in
    rw passed (
      Returns-mono
        (shifted n a i σ j (
          queue_all_lem n a (i + 1) σ j (subst (λ x. IsSelect n x σ.alt) (next_index a i) sel)
            (less_room (n + j) σ (suc_sum n j σ roomy)) memory))
        λ σ' g. record {
          same = g.same;
          roomy = g.roomy;
          counts = λ c d q. omega (arith, g.counts c d q, gone c d q);
        })
queue_all_lem (suc n) a i σ j (inl (d₀, is_op), sel) roomy memory =
    let p = a + i in
    let (on, used) = ends-valid d₀ (σ.alt p).op is_op in
    let split : (c : Ptr) (d : Side) (q : Ptr)
        → occ q (belonging (suc n) p σ.alt c d)
          ≡ occ q (entry (σ.alt p) p c d) + occ q (belonging n (p + 1) σ.alt c d) =
      λ c d q. occ-append q (entry (σ.alt p) p c d) (belonging n (p + 1) σ.alt c d) in
    rw used (
      Returns-bind (altqueue_lem σ p d₀ is_op (n + j) (suc_sum n j σ roomy) memory) λ σ₁ m.
        let sel₁ = subst (IsSelect n (p + 1)) (sym m.same.alt_eq) sel in
        let kept : (c : Ptr) (d : Side) (q : Ptr)
            → occ q (belonging n (p + 1) σ₁.alt c d) ≡ occ q (belonging n (p + 1) σ.alt c d) =
          λ c d q. ap (λ f. occ q (belonging n (p + 1) f c d)) m.same.alt_eq in
        Returns-mono
          (shifted n a i σ₁ j (
            queue_all_lem n a (i + 1) σ₁ j (subst (λ x. IsSelect n x σ₁.alt) (next_index a i) sel₁)
              m.roomy (ap (λ x. x.grows) m.same.machine_eq ∙ memory)))
          λ σ' g. record {
            same = Same-trans m.same g.same;
            roomy = g.roomy;
            counts =
                λ c d q. omega (arith, g.counts c d q, split c d q, m.counts c d q, kept c d q);
          })

-- With room in the arrays, and memory for them to grow, putting the Alts of a task into them and
-- taking these out again leaves no trace in any channel: each array holds the same Alts as before,
-- each as often, and nothing else has changed.
pub queue_all-altalldequeue :
    (fuel n : ℕ) (a : Ptr) (σ : System) (j : ℕ)
    → IsSelect n a σ.alt
    → IsRoomy (n + j) σ
    → σ.machine.grows ≡ true
    → n < fuel
    → Returns
        (λ σ'. Same σ σ' × ((c : Ptr) (d : Side) (q : Ptr) → occ q (at σ' c d) ≡ occ q (at σ c d)))
        (queue_all n a 0 σ >>= λ σ₁. altalldequeue fuel a σ₁)
queue_all-altalldequeue fuel n a σ j sel roomy memory enough =
    let e : a ≡ a + 0 = omega arith in
    let queued : Returns (λ σ'. Gathered σ n a j σ' σ σ') (queue_all n a 0 σ) =
      subst (λ x. Returns (λ σ'. Gathered σ n x j σ' σ σ') (queue_all n a 0 σ)) (sym e)
        (queue_all_lem n a 0 σ j (subst (λ x. IsSelect n x σ.alt) e sel) roomy memory) in
    Returns-bind queued λ σ₁ g.
      let same_alts : (c : Ptr) (d : Side) (q : Ptr)
          → occ q (belonging n a σ₁.alt c d) ≡ occ q (belonging n a σ.alt c d) =
        λ c d q. ap (λ f. occ q (belonging n a f c d)) g.same.alt_eq in
      Returns-mono
        (altalldequeue_lem fuel n a σ₁ j (subst (IsSelect n a) (sym g.same.alt_eq) sel) g.roomy
          (λ c d q. omega (arith, g.counts c d q, same_alts c d q)) enough)
        λ σ' l. (
          Same-trans g.same l.same,
          λ c d q. omega (arith, g.counts c d q, l.counts c d q, same_alts c d q),
        )
