-- ===== src/Channel/Block.antt =====
-- A task that must wait: chanalt of libtask/channel.c where no Alt can be executed.
use libabhi.Base.{
  ℕ, zero, suc, true, false, ◌+◌, ◌<◌, ◌≤◌, ◌≡◌, refl, sym, ap, subst, ◌∙◌, arith, ◌==◌, Bool-cases,
  inl, inr, ok, Returns, returns, Returns-bind, Returns-mono,
}
use libabhi.Sched.Ready.{Idle}
use libabhi.Channel.{Ptr, Alt, System, Side, chanend, ends, update}
use libabhi.Channel.Delarray.{occ}
use libabhi.Channel.Exec.{chanalt, claim, count_alts, count_can, waits}
use libabhi.Channel.Leave.{IsSelect, Gathered, queue_all_lem}
use libabhi.Channel.Meet.{IsWaiting}
use libabhi.Channel.Select.{HasStack, AllLive, chanalt_blocks}
use libabhi.Channel.Waiting.{belonging, IsRoomy}

-- claim changes only who waits and where the Alts begin.
module _ (a : Ptr) where
  claim-op : (k i : ℕ) (σ : System) (q : Ptr) → ((claim k a i σ).alt q).op ≡ (σ.alt q).op
  unfolding claim
  claim-op zero i σ q = refl
  claim-op (suc k) i σ q =
      let τ = record σ {
        alt =
            update σ.alt (a + i) (record (σ.alt (a + i)) { task = σ.world.taskrunning; xalt = a });
      } in
      claim-op k (i + 1) τ q ∙ elim (Bool-cases (q == a + i)) [
        | inl e ↦ let same : q ≡ a + i = ground arith in rw e (ap (λ y. (σ.alt y).op) (sym same))
        | inr n ↦ rw n refl
      ]

  claim-rest : (k i : ℕ) (σ : System) → claim k a i σ ≡ record σ { alt = (claim k a i σ).alt }
  unfolding claim
  claim-rest zero i σ = refl
  claim-rest (suc k) i σ =
      let τ = record σ {
        alt =
            update σ.alt (a + i) (record (σ.alt (a + i)) { task = σ.world.taskrunning; xalt = a });
      } in
      claim-rest k (i + 1) τ

  claim-earlier : (k i : ℕ) (σ : System) (q : Ptr) → q < a + i → (claim k a i σ).alt q ≡ σ.alt q
  unfolding claim
  claim-earlier zero i σ q h = refl
  claim-earlier (suc k) i σ q h =
      let τ = record σ {
        alt =
            update σ.alt (a + i) (record (σ.alt (a + i)) { task = σ.world.taskrunning; xalt = a });
      } in
      let other : (q == a + i) ≡ false = ground (arith, h) in
      claim-earlier k (i + 1) τ q (omega arith) ∙ rw other refl

  claim-mine :
      (k i m : ℕ) (σ : System)
      → i ≤ m
      → m < i + k
      → (((claim k a i σ).alt (a + m)).task ≡ σ.world.taskrunning)
        × (((claim k a i σ).alt (a + m)).xalt ≡ a)
  unfolding claim
  claim-mine zero i m σ l h = absurd (omega arith)
  claim-mine (suc k) i m σ l h =
      let mine = record (σ.alt (a + i)) { task = σ.world.taskrunning; xalt = a } in
      let τ = record σ { alt = update σ.alt (a + i) mine } in
      elim (Bool-cases (m == i)) [
        | inl e ↦
            let same : m ≡ i = ground arith in
            let self : (a + m == a + i) ≡ true = ground arith in
            let kept : (claim k a (i + 1) τ).alt (a + m) ≡ mine =
              claim-earlier k (i + 1) τ (a + m) (omega arith) ∙ rw self refl in
            (ap (λ x. x.task) kept, ap (λ x. x.xalt) kept)
        | inr n ↦
            let later : i + 1 ≤ m = ground arith in claim-mine k (i + 1) m τ later (omega arith)
      ]

IsSelect-op :
    (n : ℕ) (p : Ptr) (f g : Ptr → Alt)
    → ((q : Ptr) → (g q).op ≡ (f q).op)
    → IsSelect n p f
    → IsSelect n p g
IsSelect-op zero p f g same end = ap ends (same p) ∙ end
IsSelect-op (suc n) p f g same (inl (d, is_op), rest) =
    (inl (d, same p ∙ is_op), IsSelect-op n (p + 1) f g same rest)
IsSelect-op (suc n) p f g same (inr nop, rest) =
    (inr (same p ∙ nop), IsSelect-op n (p + 1) f g same rest)

module _ (fuel j i : ℕ) (a : Ptr) (σ : System) (n room : ℕ) (counted : count_alts fuel a 0 σ ≡ ok n)
    (none_can : count_can n a 0 (claim n a 0 σ) ≡ 0) (ends_so : (σ.alt (a + n)).op ≡ chanend)
    (select : IsSelect n a σ.alt) (roomy : IsRoomy (n + room) σ)
    (idle : Idle σ.world.heap σ.world.taskrunning) (deep : HasStack σ) (alive : AllLive n a 0 σ)
    (memory : σ.machine.grows ≡ true) where
  abbrev claimed : System
  claimed = claim n a 0 σ

  pub waiting_lem :
      (m : ℕ) (σ' : System)
      → m < n
      → Gathered claimed n (a + 0) room σ' claimed σ'
      → IsWaiting σ' (a + m) n
  waiting_lem m σ' below g =
      let (mine, first) = claim-mine a n 0 m σ (omega arith) (omega arith) in
      let x_eq : (σ'.alt (a + m)).xalt ≡ a = ap (λ f. (f (a + m)).xalt) g.same.alt_eq ∙ first in
      let task_eq : (σ'.alt (a + m)).task ≡ σ.world.taskrunning =
        ap (λ f. (f (a + m)).task) g.same.alt_eq ∙ mine in
      let world_eq = g.same.world_eq ∙ ap (λ τ. τ.world) (claim-rest a n 0 σ) in
      let start : a ≡ a + 0 = omega arith in
      let same : (c : Ptr) (d : Side)
          → belonging n ((σ'.alt (a + m)).xalt) σ'.alt c d ≡ belonging n (a + 0) claimed.alt c d =
        λ c d.
          ap (λ y. belonging n y σ'.alt c d) (x_eq ∙ start)
          ∙ ap (λ f. belonging n (a + 0) f c d) g.same.alt_eq in
      record {
        select =
            subst (λ y. IsSelect n y σ'.alt) (sym x_eq)
              (subst (IsSelect n a) (sym g.same.alt_eq)
                (IsSelect-op n a σ.alt claimed.alt (claim-op a n 0 σ) select));
        all_wait = λ c d q. omega (arith, g.counts c d q, ap (occ q) (same c d));
        idle =
            subst (λ w. Idle w.heap ((σ'.alt (a + m)).task)) (sym world_eq)
              (subst (Idle σ.world.heap) (sym task_eq) idle);
      }

  -- The running task is left waiting, and its Alts are added to the arrays where they belong.
  pub chanalt_queues :
      Returns
        (λ (r, σ'). (r ≡ waits) × Gathered claimed n (a + 0) room σ' claimed σ')
        (chanalt fuel j i a σ)
  chanalt_queues =
      let start : a ≡ a + 0 = omega arith in
      let select₁ = IsSelect-op n a σ.alt claimed.alt (claim-op a n 0 σ) select in
      let queued =
        queue_all_lem n a 0 claimed room (subst (λ y. IsSelect n y claimed.alt) start select₁)
          (subst (IsRoomy (n + room)) (sym (claim-rest a n 0 σ)) roomy)
          (ap (λ τ. τ.machine.grows) (claim-rest a n 0 σ) ∙ memory) in
      subst (Returns (λ (r, σ'). (r ≡ waits) × Gathered claimed n (a + 0) room σ' claimed σ'))
        (sym (chanalt_blocks fuel j i a σ n counted deep alive none_can ends_so))
        (Returns-bind queued λ σ' g. returns (refl, g))

  -- When none of its Alts can be executed, they name open channels, the array ends with CHANEND,
  -- there is room in the arrays of the channels and memory for these to grow, and 768 bytes of the
  -- running task's stack are left, chanalt leaves the running task waiting with all of them:
  -- whichever one another task meets, all are in the arrays where they belong, and name this task
  -- and the first Alt. It never stops with a fault.
  pub chanalt_waits :
      (m : ℕ)
      → m < n
      → Returns
          (λ (r, σ').
            (r ≡ waits)
            × IsWaiting σ' (a + m) n
            × ((σ'.alt (a + m)).task ≡ σ.world.taskrunning)
            × ((σ'.alt (a + m)).xalt ≡ a)
            × (σ'.world ≡ σ.world))
          (chanalt fuel j i a σ)
  chanalt_waits m below =
      let (mine, first) = claim-mine a n 0 m σ (omega arith) (omega arith) in
      Returns-mono chanalt_queues λ (r, σ') (e, g). (
        e,
        waiting_lem m σ' below g,
        ap (λ f. (f (a + m)).task) g.same.alt_eq ∙ mine,
        ap (λ f. (f (a + m)).xalt) g.same.alt_eq ∙ first,
        g.same.world_eq ∙ ap (λ τ. τ.world) (claim-rest a n 0 σ),
      )
