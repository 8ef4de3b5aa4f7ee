-- ===== src/Channel/Meet.antt =====
-- A task finds another one waiting at a channel: altexec of libtask/channel.c.
use libabhi.Base.{
  ℕ, suc, ◌+◌, ◌-◌, ◌*◌, ◌^◌, ◌%◌, ◌<◌, ◌≡◌, refl, sym, ap, subst, ◌∙◌, true, false, some, List, [],
  ◌∷◌, ◌++◌, arith, ◌==◌, Bool-cases, inl, inr, get_elem?, Returns, returns, Returns-bind,
}
use libabhi.Sched.Ready.{Idle, Runnable, taskready_lem}
use libabhi.Channel.{
  Ptr, Alt, Altarray, System, Side, recv, chansnd, chanrcv, alts, send, update, otherop, chanarray,
}
use libabhi.Channel.Arrays.{IsArray}
use libabhi.Channel.Copy.{Copied, copy_direct, copy_back}
use libabhi.Channel.Delarray.{occ}
use libabhi.Channel.Exec.{source, target, altcopy, meet, altexec, chanalt_resume}
use libabhi.Channel.Waiting.{at, belonging, IsRoomy}
use libabhi.Channel.Leave.{IsSelect, AllWait, altalldequeue_lem}

-- The Alt `other` is one of the `n` with which an idle task waits, each in the array of its channel.
pub record IsWaiting (σ : System) (other : Ptr) (n : ℕ) : Type 0 where
  pub select : IsSelect n (σ.alt other).xalt σ.alt
  pub all_wait : AllWait σ n (σ.alt other).xalt
  pub idle : Idle σ.world.heap (σ.alt other).task

-- The other task has left all arrays, is ready, and will return the index of `other`.
pub record Met (σ : System) (other : Ptr) (n : ℕ) (ready : List Ptr) (mem : Ptr → ℕ) (σ' : System)
    : Type 0 where
  pub moved : σ'.mem ≡ mem
  pub left :
      (c : Ptr) (d : Side) (q : Ptr)
      → occ q (at σ c d) ≡ occ q (belonging n (σ.alt other).xalt σ.alt c d) + occ q (at σ' c d)
  pub woken : Runnable σ'.world (ready ++ ((σ.alt other).task ∷ []))
  pub returns_index : chanalt_resume (σ.alt other).xalt σ' ≡ other - (σ.alt other).xalt

task_kept :
    (f : Ptr → Alt) (first other x : Ptr)
    → (update f first (record (f first) { xalt = other }) x).task ≡ (f x).task
task_kept f first other x = elim (Bool-cases (x == first)) [
  | inl e ↦ let same : x ≡ first = ground arith in rw e (sym (ap (λ y. (f y).task) same))
  | inr n ↦ rw n refl
]

xalt_set :
    (f : Ptr → Alt) (first other : Ptr)
    → (update f first (record (f first) { xalt = other }) first).xalt ≡ other
xalt_set f first other = let same : (first == first) ≡ true = ground arith in rw same refl

module _ (fuel i : ℕ) (p other : Ptr) (ar : Altarray) (σ : System) (n j : ℕ) (mem : Ptr → ℕ)
    (ready : List Ptr) where
  meet_lem :
      get_elem? ar.a (i % ar.n) ≡ some other
      → IsWaiting σ other n
      → IsRoomy j σ
      → Runnable σ.world ready
      → n < fuel
      → Returns
          (λ σ₁. Copied σ σ₁ × (σ₁.mem ≡ mem))
          (altcopy (some (σ.alt p)) (some (σ.alt other)) σ)
      → Returns (Met σ other n ready mem) (meet fuel i p ar σ)
  unfolding meet chanalt_resume
  meet_lem chosen w roomy r enough copied =
      rw (chosen, meet)
        (Returns-bind copied λ σ₁ (k, mem_eq).
          let x = (σ₁.alt other).xalt in
          let x_eq : x ≡ (σ.alt other).xalt = ap (λ f. (f other).xalt) k.alt_eq in
          let sel : IsSelect n x σ₁.alt =
            subst (λ f. IsSelect n (f other).xalt f) (sym k.alt_eq) w.select in
          let same_at : (c : Ptr) (d : Side) → at σ₁ c d ≡ at σ c d =
            λ c d. ap alts (k.sides c d) in
          let same_belonging : (c : Ptr) (d : Side)
              → belonging n x σ₁.alt c d ≡ belonging n (σ.alt other).xalt σ.alt c d =
            λ c d. ap (λ f. belonging n (f other).xalt f c d) k.alt_eq in
          let wait : AllWait σ₁ n x = λ c d q.
            omega (
              arith,
              w.all_wait c d q,
              ap (occ q) (same_at c d),
              ap (occ q) (same_belonging c d),
            ) in
          let roomy₁ : IsRoomy j σ₁ = λ c d.
            subst (λ a. IsArray a × (a.m + 16 * suc j < 2 ^ 32)) (sym (k.sides c d)) (roomy c d) in
          Returns-bind (altalldequeue_lem fuel n x σ₁ j sel roomy₁ wait enough) λ σ₂ g.
            let alt_all : σ₂.alt ≡ σ.alt = g.same.alt_eq ∙ k.alt_eq in
            let world_all : σ₂.world ≡ σ.world = g.same.world_eq ∙ k.world_eq in
            let first = (σ₂.alt other).xalt in
            let first_eq : first ≡ (σ.alt other).xalt = ap (λ f. (f other).xalt) alt_all in
            let alt₃ = update σ₂.alt first (record (σ₂.alt first) { xalt = other }) in
            let t = (alt₃ other).task in
            let task_eq : t ≡ (σ.alt other).task =
              task_kept σ₂.alt first other other ∙ ap (λ f. (f other).task) alt_all in
            let r₂ : Runnable σ₂.world ready = subst (λ v. Runnable v ready) (sym world_all) r in
            let idle₂ : Idle σ₂.world.heap t =
              subst (λ v. Idle v.heap t) (sym world_all)
                (subst (Idle σ.world.heap) (sym task_eq) w.idle) in
            Returns-bind (taskready_lem t ready r₂ idle₂) λ v m. returns (record {
              moved = g.same.mem_eq ∙ mem_eq;
              left = λ c d q. omega (
                arith,
                g.counts c d q,
                ap (occ q) (same_at c d),
                ap (occ q) (same_belonging c d),
              );
              woken = subst (λ a. Runnable v (ready ++ (a ∷ []))) task_eq m.runnable;
              returns_index =
                  ap (λ y. (alt₃ y).xalt - y) (sym first_eq)
                  ∙ ap (λ y. y - first) (xalt_set σ₂.alt first other)
                  ∙ ap (λ y. other - y) first_eq;
            }))

other_side : chanarray (otherop chansnd) ≡ some recv
unfolding chanarray
other_side = refl

-- A sender at a channel that holds nothing and where receivers wait: its element goes to the receiver
-- drawn; that task leaves all channels at which it waits, is ready, and will return the index of the
-- Alt that received. It is enough to have more rounds than that task has Alts; altexec never stops
-- with a fault or by abort.
pub altexec_meets :
    (fuel i : ℕ) (p other : Ptr) (σ : System) (n j : ℕ) (ready : List Ptr)
    → (σ.alt p).op ≡ chansnd
    → (σ.chan (σ.alt p).c).nbuf ≡ 0
    → 0 < (σ.chan (σ.alt p).c).arecv.n
    → (let ar = (σ.chan (σ.alt p).c).arecv in get_elem? ar.a (i % ar.n) ≡ some other)
    → (σ.alt other).op ≡ chanrcv
    → IsWaiting σ other n
    → IsRoomy j σ
    → Runnable σ.world ready
    → n < fuel
    → Returns
        (Met σ other n ready (target (σ.alt other).v (source (σ.alt p).v σ.mem) σ.mem))
        (altexec fuel i p σ)
unfolding altexec
altexec_meets fuel i p other σ n j ready sends nothing some_wait drawn receives w roomy r enough =
    let ar = (σ.chan (σ.alt p).c).arecv in
    let found : chanarray (otherop (σ.alt p).op) ≡ some recv =
      ap (λ o. chanarray (otherop o)) sends ∙ other_side in
    let somebody : (ar.n == 0) ≡ false = ground arith in
    rw (found, altexec, somebody)
      (meet_lem fuel i p other ar σ n j (target (σ.alt other).v (source (σ.alt p).v σ.mem) σ.mem)
        ready drawn w roomy r enough (copy_direct (σ.alt p) (σ.alt other) σ sends receives nothing))

other_side_send : chanarray (otherop chanrcv) ≡ some send
unfolding chanarray
other_side_send = refl

-- A receiver at a channel that holds nothing and where senders wait: it gets the element of the sender
-- drawn; that task leaves all channels at which it waits, is ready, and will return the index of the
-- Alt that sent. It is enough to have more rounds than that task has Alts; altexec never stops with a
-- fault or by abort.
pub altexec_takes :
    (fuel i : ℕ) (p other : Ptr) (σ : System) (n j : ℕ) (ready : List Ptr)
    → (σ.alt p).op ≡ chanrcv
    → (σ.chan (σ.alt p).c).nbuf ≡ 0
    → 0 < (σ.chan (σ.alt p).c).asend.n
    → (let ar = (σ.chan (σ.alt p).c).asend in get_elem? ar.a (i % ar.n) ≡ some other)
    → (σ.alt other).op ≡ chansnd
    → IsWaiting σ other n
    → IsRoomy j σ
    → Runnable σ.world ready
    → n < fuel
    → Returns
        (Met σ other n ready (target (σ.alt p).v (source (σ.alt other).v σ.mem) σ.mem))
        (altexec fuel i p σ)
unfolding altexec
altexec_takes fuel i p other σ n j ready receives nothing some_wait drawn sends w roomy r enough =
    let ar = (σ.chan (σ.alt p).c).asend in
    let found : chanarray (otherop (σ.alt p).op) ≡ some send =
      ap (λ o. chanarray (otherop o)) receives ∙ other_side_send in
    let somebody : (ar.n == 0) ≡ false = ground arith in
    rw (found, altexec, somebody)
      (meet_lem fuel i p other ar σ n j (target (σ.alt p).v (source (σ.alt other).v σ.mem) σ.mem)
        ready drawn w roomy r enough (copy_back (σ.alt other) (σ.alt p) σ sends receives nothing))
