-- ===== src/Channel/Select.antt =====
-- How chanalt of libtask/channel.c chooses among the Alts that can be executed.
use libabhi.Base.{
  ℕ, zero, suc, ◌+◌, ◌-◌, ◌%◌, ◌<◌, ◌≤◌, ◌≡◌, ◌≢◌, sym, subst, ◌⊎◌, ltb, leb, refl, ap, ◌∙◌, true,
  false, none, some, arith, ok, ◌>>=◌, ◌==◌, Bool-cases, inl, inr,
}
use native.Mathlib.Nat.{mod-lt}
use libabhi.Tasks.{null}
use libabhi.Sched.{World, needstack}
use libabhi.Channel.{Ptr, System, chanend, channoblk, channop}
use libabhi.Channel.Exec.{
  can, count_can, pick, claim, count_alts, chanalt, altexec, chose, refused, waits, queue_all, live,
  follow,
}

-- The Alt chosen is one that can be executed, and `j` of those before it can be.
pub record Chosen (k : ℕ) (a : Ptr) (i j : ℕ) (σ : System) (m : ℕ) : Type 0 where
  pub picked : pick k a i j σ ≡ some (i + m)
  pub within : m < k
  pub able : can (a + (i + m)) σ ≡ true
  pub rank : count_can m a i σ ≡ j

suc_test : (j : ℕ) → (suc j == 0) ≡ false
suc_test j = ground arith

module _ (a : Ptr) (σ : System) where
  -- One Alt further, after one that can be executed and was passed over, or one that cannot.
  passed :
      (k i j j' : ℕ) (one : ℕ) {m : ℕ}
      → Chosen k a (i + 1) j' σ m
      → pick (suc k) a i j σ ≡ pick k a (i + 1) j' σ
      → count_can (suc m) a i σ ≡ one + count_can m a (i + 1) σ
      → one + j' ≡ j
      → Chosen (suc k) a i j σ (suc m)
  passed k i j j' one {m} c step count sum =
      let here : i + 1 + m ≡ i + suc m = omega arith in
      record {
        picked = step ∙ c.picked ∙ ap some here;
        within = omega arith;
        able = rw here at c.able;
        rank = count ∙ ap (λ n. one + n) c.rank ∙ sum;
      }

  -- If more than `j` Alts can be executed, the search finds the one with `j` such Alts before it.
  pub pick-Chosen : (k i j : ℕ) → j < count_can k a i σ → (m : ℕ) × Chosen k a i j σ m
  unfolding pick count_can
  pick-Chosen zero i j h = absurd (omega arith)
  pick-Chosen (suc k) i zero h = elim (Bool-cases (can (a + i) σ)) [
    | inl able ↦
        let here : i ≡ i + 0 = omega arith in
        (
          0,
          record {
            picked = rw able (ap some here);
            within = omega arith;
            able = rw (← here) able;
            rank = refl;
          },
        )
    | inr unable ↦
        let h' : 0 < 0 + count_can k a (i + 1) σ = rw unable at h in
        let (m, c) = pick-Chosen k (i + 1) 0 (omega arith) in
        (suc m, passed k i 0 0 0 c (rw unable) (rw unable) refl)
  ]
  pick-Chosen (suc k) i (suc j) h = elim (Bool-cases (can (a + i) σ)) [
    | inl able ↦
        let h' : suc j < 1 + count_can k a (i + 1) σ = rw able at h in
        let less : suc j - 1 ≡ j = omega arith in
        let (m, c) = pick-Chosen k (i + 1) j (omega arith) in
        (suc m, passed k i (suc j) j 1 c (rw (able, suc_test j, less)) (rw able) (omega arith))
    | inr unable ↦
        let h' : suc j < 0 + count_can k a (i + 1) σ = rw unable at h in
        let (m, c) = pick-Chosen k (i + 1) (suc j) (omega arith) in
        (suc m, passed k i (suc j) (suc j) 0 c (rw unable) (rw unable) (omega arith))
  ]

  -- If no Alt can be executed, the search finds none.
  pub pick-none : (k i j : ℕ) → count_can k a i σ ≡ 0 → pick k a i j σ ≡ none
  unfolding pick count_can
  pick-none zero i j h = refl
  pick-none (suc k) i j h = ground (arith, pick-none k (i + 1) j)

-- A task runs and has the stack that chanalt asks for.
abbrev pub HasStack : System → Type 0
HasStack σ = (σ.world.taskrunning ≢ null) × (σ.machine.stk + 768 ≤ σ.machine.sp)

-- The running task can call chanalt for the channel at `c`.
abbrev pub CanCall : System → Ptr → Type 0
CanCall σ c = HasStack σ × (live σ c ≡ true)

-- The `k` Alts from index `i` on name channels, or are passed over.
abbrev pub AllLive : ℕ → Ptr → ℕ → System → Type 0
AllLive zero a i σ = Unit {0}
AllLive (suc k) a i σ =
    (((σ.alt (a + i)).op ≡ channop) ⊎ (live σ (σ.alt (a + i)).c ≡ true)) × AllLive k a (i + 1) σ

pub CanCall-same :
    (σ σ' : System) (c : Ptr)
    → σ'.world ≡ σ.world
    → σ'.machine ≡ σ.machine
    → CanCall σ c
    → CanCall σ' c
CanCall-same σ σ' c same_world same_machine h =
    subst (λ m. CanCall (record σ { world = σ'.world; machine = m }) c) (sym same_machine)
      (subst (λ w. CanCall (record σ { world = w }) c) (sym same_world) h)

needstack-enough :
    (sp stk : ℕ) (w : World) → w.taskrunning ≢ null → stk + 768 ≤ sp → needstack sp stk 512 w ≡ ok w
unfolding needstack
needstack-enough sp stk w runs enough =
    let somebody : (w.taskrunning == null) ≡ false = ground arith in
    let above : leb sp stk ≡ false = ground arith in
    let room : ltb (sp - stk) (256 + 512) ≡ false = ground arith in rw (somebody, above, room) refl

follow-live : (k : ℕ) (a : Ptr) (i : ℕ) (σ : System) → AllLive k a i σ → follow k a i σ ≡ ok tt
unfolding follow
follow-live zero a i σ alive = refl
follow-live (suc k) a i σ (inl passed, rest) =
    let nop : ((σ.alt (a + i)).op == channop) ≡ true = ground (arith, passed) in
    rw nop (follow-live k a (i + 1) σ rest)
follow-live (suc k) a i σ (inr known, rest) = elim (Bool-cases ((σ.alt (a + i)).op == channop)) [
  | inl nop ↦ rw nop (follow-live k a (i + 1) σ rest)
  | inr used ↦ rw (used, known) (follow-live k a (i + 1) σ rest)
]

-- chanalt on an array of `n` Alts: whether it acts, waits or gives up.
module _ (fuel j i : ℕ) (a : Ptr) (σ : System) (n : ℕ) (counted : count_alts fuel a 0 σ ≡ ok n)
    (deep : HasStack σ) (alive : AllLive n a 0 σ) where
  enough : needstack σ.machine.sp σ.machine.stk 512 σ.world ≡ ok σ.world
  enough = needstack-enough σ.machine.sp σ.machine.stk σ.world (deep.0) (deep.1)

  followed : follow n a 0 σ ≡ ok tt
  followed = follow-live n a 0 σ alive

  -- With 768 bytes of the running task's stack left and Alts that name open channels: if some Alts
  -- can be executed, chanalt executes the one that has `j % ncan` such Alts before it, and returns
  -- its index.
  pub chanalt_acts :
      0 < count_can n a 0 (claim n a 0 σ)
      → (m : ℕ) × (m < n)
        × (can (a + m) (claim n a 0 σ) ≡ true)
        × (count_can m a 0 (claim n a 0 σ) ≡ j % count_can n a 0 (claim n a 0 σ))
        × (chanalt fuel j i a σ
            ≡ (altexec fuel i (a + m) (claim n a 0 σ) >>= λ σ'. ok (chose m, σ')))
  unfolding chanalt
  chanalt_acts some_can =
      let σ₁ = claim n a 0 σ in
      let (m, c) = pick-Chosen a σ₁ n 0 (j % count_can n a 0 σ₁) (mod-lt j some_can) in
      let same : 0 + m ≡ m = omega arith in
      (m, c.within, rw same at c.able, c.rank, rw (enough, counted, followed, c.picked, same) refl)

  -- If no Alt can be executed and the array ends with CHANNOBLK, chanalt returns -1 and nobody waits.
  pub chanalt_refuses :
      count_can n a 0 (claim n a 0 σ) ≡ 0
      → (σ.alt (a + n)).op ≡ channoblk
      → chanalt fuel j i a σ ≡ ok (refused, claim n a 0 σ)
  unfolding chanalt
  chanalt_refuses none_can ends_so =
      let stay : ((σ.alt (a + n)).op == chanend) ≡ false = ground arith in
      rw
        (
          enough,
          counted,
          followed,
          stay,
          pick-none a (claim n a 0 σ) n 0 (j % count_can n a 0 (claim n a 0 σ)) none_can,
        )
        refl

  -- If no Alt can be executed and the array ends with CHANEND, chanalt puts all Alts into the arrays.
  pub chanalt_blocks :
      count_can n a 0 (claim n a 0 σ) ≡ 0
      → (σ.alt (a + n)).op ≡ chanend
      → chanalt fuel j i a σ ≡ (queue_all n a 0 (claim n a 0 σ) >>= λ σ'. ok (waits, σ'))
  unfolding chanalt
  chanalt_blocks none_can ends_so =
      let may : ((σ.alt (a + n)).op == chanend) ≡ true = ground arith in
      rw
        (
          enough,
          counted,
          followed,
          may,
          pick-none a (claim n a 0 σ) n 0 (j % count_can n a 0 (claim n a 0 σ)) none_can,
        )
        refl
