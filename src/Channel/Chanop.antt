-- ===== src/Channel/Chanop.antt =====
-- The two Alts with which _chanop of libtask/channel.c calls chanalt.
use libabhi.Base.{
  ℕ, suc, ◌+◌, ◌<◌, ◌≡◌, ◌≢◌, refl, sym, ap, subst, ◌∙◌, Bool, true, false, if◌then◌else◌, arith,
  ◌==◌, ◌⊎◌, inr, ok, ◌>>=◌, Returns, returns, Returns-bind,
}
use libabhi.Channel.{
  Ptr, Channel, System, chansnd, chanrcv, chanend, channoblk, ends, update, chanarray, altcanexec,
}
use libabhi.Channel.Exec.{live, altexec, count_can, count_alts, claim, chose, refused, _chanop}
use libabhi.Channel.Frame.{Framed}
use libabhi.Channel.Select.{CanCall, AllLive, chanalt_acts, chanalt_refuses}
use libabhi.Channel.Waiting.{IsRoomy}

module _ (a c op v : ℕ) (canblock : Bool) (σ : System) where
  -- The two Alts of _chanop as they are when chanalt starts.
  abbrev pub framed : System
  framed = record σ {
    alt =
        update (update σ.alt a (record (σ.alt a) { c = c; op = op; v = v })) (a + 1)
          (record (σ.alt (a + 1)) { op = if canblock then chanend else channoblk });
  }

  abbrev pub claimed : System
  claimed = claim 1 a 0 framed

  pub mine :
      claimed.alt (a + 0) ≡ record { c = c; v = v; op = op; task = σ.world.taskrunning; xalt = a }
  unfolding claim
  mine =
      let self : (a + 0 == a + 0) ≡ true = ground arith in
      let second : (a + 0 == a + 1) ≡ false = ground arith in
      let first : (a + 0 == a) ≡ true = ground arith in rw (self, second, first) refl

  pub kept : (q : Ptr) → q ≢ a → q ≢ a + 1 → claimed.alt q ≡ σ.alt q
  unfolding claim
  kept q n m =
      let other : (q == a + 0) ≡ false = ground arith in
      let second : (q == a + 1) ≡ false = ground arith in
      let first : (q == a) ≡ false = ground arith in rw (other, second, first) refl

  pub claimed-Framed : (x n : ℕ) → (x + n < a) ⊎ (a + 1 < x) → Framed σ x n claimed
  unfolding claim
  claimed-Framed x n away = record {
    alts_eq = λ q l h. kept q (omega (arith, away)) (omega (arith, away));
    chan_eq = refl;
    mem_eq = refl;
    world_eq = refl;
  }

  pub counted : (k : ℕ) → ends op ≡ false → count_alts (suc (suc k)) a 0 framed ≡ ok 1
  unfolding count_alts
  counted k goes_on =
      let self : (a + 0 == a + 1) ≡ false = ground arith in
      let first : (a + 0 == a) ≡ true = ground arith in
      let second : (a + (0 + 1) == a + 1) ≡ true = ground arith in
      rw (self, first, goes_on, second) (last canblock)
    where
      last :
          (b : Bool)
          → (if ends (if b then chanend else channoblk)
              then ok (0 + 1)
              else count_alts k a (0 + 1 + 1) framed)
            ≡ ok 1
      last true = refl
      last false = refl

  pub framed-AllLive : CanCall σ c → AllLive 1 a 0 framed
  framed-AllLive calls =
      let second : (a + 0 == a + 1) ≡ false = ground arith in
      let first : (a + 0 == a) ≡ true = ground arith in
      let mine : (framed.alt (a + 0)).c ≡ c = rw (second, first) refl in
      (inr (ap (λ y. live σ y) mine ∙ calls.1), tt)

  -- With an operation that can be executed, _chanop executes it and returns 1.
  pub chanop_acts :
      {P : System → Type 0} (k j i : ℕ)
      → CanCall σ c
      → ends op ≡ false
      → altcanexec (claimed.alt (a + 0)) (claimed.chan ((claimed.alt (a + 0)).c)) ≡ true
      → Returns P (altexec (suc (suc k)) i (a + 0) claimed)
      → Returns (λ (r, σ'). (r ≡ chose 0) × P σ') (_chanop (suc (suc k)) j i a c op v canblock σ)
  unfolding _chanop count_can
  chanop_acts {P} k j i calls goes_on able done =
      let some_can : 0 < count_can 1 a 0 claimed = rw able (omega arith) in
      let (m, below, _, _, acts) =
        chanalt_acts (suc (suc k)) j i a framed 1 (counted k goes_on) (calls.0)
          (framed-AllLive calls) some_can in
      let none : m ≡ 0 = omega (arith, below) in
      subst (Returns (λ (r, σ'). (r ≡ chose 0) × P σ')) (sym acts) (
        subst
          (λ y.
            Returns (λ (r, σ'). (r ≡ chose 0) × P σ')
              (altexec (suc (suc k)) i (a + y) claimed >>= λ σ'. ok (chose y, σ')))
          (sym none) (Returns-bind done λ σ' p. returns (refl, p)))

  -- With an operation that cannot be executed, _chanop that may not block gives up.
  pub chanop_refuses :
      (k j i : ℕ)
      → CanCall σ c
      → ends op ≡ false
      → canblock ≡ false
      → altcanexec (claimed.alt (a + 0)) (claimed.chan ((claimed.alt (a + 0)).c)) ≡ false
      → _chanop (suc (suc k)) j i a c op v canblock σ ≡ ok (refused, claimed)
  unfolding _chanop count_can
  chanop_refuses k j i calls goes_on stays unable =
      let second : (a + 1 == a + 1) ≡ true = ground arith in
      chanalt_refuses (suc (suc k)) j i a framed 1 (counted k goes_on) (calls.0)
        (framed-AllLive calls) (rw unable refl) (rw (second, stays) refl)

  pub chan_same : claimed.chan ≡ σ.chan
  unfolding claim
  chan_same = refl

  pub mem_same : claimed.mem ≡ σ.mem
  unfolding claim
  mem_same = refl

  pub world_same : claimed.world ≡ σ.world
  unfolding claim
  world_same = refl

  pub machine_same : claimed.machine ≡ σ.machine
  unfolding claim
  machine_same = refl

  pub my_channel : claimed.chan ((claimed.alt (a + 0)).c) ≡ σ.chan c
  my_channel = ap (λ m. claimed.chan m.c) mine ∙ ap (λ f. f c) chan_same

  pub claimed-IsRoomy : (j : ℕ) → IsRoomy j σ → IsRoomy j claimed
  claimed-IsRoomy j roomy = subst (λ f. IsRoomy j (record σ { chan = f })) (sym chan_same) roomy

pub can_send :
    (a c v t x : ℕ) (ch : Channel)
    → ch.bufsize ≡ 0
    → 0 < ch.arecv.n
    → altcanexec (record { c = c; v = v; op = chansnd; task = t; xalt = x }) ch ≡ true
unfolding altcanexec chanarray
can_send a c v t x ch unbuffered some_wait =
    let direct : (ch.bufsize == 0) ≡ true = ground arith in
    let waiting : (ch.arecv.n == 0) ≡ false = ground arith in rw (direct, waiting) refl

pub can_receive :
    (a c v t x : ℕ) (ch : Channel)
    → ch.bufsize ≡ 0
    → 0 < ch.asend.n
    → altcanexec (record { c = c; v = v; op = chanrcv; task = t; xalt = x }) ch ≡ true
unfolding altcanexec chanarray
can_receive a c v t x ch unbuffered some_wait =
    let direct : (ch.bufsize == 0) ≡ true = ground arith in
    let waiting : (ch.asend.n == 0) ≡ false = ground arith in rw (direct, waiting) refl
