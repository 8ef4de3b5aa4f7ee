-- ===== src/Channel/Deliver.antt =====
-- chansend and chanrecv of libtask/channel.c, from the call on, when another task waits at the channel.
use libabhi.Base.{
  ℕ, suc, ◌+◌, ◌<◌, ◌≤◌, ◌≡◌, refl, sym, ap, subst, ◌∙◌, true, List, ◌⊎◌, Returns, Returns-mono,
  get_elem?, some, ◌%◌,
}
use libabhi.Sched.Ready.{Runnable}
use libabhi.Channel.{Ptr, System, chansnd, chanrcv, altcanexec}
use libabhi.Channel.Exec.{source, target, altexec, chose, chansend, chanrecv}
use libabhi.Channel.Chanop.{
  claimed, mine, claimed-Framed, chanop_acts, mem_same, world_same, my_channel, claimed-IsRoomy,
  can_send, can_receive,
}
use libabhi.Channel.Select.{CanCall}
use libabhi.Channel.Frame.{Framed, IsWaiting-frame, Met-frame}
use libabhi.Channel.Meet.{IsWaiting, Met, altexec_meets, altexec_takes}
use libabhi.Channel.Waiting.{IsRoomy}

-- `other` is one of the `n` Alts of a task that waits, and the two Alts at `a` stand elsewhere.
pub record IsApart (σ : System) (a other n : ℕ) : Type 0 where
  pub waiting : IsWaiting σ other n
  pub above : (σ.alt other).xalt ≤ other
  pub below : other ≤ (σ.alt other).xalt + n
  pub away : ((σ.alt other).xalt + n < a) ⊎ (a + 1 < (σ.alt other).xalt)

module _ (k j i a c v : ℕ) (σ : System) (other n room : ℕ) (ready : List Ptr)
    (w : IsApart σ a other n) (roomy : IsRoomy room σ) (r : Runnable σ.world ready)
    (enough : n < suc (suc k)) (unbuffered : (σ.chan c).bufsize ≡ 0) (nothing : (σ.chan c).nbuf ≡ 0)
    (calls : CanCall σ c) where
  abbrev my : ℕ → System
  my op = claimed a c op v true σ

  frame_of : (op : ℕ) → Framed σ ((σ.alt other).xalt) n (my op)
  frame_of op = claimed-Framed a c op v true σ ((σ.alt other).xalt) n w.away

  other_same : (op : ℕ) → (my op).alt other ≡ σ.alt other
  other_same op = (frame_of op).alts_eq other w.above w.below

  waits_still : (op : ℕ) → IsWaiting (my op) other n
  waits_still op = IsWaiting-frame σ (my op) other n (frame_of op) w.above w.below w.waiting

  ready_still : (op : ℕ) → Runnable (my op).world ready
  ready_still op = subst (λ u. Runnable u ready) (sym (world_same a c op v true σ)) r

  met :
      (op : ℕ) {mem mem' : Ptr → ℕ}
      → mem ≡ mem'
      → Returns (Met (my op) other n ready mem) (altexec (suc (suc k)) i (a + 0) (my op))
      → Returns (Met σ other n ready mem') (altexec (suc (suc k)) i (a + 0) (my op))
  met op {mem} {mem'} e done = Returns-mono done λ τ m.
      subst (λ y. Met σ other n ready y τ) e
        (Met-frame σ (my op) other n (frame_of op) w.above w.below m)

  -- With 768 bytes of the running task's stack left: chansend at an open unbuffered channel where
  -- tasks wait to receive, with its own two Alts apart from theirs, executes at once: the element
  -- goes to where the receiver drawn wants it; that task leaves all channels at which it waits, is
  -- ready, and will return the index of the Alt that received. It is enough to have more rounds
  -- than that task has Alts, and at least two; chansend never stops with a fault or by abort.
  pub chansend_meets :
      0 < (σ.chan c).arecv.n
      → get_elem? ((σ.chan c).arecv.a) (i % (σ.chan c).arecv.n) ≡ some other
      → (σ.alt other).op ≡ chanrcv
      → Returns
          (λ (r, σ').
            (r ≡ chose 0) × Met σ other n ready (target (σ.alt other).v (source v σ.mem) σ.mem) σ')
          (chansend (suc (suc k)) j i a c v σ)
  unfolding chansend
  chansend_meets some_wait drawn receives =
      let op = chansnd in
      let self = mine a c op v true σ in
      let here = my_channel a c op v true σ in
      let able : altcanexec ((my op).alt (a + 0)) ((my op).chan (((my op).alt (a + 0)).c)) ≡ true =
        subst (λ ch. altcanexec ((my op).alt (a + 0)) ch ≡ true) (sym here)
          (subst (λ m. altcanexec m (σ.chan c) ≡ true) (sym self)
            (can_send a c v σ.world.taskrunning a (σ.chan c) unbuffered some_wait)) in
      let moved = ap (λ m. target m.v (source v σ.mem) σ.mem) (other_same op) in
      let sent =
        ap (λ m. target ((my op).alt other).v (source m.v (my op).mem) (my op).mem) self
        ∙ ap (λ y. target ((my op).alt other).v (source v y) y) (mem_same a c op v true σ) in
      chanop_acts a c op v true σ k j i calls refl able (
        met op (sent ∙ moved) (
          altexec_meets (suc (suc k)) i (a + 0) other (my op) n room ready (ap (λ m. m.op) self)
            (ap (λ ch. ch.nbuf) here ∙ nothing) (subst (λ ch. 0 < ch.arecv.n) (sym here) some_wait)
            (subst (λ ch. get_elem? ch.arecv.a (i % ch.arecv.n) ≡ some other) (sym here) drawn)
            (ap (λ m. m.op) (other_same op) ∙ receives) (waits_still op)
            (claimed-IsRoomy a c op v true σ room roomy) (ready_still op) enough))

  -- With 768 bytes of the running task's stack left: chanrecv at an open unbuffered channel where
  -- tasks wait to send, with its own two Alts apart from theirs, executes at once: the element of
  -- the sender drawn goes to `v`; that task leaves all channels at which it waits, is ready, and
  -- will return the index of the Alt that sent. It is enough to have more rounds than that task has
  -- Alts, and at least two; chanrecv never stops with a fault or by abort.
  pub chanrecv_meets :
      0 < (σ.chan c).asend.n
      → get_elem? ((σ.chan c).asend.a) (i % (σ.chan c).asend.n) ≡ some other
      → (σ.alt other).op ≡ chansnd
      → Returns
          (λ (r, σ').
            (r ≡ chose 0) × Met σ other n ready (target v (source (σ.alt other).v σ.mem) σ.mem) σ')
          (chanrecv (suc (suc k)) j i a c v σ)
  unfolding chanrecv
  chanrecv_meets some_wait drawn sends =
      let op = chanrcv in
      let self = mine a c op v true σ in
      let here = my_channel a c op v true σ in
      let able : altcanexec ((my op).alt (a + 0)) ((my op).chan (((my op).alt (a + 0)).c)) ≡ true =
        subst (λ ch. altcanexec ((my op).alt (a + 0)) ch ≡ true) (sym here)
          (subst (λ m. altcanexec m (σ.chan c) ≡ true) (sym self)
            (can_receive a c v σ.world.taskrunning a (σ.chan c) unbuffered some_wait)) in
      let sent = ap (λ m. target v (source m.v σ.mem) σ.mem) (other_same op) in
      let moved =
        ap (λ m. target m.v (source ((my op).alt other).v (my op).mem) (my op).mem) self
        ∙ ap (λ y. target v (source ((my op).alt other).v y) y) (mem_same a c op v true σ) in
      chanop_acts a c op v true σ k j i calls refl able (
        met op (moved ∙ sent) (
          altexec_takes (suc (suc k)) i (a + 0) other (my op) n room ready (ap (λ m. m.op) self)
            (ap (λ ch. ch.nbuf) here ∙ nothing) (subst (λ ch. 0 < ch.asend.n) (sym here) some_wait)
            (subst (λ ch. get_elem? ch.asend.a (i % ch.asend.n) ≡ some other) (sym here) drawn)
            (ap (λ m. m.op) (other_same op) ∙ sends) (waits_still op)
            (claimed-IsRoomy a c op v true σ room roomy) (ready_still op) enough))
