-- ===== src/Channel/Buffered.antt =====
-- chansend and chanrecv of libtask/channel.c at a buffered channel where nobody waits.
use libabhi.Base.{
  ℕ, suc, ◌+◌, ◌<◌, ◌≡◌, refl, sym, ap, subst, ◌∙◌, Bool, true, List, [], ◌∷◌, ◌++◌, arith, Returns,
  Returns-mono, returns, false, length,
}
use libabhi.Channel.{Ptr, Alt, System, chansnd, chanrcv, altcanexec, ends}
use libabhi.Channel.Alone.{
  Buffers, copy_alone, take_alone, altexec-alone_send, altexec-alone_recv, can_store, can_load,
  cannot_store, cannot_load,
}
use libabhi.Channel.Chanop.{
  claimed, mine, chanop_acts, chanop_refuses, chan_same, my_channel, mem_same, world_same,
  machine_same,
}
use libabhi.Channel.Exec.{source, target, chose, refused, _chanop, chansend, chanrecv}
use libabhi.Channel.Select.{CanCall}
use libabhi.Channel.Fifo.{contents, IsBuffered, length-contents}

module _ (k j i a c v : ℕ) (canblock : Bool) (σ : System) (b : IsBuffered (σ.chan c))
    (calls : CanCall σ c) where
  abbrev my : ℕ → System
  my op = claimed a c op v canblock σ

  abbrev own : ℕ → Alt
  own op = (my op).alt (a + 0)

  self : (op : ℕ) → own op ≡ record { c = c; v = v; op = op; task = σ.world.taskrunning; xalt = a }
  self op = mine a c op v canblock σ

  here : (op : ℕ) → (my op).chan ((own op).c) ≡ σ.chan c
  here op = my_channel a c op v canblock σ

  mem_eq : (op : ℕ) → (my op).mem ≡ σ.mem
  mem_eq op = mem_same a c op v canblock σ

  held : length (contents (σ.chan c)) ≡ (σ.chan c).nbuf
  held = length-contents (σ.chan c).buf (σ.chan c).bufsize (σ.chan c).off 0 (σ.chan c).nbuf

  -- What holds of the channel in the system in which the Alts are set holds of it before.
  settled :
      (op : ℕ) (q q' : List ℕ) (m m' : Ptr → ℕ) (τ : System)
      → q ≡ q'
      → m ≡ m'
      → Buffers (my op).world (my op).machine ((my op).chan ((own op).c)) ((own op).c) q m τ
      → Buffers σ.world σ.machine (σ.chan c) c q' m' τ
  settled op q q' m m' τ e f s =
      subst (λ u. Buffers u σ.machine (σ.chan c) c q' m' τ) (world_same a c op v canblock σ)
        (subst (λ u. Buffers (my op).world u (σ.chan c) c q' m' τ)
          (machine_same a c op v canblock σ)
          (subst (λ ch. Buffers (my op).world (my op).machine ch c q' m' τ) (here op)
            (subst
              (λ y. Buffers (my op).world (my op).machine ((my op).chan ((own op).c)) y q' m' τ)
              (ap (λ y. y.c) (self op))
              (subst
                (λ l.
                  Buffers (my op).world (my op).machine ((my op).chan ((own op).c)) ((own op).c) l
                    m' τ)
                e
                (subst
                  (λ y.
                    Buffers (my op).world (my op).machine ((my op).chan ((own op).c)) ((own op).c) q
                      y τ)
                  f s)))))

  pub chanop_stores :
      (σ.chan c).arecv.n ≡ 0
      → length (contents (σ.chan c)) < (σ.chan c).bufsize
      → Returns
          (λ (r, σ').
            (r ≡ chose 0)
            × Buffers σ.world σ.machine
                (σ.chan c)
                c
                (contents (σ.chan c) ++ (source v σ.mem ∷ []))
                σ.mem
                σ')
          (_chanop (suc (suc k)) j i a c chansnd v canblock σ)
  chanop_stores nobody free =
      let op = chansnd in
      let able : altcanexec (own op) ((my op).chan ((own op).c)) ≡ true =
        subst (λ ch. altcanexec (own op) ch ≡ true) (sym (here op))
          (subst (λ m. altcanexec m (σ.chan c) ≡ true) (sym (self op))
            (can_store c v σ.world.taskrunning a (σ.chan c) (omega (arith, free, held)))) in
      let done =
        copy_alone (own op) (my op) (ap (λ m. m.op) (self op)) (subst IsBuffered (sym (here op)) b)
          (subst (λ ch. length (contents ch) < ch.bufsize) (sym (here op)) free) in
      let stored =
        ap (λ ch. contents ch ++ (source ((own op).v) (my op).mem ∷ [])) (here op)
        ∙ ap (λ y. contents (σ.chan c) ++ (source y.v (my op).mem ∷ [])) (self op)
        ∙ ap (λ y. contents (σ.chan c) ++ (source v y ∷ [])) (mem_eq op) in
      chanop_acts a c op v canblock σ k j i calls refl able (
        subst (Returns _)
          (sym (
            altexec-alone_send (suc (suc k)) i (a + 0) (my op) (ap (λ m. m.op) (self op))
              (ap (λ ch. ch.arecv.n) (here op) ∙ nobody)))
          (Returns-mono done λ τ m. settled op _ _ _ _ τ stored (mem_eq op) m))

  pub chanop_loads :
      (x : ℕ) (q : List ℕ)
      → (σ.chan c).asend.n ≡ 0
      → contents (σ.chan c) ≡ x ∷ q
      → Returns
          (λ (r, σ').
            (r ≡ chose 0) × Buffers σ.world σ.machine (σ.chan c) c q (target v x σ.mem) σ')
          (_chanop (suc (suc k)) j i a c chanrcv v canblock σ)
  chanop_loads x q nobody holds =
      let op = chanrcv in
      let count : 0 < (σ.chan c).nbuf = omega (arith, ap length holds, held) in
      let size : 0 < (σ.chan c).bufsize = omega (arith, b.off_in) in
      let able : altcanexec (own op) ((my op).chan ((own op).c)) ≡ true =
        subst (λ ch. altcanexec (own op) ch ≡ true) (sym (here op))
          (subst (λ m. altcanexec m (σ.chan c) ≡ true) (sym (self op))
            (can_load c v σ.world.taskrunning a (σ.chan c) size count)) in
      let done =
        take_alone (own op) (my op) x q (ap (λ m. m.op) (self op))
          (subst IsBuffered (sym (here op)) b) (ap contents (here op) ∙ holds) in
      let moved =
        ap (λ y. target y.v x (my op).mem) (self op) ∙ ap (λ y. target v x y) (mem_eq op) in
      chanop_acts a c op v canblock σ k j i calls refl able (
        subst (Returns _)
          (sym (
            altexec-alone_recv (suc (suc k)) i (a + 0) (my op) (ap (λ m. m.op) (self op))
              (ap (λ ch. ch.asend.n) (here op) ∙ nobody)))
          (Returns-mono done λ τ m. settled op q q _ _ τ refl moved m))

-- A call that may not block gives up at a channel that is full, or empty, and changes only its Alts.
module _ (k j i a c v : ℕ) (σ : System) (b : IsBuffered (σ.chan c)) (calls : CanCall σ c) where
  -- The system after a call that has given up.
  pub record GivenUp (σ' : System) : Type 0 where
    pub chan_eq : σ'.chan ≡ σ.chan
    pub mem_eq : σ'.mem ≡ σ.mem
    pub world_eq : σ'.world ≡ σ.world
    pub machine_eq : σ'.machine ≡ σ.machine

  gives_up :
      (op : ℕ)
      → ends op ≡ false
      → altcanexec
          (record { c = c; v = v; op = op; task = σ.world.taskrunning; xalt = a })
          (σ.chan c)
        ≡ false
      → Returns (λ (r, σ'). (r ≡ refused) × GivenUp σ') (_chanop (suc (suc k)) j i a c op v false σ)
  gives_up op goes_on unable =
      let σ' = claimed a c op v false σ in
      let same = my_channel a c op v false σ in
      let here : altcanexec (σ'.alt (a + 0)) (σ'.chan ((σ'.alt (a + 0)).c)) ≡ false =
        subst (λ ch. altcanexec (σ'.alt (a + 0)) ch ≡ false) (sym same)
          (subst (λ m. altcanexec m (σ.chan c) ≡ false) (sym (mine a c op v false σ)) unable) in
      subst (Returns (λ (r, σ'). (r ≡ refused) × GivenUp σ'))
        (sym (chanop_refuses a c op v false σ k j i calls goes_on refl here))
        (returns (
          refl,
          record {
            chan_eq = chan_same a c op v false σ;
            mem_eq = mem_same a c op v false σ;
            world_eq = world_same a c op v false σ;
            machine_eq = machine_same a c op v false σ;
          },
        ))

  pub chanop_full :
      (σ.chan c).nbuf ≡ (σ.chan c).bufsize
      → Returns
          (λ (r, σ'). (r ≡ refused) × GivenUp σ')
          (_chanop (suc (suc k)) j i a c chansnd v false σ)
  chanop_full full =
      gives_up chansnd refl
        (cannot_store c v σ.world.taskrunning a (σ.chan c) (omega (arith, b.off_in)) full)

  pub chanop_empty :
      (σ.chan c).nbuf ≡ 0
      → Returns
          (λ (r, σ'). (r ≡ refused) × GivenUp σ')
          (_chanop (suc (suc k)) j i a c chanrcv v false σ)
  chanop_empty empty =
      gives_up chanrcv refl
        (cannot_load c v σ.world.taskrunning a (σ.chan c) (omega (arith, b.off_in)) empty)

module _ (k j i a c v : ℕ) (σ : System) (b : IsBuffered (σ.chan c)) (calls : CanCall σ c) where
  -- With 768 bytes of the running task's stack left: chansend at an open buffered channel that is
  -- not full and where nobody waits to receive executes at once: the element goes behind those that
  -- the channel holds.
  pub chansend_stores :
      (σ.chan c).arecv.n ≡ 0
      → length (contents (σ.chan c)) < (σ.chan c).bufsize
      → Returns
          (λ (r, σ').
            (r ≡ chose 0)
            × Buffers σ.world σ.machine
                (σ.chan c)
                c
                (contents (σ.chan c) ++ (source v σ.mem ∷ []))
                σ.mem
                σ')
          (chansend (suc (suc k)) j i a c v σ)
  unfolding chansend
  chansend_stores = chanop_stores k j i a c v true σ b calls

  -- With the same stack left: chanrecv at an open buffered channel that holds elements and where
  -- nobody waits to send executes at once: the oldest element goes to `v`, and the channel keeps
  -- the others, in order.
  pub chanrecv_loads :
      (x : ℕ) (q : List ℕ)
      → (σ.chan c).asend.n ≡ 0
      → contents (σ.chan c) ≡ x ∷ q
      → Returns
          (λ (r, σ').
            (r ≡ chose 0) × Buffers σ.world σ.machine (σ.chan c) c q (target v x σ.mem) σ')
          (chanrecv (suc (suc k)) j i a c v σ)
  unfolding chanrecv
  chanrecv_loads = chanop_loads k j i a c v true σ b calls
