-- ===== src/Channel/Alone.antt =====
-- altexec of libtask/channel.c at a buffered channel where nobody waits.
use libabhi.Base.{
  ℕ, ◌<◌, ◌≡◌, refl, sym, ap, subst, ◌∙◌, true, false, none, some, List, [], ◌∷◌, ◌++◌, arith, ◌==◌,
  ltb, Returns, returns, Returns-bind, length,
}
use libabhi.Sched.{World}
use libabhi.Channel.{
  Ptr, Alt, Channel, Machine, System, send, recv, chansnd, chanrcv, update, otherop, chanarray,
  altcanexec,
}
use libabhi.Channel.Exec.{source, target, altcopy, altexec}
use libabhi.Channel.Fifo.{contents, IsBuffered}
use libabhi.Channel.Transfer.{Moved, transfer_receive, transfer_send}

-- The channel `ch` stands at `c` and holds `q` afterwards, with the same size and the same Alts
-- waiting; memory is `mem`, and no task has become ready.
pub record Buffers (world : World) (machine : Machine) (ch : Channel) (c : Ptr) (q : List ℕ)
    (mem : Ptr → ℕ) (σ' : System) : Type 0 where
  pub same_size : (σ'.chan c).bufsize ≡ ch.bufsize
  pub same_elem : (σ'.chan c).elemsize ≡ ch.elemsize
  pub same_send : (σ'.chan c).asend ≡ ch.asend
  pub same_recv : (σ'.chan c).arecv ≡ ch.arecv
  pub valid : IsBuffered (σ'.chan c)
  pub held : contents (σ'.chan c) ≡ q
  pub memory : σ'.mem ≡ mem
  pub world_eq : σ'.world ≡ world
  pub machine_eq : σ'.machine ≡ machine

written :
    (σ : System) (c : Ptr) (q : List ℕ) (mem : Ptr → ℕ) (ch : Channel) (mem' : Ptr → ℕ)
    → Moved (σ.chan c) q mem (ch, mem')
    → Buffers σ.world σ.machine
        (σ.chan c)
        c
        q
        mem
        (record σ { chan = update σ.chan c ch; mem = mem' })
written σ c q mem ch mem' m =
    let self : (c == c) ≡ true = ground arith in
    let here : update σ.chan c ch c ≡ ch = rw self refl in
    record {
      same_size = ap (λ x. x.bufsize) here ∙ m.same_size;
      same_elem = ap (λ x. x.elemsize) here ∙ m.same_elem;
      same_send = ap (λ x. x.asend) here ∙ m.same_send;
      same_recv = ap (λ x. x.arecv) here ∙ m.same_recv;
      valid = subst IsBuffered (sym here) m.valid;
      held = ap contents here ∙ m.held;
      memory = m.memory;
      world_eq = refl;
      machine_eq = refl;
    }

pub copy_alone :
    (s : Alt) (σ : System)
    → s.op ≡ chansnd
    → IsBuffered (σ.chan s.c)
    → length (contents (σ.chan s.c)) < (σ.chan s.c).bufsize
    → Returns
        (Buffers σ.world σ.machine
          (σ.chan s.c)
          s.c
          (contents (σ.chan s.c) ++ (source s.v σ.mem ∷ []))
          σ.mem)
        (altcopy (some s) none σ)
unfolding altcopy
copy_alone s σ sends b free =
    let first : (s.op == chanrcv) ≡ false = ground (arith, sends) in
    rw first (
      Returns-bind (transfer_send (σ.chan s.c) b σ.mem s sends free) λ (ch, mem') m.
        returns (written σ s.c (contents (σ.chan s.c) ++ (source s.v σ.mem ∷ [])) σ.mem ch mem' m))

pub take_alone :
    (r : Alt) (σ : System) (x : ℕ) (q : List ℕ)
    → r.op ≡ chanrcv
    → IsBuffered (σ.chan r.c)
    → contents (σ.chan r.c) ≡ x ∷ q
    → Returns
        (Buffers σ.world σ.machine (σ.chan r.c) r.c q (target r.v x σ.mem))
        (altcopy (some r) none σ)
unfolding altcopy
take_alone r σ x q receives b e =
    let second : (r.op == chanrcv) ≡ true = ground (arith, receives) in
    subst (λ o. Returns (Buffers σ.world σ.machine (σ.chan r.c) r.c q (target r.v x σ.mem)) o)
      (rw second refl)
      (Returns-bind (transfer_receive (σ.chan r.c) b σ.mem r x q receives e)
        λ (ch, mem') m. returns (written σ r.c q (target r.v x σ.mem) ch mem' m))

receivers : chanarray (otherop chansnd) ≡ some recv
unfolding chanarray
receivers = refl

senders : chanarray (otherop chanrcv) ≡ some send
unfolding chanarray
senders = refl

-- With nobody on the other side, altexec moves the element to or from the buffer.
pub altexec-alone_send :
    (fuel i : ℕ) (p : Ptr) (σ : System)
    → (σ.alt p).op ≡ chansnd
    → (σ.chan (σ.alt p).c).arecv.n ≡ 0
    → altexec fuel i p σ ≡ altcopy (some (σ.alt p)) none σ
unfolding altexec
altexec-alone_send fuel i p σ sends nobody =
    let found : chanarray (otherop (σ.alt p).op) ≡ some recv =
      ap (λ o. chanarray (otherop o)) sends ∙ receivers in
    let empty : ((σ.chan (σ.alt p).c).arecv.n == 0) ≡ true = ground arith in
    rw (found, altexec, empty) refl

pub altexec-alone_recv :
    (fuel i : ℕ) (p : Ptr) (σ : System)
    → (σ.alt p).op ≡ chanrcv
    → (σ.chan (σ.alt p).c).asend.n ≡ 0
    → altexec fuel i p σ ≡ altcopy (some (σ.alt p)) none σ
unfolding altexec
altexec-alone_recv fuel i p σ receives nobody =
    let found : chanarray (otherop (σ.alt p).op) ≡ some send =
      ap (λ o. chanarray (otherop o)) receives ∙ senders in
    let empty : ((σ.chan (σ.alt p).c).asend.n == 0) ≡ true = ground arith in
    rw (found, altexec, empty) refl

pub can_store :
    (c v t x : ℕ) (ch : Channel)
    → ch.nbuf < ch.bufsize
    → altcanexec (record { c = c; v = v; op = chansnd; task = t; xalt = x }) ch ≡ true
unfolding altcanexec
can_store c v t x ch free =
    let buffered : (ch.bufsize == 0) ≡ false = ground arith in
    let room : ltb ch.nbuf ch.bufsize ≡ true = ground arith in rw (buffered, room) refl

pub can_load :
    (c v t x : ℕ) (ch : Channel)
    → 0 < ch.bufsize
    → 0 < ch.nbuf
    → altcanexec (record { c = c; v = v; op = chanrcv; task = t; xalt = x }) ch ≡ true
unfolding altcanexec
can_load c v t x ch size held =
    let buffered : (ch.bufsize == 0) ≡ false = ground arith in
    let some_held : ltb 0 ch.nbuf ≡ true = ground arith in rw (buffered, some_held) refl

pub cannot_store :
    (c v t x : ℕ) (ch : Channel)
    → 0 < ch.bufsize
    → ch.nbuf ≡ ch.bufsize
    → altcanexec (record { c = c; v = v; op = chansnd; task = t; xalt = x }) ch ≡ false
unfolding altcanexec
cannot_store c v t x ch size full =
    let buffered : (ch.bufsize == 0) ≡ false = ground arith in
    let room : ltb ch.nbuf ch.bufsize ≡ false = ground arith in rw (buffered, room) refl

pub cannot_load :
    (c v t x : ℕ) (ch : Channel)
    → 0 < ch.bufsize
    → ch.nbuf ≡ 0
    → altcanexec (record { c = c; v = v; op = chanrcv; task = t; xalt = x }) ch ≡ false
unfolding altcanexec
cannot_load c v t x ch size empty =
    let buffered : (ch.bufsize == 0) ≡ false = ground arith in
    let none_held : ltb 0 ch.nbuf ≡ false = ground arith in rw (buffered, none_held) refl
