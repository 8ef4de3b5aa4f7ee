-- ===== src/Channel/Transfer.antt =====
-- What altcopy of libtask/channel.c moves, in each of its cases.
use libabhi.Base.{
  ℕ, ◌-◌, ◌<◌, ◌≡◌, refl, ap, ◌∙◌, true, false, ◌&&◌, none, some, List, [], ◌∷◌, ◌++◌, arith, ok,
  ◌==◌, get_or, length, Returns, returns,
}
use libabhi.Channel.{Ptr, Alt, Channel, System, chansnd, chanrcv}
use libabhi.Channel.Exec.{source, target, transfer, altcopy}
use libabhi.Channel.Fifo.{
  contents, IsBuffered, length-contents, window-tail, popped, take_out-popped, popped-IsBuffered,
  put_in-pushed, pushed-IsBuffered, contents-pushed,
}

-- The channel `c` holds `q` afterwards, with the same size and the same Alts waiting, and memory is
-- `mem`.
pub record Moved (c : Channel) (q : List ℕ) (mem : Ptr → ℕ) (out : Channel × (Ptr → ℕ))
    : Type 0 where
  pub valid : IsBuffered (out.0)
  pub same_size : out.0.bufsize ≡ c.bufsize
  pub same_elem : out.0.elemsize ≡ c.elemsize
  pub same_send : out.0.asend ≡ c.asend
  pub same_recv : out.0.arecv ≡ c.arecv
  pub held : contents (out.0) ≡ q
  pub memory : out.1 ≡ mem

module _ (c : Channel) (b : IsBuffered c) (mem : Ptr → ℕ) where
  -- A receiver alone gets the oldest element; the others stay in order.
  pub transfer_receive :
      (r : Alt) (x : ℕ) (q : List ℕ)
      → r.op ≡ chanrcv
      → contents c ≡ x ∷ q
      → Returns (Moved c q (target r.v x mem)) (transfer none (some r) c mem)
  unfolding transfer
  transfer_receive r x q role e =
      let (held, first, rest) = window-tail c.buf c.bufsize c.off c.nbuf x q b.off_in e in
      let test : (r.op == chanrcv) ≡ true = ground arith in
      rw (test, take_out-popped c r mem b held)
        (returns (record {
          same_size = refl;
          same_elem = refl;
          same_send = refl;
          same_recv = refl;
          valid = popped-IsBuffered c b held;
          held = rest;
          memory = ap (λ y. target r.v y mem) first;
        }))

  -- A sender alone adds its element behind the others, if there is room.
  pub transfer_send :
      (s : Alt)
      → s.op ≡ chansnd
      → length (contents c) < c.bufsize
      → Returns (Moved c (contents c ++ (source s.v mem ∷ [])) mem) (transfer (some s) none c mem)
  unfolding transfer
  transfer_send s role free =
      let room : c.nbuf < c.bufsize =
        omega (arith, length-contents c.buf c.bufsize c.off 0 c.nbuf) in
      let test : (s.op == chansnd) ≡ true = ground arith in
      rw (test, put_in-pushed c s mem b room)
        (returns (record {
          same_size = refl;
          same_elem = refl;
          same_send = refl;
          same_recv = refl;
          valid = pushed-IsBuffered c (source s.v mem) b room;
          held = contents-pushed c (source s.v mem) b room;
          memory = refl;
        }))

  -- A sender and a receiver at a channel that holds elements: the receiver gets the oldest one, and
  -- then the sender's element goes behind the others.
  pub transfer_both :
      (s r : Alt) (x : ℕ) (q : List ℕ)
      → s.op ≡ chansnd
      → r.op ≡ chanrcv
      → contents c ≡ x ∷ q
      → (let mem' = target r.v x mem in
          Returns (Moved c (q ++ (source s.v mem' ∷ [])) mem') (transfer (some s) (some r) c mem))
  unfolding transfer
  transfer_both s r x q sends receives e =
      let (held, first, rest) = window-tail c.buf c.bufsize c.off c.nbuf x q b.off_in e in
      let b' = popped-IsBuffered c b held in
      let room : c.nbuf - 1 < c.bufsize = omega (arith, b.nbuf_in) in
      let m = target r.v (get_or c.buf c.off 0) mem in
      let same : m ≡ target r.v x mem = ap (λ y. target r.v y mem) first in
      let roles : ((s.op == chansnd) && (r.op == chanrcv)) ≡ true = ground arith in
      let some_held : (c.nbuf == 0) ≡ false = ground arith in
      rw (roles, some_held, take_out-popped c r mem b held, put_in-pushed (popped c) s m b' room)
        (returns (record {
          same_size = refl;
          same_elem = refl;
          same_send = refl;
          same_recv = refl;
          valid = pushed-IsBuffered (popped c) (source s.v m) b' room;
          held =
              contents-pushed (popped c) (source s.v m) b' room
              ∙ ap (λ l. l ++ (source s.v m ∷ [])) rest
              ∙ ap (λ y. q ++ (source s.v y ∷ [])) same;
          memory = same;
        }))

-- At a channel that holds nothing, buffered or not, the element goes from the sender to the receiver
-- and the channel stays as it is.
pub transfer_direct :
    (c : Channel) (mem : Ptr → ℕ) (s r : Alt)
    → s.op ≡ chansnd
    → r.op ≡ chanrcv
    → c.nbuf ≡ 0
    → transfer (some s) (some r) c mem ≡ ok (c, target r.v (source s.v mem) mem)
unfolding transfer
transfer_direct c mem s r sends receives e =
    let roles : ((s.op == chansnd) && (r.op == chanrcv)) ≡ true = ground arith in
    let nothing : (c.nbuf == 0) ≡ true = ground arith in rw (roles, nothing) refl

-- altcopy does the same whichever of a sender and a receiver comes first.
pub altcopy_comm :
    (s r : Alt) (σ : System)
    → s.op ≡ chansnd
    → r.op ≡ chanrcv
    → s.c ≡ r.c
    → altcopy (some s) (some r) σ ≡ altcopy (some r) (some s) σ
unfolding altcopy
altcopy_comm s r σ sends receives same =
    let first : (s.op == chanrcv) ≡ false = ground arith in
    let second : (r.op == chanrcv) ≡ true = ground arith in rw (first, second, same) refl
