-- ===== src/Channel/Exec.antt =====
-- Moving elements, and chanalt, of libtask/channel.c.
use libabhi.Base.{
  ℕ, zero, suc, ◌+◌, ◌-◌, ◌%◌, ◌^◌, Bool, true, false, not, ◌&&◌, Option, none, some, Outcome, ok,
  err, fault, abort, no_fuel, ◌>>=◌, ◌==◌, ltb, if◌then◌else◌, get_elem?, set, length,
}
use libabhi.Sched.{taskready, needstack}
use libabhi.Channel.{
  Ptr, Alt, Channel, System, update, chanend, chansnd, chanrcv, channop, channoblk, otherop,
  chanarray, side_of, altcanexec, altqueue, altalldequeue, ends, Altarray,
}

-- What amove reads at `src`: zero bytes if it is NULL.
abbrev pub source : Ptr → (Ptr → ℕ) → ℕ
source src mem = if src == 0 then 0 else mem src

-- What amove writes at `dst`: nothing if it is NULL.
abbrev pub target : Ptr → ℕ → (Ptr → ℕ) → Ptr → ℕ
target dst x mem = if dst == 0 then mem else update mem dst x

-- `if(r){ … }` of altcopy: the receiver takes the oldest element of the buffer.
unfoldable pub take_out : Alt → Channel → (Ptr → ℕ) → Outcome (Channel × (Ptr → ℕ))
take_out r c mem = elim (get_elem? c.buf c.off) [
  | none ↦ err fault
  | some x ↦
      let off = (c.off + 1) % 2 ^ 32 in
      ok (
        record c {
          nbuf = (c.nbuf + 2 ^ 32 - 1) % 2 ^ 32;
          off = if off == c.bufsize then 0 else off;
        },
        target r.v x mem,
      )
]

-- `if(s){ … }` of altcopy: the sender adds an element behind the youngest one.
unfoldable pub put_in : Alt → Channel → (Ptr → ℕ) → Outcome (Channel × (Ptr → ℕ))
put_in s c mem =
    let i = ((c.off + c.nbuf) % 2 ^ 32) % c.bufsize in
    if c.bufsize == 0
    then err fault
    else if ltb i (length c.buf)
    then ok (record c { buf = set c.buf i (source s.v mem); nbuf = (c.nbuf + 1) % 2 ^ 32 }, mem)
    else err fault

-- altcopy, once it is known who sends and who receives; each with its op, which is asserted.
unfoldable pub transfer : (s r : Option Alt) → Channel → (Ptr → ℕ) → Outcome (Channel × (Ptr → ℕ))
unfolding take_out put_in
transfer none none c mem = ok (c, mem)
transfer none (some r) c mem = if r.op == chanrcv then take_out r c mem else err abort
transfer (some s) none c mem = if s.op == chansnd then put_in s c mem else err abort
transfer (some s) (some r) c mem =
    if not ((s.op == chansnd) && (r.op == chanrcv))
    then err abort
    else if c.nbuf == 0
    then ok (c, target r.v (source s.v mem) mem)
    else (do (c', mem') ← take_out r c mem; put_in s c' mem')

unfoldable pub altcopy : (s r : Option Alt) → System → Outcome System
unfolding transfer
altcopy none none σ = ok σ
altcopy none (some r) σ = err abort
altcopy (some s) r σ = do
  (c, mem) ←
      (if s.op == chanrcv
        then transfer r (some s) (σ.chan s.c) σ.mem
        else transfer (some s) r (σ.chan s.c) σ.mem)
  ok (record σ { chan = update σ.chan s.c c; mem = mem })

-- The first branch of altexec: `i` is the number that rand() gives.
unfoldable pub meet : (fuel i : ℕ) → Ptr → Altarray → System → Outcome System
meet fuel i p ar σ = elim (get_elem? ar.a (i % ar.n)) [
  | none ↦ err fault
  | some other ↦ (do
    σ₁ ← altcopy (some (σ.alt p)) (some (σ.alt other)) σ
    σ₂ ← altalldequeue fuel (σ₁.alt other).xalt σ₁
    let first = (σ₂.alt other).xalt
    let σ₃ = record σ₂ { alt = update σ₂.alt first (record (σ₂.alt first) { xalt = other }) }
    w ← taskready (σ₃.alt other).task σ₃.world
    ok (record σ₃ { world = w }))
]

unfoldable pub altexec : (fuel i : ℕ) → Ptr → System → Outcome System
unfolding meet
altexec fuel i p σ =
    let a = σ.alt p in
    let alone : Outcome System = altcopy (some a) none σ in
    elim (chanarray (otherop a.op)) [
      | none ↦ alone
      | some d ↦
          let ar = side_of d (σ.chan a.c) in
          let together : Outcome System = meet fuel i p ar σ in
          if ar.n == 0 then alone else together
    ]

-- The number of Alts before the end of the array at `a`, counted from `i`, on fuel.
unfoldable pub count_alts : ℕ → Ptr → ℕ → System → Outcome ℕ
count_alts zero a i σ = err no_fuel
count_alts (suc k) a i σ =
    let rest : Outcome ℕ = count_alts k a (i + 1) σ in
    if ends (σ.alt (a + i)).op then ok i else rest

-- `for(i=0; i<n; i++){ a[i].task = t; a[i].xalt = a; }`, with `k` rounds left.
unfoldable pub claim : (k : ℕ) → Ptr → ℕ → System → System
claim zero a i σ = σ
claim (suc k) a i σ = claim k a (i + 1) (record σ {
  alt = update σ.alt (a + i) (record (σ.alt (a + i)) { task = σ.world.taskrunning; xalt = a });
})

abbrev pub can : Ptr → System → Bool
can p σ = altcanexec (σ.alt p) (σ.chan (σ.alt p).c)

-- How many of the Alts from `i` on can be executed.
unfoldable pub count_can : (k : ℕ) → Ptr → ℕ → System → ℕ
count_can zero a i σ = 0
count_can (suc k) a i σ = (if can (a + i) σ then 1 else 0) + count_can k a (i + 1) σ

-- The index of the Alt that can be executed and has `j` such Alts before it.
unfoldable pub pick : (k : ℕ) → Ptr → ℕ → ℕ → System → Option ℕ
pick zero a i j σ = none
pick (suc k) a i j σ =
    let later : Option ℕ = pick k a (i + 1) (if can (a + i) σ then j - 1 else j) σ in
    if can (a + i) σ && (j == 0) then some i else later

-- `for(i=0; i<n; i++) if(a[i].op != CHANNOP) altqueue(&a[i]);`
unfoldable pub queue_all : (k : ℕ) → Ptr → ℕ → System → Outcome System
queue_all zero a i σ = ok σ
queue_all (suc k) a i σ = do
  σ' ← (if (σ.alt (a + i)).op == channop then ok σ else altqueue (a + i) σ)
  queue_all k a (i + 1) σ'

-- whether `c` points to a channel
abbrev pub live : System → Ptr → Bool
live σ c = not (c == 0) && σ.machine.opened c

-- The pointers that altcanexec follows, from the Alt with index `i` on, with `k` Alts left.
unfoldable pub follow : (k : ℕ) → Ptr → ℕ → System → Outcome (Unit {0})
follow zero a i σ = ok tt
follow (suc k) a i σ =
    let rest : Outcome (Unit {0}) = follow k a (i + 1) σ in
    if (σ.alt (a + i)).op == channop
    then rest
    else if live σ (σ.alt (a + i)).c
    then rest
    else err fault

-- How chanalt ends: with an index, with -1, or with a task that waits.
pub data Choice : Type 0 where
  chose : ℕ → Choice
  refused waits : Choice

-- The rest of chanalt, when it is known which Alt is to be executed, if any.
unfoldable pub execute_or_wait :
    (fuel i n : ℕ) → Ptr → (canblock : Bool) → Option ℕ → System → Outcome (Choice × System)
unfolding queue_all
execute_or_wait fuel i n a canblock (some k) σ = do σ' ← altexec fuel i (a + k) σ; ok (chose k, σ')
execute_or_wait fuel i n a true none σ = do σ' ← queue_all n a 0 σ; ok (waits, σ')
execute_or_wait fuel i n a false none σ = ok (refused, σ)

-- chanalt up to taskswitch. `j` and `i` are the numbers that rand() gives.
unfoldable pub chanalt : (fuel j i : ℕ) → Ptr → System → Outcome (Choice × System)
unfolding count_alts claim count_can pick execute_or_wait follow
chanalt fuel j i a σ = do
  w ← needstack σ.machine.sp σ.machine.stk 512 σ.world
  n ← count_alts fuel a 0 σ
  followed ← follow n a 0 σ
  let canblock = (σ.alt (a + n)).op == chanend
  let σ₁ = claim n a 0 σ
  let ncan = count_can n a 0 σ₁
  execute_or_wait fuel i n a canblock (pick n a 0 (j % ncan) σ₁) σ₁

-- What chanalt returns when the task runs again: `a[0].xalt - a`.
unfoldable pub chanalt_resume : Ptr → System → ℕ
chanalt_resume a σ = (σ.alt a).xalt - a

-- _chanop up to the switch, on the two Alts of its stack frame at `a`; what the frame holds besides is
-- kept. `v` is the address of the element.
unfoldable pub _chanop :
    (fuel j i : ℕ)
    → (a : Ptr) → (c op v : ℕ) → (canblock : Bool) → System
    → Outcome (Choice × System)
unfolding chanalt
_chanop fuel j i a c op v canblock σ =
    let first = record (σ.alt a) { c = c; op = op; v = v } in
    let second = record (σ.alt (a + 1)) { op = if canblock then chanend else channoblk } in
    chanalt fuel j i a (record σ { alt = update (update σ.alt a first) (a + 1) second })

unfoldable pub chansend :
    (fuel j i : ℕ) → (a : Ptr) → (c v : ℕ) → System → Outcome (Choice × System)
unfolding _chanop
chansend fuel j i a c v σ = _chanop fuel j i a c chansnd v true σ

unfoldable pub channbsend :
    (fuel j i : ℕ) → (a : Ptr) → (c v : ℕ) → System → Outcome (Choice × System)
unfolding _chanop
channbsend fuel j i a c v σ = _chanop fuel j i a c chansnd v false σ

unfoldable pub chanrecv :
    (fuel j i : ℕ) → (a : Ptr) → (c v : ℕ) → System → Outcome (Choice × System)
unfolding _chanop
chanrecv fuel j i a c v σ = _chanop fuel j i a c chanrcv v true σ

unfoldable pub channbrecv :
    (fuel j i : ℕ) → (a : Ptr) → (c v : ℕ) → System → Outcome (Choice × System)
unfolding _chanop
channbrecv fuel j i a c v σ = _chanop fuel j i a c chanrcv v false σ
