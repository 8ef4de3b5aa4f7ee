-- ===== src/Channel.antt =====
-- libtask/channel.c: channels, the arrays of waiting Alts, and chanalt.
pub mod Alone
pub mod Arrays
pub mod Block
pub mod Buffered
pub mod Chanop
pub mod Copy
pub mod Delarray
pub mod Deliver
pub mod Exchange
pub mod Exec
pub mod Fifo
pub mod Frame
pub mod Free
pub mod Leave
pub mod Meet
pub mod Queue
pub mod Select
pub mod Transfer
pub mod Waiting
pub mod Words
use libabhi.Base.{
  ℕ, zero, suc, ◌+◌, ◌-◌, ◌%◌, ◌^◌, ◌*◌, leb, Bool, true, false, not, Option, none, some, List, [],
  ◌++◌, Outcome, ok, err, Stop, fault, abort, no_fuel, exit, ◌>>=◌, ◌==◌, ltb, if◌then◌else◌,
  get_elem?, set, take, length, replicate,
}
use libabhi.Sched.{World}

-- An address. An Alt's address counts Alts, so that `&a[i]` is `a + i`.
abbrev pub Ptr : Type 0
Ptr = ℕ

abbrev pub chanend : ℕ
chanend = 0

abbrev pub chansnd : ℕ
chansnd = 1

abbrev pub chanrcv : ℕ
chanrcv = 2

abbrev pub channop : ℕ
channop = 3

abbrev pub channoblk : ℕ
channoblk = 4

pub record Alt : Type 0 where
  pub c : Ptr
  pub v : Ptr
  pub op : ℕ
  pub task : Ptr
  pub xalt : Ptr

-- `a` has room for `m` pointers.
pub record Altarray : Type 0 where
  pub a : List Ptr
  pub n : ℕ
  pub m : ℕ

-- A slot of `buf` is one element, of `elemsize` bytes, which are moved together.
pub record Channel : Type 0 where
  pub bufsize : ℕ
  pub elemsize : ℕ
  pub buf : List ℕ
  pub nbuf : ℕ
  pub off : ℕ
  pub asend : Altarray
  pub arecv : Altarray

-- Where the running function stands on its task's stack, which begins at `stk`; the channels that
-- chancreate has given and chanfree has not taken back; and whether realloc finds memory.
pub record Machine : Type 0 where
  pub sp : ℕ
  pub stk : ℕ
  pub opened : Ptr → Bool
  pub grows : Bool

-- Elements in memory, Alts, channels, and the scheduler. `chan` says what an open channel holds. The
-- channels at which Alts wait are taken to stay open.
pub record System : Type 0 where
  pub mem : Ptr → ℕ
  pub alt : Ptr → Alt
  pub chan : Ptr → Channel
  pub world : World
  pub machine : Machine

abbrev pub update {ℓ} : {A : Type ℓ} → (ℕ → A) → ℕ → A → ℕ → A
update f p v q = if q == p then v else f q

abbrev pub no_alts : Altarray
no_alts = record { a = []; n = 0; m = 0 }

-- `malloced` says whether malloc succeeds; the buffer's elements have no known value. The size is
-- a product of type int, whose overflow is undefined.
unfoldable pub chancreate : (malloced : Bool) (elemsize bufsize : ℕ) → Outcome Channel
chancreate malloced elemsize bufsize =
    if leb (2 ^ 31) (bufsize * elemsize)
    then err fault
    else if malloced
    then ok (record {
      bufsize = bufsize;
      elemsize = elemsize;
      buf = replicate bufsize 0;
      nbuf = 0;
      off = 0;
      asend = no_alts;
      arecv = no_alts;
    })
    else err (exit 1)

-- The array that realloc leaves, with room for `m`; new places have no known value.
abbrev pub realloc : List Ptr → ℕ → List Ptr
realloc a m = take m a ++ replicate (m - length a) 0

-- The array with one pointer more.
unfoldable pub appended : Altarray → Ptr → Altarray
appended r alt =
    let m = if r.n == r.m then (r.m + 16) % 2 ^ 32 else r.m in
    let a = if r.n == r.m then realloc r.a m else r.a in
    record { a = set a r.n alt; n = (r.n + 1) % 2 ^ 32; m = m }

-- When realloc fails, `a` becomes NULL and is written through.
unfoldable pub addarray : (grows : Bool) → Altarray → Ptr → Outcome Altarray
unfolding appended
addarray grows r alt =
    if grows then ok (appended r alt) else if r.n == r.m then err fault else ok (appended r alt)

-- The pointers that count.
abbrev pub alts : Altarray → List Ptr
alts r = take r.n r.a

-- A read outside the array is a fault.
unfoldable pub delarray : Altarray → ℕ → Outcome Altarray
delarray r i =
    let n = (r.n + 2 ^ 32 - 1) % 2 ^ 32 in
    elim (get_elem? r.a n) [
      | none ↦ err fault
      | some last ↦ ok (record r { a = set r.a i last; n = n })
    ]

-- `uint` arithmetic
abbrev pub otherop : ℕ → ℕ
otherop op = (3 + 2 ^ 32 - op) % 2 ^ 32

pub data Side : Type 0 where
  send recv : Side

unfoldable pub chanarray : ℕ → Option Side
chanarray op = if op == chansnd then some send else if op == chanrcv then some recv else none

abbrev pub side_of : Side → Channel → Altarray
side_of send c = c.asend
side_of recv c = c.arecv

abbrev pub put_side : Side → Altarray → Channel → Channel
put_side send r c = record c { asend = r }
put_side recv r c = record c { arecv = r }

-- whether an array was found and holds an Alt
abbrev pub somebody : Option Side → Channel → Bool
somebody none c = false
somebody (some d) c = not ((side_of d c).n == 0)

unfoldable pub altcanexec : Alt → Channel → Bool
unfolding chanarray
altcanexec a c =
    if a.op == channop
    then false
    else if c.bufsize == 0
    then somebody (chanarray (otherop a.op)) c
    else if a.op == chansnd
    then ltb c.nbuf c.bufsize
    else if a.op == chanrcv
    then ltb 0 c.nbuf
    else false

-- With another `op` the code dereferences NULL.
unfoldable pub altqueue : Ptr → System → Outcome System
unfolding chanarray addarray
altqueue p s =
    let a = s.alt p in
    elim (chanarray a.op) [
      | none ↦ err fault
      | some d ↦
          let c = s.chan a.c in
          (do
            r ← addarray s.machine.grows (side_of d c) p
            ok (record s { chan = update s.chan a.c (put_side d r c) }))
    ]

-- The loop of altdequeue from index `i`, with `k` rounds left.
pub find_alt : (k i : ℕ) → Ptr → Altarray → Outcome Altarray
unfolding delarray
find_alt zero i p r = err abort
find_alt (suc k) i p r =
    let rest : Outcome Altarray = find_alt k (i + 1) p r in
    elim (get_elem? r.a i) [ none ↦ err fault | some q ↦ if q == p then delarray r i else rest ]

unfoldable pub altdequeue : Ptr → System → Outcome System
unfolding chanarray find_alt
altdequeue p s =
    let a = s.alt p in
    elim (chanarray a.op) [
      | none ↦ err abort
      | some d ↦ (do
        let c = s.chan a.c
        r ← find_alt (side_of d c).n 0 p (side_of d c)
        ok (record s { chan = update s.chan a.c (put_side d r c) }))
    ]

-- whether the array of Alts ends here
abbrev pub ends : ℕ → Bool
ends op = if op == chanend then true else op == channoblk

-- From the Alt at `p`, on fuel.
unfoldable pub altalldequeue : ℕ → Ptr → System → Outcome System
altalldequeue zero p s = err no_fuel
altalldequeue (suc k) p s =
    let op = (s.alt p).op in
    let round : Outcome System = (do
      s' ← (if op == channop then ok s else altdequeue p s)
      altalldequeue k (p + 1) s') in
    if ends op then ok s else round
