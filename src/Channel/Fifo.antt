-- ===== src/Channel/Fifo.antt =====
-- The buffer of a channel is a bounded first-in first-out queue, and altcopy serves it.
use native.Mathlib.Nat.{mod-eq_of_lt, mod-eq-sub-mod}
use mathlib.Core.Path.{ap₂}
use libabhi.Base.{
  ℕ, zero, suc, ◌+◌, ◌-◌, ◌%◌, ◌^◌, ◌<◌, ◌≤◌, ◌≡◌, ◌≢◌, refl, sym, ap, ◌∙◌, true, false, some, List,
  [], ◌∷◌, ◌++◌, arith, ◌⊎◌, inl, inr, ok, ◌==◌, ltb, if◌then◌else◌, get_elem?, get_or, set, length,
  lt→ltb, length-set, Bool-cases,
}
use mathlib.Core.List.{tail}
use libabhi.Channel.{Ptr, Alt, Channel}
use libabhi.Channel.Exec.{source, target, take_out, put_in}

-- `n` elements from the `k`-th behind `off` on, going round at `size`.
abbrev pub window : List ℕ → ℕ → ℕ → ℕ → ℕ → List ℕ
window buf size off k zero = []
window buf size off k (suc n) = get_or buf ((off + k) % size) 0 ∷ window buf size off (suc k) n

-- The elements that a channel holds, oldest first.
abbrev pub contents : Channel → List ℕ
contents c = window c.buf c.bufsize c.off 0 c.nbuf

-- A buffered channel whose counts are in range. `uint` sums do not wrap below the bound.
pub record IsBuffered (c : Channel) : Type 0 where
  pub room : length c.buf ≡ c.bufsize
  pub small : c.bufsize < 2 ^ 31
  pub off_in : c.off < c.bufsize
  pub nbuf_in : c.nbuf ≤ c.bufsize

pub length-contents : (buf : List ℕ) (size off k n : ℕ) → length (window buf size off k n) ≡ n
length-contents buf size off k zero = refl
length-contents buf size off k (suc n) = ap suc (length-contents buf size off (suc k) n)

-- A place behind `off` is reached directly or by going round once.
place :
    (size off k : ℕ)
    → off < size
    → k < size
    → ((off + k < size) × ((off + k) % size ≡ off + k))
      ⊎ ((size ≤ off + k) × ((off + k) % size ≡ off + k - size))
place size off k h h' = elim (leq size (off + k)) [
  | inl p ↦ inr (
    p,
    mod-eq-sub-mod {n = off + k} {m = size} p
        ∙ mod-eq_of_lt {n = off + k - size} {m = size} (omega arith),
  )
  | inr p ↦ inl (p, mod-eq_of_lt p)
]
  where
    leq : (a b : ℕ) → (a ≤ b) ⊎ (b < a)
    leq a b = grind arith

places_differ :
    (size off k n : ℕ) → off < size → k < n → n < size → (off + k) % size ≢ (off + n) % size
places_differ size off k n h p q =
    λ e. clash (place size off k h (omega arith)) (place size off n h q) e
  where
    clash :
        ((off + k < size) × ((off + k) % size ≡ off + k))
          ⊎ ((size ≤ off + k) × ((off + k) % size ≡ off + k - size))
        → ((off + n < size) × ((off + n) % size ≡ off + n))
          ⊎ ((size ≤ off + n) × ((off + n) % size ≡ off + n - size))
        → (off + k) % size ≡ (off + n) % size
        → ⊥
    clash (inl a) (inl b) e = omega arith
    clash (inl a) (inr b) e = omega arith
    clash (inr a) (inl b) e = omega arith
    clash (inr a) (inr b) e = omega arith

get_or-set_here : (xs : List ℕ) (i x : ℕ) → i < length xs → get_or (set xs i x) i 0 ≡ x
get_or-set_here [] i x h = absurd (omega arith)
get_or-set_here (y ∷ ys) zero x h = refl
get_or-set_here (y ∷ ys) (suc i) x h = get_or-set_here ys i x (omega arith)

get_or-set_there : (xs : List ℕ) (i j x : ℕ) → j ≢ i → get_or (set xs i x) j 0 ≡ get_or xs j 0
get_or-set_there [] i j x n = refl
get_or-set_there (y ∷ ys) zero zero x n = absurd (n refl)
get_or-set_there (y ∷ ys) zero (suc j) x n = refl
get_or-set_there (y ∷ ys) (suc i) zero x n = refl
get_or-set_there (y ∷ ys) (suc i) (suc j) x n = get_or-set_there ys i j x (λ e. n (ap suc e))

-- Writing behind the youngest element adds it to the queue.
window-put :
    (buf : List ℕ) (size off x k n i : ℕ)
    → length buf ≡ size
    → off < size
    → k + n < size
    → i ≡ (off + (k + n)) % size
    → window (set buf i x) size off k (suc n) ≡ window buf size off k n ++ (x ∷ [])
window-put buf size off x k zero i room h p e =
    let e' : i ≡ (off + k) % size = e ∙ ap (λ m. (off + m) % size) (omega arith) in
    ap (λ y. y ∷ []) (rw (← e') (get_or-set_here buf i x (omega arith)))
window-put buf size off x k (suc n) i room h p e =
    ap₂ ◌∷◌
      (get_or-set_there buf i ((off + k) % size) x
        (rw e (places_differ size off k (k + suc n) h (omega arith) p)))
      (window-put buf size off x (suc k) n i room h (omega arith)
        (e ∙ ap (λ m. (off + m) % size) (omega arith)))

-- The next place in the order.
next_off :
    (size off k : ℕ)
    → off < size
    → ((if off + 1 == size then 0 else off + 1) + k) % size ≡ (off + suc k) % size
next_off size off k h = elim (Bool-cases (off + 1 == size)) [
  | inl e ↦
      let full : size ≤ off + suc k = ground arith in
      rw e (ap (λ m. m % size) (wrapped e) ∙ sym (mod-eq-sub-mod {n = off + suc k} {m = size} full))
  | inr n ↦ rw n (ap (λ m. m % size) (omega arith))
]
  where
    wrapped : (off + 1 == size) ≡ true → 0 + k ≡ off + suc k - size
    wrapped e = ground arith

window-next :
    (buf : List ℕ) (size off k n : ℕ)
    → off < size
    → window buf size (if off + 1 == size then 0 else off + 1) k n ≡ window buf size off (suc k) n
window-next buf size off k zero h = refl
window-next buf size off k (suc n) h =
    ap₂ ◌∷◌ (ap (λ i. get_or buf i 0) (next_off size off k h))
      (window-next buf size off (suc k) n h)

get_elem?-some : (xs : List ℕ) (i : ℕ) → i < length xs → get_elem? xs i ≡ some (get_or xs i 0)
get_elem?-some [] i h = absurd (omega arith)
get_elem?-some (y ∷ ys) zero h = refl
get_elem?-some (y ∷ ys) (suc i) h = get_elem?-some ys i (omega arith)

pub window-tail :
    (buf : List ℕ) (size off n x : ℕ) (q : List ℕ)
    → off < size
    → window buf size off 0 n ≡ x ∷ q
    → (0 < n)
      × (get_or buf off 0 ≡ x)
      × (window buf size (if off + 1 == size then 0 else off + 1) 0 (n - 1) ≡ q)
window-tail buf size off zero x q h e = cc
window-tail buf size off (suc n) x q h e =
    let less : suc n - 1 ≡ n = omega arith in
    let here : (off + 0) % size ≡ off = ap (λ m. m % size) (omega arith) ∙ mod-eq_of_lt h in
    (
      omega arith,
      ap (λ i. get_or buf i 0) (sym here) ∙ ap (λ l. get_or l 0 0) e,
      rw less (window-next buf size off 0 n h ∙ ap tail e),
    )

-- The channel after its oldest element is taken out, and after an element is put in.
abbrev pub popped : Channel → Channel
popped c = record c { nbuf = c.nbuf - 1; off = if c.off + 1 == c.bufsize then 0 else c.off + 1 }

abbrev pub pushed : ℕ → Channel → Channel
pushed x c = record c { buf = set c.buf ((c.off + c.nbuf) % c.bufsize) x; nbuf = c.nbuf + 1 }

pub take_out-popped :
    (c : Channel) (r : Alt) (mem : Ptr → ℕ)
    → IsBuffered c
    → 0 < c.nbuf
    → take_out r c mem ≡ ok (popped c, target r.v (get_or c.buf c.off 0) mem)
unfolding take_out
take_out-popped c r mem b some_held =
    let next : (c.off + 1) % 2 ^ 32 ≡ c.off + 1 = omega (arith, b.small, b.off_in) in
    let less : (c.nbuf + 2 ^ 32 - 1) % 2 ^ 32 ≡ c.nbuf - 1 = omega (arith, b.small, b.nbuf_in) in
    rw (get_elem?-some c.buf c.off (omega arith), take_out, next, less) refl

pub popped-IsBuffered : (c : Channel) → IsBuffered c → 0 < c.nbuf → IsBuffered (popped c)
popped-IsBuffered c b h = record {
  room = b.room;
  small = b.small;
  off_in = ground arith;
  nbuf_in = omega arith;
}

pub put_in-pushed :
    (c : Channel) (s : Alt) (mem : Ptr → ℕ)
    → IsBuffered c
    → c.nbuf < c.bufsize
    → put_in s c mem ≡ ok (pushed (source s.v mem) c, mem)
unfolding put_in
put_in-pushed c s mem b free =
    let sum : (c.off + c.nbuf) % 2 ^ 32 ≡ c.off + c.nbuf = omega (arith, b.small, b.off_in) in
    let more : (c.nbuf + 1) % 2 ^ 32 ≡ c.nbuf + 1 = omega (arith, b.small) in
    let positive : (c.bufsize == 0) ≡ false = ground arith in
    let inside : ltb ((c.off + c.nbuf) % c.bufsize) (length c.buf) ≡ true =
      lt→ltb _ _ (omega (arith, b.room)) in
    rw (positive, sum, inside, more) refl

pub pushed-IsBuffered :
    (c : Channel) (x : ℕ) → IsBuffered c → c.nbuf < c.bufsize → IsBuffered (pushed x c)
pushed-IsBuffered c x b h = record {
  room = length-set c.buf ((c.off + c.nbuf) % c.bufsize) x ∙ b.room;
  small = b.small;
  off_in = b.off_in;
  nbuf_in = omega arith;
}

pub contents-pushed :
    (c : Channel) (x : ℕ)
    → IsBuffered c
    → c.nbuf < c.bufsize
    → contents (pushed x c) ≡ contents c ++ (x ∷ [])
contents-pushed c x b h =
    let one : c.nbuf + 1 ≡ suc c.nbuf = omega arith in
    rw one (
      window-put c.buf c.bufsize c.off x 0 c.nbuf ((c.off + c.nbuf) % c.bufsize) b.room b.off_in
        (omega arith) (ap (λ m. (c.off + m) % c.bufsize) (omega arith)))
