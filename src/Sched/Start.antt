-- ===== src/Sched/Start.antt =====
-- How a new task of libtask/task.c starts: taskalloc gives its address to makecontext as two words, and
-- taskstart puts them together again.
use Prim.Native.Nat.{bit_or, bit_or-bitwise, digits}
use libabhi.Base.{
  ℕ, zero, suc, ◌+◌, ◌*◌, ◌^◌, ◌/◌, ◌%◌, ◌<◌, ◌≤◌, ◌≡◌, refl, ap, ◌∙◌, sym, subst, max, arith,
  Bool-cases, ◌==◌, inl, inr, Outcome, ◌>>=◌,
}
use libabhi.Tasks.{Ptr, load}
use libabhi.Sched.{World, taskexit}

-- `y = z` and `x = z>>32`, of type uint
unfoldable pub pointer_words : Ptr → ℕ × ℕ
pointer_words t = (t % 2 ^ 32, ((t / 2 ^ 16) / 2 ^ 16) % 2 ^ 32)

-- `z = x<<16; z <<= 16; z |= y;`. The first shift is one of a uint.
unfoldable pub joined_words : (y x : ℕ) → Ptr
joined_words y x = let z = (x * 2 ^ 16) % 2 ^ 32 in bit_or ((z * 2 ^ 16) % 2 ^ 64) y

-- `call` is what a function does until it returns, with all that happens while its task waits.
unfoldable pub taskstart :
    (call : (fn arg : ℕ) → World → Outcome World) → (y x : ℕ) → World → Outcome World
unfolding joined_words
taskstart call y x w = do
  c ← load (joined_words y x) w.heap
  w' ← call c.startfn c.startarg w
  taskexit 0 w'

-- `c` with `k` zeros behind it, in binary.
shifted : ℕ → ℕ → ℕ
shifted zero c = c
shifted (suc k) c = 2 * shifted k c

abbrev or_digits : ℕ → ℕ → ℕ → ℕ
or_digits = digits (λ x. x) max

digits_step :
    (n a b : ℕ)
    → 0 < a
    → or_digits (suc n) a b ≡ or_digits n (a / 2) (b / 2) * 2 + max (a % 2) (b % 2)
digits_step n zero b h = absurd (omega arith)
digits_step n (suc a) b h = refl

digits_none : (n a b : ℕ) → a ≡ 0 → or_digits n a b ≡ b
digits_none zero a b e = refl
digits_none (suc n) a b e = ap (λ y. or_digits (suc n) y b) e

or_below :
    (n k c b : ℕ)
    → shifted k c ≤ n
    → b < shifted k 1
    → or_digits n (shifted k c) b ≡ shifted k c + b
unfolding shifted
or_below zero k c b h l = omega (arith, h)
or_below (suc n) zero c b h l = elim (Bool-cases (c == 0)) [
  | inl e ↦ let nothing : c ≡ 0 = ground arith in omega (arith, digits_none (suc n) c b nothing)
  | inr e ↦
      let some_digit : 0 < c = ground arith in
      let higher : c / 2 ≤ n = omega arith in
      let ih = or_below n zero (c / 2) (b / 2) higher (omega arith) in
      omega (arith, digits_step n c b some_digit, ih)
]
or_below (suc n) (suc k) c b h l = elim (Bool-cases (shifted (suc k) c == 0)) [
  | inl e ↦
      let nothing : shifted (suc k) c ≡ 0 = ground arith in
      omega (arith, digits_none (suc n) (shifted (suc k) c) b nothing)
  | inr e ↦
      let some_digit : 0 < shifted (suc k) c = ground arith in
      let half : shifted (suc k) c / 2 ≡ shifted k c = omega arith in
      let even : shifted (suc k) c % 2 ≡ 0 = omega arith in
      let ih = or_below n k c (b / 2) (omega arith) (omega arith) in
      let ih' : or_digits n (shifted (suc k) c / 2) (b / 2) ≡ shifted k c + b / 2 =
        ap (λ y. or_digits n y (b / 2)) half ∙ ih in
      omega (arith, digits_step n (shifted (suc k) c) b some_digit, ih', even)
]

or_shifted : (a c b : ℕ) → a ≡ shifted 32 c → b < shifted 32 1 → bit_or a b ≡ a + b
or_shifted a c b e l =
    bit_or-bitwise a b
    ∙ subst (λ y. or_digits y y b ≡ y + b) (sym e) (or_below (shifted 32 c) 32 c b (omega arith) l)

-- Whatever the address, the new task starts with its lower 48 bits: all addresses below 2 ^ 48 arrive
-- as they are, and others lose their upper bits.
pub joined-pointer_words :
    (t : Ptr) → t < 2 ^ 64 → (let (y, x) = pointer_words t in joined_words y x ≡ t % 2 ^ 48)
unfolding pointer_words joined_words shifted
joined-pointer_words t h =
    let y = t % 2 ^ 32 in
    let x = ((t / 2 ^ 16) / 2 ^ 16) % 2 ^ 32 in
    let z = ((x * 2 ^ 16) % 2 ^ 32 * 2 ^ 16) % 2 ^ 64 in
    let high : z ≡ shifted 32 (x % 2 ^ 16) = omega arith in
    let low : y < shifted 32 1 = omega arith in omega (arith, or_shifted z (x % 2 ^ 16) y high low)
