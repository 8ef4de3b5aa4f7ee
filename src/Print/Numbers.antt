-- ===== src/Print/Numbers.antt =====
-- How libtask/print.c writes numbers.
use native.Mathlib.Nat.{pow-suc, div-add-mod, div-add-mod', mod-lt}
use libabhi.Base.{
  ℕ, zero, suc, ◌+◌, ◌-◌, ◌*◌, ◌/◌, ◌%◌, ◌^◌, ◌<◌, ◌≤◌, ◌≡◌, refl, sym, ap, ◌∙◌, true, false, List,
  [], ◌∷◌, arith, ◌==◌, ltb, leb, if◌then◌else◌, Bool-cases, inl, inr,
}
use libabhi.Print.{Spec, fetch, magnitude, digit, digits_loop, number_text}

-- What a reader makes of the digits, after those that were worth `v`.
abbrev undigit : ℕ → ℕ
undigit c = if ltb c 58 then c - 48 else c - 87

pub read_digits : (base v : ℕ) → List ℕ → ℕ
read_digits base v [] = v
read_digits base v (c ∷ cs) = read_digits base (v * base + undigit c) cs

undigit-digit : (d : ℕ) → d < 16 → undigit (digit d) ≡ d
undigit-digit d h = ground arith

module _ (base : ℕ) (low : 2 ≤ base) (high : base ≤ 16) where
  read-digits_loop :
      (k luv : ℕ) (acc : List ℕ)
      → luv < 2 ^ k
      → read_digits base 0 (digits_loop k base luv acc) ≡ read_digits base luv acc
  unfolding digits_loop read_digits
  read-digits_loop zero luv acc h = ap (λ v. read_digits base v acc) (omega arith)
  read-digits_loop (suc k) luv acc h = elim (Bool-cases (luv == 0)) [
    | inl e ↦ rw e (ap (λ v. read_digits base v acc) (ground arith))
    | inr n ↦ rw n (
        read-digits_loop k (luv / base) (digit (luv % base) ∷ acc) (halved k luv h)
        ∙ ap (λ v. read_digits base v acc) (whole luv))
  ]
    where
      halved : (k luv : ℕ) → luv < 2 ^ suc k → luv / base < 2 ^ k
      halved k luv h =
          let twice : 2 * (luv / base) ≤ base * (luv / base) = grind arith in
          omega (arith, pow-suc 2 k, div-add-mod luv base)

      whole : (luv : ℕ) → luv / base * base + undigit (digit (luv % base)) ≡ luv
      whole luv =
          let small : luv % base < base = mod-lt luv (omega arith) in
          omega (arith, undigit-digit (luv % base) (omega arith), div-add-mod' luv base)

-- In base 10 the text of a number below 2 ^ 64 reads back as that number.
pub read-number_text_10 : (x : ℕ) → x < 2 ^ 64 → read_digits 10 0 (number_text 10 x) ≡ x
unfolding number_text read_digits
read-number_text_10 x h = elim (Bool-cases (x == 0)) [
  | inl e ↦ rw e (read-digits_loop 10 (omega arith) (omega arith) 64 x [] h)
  | inr n ↦ rw n (read-digits_loop 10 (omega arith) (omega arith) 64 x [] h)
]

-- In base 8 the text of a number below 2 ^ 64 reads back as that number.
pub read-number_text_8 : (x : ℕ) → x < 2 ^ 64 → read_digits 8 0 (number_text 8 x) ≡ x
unfolding number_text read_digits
read-number_text_8 x h = read-digits_loop 8 (omega arith) (omega arith) 64 x [] h

-- In base 16 the text of a number from 1 to 2 ^ 64 - 1 is `0x` and digits that read back as it.
pub read-number_text_16 :
    (x : ℕ)
    → 0 < x
    → x < 2 ^ 64
    → (ds : List ℕ) × (number_text 16 x ≡ b'0' ∷ b'x' ∷ ds) × (read_digits 16 0 ds ≡ x)
unfolding number_text read_digits
read-number_text_16 x h h' =
    let some_digit : (x == 0) ≡ false = ground arith in
    (
      digits_loop 64 16 x [],
      rw some_digit refl,
      read-digits_loop 16 (omega arith) (omega arith) 64 x [] h',
    )

int_spec :
    (f : Spec) (x : ℕ)
    → f.long ≡ false
    → f.longlong ≡ false
    → f.unsigned ≡ false
    → 0 < x
    → x < 2 ^ 31
    → (magnitude f (fetch f (2 ^ 32 - x)) ≡ x) × (magnitude f (fetch f x) ≡ x)
unfolding magnitude fetch
int_spec f x long longlong unsigned h h' =
    let low : (2 ^ 32 - x) % 2 ^ 32 ≡ 2 ^ 32 - x = omega arith in
    let high_half : ltb (2 ^ 32 - x) (2 ^ 31) ≡ false = ground arith in
    let same : x % 2 ^ 32 ≡ x = omega arith in
    let low_half : ltb x (2 ^ 31) ≡ true = ground arith in
    let minus : leb (2 ^ 63) (2 ^ 32 - x + 2 ^ 64 - 2 ^ 32) ≡ true = ground arith in
    let plus : leb (2 ^ 63) x ≡ false = ground arith in
    (
      rw (long, longlong, unsigned, low, high_half, minus) (omega arith),
      rw (long, longlong, unsigned, same, low_half, plus) refl,
    )

-- A negative `int` is printed like its absolute value: the minus sign is lost.
pub number_text-negative_int :
    (f : Spec) (x : ℕ)
    → f.long ≡ false
    → f.longlong ≡ false
    → f.unsigned ≡ false
    → 0 < x
    → x < 2 ^ 31
    → number_text 10 (magnitude f (fetch f (2 ^ 32 - x))) ≡ number_text 10 (magnitude f (fetch f x))
number_text-negative_int f x long longlong unsigned h h' =
    let (negative, positive) = int_spec f x long longlong unsigned h h' in
    ap (number_text 10) (negative ∙ sym positive)
