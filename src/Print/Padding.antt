-- ===== src/Print/Padding.antt =====
-- printstr of libtask/print.c when the buffer has room for all of it: it pads the text.
use libabhi.Base.{
  ℕ, suc, ◌-◌, ◌<◌, ◌≤◌, ◌≡◌, refl, sym, ap, ◌∙◌, Bool, true, false, List, [], ◌∷◌, ◌++◌, arith,
  ◌==◌, ltb, leb, if◌then◌else◌, inl, inr, Bool-cases, length, length-append, length-replicate,
  append-nil, ok, ◌%◌, ◌^◌, take, replicate,
}
use libabhi.Base.Int.{ℤ, pos, negsuc}
use libabhi.Print.{space, width, leftward, placed, printstr, Spec, fresh_spec, signed_size}

-- `s` with blanks up to `n` characters, behind it or in front of it.
abbrev pub padded : (left : Bool) → (n : ℕ) → List ℕ → List ℕ
padded true n s = s ++ replicate (n - length s) space
padded false n s = replicate (n - length s) space ++ s

take-length : (s : List ℕ) → take (length s) s ≡ s
take-length [] = refl
take-length (c ∷ s) = ap (λ l. c ∷ l) (take-length s)

length-padded :
    (left : Bool) (n : ℕ) (s : List ℕ)
    → (length s ≤ length (padded left n s)) × (n ≤ length (padded left n s))
length-padded true n s =
    let whole = length-append s (replicate (n - length s) space) in
    let blanks = length-replicate (n - length s) space in
    (omega (arith, whole), omega (arith, whole, blanks))
length-padded false n s =
    let whole = length-append (replicate (n - length s) space) s in
    let blanks = length-replicate (n - length s) space in
    (omega (arith, whole), omega (arith, whole, blanks))

-- With room for all of it, placed fills the text up to the width.
placed-whole :
    (room : ℕ) (s : List ℕ) (size : ℤ)
    → length s < room
    → width size < room
    → placed room s size ≡ padded (leftward size) (width size) s
unfolding placed
placed-whole room s size h h' =
    let wide = if ltb (length s) (width size) then width size else length s in
    let some_room : (room == 0) ≡ false = ground arith in
    let uncut : leb room wide ≡ false = ground arith in
    let longer : ltb wide (length s) ≡ false = ground arith in
    let blanks : wide - length s ≡ width size - length s = ground arith in
    elim (Bool-cases (leftward size)) [
      | inl e ↦ rw (some_room, uncut, longer, blanks, take-length s, e) refl
      | inr e ↦ rw (some_room, uncut, longer, blanks, take-length s, e) refl
    ]

abbrev pub spec_of : Bool → ℕ → Spec
spec_of left n = record fresh_spec { size = n; minus = left }

placed-padded :
    (room : ℕ) (left : Bool) (n : ℕ) (s : List ℕ)
    → length (padded left n s) < room
    → placed room s (signed_size (spec_of left n)) ≡ padded left n s
placed-padded room false n s h =
    let (long, wide) = length-padded false n s in
    placed-whole room s (pos n) (omega arith) (omega arith)
placed-padded room true n s h =
    let (long, wide) = length-padded true n s in
    elim (Bool-cases (n == 0)) [
      | inl e ↦
          let none_wide : n ≡ 0 = ground arith in
          let no_blanks : 0 - length s ≡ 0 = omega arith in
          let plain_text = placed-whole room s (pos 0) (omega arith) (omega arith) in
          rw none_wide (rw (plain_text, no_blanks) (sym (append-nil s)))
      | inr e ↦
          let same : suc (n - 1) ≡ n = ground arith in
          rw e (
            placed-whole room s (negsuc (n - 1)) (omega arith) (omega arith)
            ∙ ap (λ k. padded true k s) same)
    ]

-- A text shorter than 2^31 is placed whole.
pub printstr-small :
    (room : ℕ) (s : List ℕ) (size : ℤ)
    → length s < 2 ^ 31
    → printstr room s size ≡ ok (placed room s size)
unfolding printstr placed
printstr-small room s size h =
    let kept : length s % 2 ^ 32 ≡ length s = omega arith in
    let small : leb (2 ^ 31) (length s) ≡ false = ground arith in
    elim (Bool-cases (room == 0)) [
      | inl none ↦ rw none refl
      | inr some ↦ rw (some, kept, small, take-length s) refl
    ]

pub printstr-padded :
    (room : ℕ) (left : Bool) (n : ℕ) (s : List ℕ)
    → length (padded left n s) < room
    → length (padded left n s) < 2 ^ 31
    → printstr room s (signed_size (spec_of left n)) ≡ ok (padded left n s)
printstr-padded room left n s fits short =
    let (long, wide) = length-padded left n s in
    printstr-small room s (signed_size (spec_of left n)) (omega arith)
    ∙ ap ok (placed-padded room left n s fits)
