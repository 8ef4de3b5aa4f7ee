-- ===== src/Print/Text.antt =====
-- Text that libtask/print.c copies, and a format that ends too early.
use libabhi.Base.{
  ℕ, ◌+◌, ◌-◌, ◌<◌, ◌≡◌, refl, ap, false, List, [], ◌∷◌, ◌++◌, arith, ok, err, fault, ◌==◌, ltb,
  leb, if◌then◌else◌, length, take, replicate, ◌∉◌, Bool-cases, inl, inr,
}
use libabhi.Base.Int.{ℤ}
use libabhi.Print.{placed, width, leftward, space, Arg, plain, scan}

take-all : (s : List ℕ) → take (length s) s ≡ s
take-all [] = refl
take-all (c ∷ s) = ap (λ t. c ∷ t) (take-all s)

-- A text that fits into the room together with its padding is padded with blanks to the width, on the
-- left, or on the right if the width is negative.
pub placed_pads :
    (room : ℕ) (s : List ℕ) (size : ℤ)
    → length s < room
    → width size < room
    → (let blank = replicate (width size - length s) space in
        placed room s size ≡ (if leftward size then s ++ blank else blank ++ s))
unfolding placed
placed_pads room s size h h' =
    let some_room : (room == 0) ≡ false = ground arith in
    elim (Bool-cases (ltb (length s) (width size))) [
      | inl e ↦
          let fits : leb room (width size) ≡ false = ground arith in
          let whole : ltb (width size) (length s) ≡ false = ground arith in
          rw (e, fits, whole, some_room, take-all s) refl
      | inr e ↦
          let fits : leb room (length s) ≡ false = ground arith in
          let whole : ltb (length s) (length s) ≡ false = ground arith in
          let none_left : length s - length s ≡ width size - length s = ground arith in
          rw (e, fits, whole, some_room, take-all s, none_left) refl
    ]

-- A text with no `%` that fits is copied.
pub scan-plain :
    (message fmt : List ℕ) (room : ℕ) (args : List Arg)
    → b'%' ∉ fmt
    → length fmt < room
    → scan message plain fmt room args ≡ ok fmt
unfolding scan
scan-plain message [] room args out h = refl
scan-plain message (c ∷ fmt) room args out h =
    let free : leb room 1 ≡ false = ground arith in
    let other : (c == b'%') ≡ false = ground arith in
    rw (free, other, scan-plain message fmt (room - 1) args (ground arith) (omega arith)) refl

-- A format that ends with a lone `%` is read on behind its end, if there is room to get there.
pub scan-lone_percent :
    (message fmt : List ℕ) (room : ℕ) (args : List Arg)
    → b'%' ∉ fmt
    → length fmt + 1 < room
    → scan message plain (fmt ++ (b'%' ∷ [])) room args ≡ err fault
unfolding scan
scan-lone_percent message [] room args out h =
    let free : leb room 1 ≡ false = ground arith in rw free refl
scan-lone_percent message (c ∷ fmt) room args out h =
    let free : leb room 1 ≡ false = ground arith in
    let other : (c == b'%') ≡ false = ground arith in
    rw (free, other, scan-lone_percent message fmt (room - 1) args (ground arith) (omega arith))
      refl
