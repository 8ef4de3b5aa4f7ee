-- ===== src/Print/Room.antt =====
-- No output of libtask/print.c reaches the end of its buffer: there is room for the NUL.
use libabhi.Base.{
  ℕ, ◌+◌, ◌-◌, ◌<◌, ◌≤◌, ◌≡◌, ◌∙◌, min, false, List, [], ◌∷◌, ◌++◌, arith, Outcome, ok, err, abort,
  fault, overrun, no_fuel, exit, zero, suc, ◌/◌, ◌%◌, ◌^◌, ◌||◌, ◌==◌, ltb, leb, if◌then◌else◌,
  length, take, replicate, length-append, length-take, length-replicate, Bool-cases, inl, inr,
  ◌>>=◌, lt→ltb,
}
use libabhi.Base.Int.{ℤ}
use libabhi.Print.Padding.{printstr-small}
use libabhi.Print.{
  placed, printstr, digits_loop, digit, number_text, width, leftward, space, Arg, Spec, Directive,
  modify, number, character, string, error_text, unknown, directive, printed, Mode, plain,
  behind_percent, scan, obey, vseprint, verb, fresh_spec, signed_size,
}

-- The length of what is placed: the text or the width, whichever is longer, cut to the room.
pub length-placed :
    (room : ℕ) (s : List ℕ) (size : ℤ)
    → 0 < room
    → length (placed room s size)
      ≡ min (if ltb (length s) (width size) then width size else length s) (room - 1)
unfolding placed
length-placed room s size h =
    let wide = if ltb (length s) (width size) then width size else length s in
    let n = if leb room wide then room - 1 else wide in
    let l = if ltb n (length s) then n else length s in
    let longer : length s ≤ wide = ground arith in
    let cut : n ≡ min wide (room - 1) = ground arith in
    let within : l ≤ n = ground arith in
    let fits : l ≤ length s = ground arith in
    let some_room : (room == 0) ≡ false = ground arith in
    let piece : length (take l s) ≡ l = omega (arith, length-take l s) in
    let blanks : length (replicate (n - l) space) ≡ n - l = length-replicate (n - l) space in
    rw some_room (elim (Bool-cases (leftward size)) [
      | inl e ↦ rw e (length-append (take l s) (replicate (n - l) space) ∙ omega arith)
      | inr e ↦ rw e (length-append (replicate (n - l) space) (take l s) ∙ omega arith)
    ])

pub length-digits_loop :
    (k base x : ℕ) (acc : List ℕ) → length (digits_loop k base x acc) ≤ k + length acc
unfolding digits_loop
length-digits_loop zero base x acc = omega arith
length-digits_loop (suc k) base x acc =
    let ih = length-digits_loop k base (x / base) (digit (x % base) ∷ acc) in
    elim (Bool-cases (x == 0)) [ inl e ↦ rw e (omega arith) | inr e ↦ rw e (omega (arith, ih)) ]

number_text_short : (base x : ℕ) → length (number_text base x) < 2 ^ 31
unfolding number_text
number_text_short base x =
    let most = length-digits_loop 64 base x [] in
    elim (Bool-cases (base == 16)) [
      | inl e ↦ rw e (elim (Bool-cases ((base == 8) || (x == 0))) [
        | inl z ↦ rw z (omega (arith, most))
        | inr z ↦ rw z (omega (arith, most))
      ])
      | inr e ↦ rw e (elim (Bool-cases ((base == 8) || (x == 0))) [
        | inl z ↦ rw z (omega (arith, most))
        | inr z ↦ rw z (omega (arith, most))
      ])
    ]

-- The texts behind a format are shorter than 2^31.
abbrev pub AreShort : List Arg → Type 0
AreShort [] = Unit {0}
AreShort (Arg.word x ∷ args) = AreShort args
AreShort (Arg.text s ∷ args) = (length s < 2 ^ 31) × AreShort args

-- A run that gives a short text, or stops at an argument that is not what it should be.
abbrev Clean : Outcome (List ℕ × List Arg) → Type 0
Clean (ok (s, args)) = (length s < 2 ^ 31) × AreShort args
Clean (err fault) = Unit {0}
Clean (err e) = ⊥

-- Such a run whose text leaves room for a NUL.
abbrev Fits : ℕ → Outcome (List ℕ) → Type 0
Fits room (ok out) = length out < room
Fits room (err fault) = Unit {0}
Fits room (err e) = ⊥

-- A run that writes at most `room` bytes, the last of them a NUL, or that reads a missing argument
-- or behind the format, or a width too large for an int.
pub data IsBounded (room : ℕ) : Outcome (List ℕ) → Type 0 where
  writes : (out : List ℕ) → length out < room → IsBounded room (ok (out ++ (0 ∷ [])))
  misreads : IsBounded room (err fault)

printed-Clean :
    (message : List ℕ) (f : Spec) (d : Directive) (args : List Arg)
    → length message < 2 ^ 31
    → AreShort args
    → Clean (printed message f d args)
unfolding printed
printed-Clean message f (number base) (Arg.word x ∷ args) m h = (number_text_short base _, h)
printed-Clean message f (number base) (Arg.text s ∷ args) m h = tt
printed-Clean message f (number base) [] m h = tt
printed-Clean message f character (Arg.word x ∷ args) m h = elim (Bool-cases ((x % 256) == 0)) [
  | inl e ↦ rw e (omega arith, h)
  | inr e ↦ rw e (omega arith, h)
]
printed-Clean message f character (Arg.text s ∷ args) m h = tt
printed-Clean message f character [] m h = tt
printed-Clean message f string (Arg.text s ∷ args) m h = h
printed-Clean message f string (Arg.word x ∷ args) m h = tt
printed-Clean message f string [] m h = tt
printed-Clean message f error_text args m h = (m, h)
printed-Clean message f d args m h = tt

Fits-bind :
    (room less : ℕ) (piece : List ℕ) (m : Outcome (List ℕ))
    → length piece + less ≤ room
    → Fits less m
    → Fits room (m >>= λ out. ok (piece ++ out))
Fits-bind room less piece (ok out) h f = omega (arith, length-append piece out)
Fits-bind room less piece (err fault) h f = f
Fits-bind room less piece (err abort) h f = absurd f
Fits-bind room less piece (err overrun) h f = absurd f
Fits-bind room less piece (err no_fuel) h f = absurd f
Fits-bind room less piece (err (exit n)) h f = absurd f

module _ (message : List ℕ) (said : length message < 2 ^ 31) where
  obey-Fits :
      (f : Spec) (d : Directive) (room : ℕ) (args : List Arg) (again : Spec → Outcome (List ℕ))
      (next : ℕ → List Arg → Outcome (List ℕ))
      → 0 < room
      → AreShort args
      → ((f' : Spec) → Fits room (again f'))
      → ((less : ℕ) (args' : List Arg) → 0 < less → AreShort args' → Fits less (next less args'))
      → Fits room (obey message f d room args again next)
  unfolding obey
  obey-Fits f (modify f') room args again next h sh fa fn = fa f'
  obey-Fits f unknown room args again next h sh fa fn = omega (arith, length-take (room - 1) verb)
  obey-Fits f d room args again next h sh fa fn =
      go (printed message f d args) (printed-Clean message f d args said sh)
    where
      go :
          (m : Outcome (List ℕ × List Arg))
          → Clean m
          → Fits room (
              m >>= λ (s, args'). printstr room s (signed_size f) >>= λ piece.
              next (room - length piece) args' >>= λ out. ok (piece ++ out))
      go (ok (s, args')) (brief, sh') =
          let piece = placed room s (signed_size f) in
          let short : length piece < room = omega (arith, length-placed room s (signed_size f)) in
          rw (printstr-small room s (signed_size f) brief) (
            Fits-bind room (room - length piece) piece (next (room - length piece) args')
              (omega arith) (fn (room - length piece) args' (omega arith) sh'))
      go (err fault) c = tt
      go (err abort) c = absurd c
      go (err overrun) c = absurd c
      go (err no_fuel) c = absurd c
      go (err (exit n)) c = absurd c

  scan-Fits :
      (m : Mode) (fmt : List ℕ) (room : ℕ) (args : List Arg)
      → 0 < room
      → AreShort args
      → Fits room (scan message m fmt room args)
  unfolding scan
  scan-Fits plain [] room args h sh = h
  scan-Fits plain (c ∷ fmt) room args h sh = elim (Bool-cases (leb room 1)) [
    | inl full ↦ rw full h
    | inr free ↦ rw free (elim (Bool-cases (c == b'%')) [
      | inl e ↦ rw e (scan-Fits (behind_percent fresh_spec) fmt room args h sh)
      | inr n ↦ rw n (
          Fits-bind room (room - 1) (c ∷ []) (scan message plain fmt (room - 1) args) (omega arith)
            (scan-Fits plain fmt (room - 1) args (ground arith) sh))
    ])
  ]
  scan-Fits (behind_percent f) [] room args h sh = tt
  scan-Fits (behind_percent f) (c ∷ fmt) room args h sh =
      obey-Fits f (directive f c) room args (λ f'. scan message (behind_percent f') fmt room args)
        (scan message plain fmt) h sh (λ f'. scan-Fits (behind_percent f') fmt room args h sh)
        (λ less args' h' sh'. scan-Fits plain fmt less args' h' sh')

-- With room for at least one byte, and whatever the format and the arguments, as long as their
-- texts and that of the errno are shorter than 2^31, vseprint writes no more than the room, its NUL
-- included, and never fails its assert; the only way in which it does not return is a read behind
-- the format or of an argument of the wrong kind, or a width too large for an int.
pub vseprint_fits :
    (message : List ℕ) (room : ℕ) (fmt : List ℕ) (args : List Arg)
    → 0 < room
    → length message < 2 ^ 31
    → AreShort args
    → IsBounded room (vseprint message room fmt args)
unfolding vseprint
vseprint_fits message room fmt args h said sh =
    go (scan message plain fmt room args) (scan-Fits message said plain fmt room args h sh)
  where
    go :
        (m : Outcome (List ℕ))
        → Fits room m
        → IsBounded room
            (m >>= λ out. if ltb (length out) room then ok (out ++ (0 ∷ [])) else err abort)
    go (ok out) f = rw (lt→ltb (length out) room f) (writes out f)
    go (err fault) f = misreads
    go (err abort) f = absurd f
    go (err overrun) f = absurd f
    go (err no_fuel) f = absurd f
    go (err (exit n)) f = absurd f
