-- ===== src/Print.antt =====
-- libtask/print.c: a stripped down printf. What is written from `dst` on is a list of bytes, and the
-- room for it is `edst - dst`.
pub mod Numbers
pub mod Padding
pub mod Render
pub mod Room
pub mod Text
use libabhi.Base.{
  ℕ, zero, suc, ◌+◌, ◌-◌, ◌*◌, ◌/◌, ◌%◌, ◌^◌, min, Bool, true, false, not, ◌&&◌, ◌||◌, Option, none,
  some, List, [], ◌∷◌, ◌++◌, Outcome, ok, err, Stop, fault, overrun, abort, ◌>>=◌, ◌==◌, ltb, leb,
  if◌then◌else◌, get_or, take, length, replicate,
}
use libabhi.Base.Int.{ℤ, pos, negsuc}

abbrev pub space : ℕ
space = 32

abbrev pub width : ℤ → ℕ
width (pos n) = n
width (negsuc n) = suc n

abbrev pub leftward : ℤ → Bool
leftward (pos n) = false
leftward (negsuc n) = true

-- What printstr writes of the text `s`, whose length is an int.
unfoldable pub placed : (room : ℕ) → List ℕ → (size : ℤ) → List ℕ
placed room s size =
    let wide = if ltb (length s) (width size) then width size else length s in
    let n = if leb room wide then room - 1 else wide in
    let l = if ltb n (length s) then n else length s in
    let text = take l s in
    let blank = replicate (n - l) space in
    if room == 0 then [] else if leftward size then text ++ blank else blank ++ text

-- `s` has no NUL. The result is what printstr writes; it returns `dst` plus its length. `int l` keeps the
-- lower 32 bits of the length: when it turns negative, memset and memmove write behind the buffer.
unfoldable pub printstr : (room : ℕ) → List ℕ → (size : ℤ) → Outcome (List ℕ)
unfolding placed
printstr room s size =
    let l = length s % 2 ^ 32 in
    if room == 0
    then ok []
    else if leb (2 ^ 31) l
    then err overrun
    else ok (placed room (take l s) size)

-- What stands behind the format: a machine word, or a text by its address.
pub data Arg : Type 0 where
  word : ℕ → Arg
  text : List ℕ → Arg

-- The flags of `fl`, with `size` and `sign`.
pub record Spec : Type 0 where
  pub long : Bool
  pub longlong : Bool
  pub unsigned : Bool
  pub size : ℕ
  pub minus : Bool

abbrev pub fresh_spec : Spec
fresh_spec = record { long = false; longlong = false; unsigned = false; size = 0; minus = false }

-- `size * sign`
abbrev pub signed_size : Spec → ℤ
signed_size f = if f.minus then (if f.size == 0 then pos 0 else negsuc (f.size - 1)) else pos f.size

-- The value that va_arg reads, as the 64-bit `luv`: an `int` is extended by its sign.
unfoldable pub fetch : Spec → ℕ → ℕ
fetch f x =
    let low = x % 2 ^ 32 in
    if f.longlong || f.long
    then x % 2 ^ 64
    else if f.unsigned
    then low
    else if ltb low (2 ^ 31)
    then low
    else low + 2 ^ 64 - 2 ^ 32

-- The value whose digits are printed. `neg` is set and never read.
unfoldable pub magnitude : Spec → ℕ → ℕ
magnitude f luv = if not f.unsigned && leb (2 ^ 63) luv then 2 ^ 64 - luv else luv

abbrev pub digit : ℕ → ℕ
digit d = if ltb d 10 then 48 + d else 87 + d

-- `while(luv){ *--p = digits[luv%base]; luv /= base; }`, on fuel; `acc` is what stands at `p`.
unfoldable pub digits_loop : (fuel base luv : ℕ) → List ℕ → List ℕ
digits_loop zero base luv acc = acc
digits_loop (suc k) base luv acc =
    let rest = digits_loop k base (luv / base) (digit (luv % base) ∷ acc) in
    if luv == 0 then acc else rest

-- The text at `p` when a number is printed.
unfoldable pub number_text : (base luv : ℕ) → List ℕ
number_text base luv =
    let digits = digits_loop 64 base luv [] in
    let prefixed = if base == 16 then 48 ∷ 120 ∷ digits else digits in
    if (base == 8) || (luv == 0) then 48 ∷ prefixed else prefixed

-- What a character does behind a `%`.
pub data Directive : Type 0 where
  modify : Spec → Directive
  number : (base : ℕ) → Directive
  character string error_text unknown too_wide : Directive

-- An overflow of `int size` is undefined.
unfoldable pub directive : Spec → ℕ → Directive
directive f c =
    if c == b'-'
    then modify (record f { minus = true })
    else if leb b'0' c && leb c b'9'
    then if leb (2 ^ 31) (f.size * 10 + c)
      then too_wide
      else modify (record f { size = f.size * 10 + c - b'0' })
    else if c == b'l'
    then modify (if f.long then record f { longlong = true } else record f { long = true })
    else if c == b'u'
    then modify (record f { unsigned = true })
    else if c == b'd'
    then number 10
    else if c == b'o'
    then number 8
    else if (c == b'p') || (c == b'x')
    then number 16
    else if c == b'c'
    then character
    else if c == b's'
    then string
    else if c == b'r'
    then error_text
    else unknown

-- "*verb*", the rest of the format after a directive that is not known.
abbrev pub verb : List ℕ
verb = 42 ∷ 118 ∷ 101 ∷ 114 ∷ 98 ∷ 42 ∷ []

-- The text that a directive prints and the arguments left, or a fault if the argument is of another
-- kind or missing, or the width is too large. `message` is strerror(errno).
unfoldable pub printed :
    (message : List ℕ) → Spec → Directive → List Arg → Outcome (List ℕ × List Arg)
unfolding fetch magnitude number_text
printed message f (number base) (word x ∷ args) =
    ok (number_text base (magnitude f (fetch f x)), args)
printed message f character (word x ∷ args) =
    ok (if (x % 256) == 0 then [] else (x % 256) ∷ [], args)
printed message f string (text s ∷ args) = ok (s, args)
printed message f error_text args = ok (message, args)
printed message f d args = err fault

pub data Mode : Type 0 where
  plain : Mode
  behind_percent : Spec → Mode

module _ (message : List ℕ) where
  -- A character behind a `%`: `again` goes on with new flags, `next` with the text that follows.
  obey :
      Spec
      → Directive
      → (room : ℕ) → List Arg
      → (again : Spec → Outcome (List ℕ)) → (next : ℕ → List Arg → Outcome (List ℕ))
      → Outcome (List ℕ)
  unfolding printed printstr
  obey f (modify f') room args again next = again f'
  obey f unknown room args again next = ok (take (room - 1) verb)
  obey f d room args again next = do
    (s, args') ← printed message f d args
    piece ← printstr room s (signed_size f)
    out ← next (room - length piece) args'
    ok (piece ++ out)

  -- The loops of vseprint on the rest of the format; the result is what is still written. A format
  -- that ends behind a `%` is read on past its end.
  unfoldable pub scan : Mode → List ℕ → (room : ℕ) → List Arg → Outcome (List ℕ)
  unfolding directive obey
  scan plain [] room args = ok []
  scan plain (c ∷ fmt) room args =
      let copy : Outcome (List ℕ) = (do out ← scan plain fmt (room - 1) args; ok (c ∷ out)) in
      let percent : Outcome (List ℕ) = scan (behind_percent fresh_spec) fmt room args in
      if leb room 1 then ok [] else if c == b'%' then percent else copy
  scan (behind_percent f) [] room args = err fault
  scan (behind_percent f) (c ∷ fmt) room args =
      obey f (directive f c) room args (λ f'. scan (behind_percent f') fmt room args)
        (scan plain fmt)

  -- vseprint writes the result and a NUL behind it.
  unfoldable pub vseprint : (room : ℕ) → List ℕ → List Arg → Outcome (List ℕ)
  unfolding scan
  vseprint room fmt args = do
    out ← scan plain fmt room args
    (if ltb (length out) room then ok (out ++ (0 ∷ [])) else err abort)

  unfoldable pub vsnprint : (n : ℕ) → List ℕ → List Arg → Outcome (List ℕ)
  unfolding vseprint
  vsnprint n fmt args = vseprint n fmt args

  -- They return `dst`.
  unfoldable pub snprint : (n : ℕ) → List ℕ → List Arg → Outcome (List ℕ)
  unfolding vsnprint
  snprint n fmt args = vsnprint n fmt args

  unfoldable pub seprint : (room : ℕ) → List ℕ → List Arg → Outcome (List ℕ)
  unfolding vseprint
  seprint room fmt args = vseprint room fmt args

  module _ {S : Type 0} (real_write : (fd : ℕ) → List ℕ → S → ℤ × S) where
    -- The text is formatted into 256 bytes; what stands before the NUL is written.
    unfoldable pub vfprint : (fd : ℕ) → List ℕ → List Arg → S → Outcome (ℤ × S)
    unfolding vseprint
    vfprint fd fmt args s = do
      out ← vseprint 256 fmt args
      ok (real_write fd (take (length out - 1) out) s)

    unfoldable pub vprint : List ℕ → List Arg → S → Outcome (ℤ × S)
    unfolding vfprint
    vprint fmt args s = vfprint 1 fmt args s

    unfoldable pub fprint : (fd : ℕ) → List ℕ → List Arg → S → Outcome (ℤ × S)
    unfolding vfprint
    fprint fd fmt args s = vfprint fd fmt args s

    unfoldable pub print : List ℕ → List Arg → S → Outcome (ℤ × S)
    unfolding vprint
    print fmt args s = vprint fmt args s

-- With no room at all strecpy writes behind the buffer.
unfoldable pub strecpy : (room : ℕ) → List ℕ → Outcome (List ℕ)
unfolding printstr
strecpy room src = do
  copied ← printstr room src (pos 0)
  (if room == 0 then err overrun else ok (copied ++ (0 ∷ [])))
