-- ===== src/Print/Render.antt =====
-- vseprint of libtask/print.c against a rendering without buffer: what a format of known directives
-- prints when there is room for all of it.
use libabhi.Base.{
  ℕ, ◌+◌, ◌-◌, ◌*◌, ◌%◌, ◌^◌, ◌<◌, ◌≤◌, ◌≡◌, ◌≢◌, refl, ap, ◌∙◌, Bool, true, false, List, [], ◌∷◌,
  ◌++◌, arith, ◌==◌, ltb, leb, if◌then◌else◌, inl, inr, Bool-cases, Outcome, ok, ◌>>=◌, length,
  length-append, take,
}
use libabhi.Base.Int.{ℤ}
use libabhi.Print.Padding.{padded, spec_of, printstr-padded}
use libabhi.Print.{
  modify, printstr, Arg, word, text, signed_size, fetch, magnitude, number_text, directive, printed,
  plain, behind_percent, obey, scan, vseprint, vfprint, fprint,
}

-- What a directive prints: a text, a number of type int that is not negative, or a character.
pub data Conversion : Type 0 where
  string_of : List ℕ → Conversion
  decimal octal hexadecimal : ℕ → Conversion
  char_of : ℕ → Conversion

pub data Item : Type 0 where
  literal : ℕ → Item
  -- `left` stands for a `-`, `digits` for the digits of the width
  conversion : (left : Bool) → (digits : List ℕ) → Conversion → Item

abbrev pub AreDigits : List ℕ → Type 0
AreDigits [] = Unit {0}
AreDigits (d ∷ ds) = (d < 10) × AreDigits ds

abbrev pub IsConversion : Conversion → Type 0
IsConversion (string_of s) = Unit {0}
IsConversion (decimal x) = x < 2 ^ 31
IsConversion (octal x) = x < 2 ^ 31
IsConversion (hexadecimal x) = x < 2 ^ 31
IsConversion (char_of c) = (0 < c) × (c < 256)

-- The width that digits stand for, behind digits of the value `n`.
abbrev pub width_of : ℕ → List ℕ → ℕ
width_of n [] = n
width_of n (d ∷ ds) = width_of (n * 10 + d) ds

-- Plain characters are no `%` and no NUL, and the sum that the code forms for a width is an int.
abbrev pub AreItems : List Item → Type 0
AreItems [] = Unit {0}
AreItems (literal c ∷ items) = (c ≢ b'%') × (c ≢ 0) × AreItems items
AreItems (conversion left digits v ∷ items) =
    AreDigits digits × (width_of 0 digits + 48 < 2 ^ 31) × IsConversion v × AreItems items

abbrev letter : Conversion → ℕ
letter (string_of s) = b's'
letter (decimal x) = b'd'
letter (octal x) = b'o'
letter (hexadecimal x) = b'x'
letter (char_of c) = b'c'

abbrev argument : Conversion → Arg
argument (string_of s) = text s
argument (decimal x) = word x
argument (octal x) = word x
argument (hexadecimal x) = word x
argument (char_of c) = word c

abbrev body : Conversion → List ℕ
body (string_of s) = s
body (decimal x) = number_text 10 x
body (octal x) = number_text 8 x
body (hexadecimal x) = number_text 16 x
body (char_of c) = c ∷ []

abbrev characters : List ℕ → List ℕ
characters [] = []
characters (d ∷ ds) = (48 + d) ∷ characters ds

-- The format, the arguments and the text of a list of items.
abbrev pub format : List Item → List ℕ
format [] = []
format (literal c ∷ items) = c ∷ format items
format (conversion true digits v ∷ items) =
    b'%' ∷ b'-' ∷ (characters digits ++ (letter v ∷ format items))
format (conversion false digits v ∷ items) = b'%' ∷ (characters digits ++ (letter v ∷ format items))

abbrev pub arguments : List Item → List Arg
arguments [] = []
arguments (literal c ∷ items) = arguments items
arguments (conversion left digits v ∷ items) = argument v ∷ arguments items

abbrev pub render : List Item → List ℕ
render [] = []
render (literal c ∷ items) = c ∷ render items
render (conversion left digits v ∷ items) = padded left (width_of 0 digits) (body v) ++ render items

width-grows : (n : ℕ) (digits : List ℕ) → n ≤ width_of n digits
width-grows n [] = omega arith
width-grows n (d ∷ ds) = omega (arith, width-grows (n * 10 + d) ds)

-- What a number of type int that is not negative is printed from.
int_kept :
    (left : Bool) (n x : ℕ) → x < 2 ^ 31 → magnitude (spec_of left n) (fetch (spec_of left n) x) ≡ x
unfolding fetch magnitude
int_kept left n x h = ground arith

digit_lem :
    (left : Bool) (n d : ℕ)
    → d < 10
    → n * 10 + d + 48 < 2 ^ 31
    → directive (spec_of left n) (48 + d) ≡ modify (spec_of left (n * 10 + d))
unfolding directive
digit_lem left n d h bound =
    let narrow : leb (2 ^ 31) (n * 10 + (48 + d)) ≡ false = ground (arith, bound) in
    let no_minus : (48 + d == 45) ≡ false = ground arith in
    let from_0 : leb 48 (48 + d) ≡ true = ground arith in
    let to_9 : leb (48 + d) 57 ≡ true = ground arith in
    let value : n * 10 + (48 + d) - 48 ≡ n * 10 + d = omega arith in
    rw (no_minus, from_0, to_9, narrow, value) refl

module _ (message : List ℕ) where
  -- The digits of a width are read into the size.
  scan-digits :
      (left : Bool) (n : ℕ) (digits fmt : List ℕ) (room : ℕ) (args : List Arg)
      → AreDigits digits
      → width_of n digits + 48 < 2 ^ 31
      → scan message (behind_percent (spec_of left n)) (characters digits ++ fmt) room args
        ≡ scan message (behind_percent (spec_of left (width_of n digits))) fmt room args
  unfolding scan obey
  scan-digits left n [] fmt room args h bound = refl
  scan-digits left n (d ∷ ds) fmt room args (small, h) bound =
      let rest = characters ds ++ fmt in
      ap
        (λ e.
          obey message (spec_of left n) e room args
            (λ f. scan message (behind_percent f) rest room args) (scan message plain rest))
        (digit_lem left n d small (omega (arith, width-grows (n * 10 + d) ds)))
      ∙ scan-digits left (n * 10 + d) ds fmt room args h bound

  scan-letter :
      (left : Bool) (n : ℕ) (v : Conversion) (fmt : List ℕ) (room : ℕ) (args : List Arg)
      → IsConversion v
      → length (padded left n (body v)) < room
      → length (padded left n (body v)) < 2 ^ 31
      → scan message (behind_percent (spec_of left n)) (letter v ∷ fmt) room (argument v ∷ args) ≡ (
          scan message plain fmt (room - length (padded left n (body v))) args >>= λ out.
          ok (padded left n (body v) ++ out))
  unfolding scan obey directive printed
  scan-letter left n v fmt room args h fits short =
      by_kind v h (printstr-padded room left n (body v) fits short)
    where
      print : List ℕ → Outcome (List ℕ)
      print piece = scan message plain fmt (room - length piece) args >>= λ out. ok (piece ++ out)

      number_same :
          (base x : ℕ)
          → x < 2 ^ 31
          → number_text base (magnitude (spec_of left n) (fetch (spec_of left n) x))
            ≡ number_text base x
      number_same base x small = ap (number_text base) (int_kept left n x small)

      sized : List ℕ → Outcome (List ℕ)
      sized s = printstr room s (signed_size (spec_of left n))

      by_kind :
          (v : Conversion)
          → IsConversion v
          → sized (body v) ≡ ok (padded left n (body v))
          → scan message (behind_percent (spec_of left n)) (letter v ∷ fmt) room (argument v ∷ args)
            ≡ print (padded left n (body v))
      by_kind (string_of s) h e = ap (λ r. r >>= print) e
      by_kind (decimal x) h e = ap (λ r. r >>= print) (ap sized (number_same 10 x h) ∙ e)
      by_kind (octal x) h e = ap (λ r. r >>= print) (ap sized (number_same 8 x h) ∙ e)
      by_kind (hexadecimal x) h e = ap (λ r. r >>= print) (ap sized (number_same 16 x h) ∙ e)
      by_kind (char_of c) (some_char, byte) e =
          let kept : c % 256 ≡ c = omega arith in
          let no_nul : (c == 0) ≡ false = ground arith in
          let here : (if (c % 256) == 0 then [] else (c % 256) ∷ []) ≡ c ∷ [] =
            rw (kept, no_nul) refl in
          ap (λ r. r >>= print) (ap sized here ∙ e)

  -- Both stop, when the room is for the NUL only.
  no_room :
      (room : ℕ) (out : List ℕ) (next : Outcome (List ℕ))
      → length out < room
      → (leb room 1 ≡ false → next ≡ ok out)
      → (if leb room 1 then ok [] else next) ≡ ok out
  no_room room [] next fits rest = elim (Bool-cases (leb room 1)) [
    | inl e ↦ rw e refl
    | inr e ↦ rw e (rest e)
  ]
  no_room room (c ∷ out) next fits rest =
      let more : leb room 1 ≡ false = ground arith in rw more (rest more)

  -- What follows a `%` and the sign.
  scan-conversion :
      (left : Bool) (digits : List ℕ) (v : Conversion) (fmt : List ℕ) (out : List ℕ) (room : ℕ)
      (args : List Arg)
      → AreDigits digits
      → width_of 0 digits + 48 < 2 ^ 31
      → IsConversion v
      → length (padded left (width_of 0 digits) (body v) ++ out) < room
      → length (padded left (width_of 0 digits) (body v) ++ out) < 2 ^ 31
      → ((room' : ℕ) → length out < room' → scan message plain fmt room' args ≡ ok out)
      → scan message
          (behind_percent (spec_of left 0))
          (characters digits ++ (letter v ∷ fmt))
          room
          (argument v ∷ args)
        ≡ ok (padded left (width_of 0 digits) (body v) ++ out)
  scan-conversion left digits v fmt out room args are bound is fits short rest =
      let piece = padded left (width_of 0 digits) (body v) in
      let whole = length-append piece out in
      scan-digits left 0 digits (letter v ∷ fmt) room (argument v ∷ args) are bound
      ∙ scan-letter left (width_of 0 digits) v fmt room args is (omega arith) (omega arith)
      ∙ ap (λ r. r >>= λ l. ok (piece ++ l)) (rest (room - length piece) (omega arith))

  -- With room for what a format of known directives prints, the loop prints exactly that.
  scan-format :
      (items : List Item) (room : ℕ)
      → AreItems items
      → length (render items) < room
      → length (render items) < 2 ^ 31
      → scan message plain (format items) room (arguments items) ≡ ok (render items)
  unfolding scan
  scan-format [] room h fits short = refl
  scan-format (literal c ∷ items) room (no_percent, no_end, h) fits short =
      let more : leb room 1 ≡ false = ground arith in
      let copied : (c == 37) ≡ false = ground arith in
      rw (more, copied) (rw (scan-format items (room - 1) h (omega arith) (omega arith)) refl)
  scan-format (conversion true digits v ∷ items) room (are, bound, is, h) fits short =
      no_room room (render (conversion true digits v ∷ items)) _ fits λ e.
        scan-conversion true digits v (format items) (render items) room (arguments items) are bound
          is fits short
          λ room' fits'.
            scan-format items room' h fits' (
              omega
                (arith, length-append (padded true (width_of 0 digits) (body v)) (render items)))
  scan-format (conversion false digits v ∷ items) room (are, bound, is, h) fits short =
      no_room room (render (conversion false digits v ∷ items)) _ fits λ e.
        scan-conversion false digits v (format items) (render items) room (arguments items) are
          bound is fits short
          λ room' fits'. scan-format items room' h fits' (
            omega (arith, length-append (padded false (width_of 0 digits) (body v)) (render items)))

  -- When the buffer has room for it and for a NUL, it is shorter than 2^31, no width overflows
  -- and no plain character is a NUL, vseprint prints what the format and its arguments stand for:
  -- its plain characters; texts; numbers of type int that are not negative, to the bases 10, 8 and
  -- 16, as number_text writes them; and characters; each with blanks up to its width, behind it if
  -- the directive has a minus.
  pub vseprint-render :
      (items : List Item) (room : ℕ)
      → AreItems items
      → length (render items) < room
      → length (render items) < 2 ^ 31
      → vseprint message room (format items) (arguments items) ≡ ok (render items ++ (0 ∷ []))
  unfolding vseprint
  vseprint-render items room h fits short =
      let enough : ltb (length (render items)) room ≡ true = ground arith in
      rw (scan-format items room h fits short, enough) refl

take-snoc : (out : List ℕ) → take (length (out ++ (0 ∷ [])) - 1) (out ++ (0 ∷ [])) ≡ out
take-snoc out =
    let whole : length (out ++ (0 ∷ [])) - 1 ≡ length out =
      omega (arith, length-append out (0 ∷ [])) in
    ap (λ n. take n (out ++ (0 ∷ []))) whole ∙ prefix out
  where
    prefix : (xs : List ℕ) → take (length xs) (xs ++ (0 ∷ [])) ≡ xs
    prefix [] = refl
    prefix (x ∷ xs) = ap (λ l. x ∷ l) (prefix xs)

-- fprint writes what the format and its arguments stand for, if that is less than 256 bytes.
pub fprint-render :
    {S : Type 0} (real_write : (fd : ℕ) → List ℕ → S → ℤ × S) (message : List ℕ) (fd : ℕ)
    (items : List Item) (s : S)
    → AreItems items
    → length (render items) < 256
    → fprint message real_write fd (format items) (arguments items) s
      ≡ ok (real_write fd (render items) s)
unfolding fprint vfprint
fprint-render real_write message fd items s h fits =
    ap (λ r. r >>= λ out. ok (real_write fd (take (length out - 1) out) s))
      (vseprint-render message items 256 h fits (omega arith))
    ∙ ap (λ out. ok (real_write fd out s)) (take-snoc (render items))
