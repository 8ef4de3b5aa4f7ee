-- ===== src/Tests/Printing.antt =====
-- Tests of printing.
use libabhi.Base.{length, ℕ, ◌≡◌, true, false, refl, List, [], ◌∷◌, ◌++◌, arith, ok}
use libabhi.Print.{text, word, vseprint, number_text, digits_loop}
use libabhi.Print.Render.{
  Item, literal, conversion, string_of, decimal, format, arguments, render, vseprint-render,
}
use libabhi.Print.Room.{IsBounded, vseprint_fits}
use libabhi.Print.Numbers.{read_digits, read-number_text_10}

abbrev hi : List ℕ
hi = b'h' ∷ b'i' ∷ []

-- "%4d|%-4s|%x" with 42, "hi" and 255
printf_example :
    vseprint [] 100
      (b'%' ∷ b'4' ∷ b'd' ∷ b'|' ∷ b'%' ∷ b'-' ∷ b'4' ∷ b's' ∷ b'|' ∷ b'%' ∷ b'x' ∷ [])
      (word 42 ∷ text hi ∷ word 255 ∷ [])
    ≡ ok (
        32 ∷ 32 ∷ b'4' ∷ b'2' ∷ b'|' ∷ b'h' ∷ b'i' ∷ 32 ∷ 32 ∷ b'|' ∷ b'0' ∷ b'x' ∷ b'f' ∷ b'f' ∷ 0
        ∷ [])
unfolding vseprint number_text digits_loop
printf_example = refl

-- "%x" of 0 is "00x".
zero_in_hex : number_text 16 0 ≡ b'0' ∷ b'0' ∷ b'x' ∷ []
unfolding number_text digits_loop
zero_in_hex = refl

vseprint_fits_example : IsBounded 2 (vseprint [] 2 hi [])
vseprint_fits_example = vseprint_fits [] 2 hi [] (omega arith) (omega arith) tt

read-number_text_10_example : read_digits 10 0 (number_text 10 1234) ≡ 1234
read-number_text_10_example = read-number_text_10 1234 (omega arith)

-- "<%4d|%-10s>" with 42 and "hi"
abbrev items : List Item
items =
    literal b'<'
    ∷ conversion false (4 ∷ []) (decimal 42)
    ∷ literal b'|'
    ∷ conversion true (1 ∷ 0 ∷ []) (string_of hi)
    ∷ literal b'>'
    ∷ []

length-items : length (render items) ≡ 17
unfolding number_text digits_loop
length-items = refl

vseprint-render_example :
    vseprint [] 18 (format items) (arguments items) ≡ ok (render items ++ (0 ∷ []))
vseprint-render_example =
    vseprint-render [] items 18
      (
        omega arith,
        omega arith,
        (
          (omega arith, tt),
          omega arith,
          omega arith,
          (
            omega arith,
            omega arith,
            ((omega arith, (omega arith, tt)), omega arith, tt, (omega arith, omega arith, tt)),
          ),
        ),
      )
      (omega (arith, length-items)) (omega (arith, length-items))
