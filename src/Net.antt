-- ===== src/Net.antt =====
-- libtask/net.c: reading an address written in dots. strtoul with base 0 is a parameter: from a text
-- it gives the number in front and the text behind it.
pub mod Dial
pub mod Quad
pub mod Tidy
use libabhi.Base.{
  ℕ, zero, suc, ◌/◌, ◌%◌, ◌^◌, Bool, true, false, Option, none, some, List, [], ◌∷◌, ◌++◌, ◌==◌,
  ltb, if◌then◌else◌, length, drop,
}

-- What follows a number: its end, or a dot, which is skipped. Anything else is an error.
abbrev pub behind_number : List ℕ → Option (List ℕ)
behind_number [] = some []
behind_number (c ∷ p) = if c == b'.' then some p else none

-- `addr` for `i` numbers, by the class of the address: the last number stands for the bytes that
-- are left out. Fewer than four bytes of class 3 are filled up with what `addr` held before.
unfoldable pub complete : (i : ℕ) → List ℕ → Option (List ℕ)
complete i (a ∷ b ∷ c ∷ d ∷ []) =
    let class = a / 64 in
    if ltb class 2
    then (if i == 4
        then some (a ∷ b ∷ c ∷ d ∷ [])
        else if i == 3
        then some (a ∷ 0 ∷ b ∷ c ∷ [])
        else if i == 2
        then some (a ∷ 0 ∷ 0 ∷ b ∷ [])
        else none)
    else if class == 2
    then (if i == 4
        then some (a ∷ b ∷ c ∷ d ∷ [])
        else if i == 3
        then some (a ∷ b ∷ 0 ∷ c ∷ [])
        else none)
    else some (a ∷ b ∷ c ∷ d ∷ [])
complete i addr = none

module _ (strtoul : List ℕ → ℕ × List ℕ) where
  -- The loop of parseip: the numbers that it puts into `addr`, at most `k`. The result of strtoul
  -- becomes an int, which must lie between 0 and 255.
  unfoldable pub parts : (k : ℕ) → List ℕ → Option (List ℕ)
  parts zero p = some []
  parts (suc k) [] = some []
  parts (suc k) (c ∷ cs) =
      let (v, p') = strtoul (c ∷ cs) in
      let x = v % 2 ^ 32 in
      let later : Option (List ℕ) = elim (behind_number p') [
        | none ↦ none
        | some p ↦ elim (parts k p) [ none ↦ none | some xs ↦ some (x ∷ xs) ]
      ] in
      if ltb x 256 then later else none

  -- The four bytes of the address, in order, or `none` for -1. `junk` is what the array `addr` on the
  -- stack holds at first, four bytes.
  unfoldable pub parseip : (junk : List ℕ) → List ℕ → Option (List ℕ)
  unfolding parts complete
  parseip junk name = elim (parts 4 name) [
    | none ↦ none
    | some xs ↦ complete (length xs) (xs ++ drop (length xs) junk)
  ]

  -- netlookup: a name that is no address is looked up by gethostbyname.
  unfoldable pub netlookup :
      (gethostbyname : List ℕ → Option (List ℕ)) → (junk : List ℕ) → List ℕ → Option (List ℕ)
  unfolding parseip
  netlookup gethostbyname junk name = elim (parseip junk name) [
    | none ↦ gethostbyname name
    | some ip ↦ some ip
  ]
