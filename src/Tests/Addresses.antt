-- ===== src/Tests/Addresses.antt =====
-- Tests of addresses, with a strtoul that reads decimal digits.
use libabhi.Base.{ℕ, ◌+◌, ◌-◌, ◌*◌, ◌≡◌, refl, ◌&&◌, some, List, [], ◌∷◌, arith, leb, if◌then◌else◌}
use libabhi.Net.{parseip}
use libabhi.Net.Quad.{Ends, Reads, parseip_quad}

decimal : ℕ → List ℕ → ℕ × List ℕ
decimal acc [] = (acc, [])
decimal acc (c ∷ cs) =
    let more : ℕ × List ℕ = decimal (acc * 10 + (c - b'0')) cs in
    if leb b'0' c && leb c b'9' then more else (acc, c ∷ cs)

stops : (v : ℕ) (rest : List ℕ) → Ends rest → decimal v rest ≡ (v, rest)
unfolding decimal
stops v [] e = refl
stops v (c ∷ p) e = rw e refl

seven : Reads (decimal 0) b'7' [] 7
unfolding decimal
seven = record { small = omega arith; reads = stops 7 }

ten : Reads (decimal 0) b'1' (b'0' ∷ []) 10
unfolding decimal
ten = record { small = omega arith; reads = stops 10 }

-- "10.7.7.10.x"
parseip_quad_example :
    parseip
      (decimal 0)
      (1 ∷ 2 ∷ 3 ∷ 4 ∷ [])
      (b'1' ∷ b'0' ∷ b'.' ∷ b'7' ∷ b'.' ∷ b'7' ∷ b'.' ∷ b'1' ∷ b'0' ∷ b'.' ∷ b'x' ∷ [])
    ≡ some (10 ∷ 7 ∷ 7 ∷ 10 ∷ [])
parseip_quad_example =
    parseip_quad (decimal 0) (1 ∷ 2 ∷ 3 ∷ 4 ∷ []) b'1' b'7' b'7' b'1' (b'0' ∷ []) [] [] (b'0' ∷ [])
      10 7 7 10 (b'.' ∷ b'x' ∷ []) ten seven seven ten refl refl
