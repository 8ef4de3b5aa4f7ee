-- ===== src/Net/Quad.antt =====
-- parseip of libtask/net.c on four numbers with dots between them.
use libabhi.Base.{
  ℕ, suc, ◌<◌, ◌≡◌, refl, ap, ◌∙◌, none, some, List, [], ◌∷◌, ◌++◌, arith, lt→ltb, drop, length,
  ◌%◌, ◌^◌,
}
use libabhi.Net.{behind_number, parts, complete, parseip}

-- A text at which a number ends.
abbrev pub Ends : List ℕ → Type 0
Ends [] = Unit {0}
Ends (c ∷ p) = c ≡ b'.'

abbrev pub behind : List ℕ → List ℕ
behind [] = []
behind (c ∷ p) = p

-- The text `c ∷ cs` is a number below 256, which strtoul reads where it ends.
pub record Reads (strtoul : List ℕ → ℕ × List ℕ) (c : ℕ) (cs : List ℕ) (v : ℕ) : Type 0 where
  pub small : v < 256
  pub reads : (rest : List ℕ) → Ends rest → strtoul ((c ∷ cs) ++ rest) ≡ (v, rest)

module _ (strtoul : List ℕ → ℕ × List ℕ) where
  behind_number-behind : (p : List ℕ) → Ends p → behind_number p ≡ some (behind p)
  behind_number-behind [] e = refl
  behind_number-behind (c ∷ p) e = ground (arith, e)

  one_part :
      (k : ℕ) (c : ℕ) (cs : List ℕ) (v : ℕ) (rest xs : List ℕ)
      → Reads strtoul c cs v
      → Ends rest
      → parts strtoul k (behind rest) ≡ some xs
      → parts strtoul (suc k) ((c ∷ cs) ++ rest) ≡ some (v ∷ xs)
  unfolding parts
  one_part k c cs v rest xs r e later =
      let same : v % 2 ^ 32 ≡ v = omega (arith, r.small) in
      rw (r.reads rest e, same, lt→ltb v 256 r.small, behind_number-behind rest e, later)
        (ap (λ n. some (n ∷ xs)) (ap (λ p. p.0 % 2 ^ 32) (r.reads rest e) ∙ same))

complete_four : (a b c d : ℕ) → complete 4 (a ∷ b ∷ c ∷ d ∷ []) ≡ some (a ∷ b ∷ c ∷ d ∷ [])
unfolding complete
complete_four a b c d = ground arith

-- Four numbers below 256 with dots between them are read as the bytes of the address, in order; so
-- they are when any text at all follows behind a further dot.
pub parseip_quad :
    (strtoul : List ℕ → ℕ × List ℕ) (junk : List ℕ) (c₁ c₂ c₃ c₄ : ℕ) (t₁ t₂ t₃ t₄ : List ℕ)
    (a b c d : ℕ) (tail : List ℕ)
    → Reads strtoul c₁ t₁ a
    → Reads strtoul c₂ t₂ b
    → Reads strtoul c₃ t₃ c
    → Reads strtoul c₄ t₄ d
    → Ends tail
    → length junk ≡ 4
    → (let dot : ℕ = b'.' in
        parseip strtoul junk
          ((c₁ ∷ t₁) ++ (dot ∷ ((c₂ ∷ t₂) ++ (dot ∷ ((c₃ ∷ t₃) ++ (dot ∷ ((c₄ ∷ t₄) ++ tail)))))))
        ≡ some (a ∷ b ∷ c ∷ d ∷ []))
unfolding parseip parts
parseip_quad strtoul junk c₁ c₂ c₃ c₄ t₁ t₂ t₃ t₄ a b c d tail r₁ r₂ r₃ r₄ e full =
    let four = (c₄ ∷ t₄) ++ tail in
    let three = (c₃ ∷ t₃) ++ (b'.' ∷ four) in
    let two = (c₂ ∷ t₂) ++ (b'.' ∷ three) in
    let p₄ : parts strtoul 1 four ≡ some (d ∷ []) = one_part strtoul 0 c₄ t₄ d tail [] r₄ e refl in
    let p₃ : parts strtoul 2 three ≡ some (c ∷ d ∷ []) =
      one_part strtoul 1 c₃ t₃ c (b'.' ∷ four) (d ∷ []) r₃ refl p₄ in
    let p₂ : parts strtoul 3 two ≡ some (b ∷ c ∷ d ∷ []) =
      one_part strtoul 2 c₂ t₂ b (b'.' ∷ three) (c ∷ d ∷ []) r₂ refl p₃ in
    let p₁ = one_part strtoul 3 c₁ t₁ a (b'.' ∷ two) (b ∷ c ∷ d ∷ []) r₁ refl p₂ in
    let rest : drop 4 junk ≡ [] = drop_all junk full in
    ap (λ r. elim r [ none ↦ none | some xs ↦ complete (length xs) (xs ++ drop (length xs) junk) ])
      p₁
    ∙ ap (λ l. complete 4 (a ∷ b ∷ c ∷ d ∷ l)) rest
    ∙ complete_four a b c d
  where
    drop_all : (xs : List ℕ) → length xs ≡ 4 → drop 4 xs ≡ []
    drop_all [] h = absurd (omega arith)
    drop_all (w ∷ []) h = absurd (omega arith)
    drop_all (w ∷ x ∷ []) h = absurd (omega arith)
    drop_all (w ∷ x ∷ y ∷ []) h = absurd (omega arith)
    drop_all (w ∷ x ∷ y ∷ z ∷ []) h = refl
    drop_all (w ∷ x ∷ y ∷ z ∷ v ∷ xs) h = absurd (omega arith)
