-- ===== src/Channel/Arrays.antt =====
-- addarray and delarray of libtask/channel.c on the Alts that an array holds.
use libabhi.Base.{
  ℕ, zero, suc, ◌+◌, ◌-◌, ◌%◌, ◌^◌, ◌<◌, ◌≤◌, ◌≡◌, refl, ap, ◌∙◌, List, [], ◌∷◌, ◌++◌, arith, ◌==◌,
  set, take, length, replicate, length-append, length-take, length-set, length-replicate,
  Bool-cases, inl, inr, Bool, true, ok,
}
use libabhi.Channel.{Ptr, Altarray, appended, alts, realloc, addarray}

-- `a` has `m` places, `n` of them in use; `uint` sums do not wrap.
pub record IsArray (r : Altarray) : Type 0 where
  pub room : length r.a ≡ r.m
  pub used : r.n ≤ r.m
  pub small : r.m + 16 < 2 ^ 32

set-take :
    (xs : List ℕ) (n x : ℕ) → n < length xs → take (suc n) (set xs n x) ≡ take n xs ++ (x ∷ [])
set-take [] n x h = absurd (omega arith)
set-take (y ∷ ys) zero x h = refl
set-take (y ∷ ys) (suc n) x h = ap (λ l. y ∷ l) (set-take ys n x (omega arith))

take-take-append :
    (xs ys : List ℕ) (n m : ℕ) → n ≤ m → n ≤ length xs → take n (take m xs ++ ys) ≡ take n xs
take-take-append xs ys zero m h h' = refl
take-take-append [] ys (suc n) m h h' = absurd (omega arith)
take-take-append (x ∷ xs) ys (suc n) zero h h' = absurd (omega arith)
take-take-append (x ∷ xs) ys (suc n) (suc m) h h' =
    ap (λ l. x ∷ l) (take-take-append xs ys n m (omega arith) (omega arith))

length-realloc : (xs : List ℕ) (m : ℕ) → length xs ≤ m → length (realloc xs m) ≡ m
length-realloc xs m h = omega (
  arith,
  length-append (take m xs) (replicate (m - length xs) 0),
  length-take m xs,
  length-replicate {0} {A = ℕ} (m - length xs) 0,
)

-- addarray puts the Alt behind those that the array holds, growing it by 16 places when it is full.
pub appended-append :
    (r : Altarray) (p : Ptr)
    → IsArray r
    → (alts (appended r p) ≡ alts r ++ (p ∷ []))
      × (length ((appended r p).a) ≡ (appended r p).m)
      × ((appended r p).n ≤ (appended r p).m)
unfolding appended
appended-append r p k = elim (Bool-cases (r.n == r.m)) [
  | inl full ↦
      let e : r.n ≡ r.m = ground arith in
      let grown : (r.m + 16) % 2 ^ 32 ≡ r.m + 16 = omega (arith, k.small) in
      let more : (r.n + 1) % 2 ^ 32 ≡ suc r.n = omega (arith, k.small) in
      let room = length-realloc r.a (r.m + 16) (omega (arith, k.room)) in
      rw (full, grown, more)
        (
          set-take (realloc r.a (r.m + 16)) r.n p (omega arith)
              ∙ ap (λ l. l ++ (p ∷ []))
                  (take-take-append r.a (replicate (r.m + 16 - length r.a) 0) r.n (r.m + 16)
                    (omega arith) (omega arith)),
          length-set (realloc r.a (r.m + 16)) r.n p ∙ room,
          omega arith,
        )
  | inr free ↦
      let less : r.n < r.m = ground (arith, k.used) in
      let more : (r.n + 1) % 2 ^ 32 ≡ suc r.n = omega (arith, k.small) in
      rw (free, more) (set-take r.a r.n p (omega arith), length-set r.a r.n p ∙ k.room, omega arith)
]

-- With memory, addarray does not fail.
pub addarray-grows :
    (grows : Bool) (r : Altarray) (p : Ptr) → grows ≡ true → addarray grows r p ≡ ok (appended r p)
unfolding addarray
addarray-grows grows r p memory = rw memory refl
