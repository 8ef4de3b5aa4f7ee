-- ===== src/Base/Lists.antt =====
-- Lists measured and indexed by native numbers, and lists of addresses.
use Prim.Native.Nat.{ℕ, zero, suc, ◌+◌, ◌-◌, ◌<◌, min}
use mathlib.Core.Path.{◌≡◌, refl, ap}
use mathlib.Core.Logic.{◌≢◌, ◌⊎◌, inl, inr}
use mathlib.Core.Bool.{Bool, true, false, ◌||◌}
use mathlib.Core.List.{List, [], ◌∷◌, ◌++◌}
use mathlib.Core.Option.{Option, none, some}
use native.Mathlib.Omega.{arith}
use libabhi.Base.Tests.{◌==◌}

module _ {ℓ} {A : Type ℓ} where
  abbrev pub length : List A → ℕ
  length [] = 0
  length (x ∷ xs) = suc (length xs)

  abbrev pub get_elem? : List A → ℕ → Option A
  get_elem? [] i = none
  get_elem? (x ∷ xs) zero = some x
  get_elem? (x ∷ xs) (suc i) = get_elem? xs i

  -- A write out of bounds changes nothing.
  abbrev pub set : List A → ℕ → A → List A
  set [] i v = []
  set (x ∷ xs) zero v = v ∷ xs
  set (x ∷ xs) (suc i) v = x ∷ set xs i v

  abbrev pub get_or : List A → ℕ → A → A
  get_or [] i d = d
  get_or (x ∷ xs) zero d = x
  get_or (x ∷ xs) (suc i) d = get_or xs i d

  abbrev pub take : ℕ → List A → List A
  take zero xs = []
  take (suc n) [] = []
  take (suc n) (x ∷ xs) = x ∷ take n xs

  abbrev pub drop : ℕ → List A → List A
  drop zero xs = xs
  drop (suc n) [] = []
  drop (suc n) (x ∷ xs) = drop n xs

  abbrev pub replicate : ℕ → A → List A
  replicate zero a = []
  replicate (suc n) a = a ∷ replicate n a

  pub length-append : (xs ys : List A) → length (xs ++ ys) ≡ length xs + length ys
  length-append [] ys = omega arith
  length-append (x ∷ xs) ys = omega (arith, length-append xs ys)

  pub length-set : (xs : List A) (i : ℕ) (v : A) → length (set xs i v) ≡ length xs
  length-set [] i v = refl
  length-set (x ∷ xs) zero v = refl
  length-set (x ∷ xs) (suc i) v = ap suc (length-set xs i v)

  pub get_elem?-set :
      (xs : List A) (i : ℕ) (v : A) → i < length xs → get_elem? (set xs i v) i ≡ some v
  get_elem?-set [] i v h = absurd (omega arith)
  get_elem?-set (x ∷ xs) zero v h = refl
  get_elem?-set (x ∷ xs) (suc i) v h = get_elem?-set xs i v (omega arith)

  pub get_elem?-set_other :
      (xs : List A) (i j : ℕ) (v : A) → j ≢ i → get_elem? (set xs i v) j ≡ get_elem? xs j
  get_elem?-set_other [] i j v n = refl
  get_elem?-set_other (x ∷ xs) zero zero v n = absurd (n refl)
  get_elem?-set_other (x ∷ xs) zero (suc j) v n = refl
  get_elem?-set_other (x ∷ xs) (suc i) zero v n = refl
  get_elem?-set_other (x ∷ xs) (suc i) (suc j) v n = get_elem?-set_other xs i j v (omega (arith, n))

  -- Growing a list keeps its elements.
  pub get_elem?-take_append :
      (xs ys : List A) (n i : ℕ)
      → i < n
      → i < length xs
      → get_elem? (take n xs ++ ys) i ≡ get_elem? xs i
  get_elem?-take_append [] ys n i h h' = absurd (omega arith)
  get_elem?-take_append (x ∷ xs) ys zero i h h' = absurd (omega arith)
  get_elem?-take_append (x ∷ xs) ys (suc n) zero h h' = refl
  get_elem?-take_append (x ∷ xs) ys (suc n) (suc i) h h' =
      get_elem?-take_append xs ys n i (omega arith) (omega arith)

  pub length-replicate : (n : ℕ) (a : A) → length (replicate n a) ≡ n
  length-replicate zero a = refl
  length-replicate (suc n) a = ap suc (length-replicate n a)

  pub length-take : (n : ℕ) (xs : List A) → length (take n xs) ≡ min n (length xs)
  length-take zero xs = omega arith
  length-take (suc n) [] = omega arith
  length-take (suc n) (x ∷ xs) = omega (arith, length-take n xs)

  pub length-drop : (n : ℕ) (xs : List A) → length (drop n xs) ≡ length xs - n
  length-drop zero xs = omega arith
  length-drop (suc n) [] = omega arith
  length-drop (suc n) (x ∷ xs) = omega (arith, length-drop n xs)

  -- A list is empty, or it has a last element.
  pub snoc-cases : (xs : List A) → (xs ≡ []) ⊎ ((ys : List A) × (y : A) × (xs ≡ ys ++ (y ∷ [])))
  snoc-cases [] = inl refl
  snoc-cases (x ∷ xs) = elim (snoc-cases xs) [
    | inl e ↦ inr ([], x, ap (λ r. x ∷ r) e)
    | inr (ys, y, e) ↦ inr (x ∷ ys, y, ap (λ r. x ∷ r) e)
  ]

-- Membership and distinctness in a list of addresses.
abbrev pub has : ℕ → List ℕ → Bool
has a [] = false
has a (x ∷ xs) = (a == x) || has a xs

infix 40 ◌∈◌ ◌∉◌
abbrev pub ◌∈◌ : ℕ → List ℕ → Type 0
a ∈ xs = has a xs ≡ true

abbrev pub ◌∉◌ : ℕ → List ℕ → Type 0
a ∉ xs = has a xs ≡ false

abbrev pub Distinct : List ℕ → Type 0
Distinct [] = Unit {0}
Distinct (x ∷ xs) = (x ∉ xs) × Distinct xs

abbrev pub Apart : List ℕ → List ℕ → Type 0
Apart xs ys = (a : ℕ) → a ∈ xs → a ∉ ys

pub has-append : (a : ℕ) (xs ys : List ℕ) → has a (xs ++ ys) ≡ (has a xs || has a ys)
has-append a [] ys = refl
has-append a (x ∷ xs) ys = ground (arith, has-append a xs ys)

-- the first and the last element, or what stands there in an empty list
abbrev pub head_or : List ℕ → ℕ → ℕ
head_or [] d = d
head_or (x ∷ xs) d = x

abbrev pub last_or : List ℕ → ℕ → ℕ
last_or [] d = d
last_or (x ∷ xs) d = last_or xs x

pub head_or-append : (xs ys : List ℕ) (d : ℕ) → head_or (xs ++ ys) d ≡ head_or xs (head_or ys d)
head_or-append [] ys d = refl
head_or-append (x ∷ xs) ys d = refl

pub last_or-append : (xs ys : List ℕ) (d : ℕ) → last_or (xs ++ ys) d ≡ last_or ys (last_or xs d)
last_or-append [] ys d = refl
last_or-append (x ∷ xs) ys d = last_or-append xs ys x

pub last_or-mem : (x : ℕ) (xs : List ℕ) → last_or xs x ∈ (x ∷ xs)
last_or-mem x [] = ground arith
last_or-mem x (y ∷ ys) = ground (arith, last_or-mem y ys)

pub Distinct-append :
    (xs ys : List ℕ) → Distinct xs → Distinct ys → Apart xs ys → Distinct (xs ++ ys)
Distinct-append [] ys d e apart = e
Distinct-append (x ∷ xs) ys d e apart = (
  ground (arith, has-append x xs ys, apart x, d.0),
  Distinct-append xs ys d.1 e (λ a i. apart a (ground arith)),
)

pub Distinct-split :
    (xs ys : List ℕ) → Distinct (xs ++ ys) → Distinct xs × Distinct ys × Apart xs ys
Distinct-split [] ys d = (tt, d, λ a i. absurd (ground arith))
Distinct-split (x ∷ xs) ys (out, d) =
    let (dx, dy, apart) = Distinct-split xs ys d in
    (
      (ground (arith, has-append x xs ys), dx),
      dy,
      λ a i. ground (arith, has-append x xs ys, apart a, ==_iff' a x),
    )
  where
    ==_iff' : (a b : ℕ) → (a == b) ≡ true → a ≡ b
    ==_iff' a b h = ground arith

-- Facts about membership, each with few hypotheses.
pub ∉-split : (a : ℕ) (xs ys : List ℕ) → a ∉ (xs ++ ys) → (a ∉ xs) × (a ∉ ys)
∉-split a xs ys o = ground (arith, has-append a xs ys)

pub ∉-join : (a : ℕ) (xs ys : List ℕ) → a ∉ xs → a ∉ ys → a ∉ (xs ++ ys)
∉-join a xs ys o p = ground (arith, has-append a xs ys)

pub ∉-singleton : {a x : ℕ} → a ≢ x → a ∉ (x ∷ [])
∉-singleton ne = ground (arith, ne)

pub ne-of-mem : (a x : ℕ) (xs : List ℕ) → a ∈ xs → x ∉ xs → a ≢ x
ne-of-mem a x xs i o = ground (arith, ap (λ y. has y xs) {x = a} {y = x})

-- `a` is in the list and `x` is not, so `a` is not in the list of `x` alone.
pub mem-∉-singleton : (a x : ℕ) (xs : List ℕ) → a ∈ xs → x ∉ xs → a ∉ (x ∷ [])
mem-∉-singleton a x xs i o = ∉-singleton (ne-of-mem a x xs i o)

pub Distinct-last : (ys : List ℕ) (y : ℕ) → Distinct (ys ++ (y ∷ [])) → y ∉ ys
Distinct-last [] y d = refl
Distinct-last (x ∷ ys) y d = ground (arith, Distinct-last ys y d.1, ∉-split x ys (y ∷ []) d.0)

pub ∉-sym : (a x : ℕ) → a ∉ (x ∷ []) → x ∉ (a ∷ [])
∉-sym a x o = ground arith

pub Apart-sym : (xs ys : List ℕ) → Apart xs ys → Apart ys xs
Apart-sym xs ys apart a i = flip (has a xs) refl
  where
    flip : (b : Bool) → has a xs ≡ b → has a xs ≡ false
    flip true e = absurd (ground (arith, apart a))
    flip false e = e

-- A list of distinct addresses, seen from one of its members.
pub record Around (pre : List ℕ) (t : ℕ) (post : List ℕ) : Type 0 where
  pub out_pre : t ∉ pre
  pub out_post : t ∉ post
  pub distinct_pre : Distinct pre
  pub distinct_post : Distinct post
  pub apart : Apart pre post
  pub apart' : Apart post pre
  pub rest : Distinct (pre ++ post)

pub Distinct-Around :
    (pre : List ℕ) (t : ℕ) (post : List ℕ) → Distinct (pre ++ (t ∷ post)) → Around pre t post
Distinct-Around pre t post d =
    let (dpre, dt, apart) = Distinct-split pre (t ∷ post) d in
    let apart₁ : Apart pre post = λ a i. tail_out a t post (apart a i) in
    record {
      out_pre = Apart-sym pre (t ∷ post) apart t (head_in t post);
      out_post = dt.0;
      distinct_pre = dpre;
      distinct_post = dt.1;
      apart = apart₁;
      apart' = Apart-sym pre post apart₁;
      rest = Distinct-append pre post dpre (dt.1) apart₁;
    }
  where
    tail_out : (a t : ℕ) (post : List ℕ) → a ∉ (t ∷ post) → a ∉ post
    tail_out a t post o = ground arith

    head_in : (t : ℕ) (post : List ℕ) → t ∈ (t ∷ post)
    head_in t post = ground arith

-- A member of a list with one more element is that element or was a member before.
pub mem-snoc : (a t : ℕ) (xs : List ℕ) → a ∈ (xs ++ (t ∷ [])) → (a ≡ t) ⊎ ((a ≢ t) × (a ∈ xs))
mem-snoc a t xs i = elim (same a t) [
  | inl e ↦ inl e
  | inr n ↦ inr (n, ground (arith, has-append a xs (t ∷ []), n))
]
  where
    same : (a t : ℕ) → (a ≡ t) ⊎ (a ≢ t)
    same a t = grind arith

pub ∉-ne : (a t : ℕ) → a ∉ (t ∷ []) → a ≢ t
∉-ne a t o = ground arith
