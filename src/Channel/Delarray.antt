-- ===== src/Channel/Delarray.antt =====
-- delarray and the search of altdequeue, of libtask/channel.c: an array as a multiset of Alts.
use libabhi.Base.{
  ℕ, zero, suc, ◌+◌, ◌-◌, ◌%◌, ◌^◌, ◌<◌, ◌≤◌, ◌≡◌, ◌≢◌, refl, sym, ap, subst, ◌∙◌, false, some,
  List, [], ◌∷◌, ◌++◌, arith, ◌==◌, if◌then◌else◌, get_elem?, set, take, length, length-set,
  Bool-cases, inl, inr, Returns, returns,
}
use libabhi.Channel.{Ptr, Altarray, alts, delarray, find_alt}
use libabhi.Channel.Arrays.{IsArray}

abbrev pub one : Ptr → Ptr → ℕ
one q x = if q == x then 1 else 0

-- How often `q` occurs in a list.
abbrev pub occ : Ptr → List Ptr → ℕ
occ q [] = 0
occ q (x ∷ xs) = one q x + occ q xs

pub occ-append : (q : Ptr) (xs ys : List Ptr) → occ q (xs ++ ys) ≡ occ q xs + occ q ys
occ-append q [] ys = omega arith
occ-append q (x ∷ xs) ys = omega (arith, occ-append q xs ys)

one-same : (p : Ptr) → one p p ≡ 1
one-same p = ground arith

-- A member stands somewhere.
occ-index :
    (p : Ptr) (xs : List Ptr) (n : ℕ)
    → 0 < occ p (take n xs)
    → (j : ℕ) × (j < n) × (get_elem? xs j ≡ some p)
occ-index p xs zero h = absurd (omega arith)
occ-index p [] (suc n) h = absurd (omega arith)
occ-index p (x ∷ xs) (suc n) h = elim (Bool-cases (p == x)) [
  | inl e ↦ let same : x ≡ p = ground arith in (0, omega arith, ap some same)
  | inr e ↦
      let h' : 0 < 0 + occ p (take n xs) = rw e at h in
      let (j, small, at) = occ-index p xs n (omega arith) in (suc j, omega arith, at)
]

occ-take :
    (q : Ptr) (xs : List Ptr) (k : ℕ) (l : Ptr)
    → get_elem? xs k ≡ some l
    → occ q (take (suc k) xs) ≡ occ q (take k xs) + one q l
occ-take q [] k l e = cc
occ-take q (x ∷ xs) zero l e =
    let same : x ≡ l = ground arith in ap (λ y. one q y + 0) same ∙ omega arith
occ-take q (x ∷ xs) (suc k) l e = omega (arith, occ-take q xs k l e)

occ-set :
    (q : Ptr) (xs : List Ptr) (k i : ℕ) (x v : Ptr)
    → i < k
    → get_elem? xs i ≡ some x
    → occ q (take k (set xs i v)) + one q x ≡ occ q (take k xs) + one q v
occ-set q [] k i x v h e = cc
occ-set q (y ∷ xs) zero i x v h e = absurd (omega arith)
occ-set q (y ∷ xs) (suc k) zero x v h e =
    let same : y ≡ x = ground arith in let eq = ap (one q) same in omega (arith, eq)
occ-set q (y ∷ xs) (suc k) (suc i) x v h e = omega (arith, occ-set q xs k i x v (omega arith) e)

take-set : (xs : List Ptr) (k : ℕ) (v : Ptr) → take k (set xs k v) ≡ take k xs
take-set [] k v = refl
take-set (x ∷ xs) zero v = refl
take-set (x ∷ xs) (suc k) v = ap (λ l. x ∷ l) (take-set xs k v)

pub get_elem?-some : (xs : List Ptr) (i : ℕ) → i < length xs → (x : Ptr) × (get_elem? xs i ≡ some x)
get_elem?-some [] i h = absurd (omega arith)
get_elem?-some (x ∷ xs) zero h = (x, refl)
get_elem?-some (x ∷ xs) (suc i) h = get_elem?-some xs i (omega arith)

-- One occurrence of `p` has left the array, which has as many places as before.
pub record Less (r : Altarray) (p : Ptr) (r' : Altarray) : Type 0 where
  pub array : IsArray r'
  pub same_room : r'.m ≡ r.m
  pub counts : (q : Ptr) → occ q (alts r) ≡ one q p + occ q (alts r')

Ptr-inj : {x y : Ptr} → some x ≡ some y → x ≡ y
Ptr-inj e = ground arith

-- The last element fills the place of the one that leaves.
occ-fill :
    (q : Ptr) (xs : List Ptr) (n i : ℕ) (p last : Ptr)
    → i < n
    → get_elem? xs i ≡ some p
    → get_elem? xs (n - 1) ≡ some last
    → occ q (take n xs) ≡ one q p + occ q (take (n - 1) (set xs i last))
occ-fill q xs n i p last h at there =
    let n_eq : n ≡ suc (n - 1) = omega arith in
    let whole = ap (λ k. occ q (take k xs)) n_eq ∙ occ-take q xs (n - 1) last there in
    elim (Bool-cases (i == (n - 1))) [
      | inl e ↦
          let same : i ≡ n - 1 = ground arith in
          let kept =
            ap (λ j. occ q (take (n - 1) (set xs j last))) same
            ∙ ap (occ q) (take-set xs (n - 1) last) in
          let last_p : last ≡ p = Ptr-inj (sym there ∙ ap (get_elem? xs) (sym same) ∙ at) in
          omega (arith, whole, kept, ap (one q) last_p)
      | inr e ↦
          let other : i ≢ n - 1 = ground arith in
          omega (arith, whole, occ-set q xs (n - 1) i p last (omega (arith, other)) at)
    ]

pub delarray_lem :
    (r : Altarray) (i : ℕ) (p : Ptr)
    → IsArray r
    → i < r.n
    → get_elem? r.a i ≡ some p
    → Returns (Less r p) (delarray r i)
unfolding delarray
delarray_lem r i p k h at =
    let less : (r.n + 2 ^ 32 - 1) % 2 ^ 32 ≡ r.n - 1 = omega (arith, k.small, k.used) in
    let (last, there) = get_elem?-some r.a (r.n - 1) (omega (arith, k.room, k.used)) in
    rw (less, there, delarray)
      (returns (
        subst (λ n. Less r p (record r { a = set r.a i last; n = n })) (sym less)
          (record {
            array = record {
              room = length-set r.a i last ∙ k.room;
              used = omega (arith, k.used);
              small = k.small;
            };
            same_room = refl;
            counts = λ q. occ-fill q r.a r.n i p last h at there;
          })))

find_from :
    (k i j : ℕ) (p : Ptr) (r : Altarray)
    → IsArray r
    → i + k ≡ r.n
    → i ≤ j
    → j < r.n
    → get_elem? r.a j ≡ some p
    → Returns (Less r p) (find_alt k i p r)
unfolding find_alt
find_from zero i j p r a e h h' at = absurd (omega arith)
find_from (suc k) i j p r a e h h' at =
    let (x, here) = get_elem?-some r.a i (omega (arith, a.room, a.used)) in
    rw (here, find_alt)
      (elim (Bool-cases (x == p)) [
        | inl same ↦
            let eq : x ≡ p = ground arith in
            rw same (delarray_lem r i p a (omega arith) (here ∙ ap some eq))
        | inr n ↦ rw n (find_from k (i + 1) j p r a (omega arith) (later n here) h' at)
      ])
  where
    later : {x : Ptr} → (x == p) ≡ false → get_elem? r.a i ≡ some x → i + 1 ≤ j
    later {x} n here = elim (Bool-cases (i == j)) [
      | inl s ↦
          let same : i ≡ j = ground arith in
          let clash : some x ≡ some p = sym here ∙ ap (get_elem? r.a) same ∙ at in
          absurd (ground arith)
      | inr d ↦ ground arith
    ]

-- The search of altdequeue takes an Alt that waits out of its array.
pub find_alt_lem :
    (p : Ptr) (r : Altarray)
    → IsArray r
    → 0 < occ p (alts r)
    → Returns (Less r p) (find_alt r.n 0 p r)
find_alt_lem p r k waits =
    let (j, small, at) = occ-index p r.a r.n waits in
    find_from r.n 0 j p r k (omega arith) (omega arith) small at
