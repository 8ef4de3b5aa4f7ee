-- ===== src/Channel/Waiting.antt =====
-- The Alts of a task that wait at channels: altqueue and altdequeue of libtask/channel.c.
use libabhi.Base.{
  ℕ, zero, suc, ◌+◌, ◌*◌, ◌^◌, ◌<◌, ◌≤◌, ◌≡◌, refl, sym, ap, subst, ◌∙◌, true, false, Bool, ◌&&◌,
  some, List, [], ◌∷◌, ◌++◌, arith, ◌==◌, if◌then◌else◌, Bool-cases, inl, inr, Returns, returns,
  Returns-bind,
}
use libabhi.Channel.{
  Ptr, Alt, Altarray, Channel, System, Side, send, recv, chansnd, chanrcv, no_alts, alts, side_of,
  put_side, chanarray, appended, update, altqueue, altdequeue,
}
use libabhi.Channel.Arrays.{IsArray, appended-append, addarray-grows}
use libabhi.Channel.Delarray.{one, occ, occ-append, find_alt_lem}

-- The operation whose Alts wait at a side.
abbrev pub op_of : Side → ℕ
op_of send = chansnd
op_of recv = chanrcv

-- The Alts that wait at a side of a channel.
abbrev pub at : System → Ptr → Side → List Ptr
at σ c d = alts (side_of d (σ.chan c))

-- A channel less its waiting Alts.
abbrev pub bare : Channel → Channel
bare c = record c { asend = no_alts; arecv = no_alts }

-- `p` alone, if it is an Alt for this side of this channel.
abbrev pub entry : Alt → Ptr → Ptr → Side → List Ptr
entry a p c d = if (a.op == op_of d) && (a.c == c) then p ∷ [] else []

-- The Alts of the `k` from `p` on that belong to this side of this channel.
abbrev pub belonging : ℕ → Ptr → (Ptr → Alt) → Ptr → Side → List Ptr
belonging zero p f c d = []
belonging (suc k) p f c d = entry (f p) p c d ++ belonging k (p + 1) f c d

-- The arrays are in order, and each has room to grow `k` times more.
abbrev pub IsRoomy : ℕ → System → Type 0
IsRoomy k σ =
    (c : Ptr) (d : Side)
    → IsArray (side_of d (σ.chan c)) × ((side_of d (σ.chan c)).m + 16 * suc k < 2 ^ 32)

-- Only arrays of waiting Alts differ.
pub record Same (σ σ' : System) : Type 0 where
  pub alt_eq : σ'.alt ≡ σ.alt
  pub mem_eq : σ'.mem ≡ σ.mem
  pub world_eq : σ'.world ≡ σ.world
  pub machine_eq : σ'.machine ≡ σ.machine
  pub bare_eq : (c : Ptr) → bare (σ'.chan c) ≡ bare (σ.chan c)

pub Same-refl : (σ : System) → Same σ σ
Same-refl σ = record {
  alt_eq = refl;
  mem_eq = refl;
  world_eq = refl;
  machine_eq = refl;
  bare_eq = λ c. refl;
}

pub Same-trans : {ρ σ τ : System} → Same ρ σ → Same σ τ → Same ρ τ
Same-trans s t = record {
  alt_eq = t.alt_eq ∙ s.alt_eq;
  mem_eq = t.mem_eq ∙ s.mem_eq;
  world_eq = t.world_eq ∙ s.world_eq;
  machine_eq = t.machine_eq ∙ s.machine_eq;
  bare_eq = λ c. t.bare_eq c ∙ s.bare_eq c;
}

pub chanarray-op : (d : Side) → chanarray (op_of d) ≡ some d
unfolding chanarray
chanarray-op send = refl
chanarray-op recv = refl

-- The system after the array of side `d` of channel `c₀` has become `r`.
abbrev put : System → Ptr → Side → Altarray → System
put σ c₀ d r = record σ { chan = update σ.chan c₀ (put_side d r (σ.chan c₀)) }

bare-put : (d : Side) (r : Altarray) (c : Channel) → bare (put_side d r c) ≡ bare c
bare-put send r c = refl
bare-put recv r c = refl

put-Same : (σ : System) (c₀ : Ptr) (d : Side) (r : Altarray) → Same σ (put σ c₀ d r)
put-Same σ c₀ d r = record {
  alt_eq = refl;
  mem_eq = refl;
  world_eq = refl;
  machine_eq = refl;
  bare_eq = λ c. elim (Bool-cases (c == c₀)) [
    | inl e ↦
        let same : c ≡ c₀ = ground arith in
        rw e (bare-put d r (σ.chan c₀) ∙ sym (ap (λ x. bare (σ.chan x)) same))
    | inr n ↦ rw n refl
  ];
}

-- What holds of the new array and of all old ones holds of all arrays; `mine` says which one it is.
put-ind :
    (σ : System) (c₀ : Ptr) (d₀ : Side) (r : Altarray) (P : Ptr → Side → Altarray → Type 0)
    → P c₀ d₀ r
    → ((c : Ptr) (d : Side)
        → ((op_of d₀ == op_of d) && (c₀ == c)) ≡ false
        → P c d (side_of d (σ.chan c)))
    → (c : Ptr) (d : Side) → P c d (side_of d ((put σ c₀ d₀ r).chan c))
put-ind σ c₀ d₀ r P new old c d = elim (Bool-cases (c == c₀)) [
  | inl e ↦
      let same : c ≡ c₀ = ground arith in
      subst (λ x. P x d (side_of d ((put σ c₀ d₀ r).chan x))) (sym same) (here d₀ d new old)
  | inr n ↦ rw n (old c d (apart (op_of d₀ == op_of d) n))
]
  where
    refl_test : (c₀ == c₀) ≡ true
    refl_test = ground arith

    here :
        (d₀ d : Side)
        → P c₀ d₀ r
        → ((c : Ptr) (d : Side)
            → ((op_of d₀ == op_of d) && (c₀ == c)) ≡ false
            → P c d (side_of d (σ.chan c)))
        → P c₀ d (side_of d ((put σ c₀ d₀ r).chan c₀))
    here send send new old = rw refl_test new
    here recv recv new old = rw refl_test new
    here send recv new old = rw refl_test (old c₀ recv refl)
    here recv send new old = rw refl_test (old c₀ send refl)

    apart : (b : Bool) → (c == c₀) ≡ false → (b && (c₀ == c)) ≡ false
    apart b n = ground arith

-- An Alt has left the arrays, or joined them.
pub record Moved (σ : System) (p : Ptr) (k : ℕ) (big small σ' : System) : Type 0 where
  pub same : Same σ σ'
  pub roomy : IsRoomy k σ'
  pub counts :
      (c : Ptr) (d : Side) (q : Ptr)
      → occ q (at big c d) ≡ occ q (entry (σ.alt p) p c d) + occ q (at small c d)

pub entry-here : (a : Alt) (p : Ptr) (d : Side) → a.op ≡ op_of d → entry a p a.c d ≡ p ∷ []
entry-here a p d e = ground (arith, e)

entry-elsewhere :
    (a : Alt) (p : Ptr) (d₀ : Side) (c : Ptr) (d : Side)
    → a.op ≡ op_of d₀
    → ((op_of d₀ == op_of d) && (a.c == c)) ≡ false
    → entry a p c d ≡ []
entry-elsewhere a p d₀ c d e n = ground (arith, ap (λ o. (o == op_of d) && (a.c == c)) e)

appended-m : (r : Altarray) (p : Ptr) → (appended r p).m ≤ r.m + 16
unfolding appended
appended-m r p = ground arith

appended-IsArray :
    (r : Altarray) (p : Ptr) (k : ℕ)
    → IsArray r
    → r.m + 16 * suc (suc k) < 2 ^ 32
    → IsArray (appended r p) × ((appended r p).m + 16 * suc k < 2 ^ 32)
appended-IsArray r p k array more =
    let (joined, room, used) = appended-append r p array in
    (
      record { room = room; used = used; small = omega (arith, appended-m r p, more) },
      omega (arith, appended-m r p, more),
    )

module _ (σ : System) (p : Ptr) (d : Side) (is_op : (σ.alt p).op ≡ op_of d) where
  abbrev c₀ : Ptr
  c₀ = (σ.alt p).c

  abbrev old : Altarray
  old = side_of d (σ.chan c₀)

  -- altdequeue takes the Alt out of the array where it waits.
  pub altdequeue_lem :
      (k : ℕ)
      → IsRoomy k σ
      → 0 < occ p (at σ c₀ d)
      → Returns (λ σ'. Moved σ p k σ σ' σ') (altdequeue p σ)
  unfolding altdequeue
  altdequeue_lem k roomy waits =
      let (array, more) = roomy c₀ d in
      let found : chanarray (σ.alt p).op ≡ some d = ap chanarray is_op ∙ chanarray-op d in
      rw (found, altdequeue)
        (Returns-bind (find_alt_lem p old array waits) λ r l. returns (record {
          same = put-Same σ c₀ d r;
          roomy =
              put-ind σ c₀ d r (λ c d' a. IsArray a × (a.m + 16 * suc k < 2 ^ 32))
                (l.array, omega (arith, more, l.same_room)) (λ c d' n. roomy c d');
          counts = λ c d' q.
              put-ind σ c₀ d r
                (λ x y a. occ q (at σ x y) ≡ occ q (entry (σ.alt p) p x y) + occ q (alts a))
                (l.counts q ∙ ap (λ n. n + occ q (alts r)) (whole q)) (λ x y n. elsewhere q x y n) c
                d';
        }))
    where
      whole : (q : Ptr) → one q p ≡ occ q (entry (σ.alt p) p c₀ d)
      whole q = omega (arith, ap (occ q) (entry-here (σ.alt p) p d is_op))

      elsewhere :
          (q x : Ptr) (y : Side)
          → ((op_of d == op_of y) && (c₀ == x)) ≡ false
          → occ q (at σ x y) ≡ occ q (entry (σ.alt p) p x y) + occ q (at σ x y)
      elsewhere q x y n = omega (arith, ap (occ q) (entry-elsewhere (σ.alt p) p d x y is_op n))

  -- altqueue puts the Alt into the array where it belongs.
  pub altqueue_lem :
      (k : ℕ)
      → IsRoomy (suc k) σ
      → σ.machine.grows ≡ true
      → Returns (λ σ'. Moved σ p k σ' σ σ') (altqueue p σ)
  unfolding altqueue
  altqueue_lem k roomy memory =
      let (array, more) = roomy c₀ d in
      let found : chanarray (σ.alt p).op ≡ some d = ap chanarray is_op ∙ chanarray-op d in
      let r = appended old p in
      let added = addarray-grows σ.machine.grows old p memory in
      let joined : alts r ≡ alts old ++ (p ∷ []) = (appended-append old p array).0 in
      rw (found, altqueue, added)
        (returns (record {
          same = put-Same σ c₀ d r;
          roomy =
              put-ind σ c₀ d r (λ c d' a. IsArray a × (a.m + 16 * suc k < 2 ^ 32))
                (appended-IsArray old p k array more)
                (λ c d' n. let (b, m) = roomy c d' in (b, omega (arith, m)));
          counts = λ c d' q.
              put-ind σ c₀ d r
                (λ x y a. occ q (alts a) ≡ occ q (entry (σ.alt p) p x y) + occ q (at σ x y))
                (ap (occ q) joined ∙ occ-append q (alts old) (p ∷ []) ∙ last_first q)
                (λ x y n. omega (arith, ap (occ q) (entry-elsewhere (σ.alt p) p d x y is_op n))) c
                d';
        }))
    where
      last_first :
          (q : Ptr)
          → occ q (alts old) + occ q (p ∷ []) ≡ occ q (entry (σ.alt p) p c₀ d) + occ q (alts old)
      last_first q = omega (arith, ap (occ q) (entry-here (σ.alt p) p d is_op))
