-- ===== src/Fd/Sleep.antt =====
-- Where taskdelay of libtask/fd.c puts a task among the sleeping ones.
use libabhi.Base.{
  ℕ, zero, suc, ◌<◌, ◌≤◌, ◌≡◌, refl, sym, none, some, List, [], ◌∷◌, ◌++◌, arith, ◌==◌, leb, inl,
  inr, ◌⊎◌, ◌∈◌, length, length-append, last_or, last_or-append, snoc-cases, append_assoc, Returns,
  returns, Bool-cases,
}
use libabhi.Tasks.{Ptr, null, Heap}
use libabhi.Tasks.Chain.{Seg, Seg-split, Points, load-ok, not_null}
use libabhi.Fd.{find_slot}

-- When a task wakes up.
abbrev pub alarm : Heap → Ptr → ℕ
alarm h a = elim (h a) [ none ↦ 0 | some c ↦ c.alarmtime ]

-- The tasks `xs` in two parts: those behind the slot wake at `when` or later, and the last one before
-- it, at which the search stops, wakes earlier.
pub record Slot (h : Heap) (when : ℕ) (xs : List Ptr) (t : Ptr) : Type 0 where
  pub front : List Ptr
  pub back : List Ptr
  pub parts : xs ≡ front ++ back
  pub stop : t ≡ last_or front null
  pub late : (a : Ptr) → a ∈ back → when ≤ alarm h a
  pub early :
      (front ≡ []) ⊎ ((ys : List Ptr) × (y : Ptr) × (front ≡ ys ++ (y ∷ [])) × (alarm h y < when))

cell_alarm : {h : Heap} {x b n : Ptr} (p : Points h x b n) → alarm h x ≡ p.cell.alarmtime
cell_alarm p = ground (arith, p.holds)

late_cons :
    (h : Heap) (when : ℕ) (y : Ptr) (back : List Ptr)
    → when ≤ alarm h y
    → ((a : Ptr) → a ∈ back → when ≤ alarm h a)
    → (a : Ptr) → a ∈ (y ∷ back)
    → when ≤ alarm h a
late_cons h when y back here there a i = elim (Bool-cases (a == y)) [
  | inl e ↦ let same : a ≡ y = ground arith in rw same here
  | inr n ↦ there a (ground arith)
]

find_snoc :
    (n : ℕ) (when : ℕ) (h : Heap) (back : List Ptr)
    → ((ys : List Ptr) (y : Ptr)
        → Seg h null (ys ++ (y ∷ back)) null
        → ((a : Ptr) → a ∈ (y ∷ back) → when ≤ alarm h a)
        → length ys < n
        → Returns (Slot h when (ys ++ (y ∷ back))) (find_slot n (last_or ys null) when h))
    → ((a : Ptr) → a ∈ back → when ≤ alarm h a)
    → (ys : List Ptr) (y : Ptr) → Seg h null (ys ++ (y ∷ back)) null
    → length ys < n
    → Returns (Slot h when (ys ++ (y ∷ back))) (find_slot (suc n) y when h)
unfolding find_slot
find_snoc n when h back again late ys y s fuel =
    let (front, behind) = Seg-split h null ys (y ∷ back) null s in
    let py = behind.0 in
    rw (not_null py, load-ok py)
      (elim (Bool-cases (leb when py.cell.alarmtime)) [
        | inl e ↦
            let here : when ≤ alarm h y = ground (arith, cell_alarm py) in
            rw (e, py.prev_eq) (again ys y s (late_cons h when y back here late) fuel)
        | inr n ↦ rw n (
            returns (record {
              front = ys ++ (y ∷ []);
              back = back;
              parts = sym (append_assoc ys (y ∷ []) back);
              stop = sym (last_or-append ys (y ∷ []) null);
              late = late;
              early = inr (ys, y, refl, ground (arith, cell_alarm py));
            }))
      ])

-- The search of taskdelay stops at a slot, with one round more than there are tasks.
pub find_from :
    (n : ℕ) (when : ℕ) (h : Heap) (back front : List Ptr)
    → Seg h null (front ++ back) null
    → ((a : Ptr) → a ∈ back → when ≤ alarm h a)
    → length front < n
    → Returns (Slot h when (front ++ back)) (find_slot n (last_or front null) when h)
unfolding find_slot
find_from zero when h back front = λ s late fuel. absurd (omega arith)
find_from (suc n) when h back front = elim (snoc-cases front) [
  | inl e ↦ rw e λ s late fuel.
      returns (record {
        front = [];
        back = back;
        parts = refl;
        stop = refl;
        late = late;
        early = inl refl;
      })
  | inr (ys, y, e) ↦
      rw (e, append_assoc ys (y ∷ []) back, last_or-append ys (y ∷ []) null)
        λ s late fuel.
          find_snoc n when h back (λ zs z s' late'. find_from n when h (z ∷ back) zs s' late') late
            ys y s (omega (arith, length-append ys (y ∷ [])))
]
