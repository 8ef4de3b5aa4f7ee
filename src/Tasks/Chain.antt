-- ===== src/Tasks/Chain.antt =====
-- Doubly linked segments of tasks in memory.
use libabhi.Base.{
  ◌≡◌, ◌≢◌, refl, ◌∙◌, Option, some, List, [], ◌∷◌, ◌++◌, false, arith, ◌==◌, ◌∈◌, ◌∉◌, has-append,
  head_or, last_or, head_or-append, ok, Returns, returns, Bool-cases, inl, inr,
}
use mathlib.Core.Option
use libabhi.Tasks.{Ptr, null, Task, Heap, write, load, modify, set_next, set_prev}

-- `x` is a task with `prev` b and `next` n.
pub record Points (h : Heap) (x b n : Ptr) : Type 0 where
  pub ne_null : x ≢ null
  pub cell : Task
  pub holds : h x ≡ some cell
  pub prev_eq : cell.prev ≡ b
  pub next_eq : cell.next ≡ n

-- The tasks `xs` are linked both ways; `b` stands before the first and `q` behind the last.
abbrev pub Seg : Heap → Ptr → List Ptr → Ptr → Type 0
Seg h b [] q = Unit {0}
Seg h b (x ∷ xs) q = Points h x b (head_or xs q) × Seg h x xs q

-- A task less its links.
abbrev pub unlinked : Task → Task
unlinked c = record c { next = null; prev = null }

-- `g` differs from `h` at most in the links of the tasks of `s`.
pub record Changed (s : List Ptr) (h g : Heap) : Type 0 where
  pub outside : (a : Ptr) → a ∉ s → g a ≡ h a
  pub same_data : (a : Ptr) → Option.map unlinked (g a) ≡ Option.map unlinked (h a)

pub Changed-refl : {h : Heap} → Changed [] h h
Changed-refl = record { outside = λ a o. refl; same_data = λ a. refl }

pub Changed-trans :
    {s t : List Ptr} {f g h : Heap} → Changed s f g → Changed t g h → Changed (s ++ t) f h
Changed-trans {s} {t} c d = record {
  outside = λ a o.
      d.outside a (ground (arith, has-append a s t))
      ∙ c.outside a (ground (arith, has-append a s t));
  same_data = λ a. d.same_data a ∙ c.same_data a;
}

pub Changed-mono :
    {s t : List Ptr} {g h : Heap} → Changed s g h → ((a : Ptr) → a ∉ t → a ∉ s) → Changed t g h
Changed-mono c sub = record { outside = λ a o. c.outside a (sub a o); same_data = c.same_data }

module _ {h g : Heap} where
  pub Points-frame : {x b n : Ptr} → Points h x b n → g x ≡ h x → Points g x b n
  Points-frame p e = record {
    ne_null = p.ne_null;
    cell = p.cell;
    holds = e ∙ p.holds;
    prev_eq = p.prev_eq;
    next_eq = p.next_eq;
  }

  pub Seg-frame :
      (b : Ptr) (xs : List Ptr) (q : Ptr)
      → Seg h b xs q
      → ((a : Ptr) → a ∈ xs → g a ≡ h a)
      → Seg g b xs q
  Seg-frame b [] q s same = tt
  Seg-frame b (x ∷ xs) q (p, s) same =
      (Points-frame p (same x (ground arith)), Seg-frame x xs q s (λ a i. same a (ground arith)))

module _ (h : Heap) where
  pub Seg-split :
      (b : Ptr) (xs ys : List Ptr) (q : Ptr)
      → Seg h b (xs ++ ys) q
      → Seg h b xs (head_or ys q) × Seg h (last_or xs b) ys q
  Seg-split b [] ys q s = (tt, s)
  Seg-split b (x ∷ xs) ys q (p, s) =
      let (front, back) = Seg-split x xs ys q s in ((rw (head_or-append xs ys q) at p, front), back)

  pub Seg-append :
      (b : Ptr) (xs ys : List Ptr) (q : Ptr)
      → Seg h b xs (head_or ys q)
      → Seg h (last_or xs b) ys q
      → Seg h b (xs ++ ys) q
  Seg-append b [] ys q s t = t
  Seg-append b (x ∷ xs) ys q (p, s) t = (rw (head_or-append xs ys q) p, Seg-append x xs ys q s t)

  -- Every member of a segment is a task.
  pub Seg-cell :
      (b : Ptr) (xs : List Ptr) (q a : Ptr)
      → Seg h b xs q
      → a ∈ xs
      → (a ≢ null) × (c : Task) × (h a ≡ some c)
  Seg-cell b [] q a s i = absurd (ground arith)
  Seg-cell b (x ∷ xs) q a (p, s) i = elim (Bool-cases (a == x)) [
    | inl e ↦ let same : a ≡ x = ground arith in rw same (p.ne_null, p.cell, p.holds)
    | inr e ↦ Seg-cell x xs q a s (ground arith)
  ]

module _ {h : Heap} {x b n : Ptr} (p : Points h x b n) where
  pub not_null : (x == null) ≡ false
  not_null = ground (arith, p.ne_null)

  pub load-ok : load x h ≡ ok p.cell
  unfolding load
  load-ok = rw (not_null, p.holds)

  pub set_next_lem :
      (q : Ptr) → Returns (λ g. Points g x b q × Changed (x ∷ []) h g) (set_next x q h)
  unfolding modify write
  set_next_lem q = rw load-ok (
      returns (
        record {
          ne_null = p.ne_null;
          cell = record p.cell { next = q };
          holds = ground arith;
          prev_eq = p.prev_eq;
          next_eq = refl;
        },
        record { outside = λ a o. ground arith; same_data = λ a. ground (arith, p.holds) },
      ))

  pub set_prev_lem :
      (q : Ptr) → Returns (λ g. Points g x q n × Changed (x ∷ []) h g) (set_prev x q h)
  unfolding modify write
  set_prev_lem q = rw load-ok (
      returns (
        record {
          ne_null = p.ne_null;
          cell = record p.cell { prev = q };
          holds = ground arith;
          prev_eq = refl;
          next_eq = p.next_eq;
        },
        record { outside = λ a o. ground arith; same_data = λ a. ground (arith, p.holds) },
      ))

pub write_self : (h : Heap) (t : Ptr) (c : Option Task) → write h t c t ≡ c
unfolding write
write_self h t c = ground arith

pub write_ne : (h : Heap) (t a : Ptr) (c : Option Task) → a ≢ t → write h t c a ≡ h a
unfolding write
write_ne h t a c n = ground (arith, n)
