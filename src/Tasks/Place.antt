-- ===== src/Tasks/Place.antt =====
-- The fields of a task of libtask/task.c that do not change when it joins or leaves a list: where the
-- array `alltask` holds it, and its data.
use mathlib.Core.Option
use libabhi.Base.{
  ℕ, ◌≡◌, refl, sym, ap, ◌∙◌, Option, none, some, List, arith, Bool-cases, ◌==◌, inl, inr,
}
use libabhi.Tasks.{Ptr, Task, Heap, write}
use libabhi.Tasks.Chain.{Changed, unlinked, write_self, write_ne}

abbrev field_of : (Task → ℕ) → Heap → Ptr → Option ℕ
field_of f h a = Option.map f (h a)

module _ (f : Task → ℕ) where
  field_unlinked :
      ((c : Task) → f (unlinked c) ≡ f c)
      → (x : Option Task) → Option.map f (Option.map unlinked x) ≡ Option.map f x
  field_unlinked blind none = refl
  field_unlinked blind (some c) = ap some (blind c)

  field_of-Changed :
      ((c : Task) → f (unlinked c) ≡ f c)
      → {s : List Ptr} {h g : Heap} (a : Ptr) → Changed s h g
      → field_of f g a ≡ field_of f h a
  field_of-Changed blind {h = h} {g} a c =
      sym (field_unlinked blind (g a))
      ∙ ap (Option.map f) (c.same_data a)
      ∙ field_unlinked blind (h a)

  field_of-write :
      (h : Heap) (t a : Ptr) (c d : Task)
      → h t ≡ some c
      → f d ≡ f c
      → field_of f (write h t (some d)) a ≡ field_of f h a
  field_of-write h t a c d here same = elim (Bool-cases (a == t)) [
    | inl e ↦
        let at : a ≡ t = ground arith in
        ap (field_of f (write h t (some d))) at
        ∙ ap (Option.map f) (write_self h t (some d))
        ∙ ap some same
        ∙ sym (ap (Option.map f) here)
        ∙ sym (ap (field_of f h) at)
    | inr e ↦ ap (Option.map f) (write_ne h t a (some d) (ground arith))
  ]

-- The place in the array that a task has.
abbrev pub slot_of : Heap → Ptr → Option ℕ
slot_of = field_of (λ c. c.alltaskslot)

pub slot_of-Changed :
    {s : List Ptr} {h g : Heap} (a : Ptr) → Changed s h g → slot_of g a ≡ slot_of h a
slot_of-Changed a c = field_of-Changed (λ c. c.alltaskslot) (λ c. refl) a c

-- A write to a task that keeps its place.
pub slot_of-write :
    (h : Heap) (t a : Ptr) (c d : Task)
    → h t ≡ some c
    → d.alltaskslot ≡ c.alltaskslot
    → slot_of (write h t (some d)) a ≡ slot_of h a
slot_of-write = field_of-write (λ c. c.alltaskslot)

-- What taskdata gives a task: the reason why it was woken, or 0.
abbrev pub udata_of : Heap → Ptr → Option ℕ
udata_of = field_of (λ c. c.udata)

pub udata_of-Changed :
    {s : List Ptr} {h g : Heap} (a : Ptr) → Changed s h g → udata_of g a ≡ udata_of h a
udata_of-Changed a c = field_of-Changed (λ c. c.udata) (λ c. refl) a c

-- A write to a task that keeps its data.
pub udata_of-write :
    (h : Heap) (t a : Ptr) (c d : Task)
    → h t ≡ some c
    → d.udata ≡ c.udata
    → udata_of (write h t (some d)) a ≡ udata_of h a
udata_of-write = field_of-write (λ c. c.udata)
