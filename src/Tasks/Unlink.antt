-- ===== src/Tasks/Unlink.antt =====
-- deltask of libtask/task.c takes a member out of its queue.
use libabhi.Base.{
  ◌≡◌, refl, sym, ◌∙◌, List, [], ◌∷◌, ◌++◌, inl, inr, append_assoc, ◌∉◌, ∉-split, mem-∉-singleton,
  Distinct-last, Distinct, Distinct-Around, head_or, last_or, head_or-append, last_or-append,
  snoc-cases, Returns, returns, Returns-bind, Returns-mono,
}
use libabhi.Tasks.{Ptr, null, Task, Heap, Tasklist, unlink_front, unlink_back, deltask}
use libabhi.Tasks.Chain.{
  Points, Seg, Changed, Changed-refl, Changed-trans, Changed-mono, Points-frame, Seg-frame,
  Seg-split, Seg-append, load-ok, not_null, set_next_lem, set_prev_lem,
}
use libabhi.Tasks.Links.{IsQueue}

-- The front part `pre` and the back part `post` of a list after the task between them is bypassed.
record Front (h : Heap) (l : Tasklist) (pre post : List Ptr) (r : Tasklist × Heap) : Type 0 where
  head_eq : r.0.head ≡ head_or (pre ++ post) null
  tail_eq : r.0.tail ≡ l.tail
  seg : Seg (r.1) null pre (head_or post null)
  changed : Changed pre h (r.1)

record Back (h : Heap) (l : Tasklist) (pre post : List Ptr) (r : Tasklist × Heap) : Type 0 where
  head_eq : r.0.head ≡ l.head
  tail_eq : r.0.tail ≡ last_or post (last_or pre null)
  seg : Seg (r.1) (last_or pre null) post null
  changed : Changed post h (r.1)

module _ (h : Heap) (l : Tasklist) (t : Ptr) (c : Task) (post : List Ptr) where
  unlink_front_nil :
      c.prev ≡ null → c.next ≡ head_or post null → Returns (Front h l [] post) (unlink_front l c h)
  unfolding unlink_front
  unlink_front_nil p n =
      rw p (returns (record { head_eq = n; tail_eq = refl; seg = tt; changed = Changed-refl }))

  unlink_front_snoc :
      (ys : List Ptr) (y : Ptr)
      → l.head ≡ head_or (ys ++ (y ∷ [])) null
      → Seg h null (ys ++ (y ∷ [])) t
      → y ∉ ys
      → c.prev ≡ y
      → c.next ≡ head_or post null
      → Returns (Front h l (ys ++ (y ∷ [])) post) (unlink_front l c h)
  unfolding unlink_front
  unlink_front_snoc ys y hd s out p n =
      let (front, back) = Seg-split h null ys (y ∷ []) t s in
      rw (p, not_null (back.0))
        (Returns-bind (set_next_lem (back.0) (c.next)) λ g (py, ch). returns (record {
          head_eq =
              hd
              ∙ head_or-append ys (y ∷ []) null
              ∙ rw (append_assoc) (sym (head_or-append ys (y ∷ post) null));
          tail_eq = refl;
          seg =
              Seg-append g null ys (y ∷ []) (head_or post null)
                (Seg-frame null ys y front λ a i. ch.outside a (mem-∉-singleton a y ys i out))
                (rw n at py, tt);
          changed = Changed-mono ch λ a o. (∉-split a ys (y ∷ []) o).1;
        }))

  unlink_front_lem :
      (pre : List Ptr)
      → l.head ≡ head_or pre t
      → Seg h null pre t
      → Distinct pre
      → c.prev ≡ last_or pre null
      → c.next ≡ head_or post null
      → Returns (Front h l pre post) (unlink_front l c h)
  unlink_front_lem pre = elim (snoc-cases pre) [
    | inl e ↦ rw e λ hd s d p n. unlink_front_nil p n
    | inr (ys, y, e) ↦ rw e λ hd s d p n.
        unlink_front_snoc ys y
          (hd ∙ head_or-append ys (y ∷ []) t ∙ sym (head_or-append ys (y ∷ []) null)) s
          (Distinct-last ys y d) (p ∙ last_or-append ys (y ∷ []) null) n
  ]

module _ (h : Heap) (l : Tasklist) (t : Ptr) (c : Task) (pre : List Ptr) where
  unlink_back_lem :
      (post : List Ptr)
      → l.tail ≡ last_or post t
      → Seg h t post null
      → Distinct post
      → c.prev ≡ last_or pre null
      → c.next ≡ head_or post null
      → Returns (Back h l pre post) (unlink_back l c h)
  unfolding unlink_back
  unlink_back_lem [] tl s d p n =
      rw n (returns (record { head_eq = refl; tail_eq = p; seg = tt; changed = Changed-refl }))
  unlink_back_lem (y ∷ ys) tl (py, s) d p n =
      rw (n, not_null py)
        (Returns-bind (set_prev_lem py (c.prev)) λ g (py', ch). returns (record {
          head_eq = refl;
          tail_eq = tl;
          seg = (
            rw p at py',
            Seg-frame y ys null s λ a i. ch.outside a (mem-∉-singleton a y ys i d.0),
          );
          changed = Changed-mono ch λ a o. (∉-split a (y ∷ []) ys o).0;
        }))

abbrev pub Removed : Heap → Ptr → List Ptr → List Ptr → Tasklist × Heap → Type 0
Removed h t pre post (l, g) = IsQueue g l (pre ++ post) × Changed (pre ++ post) h g

-- deltask of any member leaves the queue of the others, in their order, and changes no more than
-- links of these.
pub deltask_lem :
    (h : Heap) (l : Tasklist) (t : Ptr) (pre post : List Ptr)
    → IsQueue h l (pre ++ (t ∷ post))
    → Returns (Removed h t pre post) (deltask l t h)
unfolding deltask
deltask_lem h l t pre post k =
    let (front, back) = Seg-split h null pre (t ∷ post) null k.chain in
    let (pt, behind) = back in
    let around = Distinct-Around pre t post k.distinct in
    rw (load-ok pt) (
      Returns-bind
        (unlink_front_lem h l t pt.cell post pre (k.head_eq ∙ head_or-append pre (t ∷ post) null)
          front around.distinct_pre pt.prev_eq pt.next_eq)
        λ (l₁, g₁) f.
          let pt₁ : Points g₁ t (last_or pre null) (head_or post null) =
            Points-frame pt (f.changed.outside t around.out_pre) in
          rw (load-ok pt₁) (
            Returns-mono
              (unlink_back_lem g₁ l₁ t pt₁.cell pre post
                (f.tail_eq ∙ k.tail_eq ∙ last_or-append pre (t ∷ post) null)
                (Seg-frame t post null behind λ a i. f.changed.outside a (around.apart' a i))
                around.distinct_post pt₁.prev_eq pt₁.next_eq)
              λ (l₂, g₂) b. (
                record {
                  head_eq = b.head_eq ∙ f.head_eq;
                  tail_eq = b.tail_eq ∙ sym (last_or-append pre post null);
                  chain =
                      Seg-append g₂ null pre post null
                        (Seg-frame null pre (head_or post null) f.seg
                          λ a i. b.changed.outside a (around.apart a i))
                        b.seg;
                  distinct = around.rest;
                },
                Changed-trans f.changed b.changed,
              )))
