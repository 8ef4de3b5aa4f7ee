-- ===== src/Tasks/Links.antt =====
-- addtask and deltask of libtask/task.c implement a queue of distinct tasks.
use mathlib.Core.Option
use libabhi.Base.{
  Option, arith, none, ap, ◌≡◌, ◌≢◌, refl, sym, ◌∙◌, some, List, [], ◌∷◌, ◌++◌, inl, inr,
  append_assoc, ◌∈◌, ◌∉◌, ∉-split, ∉-join, ∉-sym, mem-∉-singleton, Distinct-last, Distinct,
  Distinct-append, head_or, last_or, head_or-append, last_or-append, snoc-cases, Returns, returns,
  Returns-bind,
}
use libabhi.Tasks.{Ptr, null, Task, Heap, Tasklist, link_behind, addtask}
use libabhi.Tasks.Chain.{
  Points, Seg, Changed, Changed-trans, Changed-mono, Points-frame, Seg-frame, Seg-split, Seg-append,
  not_null, set_next_lem, set_prev_lem, Seg-cell,
}

-- `l` is the list of the tasks `xs`, from head to tail, each once.
pub record IsQueue (h : Heap) (l : Tasklist) (xs : List Ptr) : Type 0 where
  pub head_eq : l.head ≡ head_or xs null
  pub tail_eq : l.tail ≡ last_or xs null
  pub chain : Seg h null xs null
  pub distinct : Distinct xs

-- An allocated task, linked anyhow.
pub record IsTask (h : Heap) (t : Ptr) : Type 0 where
  pub ne_null : t ≢ null
  pub cell : Task
  pub holds : h t ≡ some cell

pub IsTask-Points : {h : Heap} {t : Ptr} (k : IsTask h t) → Points h t k.cell.prev k.cell.next
IsTask-Points k = record {
  ne_null = k.ne_null;
  cell = k.cell;
  holds = k.holds;
  prev_eq = refl;
  next_eq = refl;
}

pub IsQueue-frame :
    {h g : Heap} {l : Tasklist} (xs : List Ptr)
    → IsQueue h l xs
    → ((a : Ptr) → a ∈ xs → g a ≡ h a)
    → IsQueue g l xs
IsQueue-frame xs k same = record {
  head_eq = k.head_eq;
  tail_eq = k.tail_eq;
  chain = Seg-frame null xs null k.chain same;
  distinct = k.distinct;
}

-- The links of a task.
abbrev pub links : Task → Ptr × Ptr
links c = (c.prev, c.next)

abbrev pub links_of : Heap → Ptr → Option (Ptr × Ptr)
links_of h a = Option.map links (h a)

linked_cell :
    {b n : Ptr} (x : Option Task)
    → Option.map links x ≡ some (b, n)
    → (c : Task) × (x ≡ some c) × (c.prev ≡ b) × (c.next ≡ n)
linked_cell none e = cc
linked_cell (some c) e = (c, refl, cc, cc)

Points-links :
    {h g : Heap} {x b n : Ptr} → Points h x b n → links_of g x ≡ links_of h x → Points g x b n
Points-links {h} {g} {x} {b} {n} p e =
    let old : links_of h x ≡ some (b, n) =
      ap (Option.map links) p.holds
      ∙ ap (λ y. some (y, p.cell.next)) p.prev_eq
      ∙ ap (λ y. some (b, y)) p.next_eq in
    let (c, holds, prev_eq, next_eq) = linked_cell (g x) (e ∙ old) in
    record { ne_null = p.ne_null; cell = c; holds = holds; prev_eq = prev_eq; next_eq = next_eq }

Seg-links :
    (h g : Heap) (b : Ptr) (xs : List Ptr) (q : Ptr)
    → Seg h b xs q
    → ((a : Ptr) → a ∈ xs → links_of g a ≡ links_of h a)
    → Seg g b xs q
Seg-links h g b [] q s same = tt
Seg-links h g b (x ∷ xs) q (p, s) same =
    (Points-links p (same x (ground arith)), Seg-links h g x xs q s (λ a i. same a (ground arith)))

-- A queue stays one while its tasks keep their links.
pub IsQueue-links :
    {h g : Heap} {l : Tasklist} (xs : List Ptr)
    → IsQueue h l xs
    → ((a : Ptr) → a ∈ xs → links_of g a ≡ links_of h a)
    → IsQueue g l xs
IsQueue-links {h} {g} xs k same = record {
  head_eq = k.head_eq;
  tail_eq = k.tail_eq;
  chain = Seg-links h g null xs null k.chain same;
  distinct = k.distinct;
}

pub IsQueue-IsTask :
    {h : Heap} {l : Tasklist} (xs : List Ptr) (a : Ptr) → IsQueue h l xs → a ∈ xs → IsTask h a
IsQueue-IsTask {h} xs a k i =
    let (ne, c, e) = Seg-cell h null xs null a k.chain i in
    record { ne_null = ne; cell = c; holds = e }

abbrev pub Queued : Heap → Ptr → List Ptr → Tasklist × Heap → Type 0
Queued h t xs (l, g) = IsQueue g l (xs ++ (t ∷ [])) × Changed (xs ++ (t ∷ [])) h g

-- What the two branches of addtask leave for its last two writes.
record Behind (h : Heap) (t : Ptr) (xs : List Ptr) (r : Tasklist × Heap) : Type 0 where
  old : Ptr
  node : Points (r.1) t (last_or xs null) old
  front : Seg (r.1) null xs t
  head_eq : r.0.head ≡ head_or (xs ++ (t ∷ [])) null
  changed : Changed (xs ++ (t ∷ [])) h (r.1)

module _ {h : Heap} {l : Tasklist} {t : Ptr} (live : IsTask h t) where
  link_behind_nil : IsQueue h l [] → t ∉ [] → Returns (Behind h t []) (link_behind l t h)
  unfolding link_behind
  link_behind_nil k out = rw k.tail_eq (
      Returns-bind (set_prev_lem (IsTask-Points live) null) λ g (p, c).
        returns
          (record { old = live.cell.next; node = p; front = tt; head_eq = refl; changed = c }))

  link_behind_snoc :
      (ys : List Ptr) (y : Ptr)
      → IsQueue h l (ys ++ (y ∷ []))
      → t ∉ (ys ++ (y ∷ []))
      → Returns (Behind h t (ys ++ (y ∷ []))) (link_behind l t h)
  unfolding link_behind
  link_behind_snoc ys y k out =
      let (front, back) = Seg-split h null ys (y ∷ []) null k.chain in
      let py = back.0 in
      let (t_out, t_last) = ∉-split t ys (y ∷ []) out in
      let y_out : y ∉ ys = Distinct-last ys y k.distinct in
      let tail : l.tail ≡ y = k.tail_eq ∙ last_or-append ys (y ∷ []) null in
      rw (tail, not_null py)
        (Returns-bind (set_next_lem py t) λ g₁ (py₁, c₁).
          Returns-bind (set_prev_lem (Points-frame (IsTask-Points live) (c₁.outside t t_last)) y)
            λ g₂ (pt, c₂).
              let front' = Seg-frame null ys y front λ a i.
                c₂.outside a (mem-∉-singleton a t ys i t_out)
                ∙ c₁.outside a (mem-∉-singleton a y ys i y_out) in
              let py₂ = Points-frame py₁ (c₂.outside y (∉-sym t y t_last)) in
              returns (record {
                old = live.cell.next;
                node = rw (last_or-append ys (y ∷ []) null) pt;
                front = Seg-append g₂ null ys (y ∷ []) t front' (py₂, tt);
                head_eq = rw (append_assoc) (
                    k.head_eq
                    ∙ head_or-append ys (y ∷ []) null
                    ∙ sym (head_or-append ys (y ∷ t ∷ []) null));
                changed = Changed-mono (Changed-trans c₁ c₂) λ a o.
                    let (o₁, o₂) = ∉-split a (ys ++ (y ∷ [])) (t ∷ []) o in
                    ∉-join a (y ∷ []) (t ∷ []) (∉-split a ys (y ∷ []) o₁).1 o₂;
              }))

  addtask_of :
      (xs : List Ptr)
      → IsQueue h l xs
      → t ∉ xs
      → Returns (Behind h t xs) (link_behind l t h)
      → Returns (Queued h t xs) (addtask l t h)
  unfolding addtask
  addtask_of xs k out linked = Returns-bind linked λ (l', g) m.
      Returns-bind (set_next_lem m.node null) λ g' (pt, c). returns (
        record {
          head_eq = m.head_eq;
          tail_eq = sym (last_or-append xs (t ∷ []) null);
          chain =
              Seg-append g' null xs (t ∷ []) null
                (Seg-frame null xs t m.front λ a i. c.outside a (mem-∉-singleton a t xs i out))
                (pt, tt);
          distinct =
              Distinct-append xs (t ∷ []) k.distinct (refl, tt) λ a i. mem-∉-singleton a t xs i out;
        },
        Changed-mono (Changed-trans m.changed c)
            λ a o. ∉-join a (xs ++ (t ∷ [])) (t ∷ []) o (∉-split a xs (t ∷ []) o).1,
      )

  -- addtask puts a task that is not in the list behind the last one, and changes no more than the
  -- links of the tasks of the new list.
  pub addtask_lem :
      (xs : List Ptr) → IsQueue h l xs → t ∉ xs → Returns (Queued h t xs) (addtask l t h)
  addtask_lem xs k out = addtask_of xs k out (linked xs k out)
    where
      linked :
          (xs : List Ptr) → IsQueue h l xs → t ∉ xs → Returns (Behind h t xs) (link_behind l t h)
      linked xs = elim (snoc-cases xs) [
        | inl e ↦ rw e link_behind_nil
        | inr (ys, y, e) ↦ rw e (link_behind_snoc ys y)
      ]
