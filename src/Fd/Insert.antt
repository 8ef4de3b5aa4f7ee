-- ===== src/Fd/Insert.antt =====
-- taskdelay of libtask/fd.c keeps the sleeping tasks in the order in which they wake.
use mathlib.Core.Option
use libabhi.Base.{
  ℕ, ◌≡◌, ◌≢◌, refl, sym, ap, ◌∙◌, none, some, List, [], ◌∷◌, ◌++◌, arith, inl, inr, ◌==◌,
  Bool-cases, ◌∈◌, ◌∉◌, ∉-split, ∉-join, ∉-sym, ∉-ne, ne-of-mem, mem-∉-singleton, last_or,
  last_or-append, head_or, head_or-append, snoc-cases, Distinct, Distinct-append, Distinct-split,
  Distinct-last, Apart-sym, Returns, returns, Returns-bind, Returns-mono,
}
use libabhi.Tasks.{Ptr, null, Heap, Tasklist, write, modify, set_next}
use libabhi.Tasks.Chain.{
  Seg, Seg-split, Seg-append, Seg-frame, Points, Points-frame, load-ok, not_null, Changed,
  Changed-trans, Changed-mono, set_next_lem, set_prev_lem, write_self, write_ne, unlinked,
}
use libabhi.Tasks.Links.{IsQueue, IsTask, IsTask-Points}
use libabhi.Sched.Ready.{state_of, state_of-Changed}
use libabhi.Fd.Sleep.{alarm}
use libabhi.Fd.{set_links, link_front, link_back, insert_behind}

-- A segment's last task is given another successor.
relink_last :
    {h : Heap} (ys : List Ptr) (y q q' : Ptr)
    → Seg h null (ys ++ (y ∷ [])) q
    → y ∉ ys
    → Returns (λ g. Seg g null (ys ++ (y ∷ [])) q' × Changed (y ∷ []) h g) (set_next y q' h)
relink_last {h} ys y q q' s out =
    let (front, back) = Seg-split h null ys (y ∷ []) q s in
    Returns-mono (set_next_lem (back.0) q') λ g (py, c). (
      Seg-append g null ys (y ∷ []) q'
          (Seg-frame null ys y front λ a i. c.outside a (mem-∉-singleton a y ys i out)) (py, tt),
      c,
    )

head_snoc : (ys : List Ptr) (y d e : Ptr) → head_or (ys ++ (y ∷ [])) d ≡ head_or (ys ++ (y ∷ [])) e
head_snoc [] y d e = refl
head_snoc (z ∷ ys) y d e = refl

module _ {h : Heap} {l : Tasklist} (r : Ptr) (back : List Ptr) where
  -- The links of the new task are those of its neighbours.
  set_links_lem :
      (front : List Ptr)
      → IsQueue h l (front ++ back)
      → IsTask h r
      → r ∉ front
      → Returns
          (λ g. Points g r (last_or front null) (head_or back null) × Changed (r ∷ []) h g)
          (set_links r (last_or front null) l h)
  unfolding set_links
  set_links_lem front = elim (snoc-cases front) [
    | inl e ↦ rw e λ k live out. Returns-bind (set_next_lem (IsTask-Points live) l.head) λ g (p, c).
        Returns-mono (set_prev_lem p null) λ g' (p', c'). (
          rw k.head_eq at p',
          Changed-mono (Changed-trans c c') λ a o. ∉-join a (r ∷ []) (r ∷ []) o o,
        )
    | inr (ys, y, e) ↦
        rw (e, last_or-append ys (y ∷ []) null)
          λ k live out.
            let (s, b) = Seg-split h null (ys ++ (y ∷ [])) back null k.chain in
            let (s', b') = Seg-split h null ys (y ∷ []) (head_or back null) s in
            let py = b'.0 in
            let y_out : y ∉ (r ∷ []) = ∉-sym r y (∉-split r ys (y ∷ []) out).1 in
            rw (not_null py) (
              Returns-bind (set_prev_lem (IsTask-Points live) y) λ g (p, c).
                let py' = Points-frame {g = g} py (c.outside y y_out) in
                rw (load-ok py', py'.next_eq)
                  (Returns-mono (set_next_lem p (head_or back null)) λ g' (p', c').
                    (p', Changed-mono (Changed-trans c c') λ a o. ∉-join a (r ∷ []) (r ∷ []) o o)))
  ]

  -- The neighbour in front, or the head of the list, is linked to the new task.
  link_front_lem :
      (q : Ptr) {n : Ptr} (front : List Ptr)
      → Seg h null front q
      → Distinct front
      → l.head ≡ head_or (front ++ back) null
      → Points h r (last_or front null) n
      → Returns
          (λ (l', g).
            (l'.head ≡ head_or (front ++ (r ∷ back)) null)
            × (l'.tail ≡ l.tail)
            × Seg g null front r
            × Changed front h g)
          (link_front r l h)
  unfolding link_front
  link_front_lem q front = elim (snoc-cases front) [
    | inl e ↦ rw e λ s d hd p.
        rw (load-ok p, p.prev_eq)
          (returns (refl, refl, tt, record { outside = λ a o. refl; same_data = λ a. refl }))
    | inr (ys, y, e) ↦
        rw (e, last_or-append ys (y ∷ []) null)
          λ s d hd p.
            let (s', b) = Seg-split h null ys (y ∷ []) q s in
            rw (load-ok p, p.prev_eq, not_null (b.0))
              (Returns-bind (relink_last ys y q r s (Distinct-last ys y d)) λ g (s'', c). returns (
                hd
                    ∙ head_or-append (ys ++ (y ∷ [])) back null
                    ∙ head_snoc ys y (head_or back null) r
                    ∙ sym (head_or-append (ys ++ (y ∷ [])) (r ∷ back) null),
                refl,
                s'',
                Changed-mono c λ a o. (∉-split a ys (y ∷ []) o).1,
              ))
  ]

  -- The neighbour behind, or the tail of the list, is linked to the new task.
  link_back_lem :
      (b p : Ptr)
      → Seg h b back null
      → Distinct back
      → l.tail ≡ last_or back b
      → Points h r p (head_or back null)
      → Returns
          (λ (l', g).
            (l'.head ≡ l.head) × (l'.tail ≡ last_or back r) × Seg g r back null × Changed back h g)
          (link_back r l h)
  unfolding link_back
  link_back_lem b p s d tl node = go back s d tl node
    where
      go :
          (back : List Ptr)
          → Seg h b back null
          → Distinct back
          → l.tail ≡ last_or back b
          → Points h r p (head_or back null)
          → Returns
              (λ (l', g).
                (l'.head ≡ l.head)
                × (l'.tail ≡ last_or back r)
                × Seg g r back null
                × Changed back h g)
              (link_back r l h)
      go [] s d tl node =
          rw (load-ok node, node.next_eq)
            (returns (refl, refl, tt, record { outside = λ a o. refl; same_data = λ a. refl }))
      go (y ∷ ys) (py, s) d tl node =
          rw (load-ok node, node.next_eq, not_null py)
            (Returns-bind (set_prev_lem py r) λ g (py', c). returns (
              refl,
              tl,
              (py', Seg-frame y ys null s λ a i. c.outside a (mem-∉-singleton a y ys i d.0)),
              Changed-mono c λ a o. (∉-split a (y ∷ []) ys o).0,
            ))

-- The list after the new task stands between `front` and `back`, and what else changed.
pub record Inserted (h : Heap) (r when : ℕ) (front back : List Ptr) (out : Tasklist × Heap)
    : Type 0 where
  pub queue : IsQueue (out.1) (out.0) (front ++ (r ∷ back))
  pub outside : (a : Ptr) → a ∉ (front ++ (r ∷ back)) → out.1 a ≡ h a
  pub alarm_set : alarm (out.1) r ≡ when
  pub alarms : (a : Ptr) → a ≢ r → alarm (out.1) a ≡ alarm h a
  pub states : (a : Ptr) → state_of (out.1) a ≡ state_of h a

pub alarm-unlinked :
    (h g : Heap) (a : Ptr)
    → Option.map unlinked (g a) ≡ Option.map unlinked (h a)
    → alarm g a ≡ alarm h a
alarm-unlinked h g a e = ground arith

set_alarm_lem :
    {h : Heap} {r p n : Ptr} (when : ℕ)
    → Points h r p n
    → Returns
        (λ g.
          Points g r p n
          × (alarm g r ≡ when)
          × ((a : Ptr) → a ≢ r → g a ≡ h a)
          × ((a : Ptr) → state_of g a ≡ state_of h a))
        (modify r (λ c. record c { alarmtime = when }) h)
unfolding modify
set_alarm_lem {h} {r} when p =
    let c = record p.cell { alarmtime = when } in
    rw (load-ok p) (
      returns (
        record {
          ne_null = p.ne_null;
          cell = c;
          holds = write_self h r (some c);
          prev_eq = p.prev_eq;
          next_eq = p.next_eq;
        },
        ground (arith, write_self h r (some c)),
        λ a n. write_ne h r a (some c) n,
        λ a. elim (Bool-cases (a == r)) [
          | inl e ↦
              let same : a ≡ r = ground arith in
              ap (λ x. Option.map (λ d. d._state) (write h r (some c) x)) same
              ∙ ap (Option.map (λ d. d._state)) (write_self h r (some c))
              ∙ ap (Option.map (λ d. d._state)) (sym p.holds ∙ ap h (sym same))
          | inr n ↦
              let other : a ≢ r = ground arith in
              ap (Option.map (λ d. d._state)) (write_ne h r a (some c) other)
        ],
      ))

pub insert_lem :
    (h : Heap) (l : Tasklist) (r when : ℕ) (front back : List Ptr)
    → IsQueue h l (front ++ back)
    → IsTask h r
    → r ∉ front
    → r ∉ back
    → Returns (Inserted h r when front back) (insert_behind r (last_or front null) when l h)
unfolding insert_behind
insert_lem h l r when front back k live out_f out_b =
    let (s, b) = Seg-split h null front back null k.chain in
    let (df, db, apart) = Distinct-split front back k.distinct in
    let apart' = Apart-sym front back apart in
    Returns-bind (set_links_lem r back front k live out_f) λ g₁ (p₁, c₁).
      Returns-bind (set_alarm_lem when p₁) λ g₂ (p₂, timed, same₂, states₂).
        let kept : (xs : List Ptr) → r ∉ xs → (a : Ptr) → a ∈ xs → g₂ a ≡ h a =
          λ xs o a i. same₂ a (ne-of-mem a r xs i o) ∙ c₁.outside a (mem-∉-singleton a r xs i o) in
        Returns-bind
          (link_front_lem {h = g₂} {l = l} r back (head_or back null) front
            (Seg-frame null front (head_or back null) s (kept front out_f)) df k.head_eq p₂)
          λ (l₃, g₃) (hd₃, tl₃, s₃, c₃).
            let p₃ = Points-frame {g = g₃} p₂ (c₃.outside r out_f) in
            Returns-mono
              (link_back_lem {h = g₃} {l = l₃} r back (last_or front null) (last_or front null)
                (Seg-frame (last_or front null) back null b
                  λ a i. c₃.outside a (apart' a i) ∙ kept back out_b a i)
                db (tl₃ ∙ k.tail_eq ∙ last_or-append front back null) p₃)
              λ (l₄, g₄) (hd₄, tl₄, s₄, c₄).
                let p₄ = Points-frame {g = g₄} p₃ (c₄.outside r out_b) in
                record {
                  queue = record {
                    head_eq = hd₄ ∙ hd₃;
                    tail_eq = tl₄ ∙ sym (last_or-append front (r ∷ back) null);
                    chain =
                        Seg-append g₄ null front (r ∷ back) null
                          (Seg-frame null front r s₃ λ a i. c₄.outside a (apart a i)) (p₄, s₄);
                    distinct =
                        Distinct-append front (r ∷ back) df (out_b, db)
                          λ a i.
                            ∉-join a (r ∷ []) back (mem-∉-singleton a r front i out_f) (apart a i);
                  };
                  outside = λ a o.
                      let (o₁, o₂) = ∉-split a front (r ∷ back) o in
                      let (o₃, o₄) = ∉-split a (r ∷ []) back o₂ in
                      c₄.outside a o₄ ∙ c₃.outside a o₁ ∙ same₂ a (∉-ne a r o₃) ∙ c₁.outside a o₃;
                  alarm_set =
                      alarm-unlinked g₃ g₄ r (c₄.same_data r)
                      ∙ alarm-unlinked g₂ g₃ r (c₃.same_data r)
                      ∙ timed;
                  alarms = λ a n.
                      alarm-unlinked g₃ g₄ a (c₄.same_data a)
                      ∙ alarm-unlinked g₂ g₃ a (c₃.same_data a)
                      ∙ ap (λ x. elim x [ none ↦ 0 | some c ↦ c.alarmtime ]) (same₂ a n)
                      ∙ alarm-unlinked h g₁ a (c₁.same_data a);
                  states = λ a.
                      state_of-Changed a c₄
                      ∙ state_of-Changed a c₃
                      ∙ states₂ a
                      ∙ state_of-Changed a c₁;
                }
