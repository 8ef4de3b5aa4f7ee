-- ===== src/Sched/Listing.antt =====
-- The list of all tasks that taskinfo of libtask/task.c prints.
use libabhi.Base.{
  ℕ, zero, suc, ◌+◌, ◌-◌, ◌^◌, ◌<◌, ◌≤◌, ◌≡◌, refl, sym, ap, ◌∙◌, Bool, drop, true, false, none,
  some, List, [], ◌∷◌, ◌++◌, arith, ◌==◌, if◌then◌else◌, Outcome, ok, ◌>>=◌, take, get_elem?,
  length, length-append, inl, inr, Bool-cases, length-replicate, replicate,
}
use libabhi.Base.Int.{ℤ}
use libabhi.Tasks.{Ptr, Task, task_state_ready}
use libabhi.Print.{number_text, space}
use libabhi.Print.Padding.{padded}
use libabhi.Print.Room.{length-digits_loop}
use libabhi.Print.Render.{
  AreItems, Item, literal, conversion, string_of, decimal, format, render, fprint-render,
}
use libabhi.Tasks.Links.{IsTask}
use libabhi.Sched.{World}
use libabhi.Sched.Debug.{Label, extra, title, line_format, taskinfo_line, taskinfo_loop, taskinfo}
use libabhi.Sched.Ready.{load-holds}
use libabhi.Sched.Slots.{Entry, IsSlotted, read_at-some}

-- The line of the task `t`: its number, its name in twenty places, its state, and whether it runs
-- or is ready.
abbrev pub line_items : (id : ℕ) → Label → (mark : List ℕ) → List Item
line_items id l mark =
    conversion false (6 ∷ []) (decimal id)
    ∷ literal b' '
    ∷ conversion true (2 ∷ 0 ∷ []) (string_of l.name)
    ∷ literal b' '
    ∷ conversion false [] (string_of l.state)
    ∷ conversion false [] (string_of mark)
    ∷ literal 10
    ∷ []

same_format : (id : ℕ) (l : Label) (mark : List ℕ) → format (line_items id l mark) ≡ line_format
same_format id l mark = refl

length-number_text : (x : ℕ) → length (number_text 10 x) ≤ 65
unfolding number_text
length-number_text x =
    let most = length-digits_loop 64 10 x [] in
    elim (Bool-cases (x == 0)) [
      | inl e ↦ rw e (omega (arith, most))
      | inr e ↦ rw e (omega (arith, most))
    ]

length-padded_max : (left : Bool) (n : ℕ) (s : List ℕ) → length (padded left n s) ≤ n + length s
length-padded_max true n s =
    omega (
      arith,
      length-append s (replicate (n - length s) space),
      length-replicate (n - length s) space,
    )
length-padded_max false n s =
    omega (
      arith,
      length-append (replicate (n - length s) space) s,
      length-replicate (n - length s) space,
    )

mark_short : (running : Bool) (state : ℕ) → length (extra running state) ≤ 10
mark_short true state = omega arith
mark_short false state = ground arith

-- The line fits into the buffer of fprint.
line_fits :
    (id : ℕ) (l : Label) (running : Bool) (state : ℕ)
    → length l.name + length l.state ≤ 150
    → length (render (line_items id l (extra running state))) < 256
line_fits id l running state short =
    let mark = extra running state in
    let number = padded false 6 (number_text 10 id) in
    let named = padded true 20 l.name in
    let tail = padded false 0 mark ++ (10 ∷ []) in
    omega (
      arith,
      length-number_text id,
      length-padded_max false 6 (number_text 10 id),
      length-padded_max true 20 l.name,
      length-padded_max false 0 l.state,
      length-padded_max false 0 mark,
      mark_short running state,
      length-append (padded false 0 mark) (10 ∷ []),
      length-append (padded false 0 l.state) tail,
      length-append named (32 ∷ (padded false 0 l.state ++ tail)),
      length-append number (32 ∷ (named ++ (32 ∷ (padded false 0 l.state ++ tail)))),
    )

-- " (running)" for the task that runs, " (ready)" for another one that is ready.
abbrev pub mark_of : (running : Bool) → (state : ℕ) → List ℕ
mark_of true state = b' ' ∷ b'(' ∷ b'r' ∷ b'u' ∷ b'n' ∷ b'n' ∷ b'i' ∷ b'n' ∷ b'g' ∷ b')' ∷ []
mark_of false state =
    if state == task_state_ready
    then b' ' ∷ b'(' ∷ b'r' ∷ b'e' ∷ b'a' ∷ b'd' ∷ b'y' ∷ b')' ∷ []
    else []

extra-mark_of : (running : Bool) (state : ℕ) → extra running state ≡ mark_of running state
extra-mark_of true state = refl
extra-mark_of false state = refl

drop-get : (xs : List Ptr) (i t : ℕ) → get_elem? xs i ≡ some t → drop i xs ≡ t ∷ drop (i + 1) xs
drop-get [] i t e = cc
drop-get (x ∷ xs) zero t e = let here : x ≡ t = ground arith in ap (λ y. y ∷ xs) here
drop-get (x ∷ xs) (suc i) t e =
    let next : suc (i + 1) ≡ suc i + 1 = omega arith in
    drop-get xs i t e ∙ ap (λ n. t ∷ drop n (x ∷ xs)) next

small_items : (id : ℕ) (l : Label) (mark : List ℕ) → id < 2 ^ 31 → AreItems (line_items id l mark)
small_items id l mark h = (
  (omega arith, tt),
  omega arith,
  h,
  (
    omega arith,
    omega arith,
    (
      (omega arith, (omega arith, tt)),
      omega arith,
      tt,
      (
        omega arith,
        omega arith,
        (tt, omega arith, tt, (tt, omega arith, tt, (omega arith, omega arith, tt))),
      ),
    ),
  ),
)

abbrev title_items : List Item
title_items =
    literal b't'
    ∷ literal b'a'
    ∷ literal b's'
    ∷ literal b'k'
    ∷ literal b' '
    ∷ literal b'l'
    ∷ literal b'i'
    ∷ literal b's'
    ∷ literal b't'
    ∷ literal b':'
    ∷ literal 10
    ∷ []

title_are : AreItems title_items
title_are = (
  omega arith,
  omega arith,
  (
    omega arith,
    omega arith,
    (
      omega arith,
      omega arith,
      (
        omega arith,
        omega arith,
        (
          omega arith,
          omega arith,
          (
            omega arith,
            omega arith,
            (
              omega arith,
              omega arith,
              (
                omega arith,
                omega arith,
                (
                  omega arith,
                  omega arith,
                  (omega arith, omega arith, (omega arith, omega arith, tt)),
                ),
              ),
            ),
          ),
        ),
      ),
    ),
  ),
)

module _ {S : Type 0} (real_write : (fd : ℕ) → List ℕ → S → ℤ × S) (message : List ℕ)
    (f : Ptr → Label) (w : World) where
  -- What is printed of the task `t`.
  pub line : Ptr → List ℕ
  line t = elim (w.heap t) [
    | none ↦ []
    | some c ↦ render (line_items c.id (f t) (mark_of (t == w.taskrunning) c._state))
  ]

  -- The line of each task is written to the descriptor 2.
  pub write_lines : List Ptr → S → S
  write_lines [] s = s
  write_lines (t ∷ ts) s = write_lines ts ((real_write 2 (line t) s).1)

  -- The number of a task is an int, and its name and state are short.
  abbrev pub IsShort : Ptr → Type 0
  IsShort t =
      (c : Task)
      → w.heap t ≡ some c
      → (c.id < 2 ^ 31) × (length (f t).name + length (f t).state ≤ 150)

  line-holds :
      (t : Ptr) (k : IsTask w.heap t)
      → line t ≡ render (line_items k.cell.id (f t) (mark_of (t == w.taskrunning) k.cell._state))
  unfolding line
  line-holds t k = rw (line, k.holds) refl

  line_lem :
      (t : Ptr) (s : S)
      → IsTask w.heap t
      → IsShort t
      → taskinfo_line real_write message f t w s ≡ ok ((real_write 2 (line t) s).1)
  unfolding taskinfo_line
  line_lem t s k short =
      let (small, brief) = short k.cell k.holds in
      let mark = extra (t == w.taskrunning) k.cell._state in
      let items = line_items k.cell.id (f t) mark in
      let written =
        fprint-render real_write message 2 items s (small_items k.cell.id (f t) mark small)
          (line_fits k.cell.id (f t) (t == w.taskrunning) k.cell._state brief) in
      let said : List ℕ → Outcome S = λ text. ok ((real_write 2 text s).1) in
      rw (load-holds k) (
        ap (λ r. r >>= λ (n, s'). ok s') written
        ∙ ap (λ m. said (render (line_items k.cell.id (f t) m)))
            (extra-mark_of (t == w.taskrunning) k.cell._state)
        ∙ ap said (sym (line-holds t k)))

  loop_lem :
      (k i : ℕ) (s : S)
      → ((j : ℕ) → j < i + k → Entry w.heap w.alltask j)
      → ((t : Ptr) → IsShort t)
      → taskinfo_loop real_write message f k i w s ≡ ok (write_lines (take k (drop i w.alltask)) s)
  unfolding taskinfo_loop write_lines
  loop_lem zero i s entry short = refl
  loop_lem (suc k) i s entry short =
      let e = entry i (omega arith) in
      let first = drop-get w.alltask i e.task e.at in
      let s' = (real_write 2 (line e.task) s).1 in
      ap
        (λ r. r >>= λ t. (do
          s'' ← taskinfo_line real_write message f t w s
          taskinfo_loop real_write message f k (i + 1) w s''))
        (read_at-some w.alltask i e.task e.at)
      ∙ ap (λ r. r >>= taskinfo_loop real_write message f k (i + 1) w)
          (line_lem e.task s e.live (short e.task))
      ∙ loop_lem k (i + 1) s' (λ j h. entry j (omega arith)) short
      ∙ ap (λ l. ok (write_lines (take (suc k) l) s)) (sym first)

  -- When every place of the array holds a task, and names and states are short, taskinfo writes a
  -- title and then, for each task in the order of the array, one line: the number in six places,
  -- the name in twenty, the state, and " (running)" if the task runs or else " (ready)" if it is
  -- ready. It stops with no fault, and no line is cut off by the buffer of fprint.
  pub taskinfo_lem :
      (s : S)
      → IsSlotted w
      → ((t : Ptr) → IsShort t)
      → taskinfo real_write message f w s
        ≡ ok (write_lines (take w.nalltask w.alltask) ((real_write 2 title s).1))
  unfolding taskinfo
  taskinfo_lem s k short =
      let start = fprint-render real_write message 2 title_items s title_are (omega arith) in
      ap (λ r. r >>= λ (n, s'). taskinfo_loop real_write message f w.nalltask 0 w s') start
      ∙ loop_lem w.nalltask 0 ((real_write 2 title s).1) (λ j h. k.entry j (omega arith)) short
