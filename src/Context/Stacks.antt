-- ===== src/Context/Stacks.antt =====
-- A new task's first stack frame lies in its stack, and its registers lead to taskstart:
-- libtask/context.c with taskalloc and taskstart of libtask/task.c.
use mathlib.Core.Path.{ap₂}
use libabhi.Base.{
  ℕ, ◌+◌, ◌-◌, ◌*◌, ◌/◌, ◌%◌, ◌^◌, ◌<◌, ◌≤◌, ◌≡◌, ◌≢◌, refl, ◌∙◌, [], ◌∷◌, arith, Returns, returns,
}
use libabhi.Context.{
  Memory, store, task_stack, align, sign_extend, Amd64, makecontext_amd64, X86, makecontext_x86,
}
use libabhi.Sched.Start.{pointer_words, joined_words, joined-pointer_words}

-- The frame at `sp`, of `n` bytes, lies in the stack of `size` bytes at `stk`, and the call that seems to
-- have made it was aligned.
pub record InStack (stk size sp word n : ℕ) : Type 0 where
  pub above : stk ≤ sp
  pub below : sp + n ≤ stk + size
  pub aligned : (sp + word) % 16 ≡ 0

low_word : (x : ℕ) → x < 2 ^ 32 → sign_extend x % 2 ^ 32 ≡ x
unfolding sign_extend
low_word x h = ground arith

-- What makecontext leaves for a new task on amd64.
pub record StartsAmd64 (func t stk size : ℕ) (mem : Memory) (out : Amd64 × Memory) : Type 0 where
  pub frame : InStack stk size (out.0.mc_rsp) 8 8
  pub returns_to : out.1 (out.0.mc_rsp) ≡ 0
  pub others : (p : ℕ) → p ≢ out.0.mc_rsp → out.1 p ≡ mem p
  pub enters : out.0.mc_rip ≡ func
  pub finds : joined_words (out.0.mc_rdi % 2 ^ 32) (out.0.mc_rsi % 2 ^ 32) ≡ t

-- On amd64, a new task whose stack has at least 128 bytes starts in the function given, on a stack
-- pointer that lies in its own stack and is aligned as for a call; its first two arguments, read as
-- taskstart reads them, are the address of the task, if that is below 2 ^ 48; and nothing is written but
-- the return address 0.
pub makecontext_amd64_lem :
    (func t stk size : ℕ) (mem : Memory)
    → t < 2 ^ 48
    → 128 ≤ size
    → size < 2 ^ 32
    → Returns (StartsAmd64 func t stk size mem) (
        makecontext_amd64
          (task_stack 64 stk size)
          func
          ((pointer_words t).0 ∷ (pointer_words t).1 ∷ [])
          mem)
unfolding makecontext_amd64 task_stack pointer_words
makecontext_amd64_lem func t stk size mem small room fits =
    let y = t % 2 ^ 32 in
    let x = ((t / 2 ^ 16) / 2 ^ 16) % 2 ^ 32 in
    let y_eq = low_word y (omega arith) in
    let x_eq = low_word x (omega arith) in
    let whole : (size + 2 ^ 64 - 64) % 2 ^ 64 ≡ size - 64 = omega arith in
    let joined = joined-pointer_words t (omega arith) in
    returns (record {
      frame = record { above = omega arith; below = omega arith; aligned = omega arith };
      returns_to = ground arith;
      others = λ p n. ground (arith, n);
      enters = refl;
      finds = ap₂ joined_words y_eq x_eq ∙ joined ∙ omega arith;
    })

abbrev frame : Memory → (b y x : ℕ) → Memory
frame mem b y x = store (store (store mem (b + 4) x) b y) (b - 4) 0

-- What is read behind the three stores of makecontext on x86.
frame-read :
    (mem : Memory) (b y x : ℕ)
    → 16 ≤ b
    → (frame mem b y x (b - 4 + 4) ≡ y)
      × (frame mem b y x (b - 4 + 8) ≡ x)
      × ((p : ℕ) → p ≢ b - 4 → p ≢ b - 4 + 4 → p ≢ b - 4 + 8 → frame mem b y x p ≡ mem p)
frame-read mem b y x h = (ground arith, ground arith, λ p n₀ n₁ n₂. ground (arith, n₀, n₁, n₂))

-- What makecontext leaves for a new task on x86.
pub record StartsX86 (func y x stk size : ℕ) (mem : Memory) (out : X86 × Memory) : Type 0 where
  pub frame : InStack stk size (out.0.mc_esp) 4 12
  pub returns_to : out.1 (out.0.mc_esp) ≡ 0
  pub first : out.1 (out.0.mc_esp + 4) ≡ y
  pub second : out.1 (out.0.mc_esp + 8) ≡ x
  pub others :
      (p : ℕ) → p ≢ out.0.mc_esp → p ≢ out.0.mc_esp + 4 → p ≢ out.0.mc_esp + 8 → out.1 p ≡ mem p
  pub enters : out.0.mc_eip ≡ func

-- On x86, a new task whose stack has at least 128 bytes starts in the function given, on a stack pointer
-- that lies in its own stack and is aligned as for a call; there it finds the return address 0 and its
-- two arguments, and nothing else is written.
pub makecontext_x86_lem :
    (func y x stk size : ℕ) (mem : Memory)
    → y < 2 ^ 32
    → x < 2 ^ 32
    → 128 ≤ size
    → size < 2 ^ 32
    → StartsX86 func y x stk size mem
        (makecontext_x86 (task_stack 32 stk size) func (y ∷ x ∷ []) mem)
unfolding makecontext_x86 task_stack
makecontext_x86_lem func y x stk size mem y_fits x_fits room fits =
    let whole : (size + 2 ^ 32 - 64) % 2 ^ 32 ≡ size - 64 = omega arith in
    let bottom = align (stk + 8 + (size + 2 ^ 32 - 64) % 2 ^ 32 / 4 * 4 - 2 * 4) in
    let deep : 16 ≤ bottom = omega arith in
    let y_same : y % 2 ^ 32 ≡ y = omega arith in
    let x_same : x % 2 ^ 32 ≡ x = omega arith in
    let (first, second, others) = frame-read mem bottom (y % 2 ^ 32) (x % 2 ^ 32) deep in
    record {
      frame = record { above = omega arith; below = omega arith; aligned = omega arith };
      returns_to = ground arith;
      first = first ∙ y_same;
      second = second ∙ x_same;
      others = others;
      enters = refl;
    }
