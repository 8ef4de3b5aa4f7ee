-- ===== src/Context.antt =====
-- libtask/context.c: how a new context gets its stack and its first registers, on machines whose
-- system library has no makecontext. A store of the machine is a function from addresses to words.
pub mod Stacks
use libabhi.Base.{
  ℕ, zero, suc, ◌+◌, ◌-◌, ◌*◌, ◌/◌, ◌%◌, ◌^◌, Bool, true, false, List, [], ◌∷◌, Outcome, ok, err,
  fault, Stop, ◌==◌, ltb, if◌then◌else◌, length,
}

abbrev pub Memory : Type 0
Memory = ℕ → ℕ

abbrev pub store : Memory → (address value : ℕ) → Memory
store m address value p = if p == address then value else m p

-- `uc_stack`
pub record Stack : Type 0 where
  pub ss_sp : ℕ
  pub ss_size : ℕ

-- Where taskalloc has the stack of a new task lie: `stk` follows the task, and a size_t has `bits` bits.
unfoldable pub task_stack : (bits stk stksize : ℕ) → Stack
task_stack bits stk stksize = record {
  ss_sp = stk + 8;
  ss_size = (stksize + 2 ^ bits - 64) % 2 ^ bits;
}

-- `sp = (void*)((uintptr_t)sp - (uintptr_t)sp%16);`
abbrev pub align : ℕ → ℕ
align sp = sp - sp % 16

-- A 32-bit value as an `int` in a 64-bit register.
unfoldable pub sign_extend : ℕ → ℕ
sign_extend x = let low = x % 2 ^ 32 in if ltb low (2 ^ 31) then low else low + 2 ^ 64 - 2 ^ 32

-- The registers of amd64 that makecontext sets; the others are 0.
pub record Amd64 : Type 0 where
  pub mc_rdi : ℕ
  pub mc_rsi : ℕ
  pub mc_rip : ℕ
  pub mc_rsp : ℕ

-- With another number of arguments it writes to address 0.
unfoldable pub makecontext_amd64 :
    Stack → (func : ℕ) → (arguments : List ℕ) → Memory → Outcome (Amd64 × Memory)
unfolding sign_extend
makecontext_amd64 s func (x ∷ y ∷ []) m =
    let sp = align (s.ss_sp + s.ss_size / 8 * 8 - 2 * 8) - 8 in
    ok (
      record { mc_rdi = sign_extend x; mc_rsi = sign_extend y; mc_rip = func; mc_rsp = sp },
      store m sp 0,
    )
makecontext_amd64 s func arguments m = err fault

-- `memmove(sp, &argc+1, argc*sizeof(int))`
abbrev pub store_all : Memory → (address : ℕ) → List ℕ → Memory
store_all m address [] = m
store_all m address (x ∷ xs) = store (store_all m (address + 4) xs) address (x % 2 ^ 32)

pub record X86 : Type 0 where
  pub mc_eip : ℕ
  pub mc_esp : ℕ

unfoldable pub makecontext_x86 : Stack → (func : ℕ) → (arguments : List ℕ) → Memory → X86 × Memory
makecontext_x86 s func arguments m =
    let bottom = align (s.ss_sp + s.ss_size / 4 * 4 - length arguments * 4) in
    let sp = bottom - 4 in
    (record { mc_eip = func; mc_esp = sp }, store (store_all m bottom arguments) sp 0)

pub record Power : Type 0 where
  pub pc : ℕ
  pub sp : ℕ
  pub r3 : ℕ

-- `word` is sizeof(ulong). Only the first argument is passed on.
unfoldable pub makecontext_power :
    (word : ℕ) → Stack → (func : ℕ) → (arguments : List ℕ) → Outcome Power
makecontext_power word s func [] = err fault
makecontext_power word s func (x ∷ xs) =
    ok (record { pc = func; sp = s.ss_sp + s.ss_size / word * word - 16 * word; r3 = x })

-- The first four arguments go to registers from `first` on: `for(i=0; i<4 && i<argc; i++)`.
abbrev pub set_registers : (k first : ℕ) → List ℕ → Memory → Memory
set_registers zero first xs r = r
set_registers (suc k) first [] r = r
set_registers (suc k) first (x ∷ xs) r = set_registers k (first + 1) xs (store r first (x % 2 ^ 32))

unfoldable pub makecontext_arm :
    Stack → (func : ℕ) → (arguments : List ℕ) → (gregs : Memory) → Memory
makecontext_arm s func arguments gregs =
    store (store (set_registers 4 0 arguments gregs) 13 (s.ss_sp + s.ss_size / 4 * 4)) 14 func

unfoldable pub makecontext_mips :
    Stack → (func : ℕ) → (arguments : List ℕ) → (mc_regs : Memory) → Memory
makecontext_mips s func arguments mc_regs =
    store (store (set_registers 4 4 arguments mc_regs) 29 (s.ss_sp + s.ss_size / 4 * 4)) 31 func

-- getcontext saves the registers and gives 0; it gives another value when the saved context is
-- entered again. setcontext enters the other context.
unfoldable pub swapcontext : {S : Type 0} (getcontext : S → ℕ × S) (setcontext : S → S) → S → ℕ × S
swapcontext getcontext setcontext s =
    let (first, s₁) = getcontext s in (0, if first == 0 then setcontext s₁ else s₁)
