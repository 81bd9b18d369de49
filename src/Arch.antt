-- ===== src/Arch.antt =====
-- The assembly of core/src/arch/riscv.rs: the entry to the trap handler, the way out of it into the
-- task that runs next, and the start of the first task, over a model of the instructions they use.
pub mod Frame
pub mod Context
pub mod Start
pub mod Handler
use Prim.Native.Nat.{bit_or, bit_and}
use mos_rust.Prelude.{
  ℕ, zero, suc, ◌+◌, ◌-◌, ◌*◌, ◌/◌, ◌%◌, ◌^◌, List, [], ◌∷◌, ltb, ◌==◌, ◌||◌, if◌then◌else◌, update,
}
use mos_rust.Kernel.{u32_mod}

pub data Csr : Type 0 where
  mstatus mepc mcause mtvec : Csr

pub data Symbol : Type 0 where
  current_tcb_ptr sched_ready isr_stack_top mos_trap_handler : Symbol

-- The registers by number, the memory by the address of a word.
pub record Cpu : Type 0 where
  pub regs : ℕ → ℕ
  pub mem : ℕ → ℕ
  pub status : ℕ
  pub epc : ℕ
  pub cause : ℕ
  pub tvec : ℕ

-- The registers that the code also calls by name.
abbrev pub sp : ℕ
sp = 2

abbrev pub t0 : ℕ
t0 = 5

abbrev pub t1 : ℕ
t1 = 6

abbrev pub s0 : ℕ
s0 = 8

abbrev pub a0 : ℕ
a0 = 10

abbrev pub a1 : ℕ
a1 = 11

-- Loads and stores name the register, the offset and the base register; an immediate below 0 is
-- given as 32 bits.
pub data Instr : Type 0 where
  lw lbu sw addi ori andi : ℕ → ℕ → ℕ → Instr
  mv : ℕ → ℕ → Instr
  csrr : ℕ → Csr → Instr
  csrw : Csr → ℕ → Instr
  la : ℕ → Symbol → Instr

abbrev pub add32 : ℕ → ℕ → ℕ
add32 a b = (a + b) % u32_mod

abbrev pub minus : ℕ → ℕ
minus n = u32_mod - n

abbrev pub write_reg : ℕ → ℕ → Cpu → Cpu
write_reg rd v c = record c { regs = update c.regs rd v }

abbrev pub read_csr : Csr → Cpu → ℕ
read_csr mstatus c = c.status
read_csr mepc c = c.epc
read_csr mcause c = c.cause
read_csr mtvec c = c.tvec

abbrev pub write_csr : Csr → ℕ → Cpu → Cpu
write_csr mstatus v c = record c { status = v }
write_csr mepc v c = record c { epc = v }
write_csr mcause v c = record c { cause = v }
write_csr mtvec v c = record c { tvec = v }

-- The byte at an address, in the word that holds it.
abbrev pub byte_at : (ℕ → ℕ) → ℕ → ℕ
byte_at mem a = mem (a - a % 4) / 256 ^ (a % 4) % 256

-- The prologue and the way out, as they stand. The registers 1 and 3 to 31 lie in the words 1 to 30.
abbrev pub save_regs : List Instr
save_regs =
    sw 1 4 sp
    ∷ sw 3 8 sp
    ∷ sw 4 12 sp
    ∷ sw 5 16 sp
    ∷ sw 6 20 sp
    ∷ sw 7 24 sp
    ∷ sw 8 28 sp
    ∷ sw 9 32 sp
    ∷ sw 10 36 sp
    ∷ sw 11 40 sp
    ∷ sw 12 44 sp
    ∷ sw 13 48 sp
    ∷ sw 14 52 sp
    ∷ sw 15 56 sp
    ∷ sw 16 60 sp
    ∷ sw 17 64 sp
    ∷ sw 18 68 sp
    ∷ sw 19 72 sp
    ∷ sw 20 76 sp
    ∷ sw 21 80 sp
    ∷ sw 22 84 sp
    ∷ sw 23 88 sp
    ∷ sw 24 92 sp
    ∷ sw 25 96 sp
    ∷ sw 26 100 sp
    ∷ sw 27 104 sp
    ∷ sw 28 108 sp
    ∷ sw 29 112 sp
    ∷ sw 30 116 sp
    ∷ sw 31 120 sp
    ∷ []

abbrev pub save_csrs : List Instr
save_csrs = csrr t0 mepc ∷ sw t0 0 sp ∷ csrr t0 mstatus ∷ sw t0 124 sp ∷ []

abbrev pub restore_csrs : List Instr
restore_csrs =
    lw t0 124 sp
    ∷ ori t0 t0 0x80
    ∷ andi t0 t0 (minus 9)
    ∷ csrw mstatus t0
    ∷ lw t0 0 sp
    ∷ csrw mepc t0
    ∷ []

abbrev pub restore_regs : List Instr
restore_regs =
    lw 1 4 sp
    ∷ lw 3 8 sp
    ∷ lw 4 12 sp
    ∷ lw 5 16 sp
    ∷ lw 6 20 sp
    ∷ lw 7 24 sp
    ∷ lw 8 28 sp
    ∷ lw 9 32 sp
    ∷ lw 10 36 sp
    ∷ lw 11 40 sp
    ∷ lw 12 44 sp
    ∷ lw 13 48 sp
    ∷ lw 14 52 sp
    ∷ lw 15 56 sp
    ∷ lw 16 60 sp
    ∷ lw 17 64 sp
    ∷ lw 18 68 sp
    ∷ lw 19 72 sp
    ∷ lw 20 76 sp
    ∷ lw 21 80 sp
    ∷ lw 22 84 sp
    ∷ lw 23 88 sp
    ∷ lw 24 92 sp
    ∷ lw 25 96 sp
    ∷ lw 26 100 sp
    ∷ lw 27 104 sp
    ∷ lw 28 108 sp
    ∷ lw 29 112 sp
    ∷ lw 30 116 sp
    ∷ lw 31 120 sp
    ∷ []

-- `address` is where the linker put a symbol.
module _ (address : Symbol → ℕ) where
  unfoldable pub step : Instr → Cpu → Cpu
  step (lw rd o rs) c = write_reg rd (c.mem (add32 (c.regs rs) o)) c
  step (lbu rd o rs) c = write_reg rd (byte_at c.mem (add32 (c.regs rs) o)) c
  step (sw rs2 o rs) c = record c { mem = update c.mem (add32 (c.regs rs) o) (c.regs rs2) }
  step (addi rd rs i) c = write_reg rd (add32 (c.regs rs) i) c
  step (ori rd rs i) c = write_reg rd (bit_or (c.regs rs) i) c
  step (andi rd rs i) c = write_reg rd (bit_and (c.regs rs) i) c
  step (mv rd rs) c = write_reg rd (c.regs rs) c
  step (csrr rd s) c = write_reg rd (read_csr s c) c
  step (csrw s rs) c = write_csr s (c.regs rs) c
  step (la rd s) c = write_reg rd (address s) c

  unfoldable pub run : List Instr → Cpu → Cpu
  unfolding step
  run [] c = c
  run (i ∷ is) c = run is (step i c)

  -- The way into a task from its frame; the `mret` at its end goes to `epc`.
  unfoldable pub restore : Cpu → Cpu
  restore c = run (addi sp sp 128 ∷ []) (run restore_regs (run restore_csrs c))

  unfoldable pub start_first_task : Cpu → Cpu
  start_first_task c = restore (run (la t0 current_tcb_ptr ∷ lw t1 0 t0 ∷ lw sp 0 t1 ∷ []) c)

  -- `andi t0, t0, -4` clears the mode bits.
  unfoldable pub install_trap_handler : ℕ → Cpu → Cpu
  install_trap_handler isr_stack c =
      let c1 = record c { mem = update c.mem (address isr_stack_top) (add32 isr_stack 8192) } in
      run (la t0 mos_trap_handler ∷ andi t0 t0 (minus 4) ∷ csrw mtvec t0 ∷ []) c1

  -- The way into the handler, up to the frame: the registers, then the two status words.
  unfoldable pub save : Cpu → Cpu
  save c = run save_csrs (run save_regs (run (addi sp sp (minus 128) ∷ []) c))

  -- Once the scheduler runs, the task's control block gets its stack pointer.
  unfoldable pub save_sp : Cpu → Cpu
  save_sp c =
      let c1 = run (la t0 sched_ready ∷ lbu t0 0 t0 ∷ []) c in
      let c2 = run (la t0 current_tcb_ptr ∷ lw t1 0 t0 ∷ sw sp 0 t1 ∷ []) c1 in
      if c1.regs t0 == 0 then c1 else c2

  -- An interrupt is handled on a stack of its own.
  unfoldable pub enter_isr_stack : Cpu → Cpu
  enter_isr_stack c =
      let c1 = run (mv s0 sp ∷ csrr a0 mcause ∷ []) c in
      let c2 = run (la t0 isr_stack_top ∷ lw sp 0 t0 ∷ []) c1 in
      if ltb (c1.regs a0) (2 ^ 31) then c1 else c2

  -- `dispatch` and `next` are what the compiled `_mos_trap_dispatch` and `next_tcb` do to the
  -- machine.
  module _ (dispatch next : Cpu → Cpu) where
    unfoldable pub mos_trap_handler_body : Cpu → Cpu
    mos_trap_handler_body c =
        let c1 = enter_isr_stack (save_sp (save c)) in
        let c2 = dispatch (run (mv a1 s0 ∷ []) c1) in
        let c3 = run (la t0 sched_ready ∷ lbu t0 0 t0 ∷ []) c2 in
        let switched = run (la t0 current_tcb_ptr ∷ lw t1 0 t0 ∷ lw sp 0 t1 ∷ []) (next c3) in
        let stays = run (mv sp s0 ∷ []) c3 in
        restore (if c3.regs t0 == 0 || c3.regs a0 == 0 then stays else switched)
