-- ===== src/Arch/Start.antt =====
-- The start of the first task, `start_first_task` of core/src/arch/riscv.rs, on the frame that
-- `init_stack_frame` of core/src/kernel/tcb.rs made.
use Prim.Native.Nat.{bit_or, bit_and}
use mos_rust.Prelude.{
  ℕ, ◌+◌, ◌-◌, ◌*◌, ◌≤◌, ◌<◌, ◌≡◌, refl, ap, subst, inl, inr, Bool-cases, ◌∙◌, List, length, get_or,
  if◌then◌else◌, ◌==◌, arith, Run, [], ◌∷◌,
}
use mos_rust.Kernel.{u32_mod}
use mos_rust.Kernel.Stack.{context_words}
use mos_rust.Kernel.Stack.Frame.{frame_word, Framed}
use mos_rust.Arch.{
  Symbol, current_tcb_ptr, Cpu, sp, t0, t1, add32, minus, step, run, la, lw, restore,
  start_first_task,
}
use mos_rust.Arch.Frame.{word_of}
use mos_rust.Arch.Context.{Restored, restore-Restored}

module _ (address : Symbol → ℕ) where
  -- The current task's control block lies at `tcb`, and its first field, the stack pointer, is
  -- `base`.
  pub record Points (c : Cpu) (tcb base : ℕ) : Type 0 where
    pub in_range : address current_tcb_ptr < u32_mod
    pub tcb_range : tcb < u32_mod
    pub pointer : c.mem (address current_tcb_ptr) ≡ tcb
    pub stack : c.mem tcb ≡ base

  -- `la t0, CURRENT_TCB_PTR; lw t1, 0(t0); lw sp, 0(t1)`
  pub load_sp :
      (c : Cpu) (tcb base : ℕ)
      → Points c tcb base
      → let d = run address (la t0 current_tcb_ptr ∷ lw t1 0 t0 ∷ lw sp 0 t1 ∷ []) c in
        (d.regs sp ≡ base) × (d.mem ≡ c.mem)
  unfolding run step
  load_sp c tcb base p =
      let one : add32 (address current_tcb_ptr) 0 ≡ address current_tcb_ptr =
        omega (arith, p.in_range) in
      let two : add32 tcb 0 ≡ tcb = omega (arith, p.tcb_range) in
      (
        ap (λ a. c.mem (add32 (c.mem a) 0)) one
            ∙ ap (λ a. c.mem (add32 a 0)) p.pointer
            ∙ ap c.mem two
            ∙ p.stack,
        refl,
      )

  pub start_first_task-Restored :
      (c : Cpu) (tcb base : ℕ)
      → Points c tcb base
      → base + 128 ≤ u32_mod
      → Restored address base c.mem (start_first_task address c)
  unfolding start_first_task
  start_first_task-Restored c tcb base p fits =
      let (at, same) = load_sp c tcb base p in
      let c1 : Cpu = run address (la t0 current_tcb_ptr ∷ lw t1 0 t0 ∷ lw sp 0 t1 ∷ []) c in
      subst (λ m. Restored address base m (restore address c1)) same
        (restore-Restored address base c1 at fits)

  -- A task whose stack holds its first frame starts at its entry with its argument in a0, returns
  -- to the exit function, has its whole stack above the frame free, zeros in all other registers,
  -- and takes interrupts from its first instruction on.
  pub start_first_task-Framed :
      {r : Run (List ℕ × ℕ)} (c : Cpu) (tcb base entry argv exit_fn : ℕ) (stack : List ℕ)
      (f : Framed stack entry argv exit_fn r)
      → Points c tcb base
      → base + 128 < u32_mod
      → ((o : ℕ)
          → o < context_words
          → c.mem (base + 4 * o) ≡ get_or f.after (length stack - context_words + o) 0)
      → let d = start_first_task address c in
        (d.epc ≡ entry)
        × ((n : ℕ)
            → 0 < n
            → n < 32
            → d.regs n ≡ (
                if n == 1
                then exit_fn
                else if n == 10
                then argv
                else if n == 2
                then base + 128
                else 0))
        × (d.status ≡ 0x1880)
  start_first_task-Framed c tcb base entry argv exit_fn stack f p fits words =
      let r = start_first_task-Restored c tcb base p (omega arith) in
      let at : (o : ℕ)
          → o < context_words
          → c.mem (base + 4 * o) ≡ frame_word entry argv exit_fn o =
        λ o lt. words o lt ∙ f.frame o lt in
      let first : c.mem base ≡ entry = ap c.mem (omega arith) ∙ at 0 (omega arith) in
      let last : c.mem (base + 124) ≡ 0x1888 = at 31 (omega arith) in
      (
        r.epc ∙ first,
        λ n pos lt. elim (Bool-cases (n == 2)) [
          | inl e ↦ let is : n ≡ 2 = ground arith in rw is (r.top ∙ omega arith)
          | inr e ↦ r.loaded n pos lt (ground arith) ∙ at (word_of n) (ground arith) ∙ ground arith
        ],
        r.status ∙ ap (λ w. bit_and (bit_or w 0x80) (minus 9)) last,
      )
