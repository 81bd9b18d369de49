-- ===== src/Arch/Handler.antt =====
-- The trap handler as a whole: which task goes on after a trap, and with which registers.
use Prim.Native.Nat.{bit_or, bit_and}
use mos_rust.Prelude.{
  ℕ, ◌+◌, ◌*◌, ◌^◌, ◌≤◌, ◌<◌, ◌≡◌, ◌≢◌, ◌⊎◌, refl, sym, ap, subst, inl, inr, Bool, Bool-cases, not,
  ◌∙◌, true, false, ltb, if◌then◌else◌, ◌==◌, ◌||◌, arith, [], ◌∷◌, update,
}
use mos_rust.Kernel.{u32_mod}
use mos_rust.Arch.{
  Symbol, current_tcb_ptr, sched_ready, Cpu, sp, t0, t1, s0, a0, a1, add32, minus, byte_at, step,
  run, la, lw, lbu, mv, save, save_sp, enter_isr_stack, restore, mos_trap_handler_body,
}
use mos_rust.Arch.Frame.{word_of}
use mos_rust.Arch.Context.{Frames, save-Saved, Restored, restore-Restored}
use mos_rust.Arch.Start.{Points, load_sp}

module _ (address : Symbol → ℕ) where
  -- `save_sp` writes the stack pointer to the current task's control block, if the flag is set.
  record SpSaved (tcb : ℕ) (c d : Cpu) : Type 0 where
    stack : d.regs sp ≡ c.regs sp
    others : (a : ℕ) → a ≢ tcb → d.mem a ≡ c.mem a
    written :
        d.mem tcb ≡ (if byte_at c.mem (address sched_ready) == 0 then c.mem tcb else c.regs sp)

  save_sp-SpSaved :
      (c : Cpu) (tcb : ℕ)
      → address current_tcb_ptr < u32_mod
      → address sched_ready < u32_mod
      → c.mem (address current_tcb_ptr) ≡ tcb
      → tcb < u32_mod
      → SpSaved tcb c (save_sp address c)
  unfolding save_sp run step
  save_sp-SpSaved c tcb h1 h2 ptr h3 =
      let one : add32 (address current_tcb_ptr) 0 ≡ address current_tcb_ptr = omega (arith, h1) in
      let flag : add32 (address sched_ready) 0 ≡ address sched_ready = omega (arith, h2) in
      let two : add32 (c.mem (add32 (address current_tcb_ptr) 0)) 0 ≡ tcb =
        ap (λ a. add32 (c.mem a) 0) one ∙ ap (λ a. add32 a 0) ptr ∙ omega (arith, h3) in
      let b : byte_at c.mem (add32 (address sched_ready) 0) ≡ byte_at c.mem (address sched_ready) =
        ap (byte_at c.mem) flag in
      elim (Bool-cases (byte_at c.mem (address sched_ready) == 0)) [
        | inl e ↦ rw (b, e) (record { stack = refl; others = λ a h. refl; written = rw e refl })
        | inr e ↦
            rw (b, e, two)
              (record {
                stack = refl;
                others = λ a ne. ground arith;
                written = rw e (ground arith);
              })
      ]

  -- Afterwards s0 holds the frame's address, whichever stack is in use.
  enter_isr_stack-kept :
      (c : Cpu)
      → ((enter_isr_stack address c).regs s0 ≡ c.regs sp)
        × ((enter_isr_stack address c).mem ≡ c.mem)
  unfolding enter_isr_stack run step
  enter_isr_stack-kept c = elim (Bool-cases (ltb c.cause (2 ^ 31))) [
    | inl e ↦ rw e (refl, refl)
    | inr e ↦ rw e (refl, refl)
  ]

  -- The interrupted task `c` has its stack pointer above the frame, its control block at `tcb`, and
  -- neither that block's first word, the pointer to it nor the flag lies in the frame.
  pub record Placed (base tcb : ℕ) (c : Cpu) : Type 0 where
    pub top : c.regs sp ≡ base + 128
    pub fits : base + 128 < u32_mod
    pub ptr_range : address current_tcb_ptr < u32_mod
    pub flag_range : address sched_ready < u32_mod
    pub tcb_range : tcb < u32_mod
    pub pointer : c.mem (address current_tcb_ptr) ≡ tcb
    pub ptr_apart : (address current_tcb_ptr < base) ⊎ (base + 128 ≤ address current_tcb_ptr)
    pub tcb_apart : (tcb < base) ⊎ (base + 128 ≤ tcb)

  -- The state in which the handler calls the dispatch.
  abbrev pub entered : Cpu → Cpu
  entered c =
      run address (mv a1 s0 ∷ []) (enter_isr_stack address (save_sp address (save address c)))

  pub record Entered (base tcb : ℕ) (c d : Cpu) : Type 0 where
    pub here : d.regs s0 ≡ base
    pub argument : d.regs a1 ≡ base
    pub frame : Frames address base c d.mem
    pub stack :
        d.mem tcb
        ≡ (if byte_at (save address c).mem (address sched_ready) == 0 then c.mem tcb else base)

  moved :
      (c : Cpu) → run address (mv a1 s0 ∷ []) c ≡ record c { regs = update c.regs a1 (c.regs s0) }
  unfolding run step
  moved c = refl

  module _ (base tcb : ℕ) (c : Cpu) (at : Placed base tcb c) where
    entered-Entered : Entered base tcb c (entered c)
    entered-Entered =
        let s = save-Saved address base c at.top at.fits in
        let c1 = save address c in
        let ptr : c1.mem (address current_tcb_ptr) ≡ tcb = elim at.ptr_apart [
          | inl h ↦ s.below _ h ∙ at.pointer
          | inr h ↦ s.above _ h ∙ at.pointer
        ] in
        let old : c1.mem tcb ≡ c.mem tcb = elim at.tcb_apart [
          | inl h ↦ s.below _ h
          | inr h ↦ s.above _ h
        ] in
        let p = save_sp-SpSaved c1 tcb at.ptr_range at.flag_range ptr at.tcb_range in
        let c2 = save_sp address c1 in
        let (held, same) = enter_isr_stack-kept c2 in
        let c3 = enter_isr_stack address c2 in
        let base_at : c3.regs s0 ≡ base = held ∙ p.stack ∙ s.at in
        let apart : (a : ℕ) → base ≤ a → a < base + 128 → c3.mem a ≡ c1.mem a =
          λ a lo hi. ap (λ f. f a) same ∙ p.others a (ground (arith, at.tcb_apart)) in
        subst (Entered base tcb c) (sym (moved c3)) (record {
          here = base_at;
          argument = base_at;
          frame = record {
            words = λ r pos lt ne.
                apart (base + 4 * word_of r) (omega arith) (ground arith)
                ∙ s.frame.words r pos lt ne;
            epc = apart base (omega arith) (omega arith) ∙ s.frame.epc;
            status = apart (base + 124) (omega arith) (omega arith) ∙ s.frame.status;
          };
          stack =
              ap (λ f. f tcb) same
              ∙ p.written
              ∙ ap (λ v. if byte_at c1.mem (address sched_ready) == 0 then c1.mem tcb else v) s.at
              ∙ ap (λ v. if byte_at c1.mem (address sched_ready) == 0 then v else base) old;
        })

  -- `la t0, SCHED_READY; lbu t0, 0(t0)`
  abbrev pub flagged : Cpu → Cpu
  flagged d = run address (la t0 sched_ready ∷ lbu t0 0 t0 ∷ []) d

  flagged-eq :
      (d : Cpu)
      → address sched_ready < u32_mod
      → ((flagged d).regs t0 ≡ byte_at d.mem (address sched_ready))
        × ((flagged d).regs a0 ≡ d.regs a0)
        × ((flagged d).regs s0 ≡ d.regs s0)
        × ((flagged d).mem ≡ d.mem)
  unfolding run step
  flagged-eq d h =
      let flag : add32 (address sched_ready) 0 ≡ address sched_ready = omega (arith, h) in
      (ap (byte_at d.mem) flag, refl, refl, refl)

  back_to :
      (d : Cpu) → run address (mv sp s0 ∷ []) d ≡ record d { regs = update d.regs sp (d.regs s0) }
  unfolding run step
  back_to d = refl

  -- The handler's choice, from the flag and the result of the dispatch.
  abbrev pub switches : Cpu → Bool
  switches d = not (byte_at d.mem (address sched_ready) == 0 || d.regs a0 == 0)

  module _ (dispatch next : Cpu → Cpu) where
    handler-eq :
        (c : Cpu)
        → address sched_ready < u32_mod
        → let d = dispatch (entered c) in
          mos_trap_handler_body address dispatch next c
          ≡ restore address (
              if switches d
              then run address
                  (la t0 current_tcb_ptr ∷ lw t1 0 t0 ∷ lw sp 0 t1 ∷ [])
                  (next (flagged d))
              else run address (mv sp s0 ∷ []) (flagged d))
    unfolding mos_trap_handler_body
    handler-eq c h =
        let d = dispatch (entered c) in
        let (flag, result, _, _) = flagged-eq d h in
        elim (Bool-cases (byte_at d.mem (address sched_ready) == 0 || d.regs a0 == 0)) [
          | inl e ↦ rw (flag, result, e) refl
          | inr e ↦ rw (flag, result, e) refl
        ]

    -- A trap that asks for no switch, or comes before the scheduler runs: if the dispatch keeps s0
    -- and the frame, the interrupted code goes on where it was, with all its registers, and finds
    -- the memory as the dispatch left it.
    pub handler-returns :
        (base tcb : ℕ) (c : Cpu)
        → Placed base tcb c
        → let x = entered c in
          let d = dispatch x in
          let after = mos_trap_handler_body address dispatch next c in
          d.regs s0 ≡ x.regs s0
          → ((a : ℕ) → base ≤ a → a < base + 128 → d.mem a ≡ x.mem a)
          → switches d ≡ false
          → ((r : ℕ) → 0 < r → r < 32 → after.regs r ≡ c.regs r)
            × (after.epc ≡ c.epc)
            × (after.status ≡ bit_and (bit_or c.status 0x80) (minus 9))
            × (after.mem ≡ d.mem)
    handler-returns base tcb c at held kept stays =
        let x = entered c in
        let d = dispatch x in
        let n = entered-Entered base tcb c at in
        let (_, _, same_s0, same_mem) = flagged-eq d at.flag_range in
        let e : Cpu = record (flagged d) {
          regs = update (flagged d).regs sp ((flagged d).regs s0);
        } in
        let whole : mos_trap_handler_body address dispatch next c ≡ restore address e =
          handler-eq c at.flag_range
          ∙ ap
              (λ b. restore address (
                if b
                then run address (la t0 current_tcb_ptr ∷ lw t1 0 t0 ∷ lw sp 0 t1 ∷ [])
                    (next (flagged d))
                else run address (mv sp s0 ∷ []) (flagged d)))
              stays
          ∙ ap (restore address) (back_to (flagged d)) in
        let r =
          restore-Restored address base e (same_s0 ∙ held ∙ n.here) (omega (arith, at.fits)) in
        let word : (a : ℕ) → base ≤ a → a < base + 128 → e.mem a ≡ x.mem a =
          λ a lo hi. ap (λ f. f a) same_mem ∙ kept a lo hi in
        (
          λ y pos lt. ap (λ q. q.regs y) whole ∙ elim (Bool-cases (y == sp)) [
            | inl is_sp ↦
                let is : y ≡ sp = ground arith in rw is (r.top ∙ omega (arith, at.top, at.fits))
            | inr e ↦
                r.loaded y pos lt (ground arith)
                ∙ word (base + 4 * word_of y) (omega arith) (ground arith)
                ∙ n.frame.words y pos lt (ground arith)
          ],
          ap (λ q. q.epc) whole ∙ r.epc ∙ word base (omega arith) (omega arith) ∙ n.frame.epc,
          ap (λ q. q.status) whole
              ∙ r.status
              ∙ ap (λ w. bit_and (bit_or w 0x80) (minus 9))
                  (word (base + 124) (omega arith) (omega arith) ∙ n.frame.status),
          ap (λ q. q.mem) whole ∙ r.same_mem ∙ same_mem,
        )

    -- A trap that asks for a switch while the scheduler runs: the interrupted task's control block
    -- points to its frame, and the handler goes on with the frame that the block of the task
    -- chosen by `next_tcb` points to.
    pub handler-switches :
        (base tcb tcb' base' : ℕ) (c : Cpu)
        → Placed base tcb c
        → let d = dispatch (entered c) in
          let chosen = next (flagged d) in
          byte_at (save address c).mem (address sched_ready) ≢ 0
          → switches d ≡ true
          → Points address chosen tcb' base'
          → base' + 128 ≤ u32_mod
          → Frames address base c (entered c).mem
            × ((entered c).mem tcb ≡ base)
            × Restored address base' chosen.mem (mos_trap_handler_body address dispatch next c)
    handler-switches base tcb tcb' base' c at runs goes p fits =
        let d = dispatch (entered c) in
        let n = entered-Entered base tcb c at in
        let chosen = next (flagged d) in
        let (at_sp, same) = load_sp address chosen tcb' base' p in
        let loaded = run address (la t0 current_tcb_ptr ∷ lw t1 0 t0 ∷ lw sp 0 t1 ∷ []) chosen in
        let whole : mos_trap_handler_body address dispatch next c ≡ restore address loaded =
          handler-eq c at.flag_range
          ∙ ap
              (λ b. restore address (if b then loaded else run address (mv sp s0 ∷ []) (flagged d)))
              goes in
        (
          n.frame,
          n.stack ∙ ground arith,
          subst (Restored address base' chosen.mem) (sym whole) (
              subst (λ m. Restored address base' m (restore address loaded)) same
                (restore-Restored address base' loaded at_sp fits)),
        )
