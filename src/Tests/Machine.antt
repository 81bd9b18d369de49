-- ===== src/Tests/Machine.antt =====
-- The assembly at a concrete machine: a task with its stack at 0x4080_0000, the control blocks at
-- 0x4082_0000 and the statics at 0x4081_0000.
use mos_rust.Prelude.{
  ℕ, ◌+◌, ◌-◌, ◌*◌, ◌<◌, ◌≡◌, true, ◌/◌, inr, refl, ◌==◌, if◌then◌else◌, arith, replicate, get_or,
  List,
}
use mos_rust.Kernel.Stack.{init_stack_frame}
use mos_rust.Kernel.Stack.Frame.{Framed, init_stack_frame-Framed}
use mos_rust.Arch.{
  Symbol, current_tcb_ptr, sched_ready, isr_stack_top, mos_trap_handler, Cpu, a0, write_reg,
  byte_at, step, run, save, save_sp, enter_isr_stack, restore, start_first_task,
  mos_trap_handler_body,
}
use mos_rust.Arch.Context.{Frames, Restored, restore-save}
use mos_rust.Arch.Start.{start_first_task-Framed}
use mos_rust.Arch.Handler.{Placed, entered, switches, flagged, handler-returns, handler-switches}

abbrev linked : Symbol → ℕ
linked current_tcb_ptr = 0x4081_0000
linked sched_ready = 0x4081_0004
linked isr_stack_top = 0x4081_0008
linked mos_trap_handler = 0x4200_0000

abbrev memory : ℕ → ℕ
memory a =
    if a == 0x4081_0000
    then 0x4082_0000
    else if a == 0x4081_0004
    then 1
    else if a == 0x4081_0008
    then 0x4083_0000
    else 7

-- The machine in the task, with each register holding 100 more than its number.
abbrev in_task : Cpu
in_task = record {
  regs = λ r. if r == 2 then 0x4080_0380 else 100 + r;
  mem = memory;
  status = 0x1888;
  epc = 0x4200_1000;
  cause = 11;
  tvec = 0x4200_0000;
}

abbrev later : Cpu
later = record (save linked in_task) { regs = λ r. if r == 2 then 0x4080_0300 else 0 }

restore-save_example :
    ((r : ℕ) → 0 < r → r < 32 → (restore linked later).regs r ≡ in_task.regs r)
    × ((restore linked later).epc ≡ 0x4200_1000)
    × ((restore linked later).status ≡ 0x1880)
restore-save_example =
    restore-save linked 0x4080_0300 in_task later refl (omega arith) refl (λ a lo hi. refl)

abbrev placed : Placed linked 0x4080_0300 0x4082_0000 in_task
placed = record {
  top = refl;
  fits = omega arith;
  ptr_range = omega arith;
  flag_range = omega arith;
  tcb_range = omega arith;
  pointer = refl;
  ptr_apart = inr (omega arith);
  tcb_apart = inr (omega arith);
}

-- The dispatch counts the interrupt and asks for no switch.
abbrev quiet : Cpu → Cpu
quiet c = write_reg a0 0 c

handler-returns_example :
    ((r : ℕ)
      → 0 < r
      → r < 32
      → (mos_trap_handler_body linked quiet quiet in_task).regs r ≡ in_task.regs r)
    × ((mos_trap_handler_body linked quiet quiet in_task).epc ≡ 0x4200_1000)
    × ((mos_trap_handler_body linked quiet quiet in_task).status ≡ 0x1880)
    × ((mos_trap_handler_body linked quiet quiet in_task).mem
        ≡ (quiet (entered linked in_task)).mem)
handler-returns_example =
    handler-returns linked quiet quiet 0x4080_0300 0x4082_0000 in_task placed refl (λ a lo hi. refl)
      (ground arith)

abbrev asks : Cpu → Cpu
asks c = write_reg a0 1 c

-- The task whose control block lies at 0x4082_0100 is chosen; its frame lies at 0x4080_0700.
abbrev picks : Cpu → Cpu
picks c = record c {
  mem = λ a.
      if a == 0x4081_0000 then 0x4082_0100 else if a == 0x4082_0100 then 0x4080_0700 else c.mem a;
}

still_ready : byte_at (save linked in_task).mem 0x4081_0004 ≡ 1
unfolding save run step
still_ready = refl

asked : switches linked (asks (entered linked in_task)) ≡ true
unfolding save save_sp enter_isr_stack run step
asked = refl

handler-switches_example :
    Frames linked 0x4080_0300 in_task (entered linked in_task).mem
    × ((entered linked in_task).mem 0x4082_0000 ≡ 0x4080_0300)
    × Restored linked 0x4080_0700
        (picks (flagged linked (asks (entered linked in_task)))).mem
        (mos_trap_handler_body linked asks picks in_task)
handler-switches_example =
    handler-switches linked asks picks 0x4080_0300 0x4082_0000 0x4082_0100 0x4080_0700 in_task
      placed (λ e. absurd (omega (arith, e, still_ready))) asked
      (record { in_range = omega arith; tcb_range = omega arith; pointer = refl; stack = refl })
      (omega arith)

abbrev page : List ℕ
page = replicate 256 0

page_frame : Framed page 0x4200_0100 5 0x4200_0200 (init_stack_frame page 0x4200_0100 5 0x4200_0200)
page_frame = init_stack_frame-Framed page 0x4200_0100 5 0x4200_0200 (omega arith)

-- The page lies at 0x4080_0000, its frame in the upper 128 bytes.
abbrev at_launch : Cpu
at_launch = record in_task {
  mem = λ a.
      if a == 0x4081_0000
      then 0x4082_0000
      else if a == 0x4082_0000
      then 0x4080_0380
      else get_or page_frame.after ((a - 0x4080_0000) / 4) 0;
}

start_first_task-Framed_example :
    ((start_first_task linked at_launch).epc ≡ 0x4200_0100)
    × ((n : ℕ)
        → 0 < n
        → n < 32
        → (start_first_task linked at_launch).regs n ≡ (
            if n == 1
            then 0x4200_0200
            else if n == 10
            then 5
            else if n == 2
            then 0x4080_0400
            else 0))
    × ((start_first_task linked at_launch).status ≡ 0x1880)
start_first_task-Framed_example =
    start_first_task-Framed linked at_launch 0x4082_0000 0x4080_0380 0x4200_0100 5 0x4200_0200 page
      page_frame
      (record { in_range = omega arith; tcb_range = omega arith; pointer = refl; stack = refl })
      (omega arith)
      (λ o lt.
        let i : (0x4080_0380 + 4 * o - 0x4080_0000) / 4 ≡ 224 + o = omega arith in
        ground (arith, i))
