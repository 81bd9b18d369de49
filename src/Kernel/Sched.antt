-- ===== src/Kernel/Sched.antt =====
-- The scheduler, core/src/kernel/sched.rs, and the part of the trap handler of
-- core/src/arch/riscv.rs that decides whether `next_tcb` runs.
pub mod Wake
pub mod Requeue
pub mod Switch
pub mod Rotate
use mos_rust.Config.{time_slice_ticks}
use mos_rust.Prelude.{
  ℕ, zero, suc, ◌+◌, ◌-◌, ◌%◌, ◌^◌, List, Bool, true, false, Option, none, some, not, ◌||◌, ltb,
  leb, ◌==◌, if◌then◌else◌, length, get_elem?, Run, ok, stop, panicked, ◌>>=◌,
}
use mos_rust.TaskList.{HeaplessVec, TaskList, front, is_empty}
use mos_rust.Kernel.{
  TaskStatus, terminated, ready, running, blocked, status_eq, Kernel, u32_mod, set_status,
  set_time_slice, set_wake_point, current_slot, current_tid, ready_remove, ready_insert,
  sleeping_remove,
}

module _ ⦃vec : HeaplessVec⦄ where
  -- The body of the `while` where the sleeper `tid` has expired.
  pub wake : Kernel → ℕ → Kernel
  wake k tid =
      let k1 = sleeping_remove k tid in
      let k2 = set_wake_point (set_status k1 tid ready) tid 0 in
      ready_insert k2 tid (k2.tcbs tid).priority

  -- The `while` of `wake_up_sleepers`, from index `i`. Each round takes an entry off or goes to the
  -- next, so the length of the list at the start is fuel enough.
  pub wake_loop : ℕ → ℕ → ℕ → Kernel → Kernel
  wake_loop zero now i k = k
  wake_loop (suc fuel) now i k = elim (get_elem? k.sleeping_list i) [
    | none ↦ k
    | some tid ↦
        let woken = wake_loop fuel now i (wake k tid) in
        let kept = wake_loop fuel now (i + 1) k in
        if leb (k.tcbs tid).wake_point now then woken else kept
  ]

  pub wake_up_sleepers : Kernel → Kernel
  unfolding wake_loop wake
  wake_up_sleepers k = wake_loop (length k.sleeping_list) k.os_ticks 0 k

  -- What `next_tcb` does with the task that ran.
  pub requeue : Kernel → ℕ → Kernel
  requeue k cr =
      let k1 = set_status (set_time_slice k cr time_slice_ticks) cr ready in
      let k2 = ready_remove k1 cr in
      if status_eq (k.tcbs cr).status terminated || status_eq (k.tcbs cr).status blocked
      then ready_remove k cr
      else if (k.tcbs cr).time_slice == 0 || status_eq (k.tcbs cr).status running
      then ready_insert k2 cr (k2.tcbs cr).priority
      else k

  -- The choice of the next task: the head of the ready list.
  pub switch : Kernel → ℕ → Run Kernel
  switch k cr = elim (front k.ready_list) [
    | none ↦ stop panicked
    | some st ↦
        let k1 = if status_eq (k.tcbs cr).status running then set_status k cr ready else k in
        ok (if st == cr then k else record (set_status k1 st running) { current = some st })
  ]

  pub next_tcb : Kernel → Run Kernel
  next_tcb k = do let k1 = wake_up_sleepers k; cr ← current_tid k1; switch (requeue k1 cr) cr

  -- `ecall`: the trap handler calls `next_tcb` once the scheduler runs, and nothing before that.
  unfoldable pub yield_task : Kernel → Run Kernel
  yield_task k = if k.sched_ready then next_tcb k else ok k

  -- The timer interrupt; the result tells the trap handler to switch.
  unfoldable pub systick_tick : Kernel → Run (ℕ × Kernel)
  unfolding is_empty
  systick_tick k =
      let k1 = record k { os_ticks = (k.os_ticks + 1) % u32_mod } in
      let ticked : Run (ℕ × Kernel) = do
        cr ← current_tid k1
        let slice = (k1.tcbs cr).time_slice
        let k2 = if ltb 0 slice then set_time_slice k1 cr (slice - 1) else k1
        ok ((if (k2.tcbs cr).time_slice == 0 || not (is_empty k2.sleeping_list) then 1 else 0), k2)
      in if k.sched_ready then ticked else ok (0, k)
