-- ===== src/Kernel/Task.antt =====
-- The calls of `Task`, core/src/kernel/task.rs.
pub mod Leave
pub mod Block
pub mod Delay
pub mod End
pub mod Rouse
pub mod Create
pub mod Admit
use Prim.Native.String.{String}
use text.Mathlib.Text.{◌==◌ as str_eq}
use mos_rust.Config.{task_max, time_slice_ticks}
use mos_rust.Prelude.{
  ℕ, zero, suc, ◌+◌, ◌*◌, ◌/◌, ◌%◌, List, Bool, true, false, Option, none, some, not, ◌&&◌, ltb,
  ◌==◌, any, if◌then◌else◌, update, replicate, Run, ok, stop, panicked, out_of_range, ◌>>=◌, Result,
  accepted, rejected,
}
use mos_rust.TaskList.{HeaplessVec, TaskList, front}
use mos_rust.Kernel.{
  TaskStatus, terminated, ready, running, blocked, status_eq, Tcb, Kernel, u32_mod, set_status,
  set_wake_point, current_slot, current_tid, ready_remove, blocked_remove, sleeping_remove,
  ready_insert, sleeping_insert, blocked_push, alloc_tid, free_tid,
}
use mos_rust.Kernel.Stack.{init_stack_frame, init_stack_frame_raw}
use mos_rust.Kernel.Sched.{yield_task}

abbrev pub pool_full : String
pool_full = "Task pool is full"

-- `closure_trampoline`: the stored closure is taken and run once; the result names it.
pub take_closure : Kernel → Run (Option ℕ × Kernel)
take_closure k = do
  c ← current_slot k
  ok (
    (k.tcbs c).closure,
    record k { tcbs = update k.tcbs c (record (k.tcbs c) { closure = none }) },
  )

-- `TCBS[tid]`, where `tid` comes from the caller.
abbrev checked : Kernel → ℕ → Run Tcb
checked k tid = if ltb tid task_max then ok (k.tcbs tid) else stop out_of_range

-- The `for` of `find_tid`, with `n` ids left from `tid` on.
find_scan : ℕ → ℕ → Kernel → String → Option ℕ
find_scan zero tid k name = none
find_scan (suc n) tid k name =
    if not (status_eq (k.tcbs tid).status terminated) && str_eq (k.tcbs tid).name name
    then some tid
    else find_scan n (suc tid) k name

pub find_tid : Kernel → String → Option ℕ
unfolding find_scan
find_tid k name = find_scan task_max 0 k name

module _ ⦃vec : HeaplessVec⦄ where
  -- The loop of `nop`s after it is not modelled: the task never runs again.
  pub exit_current : Kernel → Run Kernel
  exit_current k = do cr ← current_tid k; yield_task (free_tid (ready_remove k cr) cr)

  -- The end of `create`: a task of higher priority than the running one takes over at once.
  pub preempt_new : Kernel → ℕ → Run Kernel
  preempt_new k priority = elim k.current [
    | none ↦ ok k
    | some c ↦ if k.sched_ready && ltb priority (k.tcbs c).priority then yield_task k else ok k
  ]

  -- `create` once an id is allocated
  pub create_as : Kernel → ℕ → ℕ → ℕ → String → Run (Result ℕ String × Kernel)
  create_as k tid closure priority name = do
    (stack, frame) ←
        init_stack_frame (k.stacks tid) k.layout.closure_trampoline 0 k.layout.task_exit_stub
    let tcb = record (k.tcbs tid) {
      closure = some closure;
      sp = k.layout.stack_base tid + 4 * frame;
      status = ready;
      priority = priority;
      time_slice = time_slice_ticks;
      name = name;
      stack_bottom = k.layout.stack_base tid;
    }
    let k1 = record k { stacks = update k.stacks tid stack; tcbs = update k.tcbs tid tcb }
    k2 ← preempt_new (ready_insert k1 tid priority) priority
    ok (accepted tid, k2)

  pub create : Kernel → ℕ → ℕ → String → Run (Result ℕ String × Kernel)
  create k closure priority name = elim (alloc_tid k) [
    | none ↦ ok (rejected pool_full, k)
    | some (tid, k1) ↦ create_as k1 tid closure priority name
  ]

  -- `create_raw`; `block` is the address that the allocator returned for the stack. The handle is
  -- the address of the task control block, given by its index. The block is leaked either way.
  pub create_raw : Kernel → ℕ → ℕ → ℕ → String → ℕ → ℕ → Run (Result ℕ String × Kernel)
  create_raw k entry param priority name stack_size block =
      let words = replicate (stack_size / 4) 0 in
      let k0 = record k { heap = update k.heap block words } in
      elim (alloc_tid k0) [
        | none ↦ ok (rejected pool_full, k0)
        | some (tid, k1) ↦
            init_stack_frame_raw words entry param k1.layout.task_exit_stub >>= λ (stack, frame).
            let tcb = record (k1.tcbs tid) {
              sp = block + 4 * frame;
              status = ready;
              priority = priority;
              time_slice = time_slice_ticks;
              name = name;
              stack_bottom = block;
              heap_stack_base = block;
            } in
            let k2 = record k1 {
              heap = update k1.heap block stack;
              tcbs = update k1.tcbs tid tcb;
            } in
            ok (accepted tid, ready_insert k2 tid priority)
      ]

  pub block : Kernel → ℕ → Run Kernel
  block k tid = do
    tcb ← checked k tid
    let k1 = blocked_push (ready_remove (set_status k tid blocked) tid) tid
    elim tcb.status [
      | ready ↦ yield_task k1
      | running ↦ yield_task k1
      | terminated ↦ ok k
      | blocked ↦ ok k
    ]

  -- The end of `resume`, and of `up`: a woken task of higher priority takes over at once.
  pub preempt_woken : Kernel → ℕ → Run Kernel
  preempt_woken k priority = elim k.current [
    | none ↦ ok k
    | some c ↦ if ltb priority (k.tcbs c).priority then yield_task k else ok k
  ]

  pub resume : Kernel → ℕ → Run Kernel
  resume k tid = do
    tcb ← checked k tid
    let k1 = set_status (blocked_remove k tid) tid ready
    let k2 = ready_insert k1 tid (k1.tcbs tid).priority
    if not (status_eq tcb.status blocked)
        then ok k
        else if not (any (λ t. t == tid) k.blocked_list)
        then ok k
        else preempt_woken k2 (k1.tcbs tid).priority

  pub terminate : Kernel → ℕ → Run Kernel
  terminate k tid = do
    tcb ← checked k tid
    let k1 = blocked_remove (sleeping_remove (ready_remove k tid) tid) tid
    if status_eq tcb.status terminated then ok k else yield_task (free_tid k1 tid)

  -- `delay` up to and with the switch away from the task.
  pub delay : Kernel → ℕ → Run Kernel
  delay k ticks = elim ticks [
    | zero ↦ ok k
    | suc n ↦ do
      cr ← current_tid k
      let wake_time = (k.os_ticks + suc n) % u32_mod
      let k1 = set_status (set_wake_point k cr wake_time) cr blocked
      yield_task (sleeping_insert (ready_remove k1 cr) cr wake_time)
  ]
